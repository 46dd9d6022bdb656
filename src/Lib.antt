-- ===== src/Lib.antt =====
-- A model of fetchloom (src/, a Rust program that puts the exact research data a project needs
-- into its data/ folder), and proofs about it.
--
-- Glob models src/glob.rs, the patterns of `select` and `exclude`: Pattern has the types, Parse
-- `Glob::new` with `tokens` and `set`, Name `matches_name`, Path `Glob::matches`, Escape `escape`.
-- Split models src/net/download/split.rs, a large file over several streams: Board has the board
-- on which the streams meet under its lock, and History what happens when they call its operations
-- in any order.
-- Pace models src/net/pace.rs, the rate limits of a host: State has `Pace` and its operations,
-- Headers the limits that an answer states, with `retry_after` of src/net/failure.rs,
-- Admit, Tickets and Burst the requests that are let through, Learn and Windows what the answers of
-- the host teach.
-- Rate models src/net/rate.rs, the byte budget of a run: Bucket has the loop of `Rate::take`, and
-- Parse the reading of FETCHLOOM_RATE.
-- Name models src/name.rs, the names of files and datasets: Dataset has `dataset_name`, `title_name`
-- and `reference_name`, Refused `escapes`, Stored `unstorable`, `shorten` and the devices of windows,
-- Sanitize `sanitize`, Folded `fold`. The lower case of characters and texts, which the standard library defines,
-- is a parameter, and so is the platform. Edit distances are not modelled.
-- Where the files of a lock land, src/plan.rs, is modelled in Plan: Paths has `unpacked_paths`, with
-- `stem` of src/archive.rs, Expand has `expand`, and Overlap `overlapping`. What the cache says of an
-- archive is an argument, and so are the folded folders.
-- Hashing models src/cache/partial/hashing.rs, the hash of a download, which is taken by a worker or
-- beside the writes: Hasher has `Hasher` of src/digest.rs and `hash_range` of src/cache/partial.rs,
-- Pipe the queue, the worker and the calls. The hash functions are a parameter, and so is the
-- schedule: how many messages the worker takes before each call goes on.
-- Lock models data.lock: Format has `render` of src/project/lock.rs, Tokens and Canonical the fast
-- reader of src/project/lock/canonical.rs, from its quoted texts to `read`. The reader of other
-- spellings is the TOML library.
-- Archive models what may come out of an archive: Names has `Names` of src/archive/names.rs, which
-- takes the path of each entry or refuses it, and Guard has `Guard` of src/archive/guard.rs, which
-- counts entries and bytes. The tables of unicode are a parameter, also of `fold` in Name.Folded;
-- the reads, the meter, the disk and the wish to stop are arguments.
-- Failure models src/net/failure.rs: `refusal`, `gave_up`, `Retry` and `backoff`, with what the loop
-- of src/net/api.rs does with a failure. The random number
-- of `backoff` is a parameter; `refused_answer` is `refusal` with the waits that the headers of the
-- answer ask for, as Pace.Headers reads them.
-- Headers are the function from a name to its values, which the http library gives.
-- Response models src/net/headers.rs: the headers that a download reads, among them the name in
-- `disposition`. Percent decoding and the reading of UTF-8 are parameters.
-- Digest models the text of a digest in src/digest.rs. The hash functions are not modelled.
-- Units models the number and the unit that `size` of src/units.rs shows, without their text.
-- Base holds what these share: Boolean tests, lists, and text.
--
-- Text is the list of its characters. A position in a text or a list that the code keeps as an
-- index is the rest from there on. Numbers are unbounded, and an operation that the code checks or
-- saturates has its bound written out. A map is an association list. A lock is left out: an
-- operation that runs under one is a function, and the orders in which several tasks call them
-- are the steps of a relation. Clock readings are arguments.
-- The loops of `matches_name` and `tokens` run on fuel: the first has as many rounds as the product
-- of the lengths of its arguments, each counted with one more, the second as many as there are
-- characters; the results for both say that no run is cut short. The loops of the lock's reader and
-- of `parameters` have as many rounds as the text has characters, and one more: each round takes at
-- least one. The retries of a request are steps of a relation, without fuel.
--
-- Not modelled: the network, the file system, the terminal, the sources' own web interfaces, and
-- the libraries that the program calls.
pub mod Base
pub mod Glob
pub mod Split
pub mod Pace
pub mod Rate
pub mod Name
pub mod Plan
pub mod Digest
pub mod Units
pub mod Hashing
pub mod Archive
pub mod Failure
pub mod Response
pub mod Lock
