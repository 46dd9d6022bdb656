-- ===== src/Failure/TooLong.antt =====
-- A host that asks for a long wait.
use fetchloom.Base.{ℕ, ◌<◌, ◌≡◌, ap, ◌∙◌, Bool, ◌||◌, Option, none, some, arith, leb, if_both}
use fetchloom.Base.Text.{Text}
use fetchloom.Pace.State.{longest}
use fetchloom.Pace.Headers.{Headers, retry_after}
use fetchloom.Pace.Headers.Asked.{limits-used_up}
use fetchloom.Failure.{
  attempts, most_tries, longest_wait, Kind, network_rate_limited, transient, reason_of, refusal,
  refused_answer, Retry, Answer, over, try_after, backoff, wait, handle,
}
use fetchloom.Failure.Answers.{gave_up-reason_of}

-- A 429 whose limits reset too late.
refusal-too_long :
    (host : Text) (w : ℕ) (retry_after : Option ℕ) (own : Option Kind)
    → longest < w
    → refusal host 429 (some w) retry_after own ≡ transient (reason_of host 429) (some w)
unfolding refusal
refusal-too_long host w retry_after own h = ground (arith, h)

module _ (random : ℕ → ℕ) where
  backoff-too_long : (attempt w : ℕ) → longest_wait < w → backoff random attempt (some w) ≡ none
  unfolding backoff
  backoff-too_long attempt w h = ground (arith, h)

  wait-too_long :
      (r : Retry) (host : Text) (w : ℕ) (stopped : Bool)
      → longest_wait < w
      → (wait random r (reason_of host 429) (some w) stopped).1 ≡ over network_rate_limited
  unfolding wait
  wait-too_long r host w stopped h =
      if_both {A = Retry × Answer} (λ x. x.1 ≡ over network_rate_limited)
        (leb attempts r.attempt || leb most_tries r.tries) _ _
        (ap over (gave_up-reason_of host 429 (omega arith)))
        (ap (λ o. (try_after random r stopped o).1) (backoff-too_long r.attempt w h))

  -- However many tries were made, a 429 that asks for more than two minutes ends the request with the
  -- error of a rate limit, whatever else its headers say.
  pub handle-refused_answer :
      (http_date : Text → Option ℕ) (host : Text) (headers : Headers) (now later last asked : ℕ)
      (own : Option Kind) (r : Retry) (stopped : Bool)
      → retry_after http_date headers later ≡ some asked
      → longest < asked
      → (handle random r
          (refused_answer http_date host 429 headers (now, later, last) own)
          stopped).1
        ≡ over network_rate_limited
  unfolding handle refused_answer
  handle-refused_answer http_date host headers now later last asked own r stopped h long =
      let u = (limits-used_up http_date headers now later asked h).0 in
      ap
        (λ o.
          (handle random r (refusal host 429 o (retry_after http_date headers last) own) stopped).1)
        u.1
      ∙ ap (λ f. (handle random r f stopped).1)
          (refusal-too_long host u.0 (retry_after http_date headers last) own
            (omega (arith, u.2, long)))
      ∙ wait-too_long r host u.0 stopped (omega (arith, u.2, long))
