-- ===== src/Split/Tests.antt =====
-- src/net/download/split.rs: runs of the board as in its unit tests, and the theorems at inputs.
use fetchloom.Base.{◌+◌, ◌≡◌, ◌≢◌, refl, true, List, [], ◌∷◌, none, some, arith}
use fetchloom.Split.Board.{Board, Range, new, assign, deliver, give_back, share, left, finished}
use fetchloom.Split.Board.Valid.{IsValid}
use fetchloom.Split.Board.Keeps.{new-IsValid}
use fetchloom.Split.Board.Measure.{holds, pending, of_ranges}
use fetchloom.Split.Board.Asks.{Answer, assign-Answer}
use fetchloom.Split.Board.History.{
  AreGaps, Step, asks, brings, stops, Run, begun, then_step, of_log, Run-IsValid, Run-each_byte,
  Run-finished,
}
use fetchloom.Split.Board.Others.{caller, Step-other}

abbrev whole : List Range
whole = (0, 100) ∷ []

first_half : (assign (new whole) 1 10).0 ≡ some (50, 100)
unfolding assign new
first_half = refl

abbrev two_streams : Board
two_streams = (assign (new whole) 1 10).1

delivers : (deliver two_streams 1 30).0 ≡ (50, 30)
unfolding deliver assign new
delivers = refl

no_half_left : (assign (deliver two_streams 1 30).1 3 30).0 ≡ none
unfolding deliver assign new
no_half_left = refl

grows_back : share (give_back two_streams 1) 0 ≡ share (new whole) 0
unfolding share give_back assign new
grows_back = refl

whole-AreGaps : AreGaps whole
whole-AreGaps = record { hold = (omega arith, tt); ordered = (tt, tt) }

whole-IsValid : IsValid (new whole)
whole-IsValid = new-IsValid whole whole-AreGaps.hold whole-AreGaps.ordered

left_of_new_stream : left (new whole) 1 ≡ 0
unfolding left new
left_of_new_stream = refl

abbrev one_asked : Run (new whole) [] two_streams
one_asked = then_step begun (asks 1 10 left_of_new_stream)

two_streams-IsValid : IsValid two_streams
two_streams-IsValid = Run-IsValid whole-AreGaps one_asked

Run-IsValid_example : IsValid two_streams
Run-IsValid_example = Run-IsValid whole-AreGaps one_asked

Run-each_byte_example :
    pending (holds 70) two_streams + of_log (holds 70) [] ≡ of_ranges (holds 70) whole
Run-each_byte_example = Run-each_byte 70 whole-AreGaps one_asked

abbrev all_sent : Run (new whole) ((deliver (new whole) 0 100).0 ∷ []) (deliver (new whole) 0 100).1
all_sent = then_step begun (brings 0 100)

all_sent-finished : finished (deliver (new whole) 0 100).1 ≡ true
unfolding finished deliver new
all_sent-finished = refl

Run-finished_example :
    of_log (holds 70) ((deliver (new whole) 0 100).0 ∷ []) ≡ of_ranges (holds 70) whole
Run-finished_example = Run-finished 70 whole-AreGaps all_sent all_sent-finished

assign-Answer_example : Answer (new whole) (new whole).free 10 (assign (new whole) 1 10).0
assign-Answer_example = assign-Answer (new whole) 1 10 whole-IsValid

abbrev stream_stops : Step two_streams [] (give_back two_streams 1)
stream_stops = stops 1

not_caller : caller stream_stops ≢ 2
unfolding caller
not_caller = omega arith

left_of_third : left two_streams 2 ≡ 0
unfolding left assign new
left_of_third = refl

Step-other_example : share (give_back two_streams 1) 2 ≡ share two_streams 2
Step-other_example = Step-other 2 stream_stops two_streams-IsValid not_caller left_of_third
