-- ===== src/Tests/PacerTests.antt =====
-- stream/Pacer.cpp, at concrete inputs.
use pothos_blocks.Shared.{ℕ, ◌*◌, ◌≡◌, refl, arith, false, List, [], ◌∷◌, length}
use pothos_blocks.Stream.Pacer.{
  Rates, Pacer, Waiting, activate, works, work, forward, count_delta, Paced, works-Paced,
}

-- A rate is the nanoseconds of one element.
abbrev periods : Rates
periods = record { Rate = ℕ; one = 1000000000; expected_time = λ n r. n * r; rate_of = λ n t. t }

abbrev nothing_waiting : Waiting ℕ
nothing_waiting = record { messages = []; elements = 0 }

-- Ten nanoseconds for one, from the time 100 on.
abbrev slow : Pacer periods
slow = record {
  rate = 10;
  send_label = false;
  actual_rate = 0;
  start_time = 0;
  current_count = 5;
  start_count = 0;
}

abbrev visits : List (ℕ × List ℕ × ℕ)
visits = (101, 7 ∷ [], 3) ∷ ((120, [], 2) ∷ ((141, [], 1) ∷ []))

-- The second call only sleeps.
two_posts : length (works periods visits nothing_waiting (activate periods 100 slow)) ≡ 2
unfolding works work forward count_delta activate
two_posts = refl

works-Paced_example :
    Paced periods 10 100 0 (works periods visits nothing_waiting (activate periods 100 slow))
works-Paced_example = works-Paced periods 100 visits nothing_waiting slow (omega arith)
