-- ===== src/Tests/PlanTests.antt =====
-- The random test plans of testers/FeederSource.cpp, at concrete inputs.
use native.Mathlib.Nat.{mod-lt}
use pothos_blocks.Shared.{
  ℕ, ◌+◌, ◌-◌, ◌%◌, ◌≤◌, ◌≡◌, ◌↔◌, refl, arith, true, false, List, [], ◌++◌, none, some, length,
  replicate, set, returns, sum, length-replicate, length-set, ==_iff, ◌==◌,
}
use pothos_blocks.Shared.Int.{pos}
use pothos_blocks.Testers.CollectorSink.{Data}
use pothos_blocks.Testers.CollectorSink.Verify.{Plan, checks, verify_test_plan}
use pothos_blocks.Testers.CollectorSink.Checks.{Ok}
use pothos_blocks.Testers.FeederSource.{FeederSource}
use pothos_blocks.Testers.FeederSource.Collect.{waiting, steps, connected}
use pothos_blocks.Testers.FeederSource.TestPlan.{feed_test_plan}
use pothos_blocks.Testers.FeederSource.TestPlan.Random.{as_char, Draws, Settings}
use pothos_blocks.Testers.FeederSource.TestPlan.Filling.{All, Laws}
use pothos_blocks.Testers.FeederSource.TestPlan.Counts.{IsMultiple}
use pothos_blocks.Testers.FeederSource.TestPlan.Buffering.{Sizes, AllButLast, Usable, counts}
use pothos_blocks.Testers.FeederSource.TestPlan.Buffers.{Filled, element_kind, make_some}
use pothos_blocks.Testers.FeederSource.TestPlan.Accepted.{
  nothing_fed, feed_test_plan-verify_test_plan,
}
use pothos_blocks.Testers.FeederSource.TestPlan.Multiples.{make_some-multiples}

-- Buffers of bytes, of one type; the numbers are the bytes.
abbrev numbers : Data
numbers = record {
  Chunk = List ℕ;
  null_chunk = [];
  append = λ a b. a ++ b;
  bytes = λ a. a;
  null_chunk-bytes = refl;
  append-bytes = λ a b. refl;
  DType = ℕ;
  dtype = λ a. 0;
  same_dtype = λ a b. a == b;
  is_float = λ a. false;
  Float = ℕ;
  Int = ℕ;
  floats = λ a. a;
  ints = λ a. a;
  Number = ℕ;
  float_of = λ a. a;
  int_of = λ a. a;
  same_float = λ a b. a == b;
  same_int = λ a b. a == b;
}

-- A counter that goes through the bounds.
abbrev counter : Draws numbers
counter = record {
  Generator = ℕ;
  draw = λ lo hi g. (lo + g % (hi - lo + 1), g + 7);
  draw_value = λ lo hi g. (g % 256, g + 3);
  number = λ v. v;
  size = λ t. 1;
  is_signed = λ t. false;
  new_chunk = λ t n. replicate n 0;
  write = λ k i v c. set c i v;
  shifted_out = pos 1;
}

-- Three buffers of at most four elements, and labels, and messages.
abbrev small_plan : Settings
small_plan = record {
  enable_buffers = some true;
  enable_labels = some true;
  enable_messages = some true;
  enable_packets = none;
  min_trials = some 3;
  max_trials = some 3;
  min_size = some 2;
  max_size = some 5;
  min_buffers = none;
  max_buffers = none;
  min_buffer_size = none;
  max_buffer_size = none;
  min_value = none;
  max_value = none;
  total_multiple = some 3;
  buffer_multiple = some 2;
  min_labels = none;
  max_labels = none;
  min_label_size = none;
  max_label_size = none;
  min_messages = none;
  max_messages = none;
  min_message_size = none;
  max_message_size = none;
}

counter-Laws : Laws numbers counter small_plan 0 as_char
counter-Laws = record {
  draw-range =
      λ lo hi g h. (omega arith, omega (arith, h, mod-lt g {m = hi - lo + 1} (omega arith)));
  same_dtype-refl = refl;
  size_pos = omega arith;
  new_chunk-dtype = λ n. refl;
  new_chunk-bytes = λ n. omega (arith, length-replicate {A = ℕ} n 0);
  new_chunk-ints = λ n. length-replicate {A = ℕ} n 0;
  new_chunk-floats = λ n. length-replicate {A = ℕ} n 0;
  write-dtype = λ i v c. refl;
  write-bytes = λ i v c. length-set c i v;
  read_int = λ v. v;
  read_float = λ v. v;
  write-ints = λ i v c h. refl;
  write-floats = λ i v c h. refl;
  append-dtype = λ a b h. refl;
  append-ints = λ a b h. refl;
  append-floats = λ a b h. refl;
  null_chunk-ints = refl;
  null_chunk-floats = refl;
  draw_value-fits-float = λ g h. (==_iff (g % 256) (g % 256)).1 refl;
  draw_value-fits-int = λ g h. (==_iff (g % 256) (g % 256)).1 refl;
}

small_plan-Sizes : Sizes numbers counter small_plan 0
small_plan-Sizes = record {
  some_elements = omega arith;
  in_order = omega arith;
  buffer_multiple_pos = omega arith;
  total_multiple_pos = omega arith;
  between = 2;
  between-from = omega arith;
  between-to = omega arith;
}

written_as_char : element_kind 1 false ≡ some as_char
unfolding element_kind
written_as_char = refl

feed_test_plan-verify_test_plan_example :
    (plan : Plan numbers) × (f : FeederSource numbers) × (feed_test_plan numbers counter small_plan
        0 0 5
        (nothing_fed numbers)
      ≡ returns (plan, f))
    × ((Ok
          (verify_test_plan numbers plan 0
            (steps numbers 1 (waiting numbers f) (connected numbers f)).collector).0)
        ↔ (checks numbers plan ≡ true))
feed_test_plan-verify_test_plan_example =
    feed_test_plan-verify_test_plan numbers counter small_plan 0 as_char counter-Laws
      small_plan-Sizes 5 written_as_char (omega arith) (omega arith)

make_some-multiples_example :
    (bs : List (Filled numbers)) × (all : ℕ) × (g' : ℕ) × (make_some numbers counter small_plan 0 5
      ≡ returns (bs, all, g'))
    × (all ≡ sum (counts numbers counter bs))
    × IsMultiple 3 all
    × AllButLast (λ b. (length b.values ≤ 5) × IsMultiple 2 (length b.values)) bs
    × All (Usable numbers counter small_plan 0 as_char counter-Laws small_plan-Sizes) bs
make_some-multiples_example =
    make_some-multiples numbers counter small_plan 0 as_char counter-Laws small_plan-Sizes 5
      written_as_char (omega arith) (omega arith)
