-- ===== src/Tests/TesterTests.antt =====
-- testers/, at concrete inputs.
use pothos_blocks.Shared.{
  ==_iff, replicate, Bool, ℕ, ◌^◌, ◌≤◌, ◌≡◌, ◌⊎◌, ◌↔◌, refl, arith, true, false, List, [], ◌∷◌,
  ◌++◌, none, some, ◌==◌, returns, throws,
}
use pothos_blocks.Testers.VectorSource.{VectorSource, activate}
use pothos_blocks.Testers.VectorSource.Rounds.{Cycle, follow}
use pothos_blocks.Testers.VectorSource.Copies.{SameSettings, work-Cycles}
use pothos_blocks.Testers.FiniteRelease.{Flow, set_total_elements, works}
use pothos_blocks.Testers.FiniteRelease.Accounts.{
  Accounts, Settled, all_messages, all_elements, set_total_elements-works,
}
use pothos_blocks.Testers.FiniteRelease
use pothos_blocks.Testers.ConstantSource
use pothos_blocks.Testers.ConstantSource.Output.{
  sets, calls, last_set, run as steps_of, work-constant,
}
use pothos_blocks.Testers.CollectorSink.{Data, Label, CollectorSink, clear}
use pothos_blocks.Testers.CollectorSink.Verify.{Error, Plan, verify_test_plan}
use pothos_blocks.Testers.CollectorSink.Checks.{Ok}
use pothos_blocks.Testers.CollectorSink.Accept.{Matches, verify_test_plan_iff}
use pothos_blocks.Testers.FeederSource.{FeederSource, elements}
use pothos_blocks.Testers.FeederSource.Ledger.{all_bytes, Ordered, ordered_nil, ordered_cons}
use pothos_blocks.Testers.FeederSource.Ledger
use pothos_blocks.Testers.FeederSource.Collect.{waiting, steps, connected, work-collects}

abbrev three : VectorSource ℕ
three = record {
  elems = 1 ∷ (2 ∷ (3 ∷ []));
  pending = 9 ∷ [];
  repeat = true;
  once = true;
  start_id = "start";
  end_id = "";
}

abbrev rooms : List ℕ
rooms = 2 ∷ (5 ∷ (0 ∷ (1 ∷ [])))

work-Cycles_example :
    let (t, s') = follow (activate three) rooms (record { out = []; starts = []; ends = [] }) in
    SameSettings three s' × Cycle s' t
work-Cycles_example = work-Cycles three rooms refl (omega arith)

abbrev once : VectorSource ℕ
once = record three { repeat = false }

abbrev arrivals : List (List ℕ × List ℕ)
arrivals = (7 ∷ [], 1 ∷ (2 ∷ [])) ∷ ((8 ∷ [], 3 ∷ []) ∷ [])

abbrev start : Flow ℕ ℕ
start = record {
  block = set_total_elements 4 FiniteRelease.make;
  messages = [];
  buffer = [];
  sent_messages = [];
  sent = [];
}

set_total_elements-works_example :
    Accounts 4 (all_messages [] arrivals) (all_elements [] arrivals) (works arrivals start)
    × Settled (works arrivals start)
set_total_elements-works_example = set_total_elements-works FiniteRelease.make 4 arrivals

-- Buffers of bytes, of one type; the numbers are the bytes.
abbrev bytes_only : Data
bytes_only = record {
  Chunk = List ℕ;
  null_chunk = [];
  append = λ a b. a ++ b;
  bytes = λ a. a;
  null_chunk-bytes = refl;
  append-bytes = λ a b. refl;
  DType = ℕ;
  dtype = λ a. 0;
  same_dtype = λ a b. a == b;
  is_float = λ a. false;
  Float = ℕ;
  Int = ℕ;
  floats = λ a. a;
  ints = λ a. a;
  Number = ℕ;
  float_of = λ a. a;
  int_of = λ a. a;
  same_float = λ a b. a == b;
  same_int = λ a b. a == b;
}

abbrev label : Label
label = record { id = "id"; text = some "data"; index = 2; width = 1 }

abbrev collected : CollectorSink bytes_only
collected = record {
  buffer = 1 ∷ (2 ∷ []);
  labels = label ∷ [];
  messages = some "hello" ∷ [];
  packets = [];
}

abbrev plan : Plan bytes_only
plan = record {
  values = some (1 ∷ (2 ∷ []));
  labels = some (record { text = "data"; index = 2; id = "id" } ∷ []);
  messages = some ("hello" ∷ []);
  packets = none;
}

-- The plan is accepted.
accepted : (verify_test_plan bytes_only plan 0 collected).0 ≡ returns tt
unfolding verify_test_plan
accepted = refl

verify_test_plan_iff_example :
    ((Ok (verify_test_plan bytes_only plan 0 collected).0) ↔ Matches bytes_only plan 0 collected)
    × ((verify_test_plan bytes_only plan 0 collected ≡ (returns tt, clear bytes_only collected))
        ⊎ ((e : Error) × (verify_test_plan bytes_only plan 0 collected ≡ (throws e, collected))))
verify_test_plan_iff_example = verify_test_plan_iff bytes_only plan 0 collected

abbrev fed : FeederSource bytes_only
fed = record {
  buffers = (1 ∷ (2 ∷ [])) ∷ ((3 ∷ (4 ∷ [])) ∷ []);
  labels = record label { index = 0 } ∷ (record label { index = 1 } ∷ []);
  messages = some "hello" ∷ [];
  packets = record { payload = 5 ∷ (6 ∷ []); labels = [] } ∷ [];
}

at_most : Ledger.all_elements bytes_only 2 fed.buffers ≤ 2 ^ 64
unfolding elements
at_most = omega arith

fed-Ordered : Ordered (Ledger.all_elements bytes_only 2 fed.buffers) 0 fed.labels
unfolding elements
fed-Ordered =
    ordered_cons (omega arith) (omega arith) (ordered_cons (omega arith) (omega arith) ordered_nil)

work-collects_example :
    let w = steps bytes_only 2 (waiting bytes_only fed) (connected bytes_only fed) in
    (w.collector.buffer ≡ all_bytes bytes_only fed.buffers)
    × (w.collector.labels ≡ fed.labels)
    × (w.collector.messages ≡ fed.messages)
    × (w.collector.packets ≡ fed.packets)
    × (w.feeder ≡ record { buffers = []; labels = []; messages = []; packets = [] })
work-collects_example = work-collects bytes_only 2 fed at_most fed-Ordered

abbrev equal : ℕ → ℕ → Bool
equal a b = a == b

-- The constant is changed after a call that has filled the cache.
work-constant_example :
    (ConstantSource.work equal 5 1
      (steps_of equal ==_iff (calls 3 ∷ (sets 7 ∷ [])) (ConstantSource.make equal 0))).0
    ≡ some (replicate 5 (last_set equal ==_iff 0 (calls 3 ∷ (sets 7 ∷ []))))
work-constant_example = work-constant equal ==_iff 0 (calls 3 ∷ (sets 7 ∷ [])) 5
