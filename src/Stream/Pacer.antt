-- ===== src/Stream/Pacer.antt =====
-- stream/Pacer.cpp and stream/RateMonitor.cpp. Times are nanoseconds of the clock; the arithmetic of
-- `double` is a parameter.
use mathlib.Core.Path.{subst}
use pothos_blocks.Shared.{
  ℕ, ◌+◌, ◌-◌, ◌%◌, ◌^◌, ◌≤◌, ◌<◌, ◌≡◌, Bool, true, false, List, [], ◌∷◌, ◌++◌, Option, none, some,
  ltb, if◌then◌else◌, arith, Bool-cases, inl, inr,
}

-- A rate, the nanoseconds that a count takes at it (`count * 1e9 / rate`, as an integer), and the rate
-- of a count in a time.
pub record Rates : Type 1 where
  pub Rate : Type 0
  pub one : Rate
  pub expected_time : ℕ → Rate → ℕ
  pub rate_of : ℕ → ℕ → Rate

-- What waits at the input port: messages, and a number of elements.
pub record Waiting (M : Type 0) : Type 0 where
  pub messages : List M
  pub elements : ℕ

-- What a call of `work` posts: a message, elements, and the label "rxRate" or not.
pub record Posted (M : Type 0) : Type 0 where
  pub message : Option M
  pub elements : ℕ
  pub label : Bool

abbrev pub first_message : {M : Type 0} → List M → Option M
first_message [] = none
first_message (m ∷ ms) = some m

abbrev pub other_messages : {M : Type 0} → List M → List M
other_messages [] = []
other_messages (m ∷ ms) = ms

abbrev pub how_many : {M : Type 0} → Option M → ℕ
how_many none = 0
how_many (some m) = 1

module _ (rates : Rates) where
  pub record Pacer : Type 0 where
    pub rate : rates.Rate
    pub send_label : Bool
    pub actual_rate : rates.Rate
    pub start_time : ℕ
    pub current_count : ℕ
    pub start_count : ℕ

  -- The constructor leaves the start time as the clock has its epoch.
  unfoldable pub make : Pacer
  make = record {
    rate = rates.one;
    send_label = false;
    actual_rate = rates.one;
    start_time = 0;
    current_count = 0;
    start_count = 0;
  }

  -- `setRate`, with the time
  unfoldable pub set_rate : ℕ → rates.Rate → Pacer → Pacer
  set_rate now rate s = record s {
    rate = rate;
    start_time = now;
    start_count = s.current_count;
    send_label = true;
  }

  unfoldable pub activate : ℕ → Pacer → Pacer
  unfolding set_rate
  activate now s = set_rate now s.rate s

  -- `countDelta`
  unfoldable pub count_delta : Pacer → ℕ
  count_delta s = (s.current_count + 2 ^ 64 - s.start_count) % 2 ^ 64

  unfoldable pub forward : {M : Type 0} → Waiting M → Pacer → Posted M × Waiting M × Pacer
  forward w s =
      let m = first_message w.messages in
      (
        record { message = m; elements = w.elements; label = s.send_label },
        record { messages = other_messages w.messages; elements = 0 },
        record s {
          current_count = (s.current_count + how_many m + w.elements) % 2 ^ 64;
          send_label = false;
        },
      )

  -- `work`, with the time: what is posted, or none where it only sleeps. The time since the start, which
  -- the source compares, is negative where the clock went back; then the rate is not modelled.
  unfoldable pub work : {M : Type 0} → ℕ → Waiting M → Pacer → Option (Posted M) × Waiting M × Pacer
  unfolding count_delta forward
  work now w s =
      let s' = record s { actual_rate = rates.rate_of (count_delta s) (now - s.start_time) } in
      if ltb now (s.start_time + rates.expected_time (count_delta s) s.rate)
      then (none, w, s')
      else (let (p, w', s'') = forward w s' in (some p, w', s''))

  -- what one call has posted, in front of what the others post
  abbrev after_call :
      {M : Type 0}
      → ℕ
      → Option (Posted M) × Waiting M × Pacer
      → (Waiting M → Pacer → List (ℕ × Posted M))
      → List (ℕ × Posted M)
  after_call now (none, w, s) rest = rest w s
  after_call now (some p, w, s) rest = (now, p) ∷ rest w s

  abbrev arrive : {M : Type 0} → List M → ℕ → Waiting M → Waiting M
  arrive messages elements w = record {
    messages = w.messages ++ messages;
    elements = w.elements + elements;
  }

  -- Calls of `work`, each at a time and with what has come in before it: what is posted, and when.
  unfoldable pub works :
      {M : Type 0} → List (ℕ × List M × ℕ) → Waiting M → Pacer → List (ℕ × Posted M)
  works [] w s = []
  works ((now, messages, elements) ∷ calls) w s =
      after_call now (work now (arrive messages elements w) s) (works calls)

  -- Whenever something is posted, the time since the start is enough for all that was posted before it,
  -- which is `sent`, counted as the block counts.
  pub data Paced {M : Type 0} (rate : rates.Rate) (start : ℕ)
      : ℕ → List (ℕ × Posted M) → Type 0 where
    paced_nil : {sent : ℕ} → Paced rate start sent []
    paced_cons :
        {sent now : ℕ} {p : Posted M} {ps : List (ℕ × Posted M)}
        → rates.expected_time (sent % 2 ^ 64) rate ≤ now - start
        → Paced rate start (sent + how_many p.message + p.elements) ps
        → Paced rate start sent ((now, p) ∷ ps)

  -- the count since the start, for one that has grown
  delta_add :
      (c start n : ℕ)
      → start < 2 ^ 64
      → ((c + n) % 2 ^ 64 + 2 ^ 64 - start) % 2 ^ 64 ≡ ((c + 2 ^ 64 - start) % 2 ^ 64 + n) % 2 ^ 64
  delta_add c start n h = omega (arith, h)

  count_after :
      (s : Pacer) (m n sent : ℕ)
      → s.start_count < 2 ^ 64
      → count_delta s ≡ sent % 2 ^ 64
      → ((s.current_count + m + n) % 2 ^ 64 + 2 ^ 64 - s.start_count) % 2 ^ 64
        ≡ (sent + m + n) % 2 ^ 64
  unfolding count_delta
  count_after s m n sent h e =
      let same = delta_add s.current_count s.start_count (m + n) h in omega (arith, same, e)

  none_yet : (c : ℕ) → c < 2 ^ 64 → (c + 2 ^ 64 - c) % 2 ^ 64 ≡ 0 % 2 ^ 64
  none_yet c h = omega arith

  works-Paced_from :
      {M : Type 0} (calls : List (ℕ × List M × ℕ)) (w : Waiting M) (s : Pacer) (sent : ℕ)
      → s.start_count < 2 ^ 64
      → count_delta s ≡ sent % 2 ^ 64
      → Paced s.rate s.start_time sent (works calls w s)
  unfolding works work forward count_delta
  works-Paced_from [] w s sent h e = paced_nil
  works-Paced_from ((now, messages, elements) ∷ calls) w s sent h e =
      let w' = arrive messages elements w in
      let timed = record s { actual_rate = rates.rate_of (count_delta s) (now - s.start_time) } in
      elim (Bool-cases (ltb now (s.start_time + rates.expected_time (count_delta s) s.rate))) [
        | inl early ↦ rw early (works-Paced_from calls w' timed sent h e)
        | inr late ↦
            let (p, left, s') = forward w' timed in
            let enough : rates.expected_time (sent % 2 ^ 64) s.rate ≤ now - s.start_time =
              subst (λ n. rates.expected_time n s.rate ≤ now - s.start_time) e
                (ground (arith, late)) in
            let n = how_many p.message + p.elements in
            let counted : count_delta s' ≡ (sent + how_many p.message + p.elements) % 2 ^ 64 =
              count_after s (how_many p.message) p.elements sent h e in
            rw late (
              paced_cons enough
                (works-Paced_from calls left s' (sent + how_many p.message + p.elements) h counted))
      ]

  -- Let a pacer be activated at some time. However the input comes in, and at whatever times `work` is
  -- called, whenever something is posted, the time since then is at least what the messages and
  -- elements that were posted before it take at the rate that is set.
  pub works-Paced :
      {M : Type 0} (start : ℕ) (calls : List (ℕ × List M × ℕ)) (w : Waiting M) (s : Pacer)
      → s.current_count < 2 ^ 64
      → Paced s.rate start 0 (works calls w (activate start s))
  unfolding activate count_delta
  works-Paced start calls w s h =
      works-Paced_from calls w (activate start s) 0 h (none_yet s.current_count h)

-- RateMonitor
pub record Monitor : Type 0 where
  pub start_time : ℕ
  pub current_count : ℕ
  pub start_count : ℕ

unfoldable pub make_monitor : Monitor
make_monitor = record { start_time = 0; current_count = 0; start_count = 0 }

unfoldable pub activate_monitor : ℕ → Monitor → Monitor
activate_monitor now s = record s { start_time = now; start_count = s.current_count }

-- `rate`, at a time
unfoldable pub monitor_rate : (rates : Rates) → ℕ → Monitor → rates.Rate
monitor_rate rates now s =
    rates.rate_of ((s.current_count + 2 ^ 64 - s.start_count) % 2 ^ 64) (now - s.start_time)

-- `RateMonitor::work`: at most one message, and all the elements, are counted and dropped.
unfoldable pub monitor_work : {M : Type 0} → Waiting M → Monitor → Waiting M × Monitor
monitor_work w s = (
  record { messages = other_messages w.messages; elements = 0 },
  record s {
    current_count = (s.current_count + how_many (first_message w.messages) + w.elements) % 2 ^ 64;
  },
)
