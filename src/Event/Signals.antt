-- ===== src/Event/Signals.antt =====
-- event/MessageToSignal.cpp, event/SlotToMessage.cpp, event/MessagePrinter.cpp and
-- event/PeriodicTrigger.cpp. Times are nanoseconds of the clock.
use Prim.Native.String.{String}
use text.Mathlib.Text.{◌==◌ as str_eq}
use pothos_blocks.Shared.{
  ℕ, zero, suc, ◌+◌, ◌-◌, ◌*◌, ◌≤◌, ◌<◌, ◌≡◌, refl, ◌⊎◌, min, List, [], ◌∷◌, Option, none, some,
  ltb, if◌then◌else◌, arith, Bool-cases, inl, inr,
}

module _ {O : Type 0} where
  -- `MessageToSignal::work`, with the name of the signal: the signal that is emitted, with its argument,
  -- and the messages that are left.
  unfoldable pub message_to_signal : String → List O → Option (String × O) × List O
  message_to_signal name [] = (none, [])
  message_to_signal name (m ∷ ms) = (some (name, m), ms)

-- What a call of a method does: the slot posts its first argument, if there is one, or the base class
-- takes the call.
pub data Handled (O : Type 0) : Type 0 where
  posted : Option O → Handled O
  passed_on : Handled O

abbrev pub first_argument : {O : Type 0} → List O → Option O
first_argument [] = none
first_argument (a ∷ as') = some a

-- `SlotToMessage::opaqueCallHandler`, with the name of the slot
unfoldable pub opaque_call_handler : {O : Type 0} → String → String → List O → Handled O
opaque_call_handler slot name args =
    if str_eq name slot then posted (first_argument args) else passed_on

-- where a message is printed
pub data Destination : Type 0 where
  stdout : Destination
  stderr : Destination
  error_log : Destination
  warning_log : Destination
  information_log : Destination
  debug_log : Destination

unfoldable pub destination : String → Destination
destination d =
    if str_eq d "STDOUT"
    then stdout
    else if str_eq d "STDERR"
    then stderr
    else if str_eq d "ERROR"
    then error_log
    else if str_eq d "WARNING"
    then warning_log
    else if str_eq d "INFORMATION"
    then information_log
    else if str_eq d "DEBUG"
    then debug_log
    else information_log

pub record Printer : Type 0 where
  pub dest : String
  pub source_name : String

unfoldable pub make_printer : Printer
make_printer = record { dest = "STDOUT"; source_name = "" }

unfoldable pub set_destination : String → Printer → Printer
set_destination d s = record s { dest = d }

unfoldable pub set_source_name : String → Printer → Printer
set_source_name name s = record s { source_name = name }

-- what is printed: the type and size of a buffer, or a message
pub data Printed (O : Type 0) : Type 0 where
  buffer_of : ℕ → Printed O
  message_of : O → Printed O

-- `MessagePrinter::work`, with the elements and messages at the input port: what is printed and where,
-- and what is left.
unfoldable pub printer_work :
    {O : Type 0} → ℕ → List O → Printer → Option (Destination × String × Printed O) × ℕ × List O
unfolding destination
printer_work zero [] s = (none, 0, [])
printer_work zero (m ∷ ms) s = (some (destination s.dest, s.source_name, message_of m), 0, ms)
printer_work (suc n) ms s = (some (destination s.dest, s.source_name, buffer_of (suc n)), 0, ms)

-- PeriodicTrigger, over the period `1e9 / rate` of its rate and its arguments
pub record Periodic (O : Type 0) : Type 0 where
  pub period : ℕ
  pub args : List O
  pub next_trigger : ℕ

-- all the times are at most this one
pub data Until (end : ℕ) : List ℕ → Type 0 where
  until_nil : Until end []
  until_cons : {now : ℕ} {times : List ℕ} → now ≤ end → Until end times → Until end (now ∷ times)

more :
    (n next period now end : ℕ)
    → next < now
    → now ≤ end
    → (n ≡ 0) ⊎ (next + period + n * period < end + period)
    → next + suc n * period < end + period
more n next period now end a b (inl e) = rw e (omega (arith, a, b))
more n next period now end a b (inr h) = omega (arith, h)

module _ {O : Type 0} where
  unfoldable pub set_rate : ℕ → Periodic O → Periodic O
  set_rate period s = record s { period = period }

  unfoldable pub set_args : List O → Periodic O → Periodic O
  set_args args s = record s { args = args }

  unfoldable pub increment_next : Periodic O → Periodic O
  increment_next s = record s { next_trigger = s.next_trigger + s.period }

  unfoldable pub activate : ℕ → Periodic O → Periodic O
  unfolding increment_next
  activate now s = increment_next (record s { next_trigger = now })

  -- `PeriodicTrigger::work`, at a time: the arguments with which it triggers, or the time to sleep.
  unfoldable pub periodic_work : ℕ → ℕ → Periodic O → Option (List O) × ℕ × Periodic O
  unfolding increment_next
  periodic_work max_timeout now s =
      if ltb s.next_trigger now
      then (some s.args, 0, increment_next s)
      else (none, min max_timeout (s.next_trigger - now), s)

  abbrev pub after_trigger :
      Option (List O) × ℕ × Periodic O → (Periodic O → ℕ × Periodic O) → ℕ × Periodic O
  after_trigger (none, sleep, s) rest = rest s
  after_trigger (some a, sleep, s) rest = let (n, s') = rest s in (suc n, s')

  -- calls at these times: how often it triggers, and the block behind them
  unfoldable pub triggers : ℕ → List ℕ → Periodic O → ℕ × Periodic O
  triggers max_timeout [] s = (0, s)
  triggers max_timeout (now ∷ times) s =
      after_trigger (periodic_work max_timeout now s) (triggers max_timeout times)

  triggers_from :
      (max_timeout end : ℕ) (times : List ℕ) (s : Periodic O)
      → Until end times
      → let n = (triggers max_timeout times s).0 in
        (n ≡ 0) ⊎ (s.next_trigger + n * s.period < end + s.period)
  unfolding triggers periodic_work increment_next
  triggers_from max_timeout end [] s until_nil = inl refl
  triggers_from max_timeout end (now ∷ times) s (until_cons le u) =
      elim (Bool-cases (ltb s.next_trigger now)) [
        | inr early ↦ rw early (triggers_from max_timeout end times s u)
        | inl late ↦
            let lt : s.next_trigger < now = ground (arith, late) in
            let (n, s'') = triggers max_timeout times (increment_next s) in
            rw late (
              inr (
                more n s.next_trigger s.period now end lt le
                  (triggers_from max_timeout end times (increment_next s) u)))
      ]

  -- Let the block be activated, and `work` be called at times up to the end. Then it has triggered at
  -- most as often as whole periods have gone by since, and not at all or less than that.
  pub triggers-activate :
      (max_timeout start end : ℕ) (times : List ℕ) (s : Periodic O)
      → Until end times
      → let n = (triggers max_timeout times (activate start s)).0 in
        (n ≡ 0) ⊎ (start + n * s.period < end)
  unfolding activate increment_next
  triggers-activate max_timeout start end times s u =
      elim (triggers_from max_timeout end times (activate start s) u) [
        | inl none_yet ↦ inl none_yet
        | inr lt ↦ inr (omega (arith, lt))
      ]
