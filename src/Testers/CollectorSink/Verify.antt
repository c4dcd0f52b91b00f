-- ===== src/Testers/CollectorSink/Verify.antt =====
-- `verifyTestPlan` of testers/CollectorSink.cpp.
use Prim.Native.String.{String}
use text.Mathlib.Text.{◌==◌ as str_eq}
use pothos_blocks.Shared.{
  ℕ, ◌+◌, Bool, true, false, not, ◌||◌, List, [], ◌∷◌, length, Option, none, some, ◌==◌,
  if◌then◌else◌, Outcome, returns, throws,
}
use pothos_blocks.Testers.CollectorSink.{Data, Label, Packet, CollectorSink, clear}

-- The assertion violations, with what their texts say.
pub data Error : Type 0 where
  nothing_checked : Error
  buffer_empty : Error
  type_mismatch : Error
  value_check : ℕ → Error
  element_count : ℕ → ℕ → Error
  label_type : ℕ → Error
  label_width : ℕ → Error
  label_index : ℕ → Error
  label_id : ℕ → Error
  label_data : ℕ → Error
  label_count : ℕ → ℕ → Error
  message_type : ℕ → Error
  message_check : ℕ → Error
  message_count : ℕ → ℕ → Error
  in_packet : ℕ → Error → Error
  packet_count : ℕ → ℕ → Error

abbrev pub Checked : Type 0
Checked = Outcome Error (Unit {0})

-- One check after another.
abbrev pub then_check : Checked → Checked → Checked
then_check (returns x) b = b
then_check (throws e) b = throws e

abbrev pub require : Bool → Error → Checked
require true e = returns tt
require false e = throws e

module _ {E A : Type 0} where
  -- The loops over an index below the smaller of the two sizes.
  unfoldable pub check_each : (ℕ → E → A → Checked) → ℕ → List E → List A → Checked
  check_each check i (e ∷ es) (a ∷ xs) = then_check (check i e a) (check_each check (i + 1) es xs)
  check_each check i [] xs = returns tt
  check_each check i (e ∷ es) [] = returns tt

  -- The loop, and the comparison of the sizes behind it.
  unfoldable pub check_all : (ℕ → E → A → Checked) → (ℕ → ℕ → Error) → List E → List A → Checked
  unfolding check_each
  check_all check count es xs =
      then_check (check_each check 0 es xs)
        (require (length xs == length es) (count (length es) (length xs)))

pub record ExpectedLabel : Type 0 where
  pub text : String
  pub index : ℕ
  pub id : String

unfoldable pub verify_label : ℕ → ExpectedLabel → Label → Checked
verify_label i e l = elim l.text [
  | none ↦ throws (label_type i)
  | some actual ↦ then_check (require (l.width == 1) (label_width i)) (
      then_check (require (l.index == e.index) (label_index i)) (
        then_check (require (str_eq l.id e.id) (label_id i))
          (require (str_eq actual e.text) (label_data i))))
]

-- `verifyTestPlanExpectedLabels`
unfoldable pub verify_labels : List ExpectedLabel → List Label → Checked
unfolding check_all verify_label
verify_labels = check_all verify_label label_count

unfoldable pub verify_message : ℕ → String → Option String → Checked
verify_message i e none = throws (message_type i)
verify_message i e (some actual) = require (str_eq actual e) (message_check i)

-- `verifyTestPlanExpectedMessages`
unfoldable pub verify_messages : List String → List (Option String) → Checked
unfolding check_all verify_message
verify_messages = check_all verify_message message_count

-- the list under a name, or the empty one where there is none
abbrev pub value_or_empty : {A : Type 0} → Option (List A) → List A
value_or_empty none = []
value_or_empty (some xs) = xs

abbrev pub is_some : {A : Type 0} → Option A → Bool
is_some none = false
is_some (some a) = true

-- A check of what stands under a name, where the plan has it.
abbrev pub where_present : {A : Type 0} → Option A → (A → Checked) → Checked
where_present none check = returns tt
where_present (some a) check = check a

-- an exception in packet `i`
abbrev pub within_packet : ℕ → Checked → Checked
within_packet i (returns x) = returns x
within_packet i (throws e) = throws (in_packet i e)

module _ (d : Data) where
  pub record ExpectedPacket : Type 0 where
    pub values : Option (List d.Number)
    pub labels : Option (List ExpectedLabel)

  pub record Plan : Type 0 where
    pub values : Option (List d.Number)
    pub labels : Option (List ExpectedLabel)
    pub messages : Option (List String)
    pub packets : Option (List ExpectedPacket)

  -- `checked`
  abbrev pub checks : Plan → Bool
  checks plan =
      is_some plan.values || is_some plan.labels || is_some plan.messages || is_some plan.packets

  -- `verifyTestPlanExpectedValues`, for the list of the plan under that name
  unfoldable pub verify_values : Option (List d.Number) → d.Chunk → d.DType → Checked
  unfolding check_all
  verify_values expected chunk expected_dtype =
      then_check (require (not (length (d.bytes chunk) == 0)) buffer_empty) (
        then_check (require (d.same_dtype (d.dtype chunk) expected_dtype) type_mismatch) (
          if d.is_float (d.dtype chunk)
          then check_all (λ i e a. require (d.same_float (d.float_of e) a) (value_check i))
              element_count (value_or_empty expected) (d.floats chunk)
          else check_all (λ i e a. require (d.same_int (d.int_of e) a) (value_check i))
              element_count (value_or_empty expected) (d.ints chunk)))

  unfoldable pub verify_packet : d.DType → ℕ → ExpectedPacket → Packet d → Checked
  unfolding verify_values verify_labels
  verify_packet dtype i e p = within_packet i (
      then_check (verify_values e.values p.payload dtype)
        (where_present e.labels (λ ls. verify_labels ls p.labels)))

  -- `verifyTestPlanExpectedPackets`
  unfoldable pub verify_packets : d.DType → List ExpectedPacket → List (Packet d) → Checked
  unfolding check_all verify_packet
  verify_packets dtype = check_all (verify_packet dtype) packet_count

  unfoldable pub verify_all : Plan → d.DType → CollectorSink d → Checked
  unfolding verify_values verify_labels verify_messages verify_packets
  verify_all plan dtype s =
      then_check (where_present plan.values (λ vs. verify_values plan.values s.buffer dtype)) (
        then_check (where_present plan.labels (λ ls. verify_labels ls s.labels)) (
          then_check (where_present plan.messages (λ ms. verify_messages ms s.messages)) (
            then_check (where_present plan.packets (λ ps. verify_packets dtype ps s.packets))
              (require (checks plan) nothing_checked))))

  -- What was collected is cleared where nothing was thrown.
  unfoldable pub cleared : Checked → CollectorSink d → Checked × CollectorSink d
  unfolding clear
  cleared (returns x) s = (returns x, clear d s)
  cleared (throws e) s = (throws e, s)

  -- `verifyTestPlan`, with the type of the input port
  unfoldable pub verify_test_plan : Plan → d.DType → CollectorSink d → Checked × CollectorSink d
  unfolding verify_all cleared
  verify_test_plan plan dtype s = cleared (verify_all plan dtype s) s
