-- ===== src/Event/Labels.antt =====
-- event/LabelToMessage.cpp and event/TriggeredSignal.cpp. `O` is an object of the framework.
pub mod Found
use Prim.Native.String.{String}
use text.Mathlib.Text.{◌==◌ as str_eq}
use pothos_blocks.Shared.{
  ℕ, ◌+◌, Bool, true, false, List, [], ◌∷◌, ◌++◌, map, leb, ◌==◌, if◌then◌else◌,
}

-- a label at an input port
pub record Label (O : Type 0) : Type 0 where
  pub id : String
  pub data_value : O
  pub index : ℕ

-- A message: a packet, by its labels, or another object.
pub data Message (O : Type 0) : Type 0 where
  packet : List (Label O) → Message O
  object : O → Message O

-- The members of TriggeredSignal.
pub record TriggeredSignal (O : Type 0) : Type 0 where
  pub args : List O
  pub activate_trigger : Bool
  pub message_trigger : O
  pub label_trigger : String

module _ {O : Type 0} where
  -- The loop of `LabelToMessage::work` over the labels of the input port: the messages that are posted.
  unfoldable pub post_found : String → ℕ → List (Label O) → List O
  post_found id available [] = []
  post_found id available (l ∷ ls) =
      let rest = post_found id available ls in
      if leb available l.index then [] else (if str_eq l.id id then l.data_value ∷ rest else rest)

  -- `LabelToMessage::work`: the messages, and how many elements are consumed.
  unfoldable pub label_to_message : String → ℕ → List (Label O) → List O × ℕ
  unfolding post_found
  label_to_message id available ls = (post_found id available ls, available)

  unfoldable pub set_args : List O → TriggeredSignal O → TriggeredSignal O
  set_args args s = record s { args = args }

  unfoldable pub set_activate_trigger : Bool → TriggeredSignal O → TriggeredSignal O
  set_activate_trigger b s = record s { activate_trigger = b }

  unfoldable pub set_message_trigger : O → TriggeredSignal O → TriggeredSignal O
  set_message_trigger o s = record s { message_trigger = o }

  unfoldable pub set_label_trigger : String → TriggeredSignal O → TriggeredSignal O
  set_label_trigger id s = record s { label_trigger = id }

  -- `trigger`: a signal with the arguments.
  abbrev pub trigger : TriggeredSignal O → List (List O)
  trigger s = s.args ∷ []

  unfoldable pub activate : TriggeredSignal O → List (List O)
  activate s = if s.activate_trigger then trigger s else []

  -- The loop over the labels of a packet: the signals.
  unfoldable pub trigger_packet : TriggeredSignal O → List (Label O) → List (List O)
  trigger_packet s [] = []
  trigger_packet s (l ∷ ls) =
      let rest = trigger_packet s ls in if str_eq l.id s.label_trigger then s.args ∷ rest else rest

  -- The loop over the labels of the input port.
  unfoldable pub trigger_labels : TriggeredSignal O → ℕ → List (Label O) → List (List O)
  trigger_labels s available [] = []
  trigger_labels s available (l ∷ ls) =
      let rest = trigger_labels s available ls in
      if leb available l.index
      then []
      else (if str_eq l.id s.label_trigger then s.args ∷ rest else rest)

  -- The message that is popped, if there is one; `equals` is the framework's.
  unfoldable pub trigger_message :
      (O → O → Bool) → TriggeredSignal O → List (Message O) → List (List O)
  unfolding trigger_packet
  trigger_message equals s [] = []
  trigger_message equals s (packet ls ∷ ms) = trigger_packet s ls
  trigger_message equals s (object o ∷ ms) = if equals o s.message_trigger then trigger s else []

  -- `TriggeredSignal::work`: the signals, and how many elements are consumed.
  unfoldable pub work :
      (O → O → Bool) → TriggeredSignal O → List (Message O) → ℕ → List (Label O) → List (List O) × ℕ
  unfolding trigger_message trigger_labels
  work equals s ms available ls =
      let signals = trigger_message equals s ms in
      if available == 0 then (signals, 0) else (signals ++ trigger_labels s available ls, available)
