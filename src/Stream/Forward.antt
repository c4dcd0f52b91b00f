-- ===== src/Stream/Forward.antt =====
-- stream/Copier.cpp, stream/Relabeler.cpp and stream/LabelStripper.cpp. `L` is a label, `P` a packet
-- without its labels, and `O` another object.
pub mod Keeps
use pothos_blocks.Shared.{
  ℕ, ◌*◌, ◌/◌, Bool, true, false, ◌&&◌, not, List, [], ◌∷◌, ◌++◌, map, length, take, drop, min,
  ◌==◌, if◌then◌else◌,
}

pub data Message (L P O : Type 0) : Type 0 where
  packet : List L → P → Message L P O
  object : O → Message L P O

-- What waits at the input port, and what has been posted.
pub record Flow (L P O : Type 0) : Type 0 where
  pub messages : List (Message L P O)
  pub bytes : List ℕ
  pub sent_messages : List (Message L P O)
  pub sent : List ℕ

-- `propagateLabels` of the Relabeler, by `_keepPrimary` and whether the port is the primary one:
-- whether labels are passed on.
unfoldable pub propagates : Bool → Bool → Bool
propagates keep_primary is_primary = not (is_primary && not keep_primary)

-- the Relabeler's flag
pub record Relabeler : Type 0 where
  pub keep_primary : Bool

unfoldable pub make_relabeler : Relabeler
make_relabeler = record { keep_primary = false }

unfoldable pub set_keep_primary : Bool → Relabeler → Relabeler
set_keep_primary keep s = record s { keep_primary = keep }

module _ {L P O : Type 0} where
  -- So many bytes are posted.
  unfoldable pub move : ℕ → Flow L P O → Flow L P O
  move n f = record f { bytes = drop n f.bytes; sent = f.sent ++ take n f.bytes }

  -- The Copier's message, if there is one: a packet is posted with a copy of its payload.
  unfoldable pub copy_message : Flow L P O → List (Message L P O) → Flow L P O
  copy_message f [] = f
  copy_message f (m ∷ ms) = record f { messages = ms; sent_messages = f.sent_messages ++ (m ∷ []) }

  -- `Copier::work`, for elements of this size and an output buffer of this many bytes
  unfoldable pub copier_work : ℕ → ℕ → Flow L P O → Flow L P O
  unfolding move copy_message
  copier_work size room f =
      let g = copy_message f f.messages in
      if length f.bytes == 0 then g else move (min (length f.bytes / size) (room / size) * size) g

  -- All messages are posted.
  unfoldable pub forward_all : Flow L P O → Flow L P O
  forward_all f = record f { messages = []; sent_messages = f.sent_messages ++ f.messages }

  -- `Relabeler::work`, for the sizes of the elements of the two ports and the buffer of the port "lbl":
  -- the flow of the primary port, and the rest of that buffer.
  unfoldable pub relabeler_work : ℕ → ℕ → List ℕ → Flow L P O → Flow L P O × List ℕ
  unfolding move forward_all
  relabeler_work size lbl_size lbl f =
      let n = min (length f.bytes / size) (length lbl / lbl_size) in
      if n == 0
      then (forward_all f, lbl)
      else (move (n * size) (forward_all f), drop (n * lbl_size) lbl)

  unfoldable pub strip : Message L P O → Message L P O
  strip (packet ls p) = packet [] p
  strip (object o) = object o

  -- `LabelStripper::work`
  unfoldable pub stripper_work : Flow L P O → Flow L P O
  unfolding strip
  stripper_work f = record {
    messages = [];
    bytes = [];
    sent_messages = f.sent_messages ++ map strip f.messages;
    sent = f.sent ++ f.bytes;
  }
