-- ===== src/Packet/StreamToPacket.antt =====
-- packet/StreamToPacket.cpp
pub mod Modes
pub mod Bounds
pub mod Frames
use Prim.Native.String.{String}
use text.Mathlib.Text.{◌==◌ as str_eq}
use pothos_blocks.Shared.{
  ℕ, ◌+◌, ◌*◌, ◌/◌, ◌%◌, ◌^◌, min, Bool, true, false, ◌&&◌, not, List, [], ◌∷◌, ◌++◌, map, Option,
  none, some, leb, ltb, ◌==◌, if◌then◌else◌,
}
use pothos_blocks.Pothos.{
  BufferChunk, Label, Packet, Message, packet, Call, consume, set_reserve, post_message, Input,
  Framework,
}

pub record StreamToPacket : Type 0 where
  pub mtu : ℕ
  pub frame_start_id : String
  pub frame_end_id : String
  pub in_frame : Bool
  pub start_frame_mode : Bool
  pub full_frame_mode : Bool

-- `empty()` of a string
abbrev pub is_empty : String → Bool
is_empty s = str_eq s ""

-- The constructor.
unfoldable pub make : StreamToPacket
make = record {
  mtu = 0;
  frame_start_id = "";
  frame_end_id = "";
  in_frame = false;
  start_frame_mode = false;
  full_frame_mode = false;
}

unfoldable pub set_mtu : ℕ → StreamToPacket → StreamToPacket
set_mtu mtu s = record s { mtu = mtu }

unfoldable pub update_modes : StreamToPacket → StreamToPacket
update_modes s = record s {
  start_frame_mode = not (is_empty s.frame_start_id) && is_empty s.frame_end_id;
  full_frame_mode = not (is_empty s.frame_start_id) && not (is_empty s.frame_end_id);
}

unfoldable pub set_frame_start_id : String → StreamToPacket → StreamToPacket
unfolding update_modes
set_frame_start_id id s = update_modes (record s { frame_start_id = id })

unfoldable pub set_frame_end_id : String → StreamToPacket → StreamToPacket
unfolding update_modes
set_frame_end_id id s = update_modes (record s { frame_end_id = id })

unfoldable pub activate : StreamToPacket → StreamToPacket
activate s = record s { in_frame = false }

-- What the search for a start of frame finds before the end of the input's labels.
pub data Start : Type 0 where
  missing : Start
  at_front : Start
  later : ℕ → Start

-- The loop that looks for the first start of frame in the input.
unfoldable pub find_start : String → ℕ → List Label → Start
find_start id elements [] = missing
find_start id elements (l ∷ ls) =
    let rest = find_start id elements ls in
    if leb elements l.index
    then missing
    else (if not (str_eq l.id id) then rest else (if l.index == 0 then at_front else later l.index))

-- The loop over the labels of a payload: the labels taken, the payload's length, and whether the
-- frame goes on.
pub record Taken : Type 0 where
  pub labels : List Label
  pub length : ℕ
  pub in_frame : Bool

-- What a start of frame gives in the start-frame mode.
pub data Frame : Type 0 where
  nothing : Frame
  skip : ℕ → ℕ → Frame
  wait : ℕ → Frame
  found : ℕ → Frame

-- The length of the output for a start label, in bytes: the label's element count, if it has one.
unfoldable pub output_length : ℕ → ℕ → Label → ℕ
output_length mtu elem_size l = elim l.count [
  | none ↦ mtu
  | some n ↦ n * l.width % 2 ^ 64 * elem_size % 2 ^ 64
]

-- The first loop of `startFrameModeWork`.
unfoldable pub find_frame : String → ℕ → BufferChunk → List Label → Frame
unfolding output_length
find_frame id mtu buff [] = nothing
find_frame id mtu buff (l ∷ ls) =
    let rest = find_frame id mtu buff ls in
    let out = output_length mtu buff.elem_size l in
    if leb buff.length l.index
    then rest
    else (if not (str_eq l.id id)
        then rest
        else (if not (l.index == 0)
            then skip l.index out
            else (if ltb buff.length out then wait out else found out)))

-- The second loop of `startFrameModeWork`: the other labels of the frame, and the index of the next
-- start of frame in it, or 0.
unfoldable pub frame_labels : String → ℕ → ℕ → List Label → List Label × ℕ
frame_labels id out next [] = ([], next)
frame_labels id out next (l ∷ ls) =
    let inside = not (leb out l.index) in
    let starts = inside && str_eq l.id id in
    let (rest, next') = frame_labels id out (if starts && (next == 0) then l.index else next) ls in
    (if inside && not (str_eq l.id id) then l ∷ rest else rest, next')

unfoldable pub frame_calls : StreamToPacket → Input → Frame → List Call
unfolding frame_labels
frame_calls s inp nothing = consume inp.buffer.length ∷ []
frame_calls s inp (skip index out) = consume index ∷ set_reserve out ∷ []
frame_calls s inp (wait out) = set_reserve out ∷ []
frame_calls s inp (found out) =
    let (labels, next) = frame_labels s.frame_start_id out 0 inp.labels in
    let payload = record inp.buffer { length = out } in
    post_message (packet (record { payload = payload; labels = labels }))
    ∷ (set_reserve 0 ∷ (consume (if next == 0 then out else next) ∷ []))

unfoldable pub start_frame_mode_work : StreamToPacket → Input → List Call
unfolding find_frame frame_calls
start_frame_mode_work s inp =
    if inp.buffer.length == 0
    then []
    else frame_calls s inp (find_frame s.frame_start_id s.mtu inp.buffer inp.labels)

module _ (fw : Framework) where
  unfoldable pub take_labels : StreamToPacket → BufferChunk → List Label → Taken
  take_labels s payload [] = record { labels = []; length = payload.length; in_frame = s.in_frame }
  take_labels s payload (l ∷ ls) =
      let pkt_label = fw.to_adjusted l 1 payload.elem_size in
      let rest = take_labels s payload ls in
      if leb (fw.elements payload) pkt_label.index
      then record { labels = []; length = payload.length; in_frame = s.in_frame }
      else (if s.full_frame_mode && str_eq l.id s.frame_end_id
          then record { labels = pkt_label ∷ []; length = l.index + l.width; in_frame = false }
          else record rest { labels = pkt_label ∷ rest.labels })

  -- the payload before its labels are looked at
  unfoldable pub clip : ℕ → BufferChunk → BufferChunk
  clip mtu buff =
      if mtu == 0
      then buff
      else record buff { length = min (mtu / buff.elem_size * buff.elem_size) buff.length }

  -- the last part of `work`: the packet
  unfoldable pub make_packet : StreamToPacket → Input → StreamToPacket × List Call
  unfolding take_labels clip
  make_packet s inp =
      let payload = clip s.mtu inp.buffer in
      let taken = take_labels s payload inp.labels in
      (
        record s { in_frame = taken.in_frame },
        consume taken.length
            ∷ (post_message (
                  packet (record {
                    payload = record payload { length = taken.length };
                    labels = taken.labels;
                  }))
                ∷ []),
      )

  unfoldable pub enter_frame : StreamToPacket → Input → Start → StreamToPacket × List Call
  unfolding make_packet
  enter_frame s inp missing = (s, consume inp.elements ∷ [])
  enter_frame s inp at_front = make_packet (record s { in_frame = true }) inp
  enter_frame s inp (later index) = (record s { in_frame = true }, consume index ∷ [])

  -- `work` behind the forwarding of messages
  unfoldable pub stream_work : StreamToPacket → Input → StreamToPacket × List Call
  unfolding start_frame_mode_work find_start enter_frame make_packet
  stream_work s inp =
      if inp.elements == 0
      then (s, [])
      else (if s.start_frame_mode
          then (s, start_frame_mode_work s inp)
          else (if s.full_frame_mode && not s.in_frame
              then enter_frame s inp (find_start s.frame_start_id inp.elements inp.labels)
              else make_packet s inp))

  unfoldable pub work : StreamToPacket → Input → StreamToPacket × List Call
  unfolding stream_work
  work s inp = let (s', calls) = stream_work s inp in (s', map post_message inp.messages ++ calls)
