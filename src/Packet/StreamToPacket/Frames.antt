-- ===== src/Packet/StreamToPacket/Frames.antt =====
-- The packets of the start-frame mode.
use Prim.Native.String.{String}
use text.Mathlib.Text.{◌==◌ as str_eq}
use pothos_blocks.Shared.{
  ℕ, ◌≤◌, ◌<◌, ◌≡◌, refl, false, ◌&&◌, not, List, [], ◌∷◌, none, arith, if◌then◌else◌, leb, ltb,
  ◌==◌,
}
use pothos_blocks.Pothos.{
  BufferChunk, Label, Packet, packet, Call, consume, set_reserve, post_message, Input,
}
use pothos_blocks.Packet.StreamToPacket.{
  StreamToPacket, Frame, nothing, skip, wait, found, find_frame, frame_labels, frame_calls,
  start_frame_mode_work, output_length,
}
use pothos_blocks.Packet.StreamToPacket.Bounds.{consumed}

-- the packets among the posted messages
abbrev pub packets : List Call → List Packet
packets [] = []
packets (post_message (packet p) ∷ cs) = p ∷ packets cs
packets (c ∷ cs) = packets cs

-- The first start label that has come in, if there is one.
abbrev pub first_start : String → ℕ → List Label → List Label
first_start id n [] = []
first_start id n (l ∷ ls) = if ltb l.index n && str_eq l.id id then l ∷ [] else first_start id n ls

-- What that label makes of the frame.
abbrev pub frame_of : ℕ → BufferChunk → List Label → Frame
frame_of mtu buff [] = nothing
frame_of mtu buff (l ∷ _) =
    let out = output_length mtu buff.elem_size l in
    if ltb 0 l.index
    then skip l.index out
    else (if leb out buff.length then found out else wait out)

find_frame-frame_of :
    (id : String) (mtu : ℕ) (buff : BufferChunk) (ls : List Label)
    → find_frame id mtu buff ls ≡ frame_of mtu buff (first_start id buff.length ls)
unfolding find_frame
find_frame-frame_of id mtu buff [] = refl
find_frame-frame_of id mtu buff (l ∷ ls) = ground (arith, find_frame-frame_of id mtu buff ls)

-- The labels of a frame of `out` bytes, without the start labels.
abbrev pub inner_labels : String → ℕ → List Label → List Label
inner_labels id out [] = []
inner_labels id out (l ∷ ls) =
    if ltb l.index out && not (str_eq l.id id)
    then l ∷ inner_labels id out ls
    else inner_labels id out ls

-- The index of the first start label behind the front of the frame, or 0.
abbrev pub next_start : String → ℕ → List Label → ℕ
next_start id out [] = 0
next_start id out (l ∷ ls) =
    if ltb 0 l.index && (ltb l.index out && str_eq l.id id) then l.index else next_start id out ls

frame_labels-inner :
    (id : String) (out next : ℕ) (ls : List Label)
    → (frame_labels id out next ls).0 ≡ inner_labels id out ls
unfolding frame_labels
frame_labels-inner id out next [] = refl
frame_labels-inner id out next (l ∷ ls) = ground (
  arith,
  frame_labels-inner id out
      (if not (leb out l.index) && str_eq l.id id && (next == 0) then l.index else next) ls,
)

frame_labels-next_start :
    (id : String) (out next : ℕ) (ls : List Label)
    → (frame_labels id out next ls).1 ≡ (if next == 0 then next_start id out ls else next)
unfolding frame_labels
frame_labels-next_start id out next [] = ground arith
frame_labels-next_start id out next (l ∷ ls) = ground (
  arith,
  frame_labels-next_start id out
      (if not (leb out l.index) && str_eq l.id id && (next == 0) then l.index else next) ls,
)

-- What is done with a frame.
abbrev pub frame_spec : String → Input → Frame → List Call
frame_spec id inp nothing = consume inp.buffer.length ∷ []
frame_spec id inp (skip k out) = consume k ∷ set_reserve out ∷ []
frame_spec id inp (wait out) = set_reserve out ∷ []
frame_spec id inp (found out) =
    post_message (
      packet (record {
        payload = record inp.buffer { length = out };
        labels = inner_labels id out inp.labels;
      }))
    ∷ (set_reserve 0
        ∷ (consume (if next_start id out inp.labels == 0 then out else next_start id out inp.labels)
            ∷ []))

frame_calls-frame_spec :
    (s : StreamToPacket) (inp : Input) (f : Frame)
    → frame_calls s inp f ≡ frame_spec s.frame_start_id inp f
unfolding frame_calls
frame_calls-frame_spec s inp (found out) = rw (
  frame_labels-inner s.frame_start_id out 0 inp.labels,
  frame_labels-next_start s.frame_start_id out 0 inp.labels,
)
frame_calls-frame_spec s inp nothing = refl
frame_calls-frame_spec s inp (skip k out) = refl
frame_calls-frame_spec s inp (wait out) = refl

-- In the start-frame mode, with data available, the first start label that has come in decides.
-- Without one everything is dropped. One behind the front is brought to the front. One at the front
-- waits until its whole length is there, and then exactly one packet is posted: that length of the
-- buffer, with the labels in it that start no frame. The input is consumed up to the next start label
-- in the frame, or to the frame's end.
pub start_frame_mode_work_lem :
    (s : StreamToPacket) (inp : Input)
    → 0 < inp.buffer.length
    → start_frame_mode_work s inp
      ≡ frame_spec s.frame_start_id inp
          (frame_of s.mtu inp.buffer (first_start s.frame_start_id inp.buffer.length inp.labels))
unfolding start_frame_mode_work
start_frame_mode_work_lem s inp pos =
    let f = find_frame s.frame_start_id s.mtu inp.buffer inp.labels in
    let some_data : (inp.buffer.length == 0) ≡ false = ground arith in
    rw (
      some_data,
      frame_calls-frame_spec s inp f,
      find_frame-frame_of s.frame_start_id s.mtu inp.buffer inp.labels,
    )

next_start-lt : (id : String) (out : ℕ) (ls : List Label) → next_start id out ls ≤ out
next_start-lt id out [] = omega arith
next_start-lt id out (l ∷ ls) = ground (arith, next_start-lt id out ls)

inner_labels-zero : (id : String) (ls : List Label) → inner_labels id 0 ls ≡ []
inner_labels-zero id [] = refl
inner_labels-zero id (l ∷ ls) = ground (arith, inner_labels-zero id ls)

-- A start label at the front that gives no length, in a block whose MTU is the default 0: the work posts
-- an empty packet and consumes nothing, so that the next call sees the same input.
pub start_frame_stalls :
    (s : StreamToPacket) (inp : Input) (l : Label) (rest : List Label)
    → 0 < inp.buffer.length
    → s.mtu ≡ 0
    → first_start s.frame_start_id inp.buffer.length inp.labels ≡ l ∷ rest
    → l.index ≡ 0
    → l.count ≡ none
    → (packets (start_frame_mode_work s inp)
        ≡ record { payload = record inp.buffer { length = 0 }; labels = [] } ∷ [])
      × (consumed (start_frame_mode_work s inp) ≡ 0)
unfolding output_length
start_frame_stalls s inp l rest pos no_mtu first front no_count =
    let f = frame_of s.mtu inp.buffer (l ∷ rest) in
    let is_found : f ≡ found 0 = ground arith in
    rw
      (
        start_frame_mode_work_lem s inp pos,
        first,
        is_found,
        inner_labels-zero s.frame_start_id inp.labels,
      )
      (refl, ground (arith, next_start-lt s.frame_start_id 0 inp.labels))
