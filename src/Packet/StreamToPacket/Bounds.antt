-- ===== src/Packet/StreamToPacket/Bounds.antt =====
-- How much of its input a StreamToPacket consumes, and how large its packets are.
use native.Mathlib.Nat.{div-lt_iff_lt-mul, div-mul-le_self}
use Prim.Native.String.{String}
use text.Mathlib.Text.{◌==◌ as str_eq}
use pothos_blocks.Shared.{
  ℕ, ◌+◌, ◌*◌, ◌/◌, ◌≤◌, ◌<◌, ◌≡◌, refl, true, ◌&&◌, not, List, [], ◌∷◌, ◌++◌, map, arith,
  if◌then◌else◌, leb, ◌==◌,
}
use pothos_blocks.Pothos.{
  BufferChunk, Label, Message, Call, consume, post_message, Input, Framework,
}
use pothos_blocks.Packet.StreamToPacket.{
  StreamToPacket, Start, missing, at_front, later, Frame, nothing, skip, wait, found, find_start,
  find_frame, frame_labels, frame_calls, start_frame_mode_work, take_labels, clip, make_packet,
  enter_frame, stream_work, work, output_length,
}

-- the sum of the `consume` calls
abbrev pub consumed : List Call → ℕ
consumed [] = 0
consumed (consume n ∷ cs) = n + consumed cs
consumed (c ∷ cs) = consumed cs

abbrev pub All {ℓ κ} : {A : Type ℓ} → (A → Type κ) → List A → Type κ
All P [] = Unit
All P (x ∷ xs) = P x × All P xs

-- A label that starts in the first `n` elements ends in them.
abbrev pub Fits : ℕ → Label → Type 0
Fits n l = l.index < n → l.index + l.width ≤ n

consumed-messages :
    (ms : List Message) (cs : List Call) → consumed (map post_message ms ++ cs) ≡ consumed cs
consumed-messages [] cs = refl
consumed-messages (m ∷ ms) cs = consumed-messages ms cs

find_start-later :
    (id : String) (n : ℕ) (ls : List Label) (k : ℕ) → find_start id n ls ≡ later k → k < n
unfolding find_start
find_start-later id n [] k e = cc
find_start-later id n (l ∷ ls) k e = ground (arith, find_start-later id n ls k)

-- What `frame_calls` may do with a frame of the first `n` bytes.
abbrev FrameWithin : ℕ → Frame → Type 0
FrameWithin n nothing = Unit
FrameWithin n (skip k out) = k < n
FrameWithin n (wait out) = n < out
FrameWithin n (found out) = out ≤ n

find_frame-within :
    (id : String) (mtu : ℕ) (buff : BufferChunk) (ls : List Label)
    → FrameWithin buff.length (find_frame id mtu buff ls)
unfolding find_frame
find_frame-within id mtu buff [] = tt
find_frame-within id mtu buff (l ∷ ls) =
    let out = output_length mtu buff.elem_size l in ground (arith, find_frame-within id mtu buff ls)

frame_labels-next :
    (id : String) (out next : ℕ) (ls : List Label)
    → next ≤ out
    → (frame_labels id out next ls).1 ≤ out
unfolding frame_labels
frame_labels-next id out next [] h = h
frame_labels-next id out next (l ∷ ls) h = ground (
  arith,
  frame_labels-next id out
      (if not (leb out l.index) && str_eq l.id id && (next == 0) then l.index else next) ls,
)

module _ (fw : Framework) where
  -- a label that is taken for the payload starts in the payload's whole elements
  adjusted-lt :
      (payload : BufferChunk) (l : Label)
      → 0 < payload.elem_size
      → (fw.to_adjusted l 1 payload.elem_size).index < fw.elements payload
      → l.index < payload.length / payload.elem_size * payload.elem_size
  adjusted-lt payload l pos h =
      let size = payload.elem_size in
      let h' : l.index * 1 / size < payload.length / size =
        omega (arith, fw.adjusted_index l 1 size pos, fw.elements_lem payload pos) in
      omega (arith, (div-lt_iff_lt-mul {k = size} {x = l.index * 1} pos).0 h')

  take_labels-within :
      (s : StreamToPacket) (payload : BufferChunk) (ls : List Label) (n : ℕ)
      → 0 < payload.elem_size
      → payload.length ≤ n
      → All (Fits n) ls
      → (take_labels fw s payload ls).length ≤ n
  unfolding take_labels
  take_labels-within s payload [] n pos le fit = le
  take_labels-within s payload (l ∷ ls) n pos le fit = ground (
    arith,
    take_labels-within s payload ls n pos le fit.1,
    fit.0,
    adjusted-lt payload l pos,
    div-mul-le_self payload.length payload.elem_size,
  )

  clip-length-le : (mtu : ℕ) (buff : BufferChunk) → (clip fw mtu buff).length ≤ buff.length
  unfolding clip
  clip-length-le mtu buff = ground arith

  clip-elem_size : (mtu : ℕ) (buff : BufferChunk) → (clip fw mtu buff).elem_size ≡ buff.elem_size
  unfolding clip
  clip-elem_size mtu buff = ground arith

  make_packet-within :
      (s : StreamToPacket) (inp : Input)
      → 0 < inp.buffer.elem_size
      → inp.buffer.length ≡ inp.elements
      → All (Fits inp.elements) inp.labels
      → consumed (make_packet fw s inp).1 ≤ inp.elements
  unfolding make_packet
  make_packet-within s inp pos same fit = omega (
    arith,
    take_labels-within s (clip fw s.mtu inp.buffer) inp.labels inp.elements
        (omega (arith, clip-elem_size s.mtu inp.buffer))
        (omega (arith, clip-length-le s.mtu inp.buffer)) fit,
  )

  frame_calls-within :
      (s : StreamToPacket) (inp : Input) (f : Frame)
      → FrameWithin inp.buffer.length f
      → consumed (frame_calls s inp f) ≤ inp.buffer.length
  unfolding frame_calls
  frame_calls-within s inp nothing h = omega arith
  frame_calls-within s inp (skip k out) h = omega arith
  frame_calls-within s inp (wait out) h = omega arith
  frame_calls-within s inp (found out) h =
      ground (arith, frame_labels-next s.frame_start_id out 0 inp.labels)

  start_frame-within :
      (s : StreamToPacket) (inp : Input)
      → consumed (start_frame_mode_work s inp) ≤ inp.buffer.length
  unfolding start_frame_mode_work
  start_frame-within s inp =
      let f = find_frame s.frame_start_id s.mtu inp.buffer inp.labels in
      ground (
        arith,
        frame_calls-within s inp f (find_frame-within s.frame_start_id s.mtu inp.buffer inp.labels),
      )

  enter_frame-within :
      (s : StreamToPacket) (inp : Input) (st : Start)
      → 0 < inp.buffer.elem_size
      → inp.buffer.length ≡ inp.elements
      → All (Fits inp.elements) inp.labels
      → find_start s.frame_start_id inp.elements inp.labels ≡ st
      → consumed (enter_frame fw s inp st).1 ≤ inp.elements
  unfolding enter_frame
  enter_frame-within s inp missing pos same fit e = omega arith
  enter_frame-within s inp at_front pos same fit e =
      make_packet-within (record s { in_frame = true }) inp pos same fit
  enter_frame-within s inp (later k) pos same fit e =
      omega (arith, find_start-later s.frame_start_id inp.elements inp.labels k e)

  -- Where the input's buffer holds exactly the available bytes and every label that starts in them
  -- also ends in them, `work` never consumes more than is available, in any mode.
  pub work-consumed-le :
      (s : StreamToPacket) (inp : Input)
      → 0 < inp.buffer.elem_size
      → inp.buffer.length ≡ inp.elements
      → All (Fits inp.elements) inp.labels
      → consumed (work fw s inp).1 ≤ inp.elements
  unfolding work stream_work
  work-consumed-le s inp pos same fit = ground (
    arith,
    consumed-messages inp.messages (stream_work fw s inp).1,
    start_frame-within s inp,
    enter_frame-within s inp (find_start s.frame_start_id inp.elements inp.labels) pos same fit
        refl,
    make_packet-within s inp pos same fit,
  )
