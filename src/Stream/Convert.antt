-- ===== src/Stream/Convert.antt =====
-- stream/Reinterpret.cpp and stream/Converter.cpp. An element type is its size where only that is used.
use pothos_blocks.Shared.{
  ℕ, ◌+◌, ◌*◌, ◌/◌, ◌≤◌, ◌<◌, min, List, [], ◌∷◌, map, Option, none, some, ◌==◌, if◌then◌else◌,
  arith, Bool-cases, inl, inr,
}
use pothos_blocks.Pothos.{
  Label, Packet, Message, packet, other, Call, consume, post_message, post_label, post_buffer,
  Input, Framework,
}

unfoldable pub at_least_one : Label → Label
at_least_one l = if l.width == 0 then record l { width = 1 } else l

floor : (n d : ℕ) → 0 < d → (n / d * d ≤ n) × (n < n / d * d + d)
floor n d h = (omega arith, omega arith)

module _ (fw : Framework) where
  -- A label of a packet, for elements of the one size and of the other.
  unfoldable pub relabel : ℕ → ℕ → Label → Label
  unfolding at_least_one
  relabel in_size out_size l = at_least_one (fw.to_adjusted l in_size out_size)

  unfoldable pub reinterpret_packet : ℕ → Packet → Packet
  unfolding relabel
  reinterpret_packet out_size pkt =
      let c = pkt.payload in
      record {
        payload = record c { elem_size = out_size };
        labels = map (relabel c.elem_size out_size) pkt.labels;
      }

  -- The stream buffer, which `takeBuffer` takes whole; the elements of the port are its bytes.
  unfoldable pub reinterpret_buffer : ℕ → Input → List Call
  reinterpret_buffer out_size inp =
      let c = inp.buffer in
      if c.length == 0
      then []
      else (consume inp.elements ∷ post_buffer (record c { elem_size = out_size }) ∷ [])

  -- The message, in front of the calls for the stream.
  unfoldable pub reinterpret_message :
      ℕ → List Message → List Call → Option (List Call) × List Message
  unfolding reinterpret_packet
  reinterpret_message out_size [] calls = (some calls, [])
  reinterpret_message out_size (other n ∷ ms) calls = (none, ms)
  reinterpret_message out_size (packet p ∷ ms) calls =
      (some (post_message (packet (reinterpret_packet out_size p)) ∷ calls), ms)

  -- `Reinterpret::work`: the calls of the block, and the messages that are left. A message that is no
  -- packet throws, with no call made.
  unfoldable pub reinterpret_work : ℕ → Input → Option (List Call) × List Message
  unfolding reinterpret_message reinterpret_buffer
  reinterpret_work out_size inp =
      reinterpret_message out_size inp.messages (reinterpret_buffer out_size inp)

  -- `Reinterpret::propagateLabels`
  unfoldable pub reinterpret_labels : ℕ → List Label → List Call
  unfolding relabel
  reinterpret_labels out_size [] = []
  reinterpret_labels out_size (l ∷ ls) =
      post_label (relabel 1 out_size l) ∷ reinterpret_labels out_size ls

  -- `Converter::propagateLabels`, over the size of the input buffer's element type
  unfoldable pub converter_labels : ℕ → List Label → List Call
  converter_labels in_size [] = []
  converter_labels in_size (l ∷ ls) =
      post_label (fw.to_adjusted l 1 in_size) ∷ converter_labels in_size ls

  -- A label that is relabelled stands at the element that its first byte is in, and is not empty.
  pub relabel_lem :
      (in_size out_size : ℕ) (l : Label)
      → 0 < out_size
      → let l' = relabel in_size out_size l in
        (l'.index * out_size ≤ l.index * in_size)
        × (l.index * in_size < l'.index * out_size + out_size)
        × (0 < l'.width)
  unfolding relabel at_least_one
  relabel_lem in_size out_size l h =
      let a = fw.to_adjusted l in_size out_size in
      let e = fw.adjusted_index l in_size out_size h in
      let q = floor (l.index * in_size) out_size h in
      elim (Bool-cases (a.width == 0)) [
        | inl empty ↦ rw empty (rw e (q.0, q.1, omega arith))
        | inr wide ↦ rw wide (rw e (q.0, q.1, ground (arith, wide)))
      ]

-- Converter, over an element type, its size, and the conversion of a buffer to one.
pub record Conversion : Type 1 where
  pub DType : Type 0
  pub size : DType → ℕ
  pub Buffer : Type 0
  pub dtype_of : Buffer → DType
  pub byte_length : Buffer → ℕ
  pub elements_of : Buffer → ℕ
  pub convert : Buffer → DType → Buffer
  pub first_elements : Buffer → ℕ → Buffer

module _ (c : Conversion) where
  pub record TypedPacket : Type 0 where
    pub payload : c.Buffer
    pub labels : List Label

  pub data TypedMessage : Type 0 where
    typed_packet : TypedPacket → TypedMessage
    untyped : ℕ → TypedMessage

  -- What the stream gives: what is written to the output buffer, with the elements produced and the
  -- bytes consumed.
  pub record Produced : Type 0 where
    pub written : c.Buffer
    pub produced : ℕ
    pub consumed : ℕ

  -- The payload is converted; the labels stay.
  unfoldable pub convert_packet : c.DType → TypedPacket → TypedPacket
  convert_packet dtype pkt = record pkt { payload = c.convert pkt.payload dtype }

  -- The stream, with the elements that the output buffer has room for.
  unfoldable pub convert_buffer : c.DType → ℕ → c.Buffer → Option Produced
  convert_buffer dtype room buff =
      let n = min room (c.elements_of buff) in
      if c.byte_length buff == 0
      then none
      else some (record {
        written = c.convert (c.first_elements buff n) dtype;
        produced = n;
        consumed = n * c.size (c.dtype_of buff);
      })

  -- `Converter::work`: the packet that is posted and what the stream gives, or none where a message is
  -- no packet, which throws.
  unfoldable pub converter_work :
      c.DType
      → ℕ
      → List TypedMessage
      → c.Buffer
      → Option (Option TypedPacket × Option Produced) × List TypedMessage
  unfolding convert_packet convert_buffer
  converter_work dtype room [] buff = (some (none, convert_buffer dtype room buff), [])
  converter_work dtype room (untyped n ∷ ms) buff = (none, ms)
  converter_work dtype room (typed_packet p ∷ ms) buff =
      (some (some (convert_packet dtype p), convert_buffer dtype room buff), ms)
