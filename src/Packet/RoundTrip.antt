-- ===== src/Packet/RoundTrip.antt =====
-- A packet that goes through PacketToStream and then, in the full-frame mode, StreamToPacket.
use Prim.Native.String.{String}
use native.Mathlib.Nat.{div-lt_iff_lt-mul, mul-div_cancel, zero-div}
use text.Mathlib.TextPositions.{eq_refl}
use text.Mathlib.Text.{◌==◌ as str_eq}
use pothos_blocks.Shared.{
  ℕ, suc, ◌+◌, ◌-◌, ◌*◌, ◌/◌, ◌%◌, ◌^◌, ◌<◌, ◌≡◌, ◌↔◌, ap, ◌∙◌, true, false, List, [], ◌∷◌, ◌++◌,
  map, some, arith, length, length-map,
}
use pothos_blocks.Pothos.{
  BufferChunk, Label, Packet, packet, consume, post_message, Input, Framework,
}
use pothos_blocks.Packet.StreamToPacket.{
  StreamToPacket, is_empty, find_start, take_labels, clip, make_packet, enter_frame, stream_work,
  work,
}
use pothos_blocks.Packet.StreamToPacket.Bounds.{All}
use pothos_blocks.Packet.PacketToStream.{PacketToStream, frame_label, post_packet, post_any}
use pothos_blocks.Packet.PacketToStream
use pothos_blocks.Packet.Port.{
  labels_of, buffers_of, messages_of, labels_of-map, buffers_of-map, messages_of-map, arrived,
  arrived_lem,
}

some-pos : (n k : ℕ) → 0 < k → 0 < suc n * k
some-pos n k h = grind arith

module _ (fw : Framework) where
  same_label :
      (a b : Label)
      → a.id ≡ b.id
      → a.count ≡ b.count
      → a.index ≡ b.index
      → a.width ≡ b.width
      → a ≡ b
  same_label a b p q r s = ground arith

  -- Elements to bytes and back.
  adjust_back : (l : Label) (k : ℕ) → 0 < k → fw.to_adjusted (fw.to_adjusted l k 1) 1 k ≡ l
  adjust_back l k h =
      let m = fw.to_adjusted l k 1 in
      let back = λ (n : ℕ). mul-div_cancel n h in
      same_label _ _ (fw.adjusted_id m 1 k ∙ fw.adjusted_id l k 1)
        (fw.adjusted_count m 1 k ∙ fw.adjusted_count l k 1)
        (fw.adjusted_index m 1 k h
          ∙ ap (λ j. j / k) (omega (arith, fw.adjusted_index l k 1 (omega arith)))
          ∙ back l.index)
        (fw.adjusted_width m 1 k h
          ∙ ap (λ j. j / k) (omega (arith, fw.adjusted_width l k 1 (omega arith)))
          ∙ back l.width)

  -- The frame labels that PacketToStream posts for a buffer.
  abbrev pub start_label : String → BufferChunk → Label
  start_label id buff = record {
    id = id;
    count = some (fw.elements buff);
    index = 0;
    width = buff.elem_size;
  }

  abbrev pub end_label : String → BufferChunk → Label
  end_label id buff = record {
    id = id;
    count = some (fw.elements buff);
    index = buff.length - 1;
    width = buff.elem_size;
  }

  abbrev pub to_bytes : ℕ → Label → Label
  to_bytes k l = fw.to_adjusted l k 1

  abbrev pub to_elems : ℕ → Label → Label
  to_elems k l = fw.to_adjusted l 1 k

  post_packet-labels :
      (p : PacketToStream) (pkt : Packet)
      → is_empty p.frame_start_id ≡ false
      → is_empty p.frame_end_id ≡ false
      → 0 < pkt.payload.length
      → pkt.payload.length < 2 ^ 64
      → labels_of (post_packet fw p pkt)
        ≡ map (to_bytes pkt.payload.elem_size) pkt.labels
          ++ (start_label p.frame_start_id pkt.payload
              ∷ (end_label p.frame_end_id pkt.payload ∷ []))
  unfolding post_packet frame_label
  post_packet-labels p pkt s e pos small =
      let last : (pkt.payload.length + 2 ^ 64 - 1) % 2 ^ 64 ≡ pkt.payload.length - 1 =
        omega arith in
      labels_of-map (to_bytes pkt.payload.elem_size) pkt.labels _ ∙ rw (s, e, last)

  post_packet-buffers :
      (p : PacketToStream) (pkt : Packet)
      → is_empty p.frame_start_id ≡ false
      → is_empty p.frame_end_id ≡ false
      → buffers_of (post_packet fw p pkt) ≡ pkt.payload ∷ []
  unfolding post_packet frame_label
  post_packet-buffers p pkt s e =
      buffers_of-map (to_bytes pkt.payload.elem_size) pkt.labels _ ∙ rw (s, e)

  post_packet-messages :
      (p : PacketToStream) (pkt : Packet)
      → is_empty p.frame_start_id ≡ false
      → is_empty p.frame_end_id ≡ false
      → messages_of (post_packet fw p pkt) ≡ []
  unfolding post_packet frame_label
  post_packet-messages p pkt s e =
      messages_of-map (to_bytes pkt.payload.elem_size) pkt.labels _ ∙ rw (s, e)

  -- The labels of a packet of `n` elements, none of which ends a frame.
  abbrev pub IsInner : String → ℕ → Label → Type 0
  IsInner end_id n l = (l.index < n) × (str_eq l.id end_id ≡ false)

  elements-eq :
      (payload : BufferChunk) (n : ℕ)
      → 0 < payload.elem_size
      → payload.length ≡ suc n * payload.elem_size
      → fw.elements payload ≡ suc n
  elements-eq payload n pos len =
      fw.elements_lem payload pos ∙ ap (λ j. j / payload.elem_size) len ∙ mul-div_cancel (suc n) pos

  -- the end label lies in the last element
  end-lt :
      (payload : BufferChunk) (n : ℕ) (id : String)
      → 0 < payload.elem_size
      → payload.length ≡ suc n * payload.elem_size
      → (to_elems payload.elem_size (end_label id payload)).index < suc n
  end-lt payload n id pos len =
      let k = payload.elem_size in
      let below : (payload.length - 1) * 1 / k < suc n =
        (div-lt_iff_lt-mul {k = k} {x = (payload.length - 1) * 1} {y = suc n} pos).1
          (omega (arith, some-pos n k pos)) in
      omega (arith, fw.adjusted_index (end_label id payload) 1 k pos)

  take_labels-inner :
      (s : StreamToPacket) (payload : BufferChunk) (n : ℕ) (ls : List Label)
      → s.full_frame_mode ≡ true
      → 0 < payload.elem_size
      → payload.length ≡ suc n * payload.elem_size
      → All (IsInner s.frame_end_id (suc n)) ls
      → let e = end_label s.frame_end_id payload in
        take_labels fw s payload (map (to_bytes payload.elem_size) ls ++ (e ∷ [])) ≡ record {
          labels = ls ++ (to_elems payload.elem_size e ∷ []);
          length = e.index + e.width;
          in_frame = false;
        }
  unfolding take_labels
  take_labels-inner s payload n [] full pos len ok = ground (
    arith,
    full,
    elements-eq payload n pos len,
    end-lt payload n s.frame_end_id pos len,
    eq_refl s.frame_end_id,
  )
  take_labels-inner s payload n (l ∷ ls) full pos len ok =
      let k = payload.elem_size in
      ground (
        arith,
        elements-eq payload n pos len,
        adjust_back l k pos,
        ap (λ i. str_eq i s.frame_end_id) (fw.adjusted_id l k 1),
        ok.0,
        take_labels-inner s payload n ls full pos len ok.1,
      )

  -- the labels of the whole frame
  take_labels-frame :
      (s : StreamToPacket) (payload : BufferChunk) (n : ℕ) (ls : List Label)
      → str_eq s.frame_start_id s.frame_end_id ≡ false
      → s.full_frame_mode ≡ true
      → 0 < payload.elem_size
      → payload.length ≡ suc n * payload.elem_size
      → All (IsInner s.frame_end_id (suc n)) ls
      → let b = start_label s.frame_start_id payload in
        let e = end_label s.frame_end_id payload in
        take_labels fw s payload (b ∷ (map (to_bytes payload.elem_size) ls ++ (e ∷ []))) ≡ record {
          labels = to_elems payload.elem_size b ∷ (ls ++ (to_elems payload.elem_size e ∷ []));
          length = e.index + e.width;
          in_frame = false;
        }
  unfolding take_labels
  take_labels-frame s payload n ls ne full pos len ok =
      let b = start_label s.frame_start_id payload in
      ground (
        arith,
        elements-eq payload n pos len,
        fw.adjusted_index b 1 payload.elem_size pos,
        zero-div payload.elem_size,
        take_labels-inner s payload n ls full pos len ok,
      )

  -- PacketToStream with the ids of a StreamToPacket.
  abbrev pub peer : StreamToPacket → PacketToStream
  peer s = record { frame_start_id = s.frame_start_id; frame_end_id = s.frame_end_id }

  -- The input port that holds the stream of a packet, its labels in the order of their positions.
  abbrev pub streamed : StreamToPacket → Packet → Input
  streamed s pkt = record {
    messages = [];
    labels =
        start_label s.frame_start_id pkt.payload
        ∷ (map (to_bytes pkt.payload.elem_size) pkt.labels
            ++ (end_label s.frame_end_id pkt.payload ∷ []));
    elements = pkt.payload.length;
    buffer = pkt.payload;
  }

  -- The packet that comes out of StreamToPacket.
  abbrev pub reframed : StreamToPacket → Packet → Packet
  reframed s pkt =
      let k = pkt.payload.elem_size in
      record {
        payload = record pkt.payload { length = pkt.payload.length - 1 + k };
        labels =
            to_elems k (start_label s.frame_start_id pkt.payload)
            ∷ (pkt.labels ++ (to_elems k (end_label s.frame_end_id pkt.payload) ∷ []));
      }

  -- A StreamToPacket in the full-frame mode, between frames, with no MTU.
  pub record IsWaiting (s : StreamToPacket) : Type 0 where
    pub start_id : is_empty s.frame_start_id ≡ false
    pub end_id : is_empty s.frame_end_id ≡ false
    pub two_ids : str_eq s.frame_start_id s.frame_end_id ≡ false
    pub full : s.full_frame_mode ≡ true
    pub no_start : s.start_frame_mode ≡ false
    pub outside : s.in_frame ≡ false
    pub no_mtu : s.mtu ≡ 0

  streamed-work :
      (s : StreamToPacket) (pkt : Packet) (n : ℕ)
      → IsWaiting s
      → 0 < pkt.payload.elem_size
      → pkt.payload.length ≡ suc n * pkt.payload.elem_size
      → All (IsInner s.frame_end_id (suc n)) pkt.labels
      → work fw s (streamed s pkt) ≡ (
        record s { in_frame = false },
        consume (pkt.payload.length - 1 + pkt.payload.elem_size)
            ∷ (post_message (packet (reframed s pkt)) ∷ []),
      )
  unfolding work stream_work find_start enter_frame make_packet clip
  streamed-work s pkt n w pos len ok = ground (
    arith,
    w,
    some-pos n pkt.payload.elem_size pos,
    eq_refl s.frame_start_id,
    take_labels-frame (record s { in_frame = true }) pkt.payload n pkt.labels w.two_ids w.full pos
        len ok,
  )

  arrived-streamed :
      (s : StreamToPacket) (pkt : Packet)
      → IsWaiting s
      → 0 < pkt.payload.length
      → pkt.payload.length < 2 ^ 64
      → arrived (length pkt.labels) (PacketToStream.work fw (peer s) (packet pkt ∷ [])).0
        ≡ streamed s pkt
  unfolding PacketToStream.work post_any
  arrived-streamed s pkt w full small =
      let k = pkt.payload.elem_size in
      arrived_lem (length pkt.labels) (post_packet fw (peer s) pkt) (map (to_bytes k) pkt.labels)
        (start_label s.frame_start_id pkt.payload) (end_label s.frame_end_id pkt.payload)
        pkt.payload (length-map pkt.labels (to_bytes k))
        (post_packet-messages (peer s) pkt w.start_id w.end_id)
        (post_packet-labels (peer s) pkt w.start_id w.end_id full small)
        (post_packet-buffers (peer s) pkt w.start_id w.end_id)

  -- Let PacketToStream and StreamToPacket have the same two frame ids, let a packet of whole elements
  -- and fewer than 2^64 bytes, whose labels lie in it and do not end a frame, come in at the first, and
  -- let the second (in the full-frame mode, between frames, with no MTU) get what the first posts, with
  -- the start label in front of the others. Then it consumes and posts one packet at the same address, with
  -- the packet's labels between the two frame labels. But its length is the packet's length - 1 + the
  -- element size, as PacketToStream places the end label at the last byte with the width of an element; so
  -- it is the packet's own length exactly for elements of one byte.
  pub full_frame_round_trip :
      (s : StreamToPacket) (pkt : Packet) (n : ℕ)
      → IsWaiting s
      → 0 < pkt.payload.elem_size
      → pkt.payload.length ≡ suc n * pkt.payload.elem_size
      → pkt.payload.length < 2 ^ 64
      → All (IsInner s.frame_end_id (suc n)) pkt.labels
      → let (calls, ms) = PacketToStream.work fw (peer s) (packet pkt ∷ []) in
        (work fw s (arrived (length pkt.labels) calls) ≡ (
          record s { in_frame = false },
          consume (pkt.payload.length - 1 + pkt.payload.elem_size)
              ∷ (post_message (packet (reframed s pkt)) ∷ []),
        ))
        × ((reframed s pkt).payload ≡ pkt.payload ↔ pkt.payload.elem_size ≡ 1)
  full_frame_round_trip s pkt n w pos len small ok =
      let full : 0 < pkt.payload.length =
        omega (arith, len, some-pos n pkt.payload.elem_size pos) in
      (
        ap (work fw s) (arrived-streamed s pkt w full small) ∙ streamed-work s pkt n w pos len ok,
        (
          (λ e. omega (arith, full, ap (λ c. c.length) e)),
          (λ e. ap (λ l. record pkt.payload { length = l }) (omega (arith, full))),
        ),
      )
