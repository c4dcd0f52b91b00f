-- ===== src/Network/Sink.antt =====
-- network/NetworkSink.cpp. `work` gives the packets that it sends, in order.
use pothos_blocks.Shared.{ℕ, Bool, List, [], ◌∷◌, ◌++◌, length, leb, ◌==◌, if◌then◌else◌}
use pothos_blocks.Network.Codec.{
  Codec, Sent, type_message, type_label, type_buffer, type_dtype, type_header, type_payload,
}

module _ (c : Codec) where
  -- A message at the input: a packet, by its header, its payload and the payload's element type, or
  -- another object.
  pub data Message : Type 0 where
    packet : c.Header → List ℕ → c.DType → Message
    other : c.Object → Message

  -- What the input port shows to `work`.
  pub record Input : Type 0 where
    pub messages : List Message
    pub labels : List c.Label
    pub elements : ℕ
    pub buffer : List ℕ
    pub dtype : c.DType

  -- `updateDType`: what is sent, and `_lastDtype`.
  unfoldable pub update_dtype : c.DType → c.DType → List Sent × c.DType
  update_dtype last dtype =
      if c.same last dtype
      then ([], last)
      else (record { type = type_dtype; bytes = c.dtypes.serialize dtype } ∷ [], dtype)

  unfoldable pub send_message : c.DType → Message → List Sent × c.DType
  unfolding update_dtype
  send_message last (packet header payload dtype) =
      let (types, last') = update_dtype last dtype in
      (
        record { type = type_header; bytes = c.headers.serialize header }
            ∷ (types ++ (record { type = type_payload; bytes = payload } ∷ [])),
        last',
      )
  send_message last (other obj) =
      (record { type = type_message; bytes = c.objects.serialize obj } ∷ [], last)

  -- The loop over the messages.
  unfoldable pub send_messages : c.DType → List Message → List Sent × c.DType
  unfolding send_message
  send_messages last [] = ([], last)
  send_messages last (m ∷ ms) =
      let (out, last') = send_message last m in
      let (rest, last'') = send_messages last' ms in (out ++ rest, last'')

  -- The loop over the labels of the buffer.
  unfoldable pub send_labels : ℕ → List c.Label → List Sent
  send_labels elements [] = []
  send_labels elements (l ∷ ls) =
      let rest = send_labels elements ls in
      if leb elements (c.label_index l)
      then []
      else record { type = type_label; bytes = c.labels.serialize l } ∷ rest

  unfoldable pub send_buffer : c.DType → Input → List Sent × c.DType
  unfolding update_dtype
  send_buffer last inp =
      let (types, last') = update_dtype last inp.dtype in
      if length inp.buffer == 0
      then ([], last)
      else (types ++ (record { type = type_buffer; bytes = inp.buffer } ∷ []), last')

  -- `work`, where `ready` is what the endpoint's `isReady` gives: what is sent, `_lastDtype`, and how
  -- many elements are consumed.
  unfoldable pub work : Bool → c.DType → Input → List Sent × c.DType × ℕ
  unfolding send_messages send_labels send_buffer
  work ready last inp =
      let (ms, last') = send_messages last inp.messages in
      let (bs, last'') = send_buffer last' inp in
      if ready
      then (
        ms ++ (send_labels inp.elements inp.labels ++ bs),
        last'',
        if length inp.buffer == 0 then 0 else inp.elements,
      )
      else ([], last, 0)
