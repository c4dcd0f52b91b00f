-- ===== src/Network/Carries.antt =====
-- What NetworkSource makes of the packets that NetworkSink sends for a message, a label or a buffer.
use mathlib.Core.List.{append-nil}
use pothos_blocks.Shared.{
  empty, ℕ, ◌≡◌, refl, ap, ◌∙◌, List, [], ◌∷◌, ◌++◌, map, length, leb, ◌==◌, if◌then◌else◌, returns,
  Bool-cases, inl, inr,
}
use pothos_blocks.Network.Codec.{
  Codec, Sent, type_message, type_label, type_buffer, type_header, type_payload,
}
use pothos_blocks.Network.Sink.{
  Message, packet, other, Input, update_dtype, send_message, send_messages, send_labels,
  send_buffer,
}
use pothos_blocks.Network.Source.{NetworkSource, handle}
use pothos_blocks.Network.Carry.{
  Out, byte, message, packet as out_packet, label, after, run, in_order, run-append, bind,
}

module _ (c : Codec) where
  abbrev pub source : c.DType → c.Header → NetworkSource c
  source d h = record { last_dtype = d; packet_header = h }

  -- The packets are received without an exception, with this to be seen.
  pub record Carries (d : c.DType) (h : c.Header) (ss : List Sent) (outs : List (Out c))
      (d' : c.DType) (h' : c.Header) : Type 0 where
    pub runs : run c (source d h) (in_order c ss) ≡ (returns tt, outs, source d' h')

  pub Carries-append :
      {d d' d'' : c.DType} {h h' h'' : c.Header} {xs ys : List Sent} {os ps : List (Out c)}
      → Carries d h xs os d' h'
      → Carries d' h' ys ps d'' h''
      → Carries d h (xs ++ ys) (os ++ ps) d'' h''
  Carries-append {d} {d'} {h} {h'} {xs} {ys} {os} p q = record {
    runs =
        run-append c xs ys (source d h)
        ∙ ap (λ r. bind c r (λ t. run c t (in_order c ys))) p.runs
        ∙ ap (after c (returns tt) os (source d' h')) q.runs;
  }

  -- a change of the element type
  update_dtype-Carries :
      (last dtype : c.DType) (h : c.Header)
      → ((update_dtype c last dtype).1 ≡ dtype)
        × Carries last h (update_dtype c last dtype).0 [] dtype h
  unfolding update_dtype run handle
  update_dtype-Carries last dtype h = elim (Bool-cases (c.same last dtype)) [
    | inl e ↦
        let same = (c.same_iff last dtype).0 e in
        (rw (e, same) refl, record { runs = rw (e, same) refl })
    | inr e ↦ (rw e refl, record { runs = rw (e, c.dtypes.back dtype) refl })
  ]

  abbrev pub message_out : Message c → Out c
  message_out (packet h bytes d) = out_packet h bytes d
  message_out (other m) = message m

  header-Carries :
      (last : c.DType) (h header : c.Header)
      → Carries last h
          (record { type = type_header; bytes = c.headers.serialize header } ∷ [])
          []
          last
          header
  unfolding run handle
  header-Carries last h header = record { runs = rw (c.headers.back header) refl }

  payload-Carries :
      (last : c.DType) (h : c.Header) (bytes : List ℕ)
      → Carries last h
          (record { type = type_payload; bytes = bytes } ∷ [])
          (out_packet h bytes last ∷ [])
          last
          c.moved_from
  unfolding run handle
  payload-Carries last h bytes = record { runs = refl }

  buffer-Carries :
      (last : c.DType) (h : c.Header) (bytes : List ℕ)
      → Carries last h
          (record { type = type_buffer; bytes = bytes } ∷ [])
          (map (byte last) bytes)
          last
          h
  unfolding run handle
  buffer-Carries last h bytes = record {
    runs =
        ap (λ l. (returns tt, l, source last h))
          (append-nil (map (byte last) bytes ++ []) ∙ append-nil (map (byte last) bytes));
  }

  message-Carries :
      (last : c.DType) (h : c.Header) (m : c.Object)
      → Carries last h
          (record { type = type_message; bytes = c.objects.serialize m } ∷ [])
          (message m ∷ [])
          last
          h
  unfolding run handle
  message-Carries last h m = record { runs = rw (c.objects.back m) refl }

  label-Carries :
      (last : c.DType) (h : c.Header) (l : c.Label)
      → Carries last h
          (record { type = type_label; bytes = c.labels.serialize l } ∷ [])
          (label l ∷ [])
          last
          h
  unfolding run handle
  label-Carries last h l = record { runs = rw (c.labels.back l) refl }

  -- the header that is left behind a message
  header_after : c.Header → Message c → c.Header
  header_after h (packet h' bytes d) = c.moved_from
  header_after h (other m) = h

  send_message-Carries :
      (last : c.DType) (h : c.Header) (m : Message c)
      → Carries last h
          (send_message c last m).0
          (message_out m ∷ [])
          (send_message c last m).1
          (header_after h m)
  unfolding send_message header_after
  send_message-Carries last h (packet header payload dtype) =
      let (e, types) = update_dtype-Carries last dtype header in
      Carries-append (header-Carries last h header)
        (Carries-append types (rw e (payload-Carries dtype header payload)))
  send_message-Carries last h (other m) = message-Carries last h m

  pub headers_after : c.Header → List (Message c) → c.Header
  headers_after h [] = h
  headers_after h (m ∷ ms) = headers_after (header_after h m) ms

  pub send_messages-Carries :
      (last : c.DType) (h : c.Header) (ms : List (Message c))
      → Carries last h
          (send_messages c last ms).0
          (map message_out ms)
          (send_messages c last ms).1
          (headers_after h ms)
  unfolding send_messages headers_after run
  send_messages-Carries last h [] = record { runs = refl }
  send_messages-Carries last h (m ∷ ms) =
      Carries-append (send_message-Carries last h m)
        (send_messages-Carries (send_message c last m).1 (header_after h m) ms)

  -- the labels up to the first behind the buffer
  abbrev pub labels_out : ℕ → List c.Label → List (Out c)
  labels_out n [] = []
  labels_out n (l ∷ ls) =
      let rest = labels_out n ls in if leb n (c.label_index l) then [] else label l ∷ rest

  pub send_labels-Carries :
      (last : c.DType) (h : c.Header) (n : ℕ) (ls : List c.Label)
      → Carries last h (send_labels c n ls) (labels_out n ls) last h
  unfolding send_labels run
  send_labels-Carries last h n [] = record { runs = refl }
  send_labels-Carries last h n (l ∷ ls) = elim (Bool-cases (leb n (c.label_index l))) [
    | inl e ↦ rw e (record { runs = unfold run in refl })
    | inr e ↦ rw e (Carries-append (label-Carries last h l) (send_labels-Carries last h n ls))
  ]

  pub send_buffer-Carries :
      (last : c.DType) (h : c.Header) (inp : Input c)
      → Carries last h
          (send_buffer c last inp).0
          (map (byte inp.dtype) inp.buffer)
          (send_buffer c last inp).1
          h
  unfolding send_buffer
  send_buffer-Carries last h inp = elim (Bool-cases (length inp.buffer == 0)) [
    | inl e ↦ rw (e, empty inp.buffer e) (record { runs = unfold run in refl })
    | inr e ↦
        let (d, types) = update_dtype-Carries last inp.dtype h in
        rw e (Carries-append types (rw d (buffer-Carries inp.dtype h inp.buffer)))
  ]
