-- ===== src/Network/RoundTrip.antt =====
-- What comes in at NetworkSink is what NetworkSource posts.
use pothos_blocks.Shared.{◌≡◌, refl, ap, ◌∙◌, Bool, true, false, List, [], ◌∷◌, ◌++◌, map, returns}
use pothos_blocks.Network.Codec.{Codec, Sent}
use pothos_blocks.Network.Sink.{Input, work}
use pothos_blocks.Network.Carry.{Arrives, Out, byte, run, run-arrives}
use pothos_blocks.Network.Carries.{
  source, Carries, Carries-append, message_out, headers_after, send_messages-Carries, labels_out,
  send_labels-Carries, send_buffer-Carries,
}

module _ (c : Codec) where
  -- what one call of the sink's `work` passes on
  abbrev pub work_out : Bool → Input c → List (Out c)
  work_out false inp = []
  work_out true inp =
      map (message_out c) inp.messages
      ++ (labels_out c inp.elements inp.labels ++ map (byte inp.dtype) inp.buffer)

  abbrev work_header : Bool → c.Header → Input c → c.Header
  work_header false h inp = h
  work_header true h inp = headers_after c h inp.messages

  work-Carries :
      (last : c.DType) (h : c.Header) (ready : Bool) (inp : Input c)
      → Carries c last h
          (work c ready last inp).0
          (work_out ready inp)
          (work c ready last inp).1
          (work_header ready h inp)
  unfolding work run
  work-Carries last h false inp = record { runs = refl }
  work-Carries last h true inp = Carries-append c (send_messages-Carries c last h inp.messages) (
      Carries-append c (send_labels-Carries c _ _ inp.elements inp.labels)
        (send_buffer-Carries c _ _ inp))

  -- A sequence of calls of the sink's `work`, each with its inputs, and whether the endpoint is ready:
  -- all that is sent, and all that is passed on.
  unfoldable pub works : c.DType → List (Bool × Input c) → List Sent
  works last [] = []
  works last ((ready, inp) ∷ calls) =
      let (sends, last', n) = work c ready last inp in sends ++ works last' calls

  abbrev pub works_out : List (Bool × Input c) → List (Out c)
  works_out [] = []
  works_out ((ready, inp) ∷ calls) = work_out ready inp ++ works_out calls

  works_last : c.DType → List (Bool × Input c) → c.DType
  works_last last [] = last
  works_last last ((ready, inp) ∷ calls) = works_last (work c ready last inp).1 calls

  works_header : c.Header → List (Bool × Input c) → c.Header
  works_header h [] = h
  works_header h ((ready, inp) ∷ calls) = works_header (work_header ready h inp) calls

  works-Carries :
      (last : c.DType) (h : c.Header) (calls : List (Bool × Input c))
      → Carries c last h
          (works last calls)
          (works_out calls)
          (works_last last calls)
          (works_header h calls)
  unfolding works works_last works_header run
  works-Carries last h [] = record { runs = refl }
  works-Carries last h ((ready, inp) ∷ calls) =
      Carries-append c (work-Carries last h ready inp)
        (works-Carries (work c ready last inp).1 (work_header ready h inp) calls)

  -- Let the two blocks start with the same element type, and let the packets that NetworkSink sends in
  -- any sequence of calls of `work` come in at NetworkSource in order, stream buffers also in parts.
  -- Then no call of the source's `work` throws, and it posts what came in at the sink while the
  -- endpoint was ready: each call's messages in order, then the labels in front of the first label
  -- behind the buffer, then the bytes of the buffer, everything with its element type.
  pub works-arrive :
      (last : c.DType) (h : c.Header) (calls : List (Bool × Input c)) (rs : List (Bool × Sent))
      → Arrives (works last calls) rs
      → ((run c (source c last h) rs).0 ≡ returns tt)
        × ((run c (source c last h) rs).1 ≡ works_out calls)
  works-arrive last h calls rs a =
      let e = run-arrives c a (source c last h) ∙ (works-Carries last h calls).runs in
      (ap (λ r. r.0) e, ap (λ r. r.1) e)
