-- ===== src/Network/Carry.antt =====
-- How packets come in at NetworkSource, and what it makes of them.
use mathlib.Core.List.{append_assoc, append-nil}
use pothos_blocks.Shared.{
  ℕ, ◌≡◌, refl, sym, ap, ◌∙◌, Bool, true, false, List, [], ◌∷◌, ◌++◌, map, Outcome, returns, throws,
  arith,
}
use pothos_blocks.Network.Codec.{Codec, Sent, type_buffer}
use pothos_blocks.Network.Source.{
  Error, NetworkSource, Post, pop_elements, post_buffer, post_message, post_packet, post_label,
  handle,
}

-- What the endpoint's `recv` gives in a sequence of calls, for the packets that the other side sent:
-- each packet whole, a stream buffer also in parts, and type 0 where nothing came in or the packet
-- was the endpoint's own. The flags say whether the payload is in the output port's buffer.
pub data Arrives : List Sent → List (Bool × Sent) → Type 0 where
  nothing : Arrives [] []
  idle :
      {ss : List Sent} {rs : List (Bool × Sent)} (b : Bool) (bytes : List ℕ)
      → Arrives ss rs
      → Arrives ss ((b, record { type = 0; bytes = bytes }) ∷ rs)
  whole :
      {ss : List Sent} {rs : List (Bool × Sent)} (b : Bool) (s : Sent)
      → Arrives ss rs
      → Arrives (s ∷ ss) ((b, s) ∷ rs)
  part :
      {ss : List Sent} {rs : List (Bool × Sent)} (b : Bool) (xs ys : List ℕ)
      → Arrives (record { type = type_buffer; bytes = ys } ∷ ss) rs
      → Arrives
          (record { type = type_buffer; bytes = xs ++ ys } ∷ ss)
          ((b, record { type = type_buffer; bytes = xs }) ∷ rs)

map-append_rest {ℓ} :
    {B : Type ℓ} (f : ℕ → B) (xs ys : List ℕ) (rest : List B)
    → map f xs ++ (map f ys ++ rest) ≡ map f (xs ++ ys) ++ rest
map-append_rest f [] ys rest = refl
map-append_rest f (x ∷ xs) ys rest = ap (λ l. f x ∷ l) (map-append_rest f xs ys rest)

module _ (c : Codec) where
  -- What a reader of the stream, the labels and the messages sees.
  pub data Out : Type 0 where
    byte : c.DType → ℕ → Out
    message : c.Object → Out
    packet : c.Header → List ℕ → c.DType → Out
    label : c.Label → Out

  abbrev pub observe : List (Post c) → List Out
  observe [] = []
  observe (pop_elements n ∷ ps) = observe ps
  observe (post_buffer bytes d ∷ ps) = map (byte d) bytes ++ observe ps
  observe (post_message m ∷ ps) = message m ∷ observe ps
  observe (post_packet h bytes d ∷ ps) = packet h bytes d ∷ observe ps
  observe (post_label l ∷ ps) = label l ∷ observe ps

  abbrev pub Result : Type 0
  Result = Outcome Error (Unit {0}) × List Out × NetworkSource c

  -- Goes on after a call that returned.
  abbrev pub after : Outcome Error (Unit {0}) → List Out → NetworkSource c → Result → Result
  after (throws e) outs s r = (throws e, outs, s)
  after (returns x) outs s (o, outs', s') = (o, outs ++ outs', s')

  -- a sequence of calls of `work`, up to the first exception
  unfoldable pub run : NetworkSource c → List (Bool × Sent) → Result
  run s [] = (returns tt, [], s)
  run s ((b, r) ∷ rs) =
      let (o, posts, s') = handle c s b r in after o (observe posts) s' (run s' rs)

  abbrev pub in_order : List Sent → List (Bool × Sent)
  in_order [] = []
  in_order (s ∷ ss) = (false, s) ∷ in_order ss

  observe-in_place :
      (s : NetworkSource c) (b : Bool) (r : Sent)
      → (observe (handle c s b r).1 ≡ observe (handle c s false r).1)
        × ((handle c s b r).0 ≡ (handle c s false r).0)
        × ((handle c s b r).2 ≡ (handle c s false r).2)
  unfolding handle
  observe-in_place s true r = ground arith
  observe-in_place s false r = (refl, refl, refl)

  run-idle :
      (s : NetworkSource c) (b : Bool) (bytes : List ℕ) (rs : List (Bool × Sent))
      → run s ((b, record { type = 0; bytes = bytes }) ∷ rs) ≡ run s rs
  unfolding run handle
  run-idle s b bytes rs = refl

  run-in_place :
      (s : NetworkSource c) (b : Bool) (r : Sent) (rs : List (Bool × Sent))
      → run s ((b, r) ∷ rs) ≡ run s ((false, r) ∷ rs)
  unfolding run
  run-in_place s b r rs =
      let (posts, o, s') = observe-in_place s b r in
      ap (λ p. after (handle c s b r).0 p (handle c s b r).2 (run (handle c s b r).2 rs)) posts
      ∙ ap
          (λ q.
            after q (observe (handle c s false r).1) (handle c s b r).2 (run (handle c s b r).2 rs))
          o
      ∙ ap (λ t. after (handle c s false r).0 (observe (handle c s false r).1) t (run t rs)) s'

  -- a packet of a stream buffer in two parts
  run-part :
      (s : NetworkSource c) (b : Bool) (xs ys : List ℕ) (rs : List (Bool × Sent))
      → run s (
          (b, record { type = type_buffer; bytes = xs })
          ∷ ((false, record { type = type_buffer; bytes = ys }) ∷ rs))
        ≡ run s ((false, record { type = type_buffer; bytes = xs ++ ys }) ∷ rs)
  unfolding run handle
  run-part s b xs ys rs =
      let d = s.last_dtype in
      let (o, outs, s') = run s rs in
      ap (λ l. (o, l, s'))
        (rw
          (
            append-nil (map (byte d) xs),
            append-nil (map (byte d) ys),
            append-nil (map (byte d) (xs ++ ys)),
          )
          (map-append_rest (byte d) xs ys outs))

  run_cons :
      (s : NetworkSource c) (b : Bool) (r : Sent) (rs rs' : List (Bool × Sent))
      → ((t : NetworkSource c) → run t rs ≡ run t rs')
      → run s ((b, r) ∷ rs) ≡ run s ((b, r) ∷ rs')
  unfolding run
  run_cons s b r rs rs' h =
      let (o, posts, s') = handle c s b r in ap (after o (observe posts) s') (h s')

  pub run-arrives :
      {ss : List Sent} {rs : List (Bool × Sent)}
      → Arrives ss rs
      → (s : NetworkSource c) → run s rs ≡ run s (in_order ss)
  run-arrives nothing s = refl
  run-arrives (idle b bytes a) s = run-idle s b bytes _ ∙ run-arrives a s
  run-arrives (whole b x a) s = run_cons s b x _ _ (run-arrives a) ∙ run-in_place s b x _
  run-arrives (part b xs ys a) s = run_cons s b _ _ _ (run-arrives a) ∙ run-part s b xs ys _

  -- Goes on from where a sequence of calls has come.
  abbrev pub bind : Result → (NetworkSource c → Result) → Result
  bind (o, outs, s) k = after o outs s (k s)

  after-bind :
      (o : Outcome Error (Unit {0})) (outs : List Out) (s : NetworkSource c) (r : Result)
      (k : NetworkSource c → Result)
      → after o outs s (bind r k) ≡ bind (after o outs s r) k
  after-bind (throws e) outs s r k = refl
  after-bind (returns x) outs s (throws e, outs', s') k = refl
  after-bind (returns x) outs s (returns y, outs', s') k =
      let (o'', outs'', s'') = k s' in
      ap (λ l. (o'', l, s'')) (sym (append_assoc outs outs' outs''))

  pub run-append :
      (xs ys : List Sent) (s : NetworkSource c)
      → run s (in_order (xs ++ ys)) ≡ bind (run s (in_order xs)) (λ t. run t (in_order ys))
  unfolding run
  run-append [] ys s = refl
  run-append (x ∷ xs) ys s =
      let (o, posts, s') = handle c s false x in
      ap (after o (observe posts) s') (run-append xs ys s')
      ∙ after-bind o (observe posts) s' (run s' (in_order xs)) (λ t. run t (in_order ys))
