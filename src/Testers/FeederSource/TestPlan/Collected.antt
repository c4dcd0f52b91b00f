-- ===== src/Testers/FeederSource/TestPlan/Collected.antt =====
-- The buffers of `feedTestPlan` in a row, as a collector has them.
use Prim.Native.String.{String}
use mathlib.Core.Path.{subst}
use mathlib.Core.List.{append-nil, append_assoc}
use pothos_blocks.Shared.{
  ℕ, zero, suc, ◌*◌, ◌≤◌, ◌≡◌, ◌⊎◌, refl, sym, ap, ap₂, ◌∙◌, false, List, [], ◌∷◌, ◌++◌, map,
  length, Option, some, arith, ◌==◌, inl, inr, Pointwise, pointwise_nil, pointwise_cons,
  length-append,
}
use pothos_blocks.Testers.CollectorSink.{Data, append_buffer, CollectorSink, Label, Packet}
use pothos_blocks.Testers.CollectorSink.Accept.{Holds}
use pothos_blocks.Testers.FeederSource.Ledger.{System, step}
use pothos_blocks.Testers.FeederSource.Collect.{steps}
use pothos_blocks.Testers.FeederSource.TestPlan.{all_values}
use pothos_blocks.Testers.FeederSource.TestPlan.Random.{Kind, Draws, Settings}
use pothos_blocks.Testers.FeederSource.TestPlan.Buffers.{Filled}
use pothos_blocks.Testers.FeederSource.TestPlan.Filling.{All, all_nil, all_cons, Laws, Fits}
use pothos_blocks.Testers.FeederSource.TestPlan.Buffering.{Usable, Sizes}
use pothos_blocks.Testers.FeederSource.TestPlan.Labelling.{append-All}

module _ (d : Data) where
  -- buffers appended one after the other
  abbrev pub append_all : d.Chunk → List d.Chunk → d.Chunk
  append_all c [] = c
  append_all c (b ∷ bs) = append_all (append_buffer d c b) bs

  append_buffer-null : (c : d.Chunk) → append_buffer d c d.null_chunk ≡ c
  unfolding append_buffer
  append_buffer-null c = rw d.null_chunk-bytes refl

  -- A call of both keeps what the collector's buffer is, once the others are appended.
  step-buffer :
      (size : ℕ) (bs : List d.Chunk) (ls : List Label) (ms : List (Option String))
      (ps : List (Packet d)) (c : CollectorSink d) (total : ℕ)
      → let w : System d = record {
        feeder = record { buffers = bs; labels = ls; messages = ms; packets = ps };
        collector = c;
        total = total;
      } in
        append_all (step d size w).collector.buffer (step d size w).feeder.buffers
        ≡ append_all c.buffer bs
  unfolding step
  step-buffer size (b ∷ bs) ls ms ps c total = refl
  step-buffer size [] ls (m ∷ ms) ps c total = append_buffer-null c.buffer
  step-buffer size [] ls [] (p ∷ ps) c total = append_buffer-null c.buffer
  step-buffer size [] ls [] [] c total = append_buffer-null c.buffer

  pub steps-buffer :
      (size n : ℕ) (w : System d)
      → append_all (steps d size n w).collector.buffer (steps d size n w).feeder.buffers
        ≡ append_all w.collector.buffer w.feeder.buffers
  unfolding steps
  steps-buffer size zero w = refl
  steps-buffer size (suc n) w =
      steps-buffer size n (step d size w)
      ∙ step-buffer size w.feeder.buffers w.feeder.labels w.feeder.messages w.feeder.packets
          w.collector w.total

product_pos : (m n : ℕ) → 1 ≤ m → 1 ≤ n → 1 ≤ m * n
product_pos zero n a b = absurd (omega (arith, a))
product_pos (suc m) n a b = omega (arith, b)

module _ {A B C : Type 0} where
  pub Pointwise-map :
      {P : B → C → Type 0} (f : A → B) (g : A → C) {Q : A → Type 0} (xs : List A)
      → ((a : A) → Q a → P (f a) (g a))
      → All Q xs
      → Pointwise P (map f xs) (map g xs)
  Pointwise-map f g [] h all_nil = pointwise_nil
  Pointwise-map f g (x ∷ xs) h (all_cons q qs) = pointwise_cons (h x q) (Pointwise-map f g xs h qs)

module _ {A B : Type 0} where
  map-append : (f : A → B) (xs ys : List A) → map f (xs ++ ys) ≡ map f xs ++ map f ys
  map-append f [] ys = refl
  map-append f (x ∷ xs) ys = ap (λ l. f x ∷ l) (map-append f xs ys)

module _ (d : Data) (r : Draws d) (s : Settings) (dtype : d.DType) (kind : Kind)
    (laws : Laws d r s dtype kind) (sizes : Sizes d r s dtype) where
  -- A buffer of the type that holds the values.
  pub record Full (vs : List d.Float) (c : d.Chunk) : Type 0 where
    pub some_bytes : 1 ≤ length (d.bytes c)
    pub full_dtype : d.dtype c ≡ dtype
    pub full_ints : d.ints c ≡ map laws.read_int vs
    pub full_floats : d.floats c ≡ map laws.read_float vs
    pub full_fit : All (Fits d r s dtype kind laws) vs

  pub Usable-Full : (b : Filled d) → Usable d r s dtype kind laws sizes b → Full b.values b.chunk
  Usable-Full b u = record {
    some_bytes =
        subst (λ n. 1 ≤ n) (sym u.good.right_bytes)
          (product_pos (length b.values) (r.size dtype)
            (omega (arith, u.enough, sizes.some_elements)) laws.size_pos);
    full_dtype = u.good.right_dtype;
    full_ints = u.good.right_ints;
    full_floats = u.good.right_floats;
    full_fit = u.good.fit;
  }

  -- what is appended to, which may be nothing yet
  record Begun (vs : List d.Float) (c : d.Chunk) : Type 0 where
    empty_or_same : (d.bytes c ≡ []) ⊎ (d.dtype c ≡ dtype)
    begun_ints : d.ints c ≡ map laws.read_int vs
    begun_floats : d.floats c ≡ map laws.read_float vs
    begun_fit : All (Fits d r s dtype kind laws) vs

  same_type :
      (c b : d.Chunk)
      → (d.bytes c ≡ []) ⊎ (d.dtype c ≡ dtype)
      → d.dtype b ≡ dtype
      → (d.bytes c ≡ []) ⊎ (d.dtype c ≡ d.dtype b)
  same_type c b (inl e) h = inl e
  same_type c b (inr e) h = inr (e ∙ sym h)

  append_buffer-Full :
      (vs ws : List d.Float) (c b : d.Chunk)
      → Begun vs c
      → Full ws b
      → Full (vs ++ ws) (append_buffer d c b)
  unfolding append_buffer
  append_buffer-Full vs ws c b k f =
      let not_zero : (length (d.bytes b) == 0) ≡ false = ground (arith, f.some_bytes) in
      let ok = same_type c b k.empty_or_same f.full_dtype in
      rw not_zero (record {
        some_bytes =
            subst (λ n. 1 ≤ n)
              (sym (ap length (d.append-bytes c b) ∙ length-append (d.bytes c) (d.bytes b)))
              (omega (arith, f.some_bytes));
        full_dtype = laws.append-dtype c b ok ∙ f.full_dtype;
        full_ints =
            laws.append-ints c b ok
            ∙ ap₂ (λ x y. x ++ y) k.begun_ints f.full_ints
            ∙ sym (map-append laws.read_int vs ws);
        full_floats =
            laws.append-floats c b ok
            ∙ ap₂ (λ x y. x ++ y) k.begun_floats f.full_floats
            ∙ sym (map-append laws.read_float vs ws);
        full_fit = append-All k.begun_fit f.full_fit;
      })

  pub append_all-Full :
      (vs : List d.Float) (c : d.Chunk) (bs : List (Filled d))
      → Full vs c
      → All (Usable d r s dtype kind laws sizes) bs
      → Full (vs ++ all_values d r bs) (append_all d c (map (λ b. b.chunk) bs))
  append_all-Full vs c [] f all_nil = rw (append-nil vs) f
  append_all-Full vs c (b ∷ bs) f (all_cons u us) =
      let begun : Begun vs c = record {
        empty_or_same = inr f.full_dtype;
        begun_ints = f.full_ints;
        begun_floats = f.full_floats;
        begun_fit = f.full_fit;
      } in
      let next = append_buffer-Full vs b.values c b.chunk begun (Usable-Full b u) in
      subst (λ l. Full l (append_all d c (map (λ a. a.chunk) (b ∷ bs))))
        (append_assoc vs b.values (all_values d r bs))
        (append_all-Full (vs ++ b.values) (append_buffer d c b.chunk) bs next us)

  -- Behind an empty buffer.
  pub null_chunk-Full :
      (b : Filled d) (bs : List (Filled d))
      → All (Usable d r s dtype kind laws sizes) (b ∷ bs)
      → Full (all_values d r (b ∷ bs)) (append_all d d.null_chunk (map (λ b. b.chunk) (b ∷ bs)))
  null_chunk-Full b bs (all_cons u us) =
      let begun : Begun [] d.null_chunk = record {
        empty_or_same = inl d.null_chunk-bytes;
        begun_ints = laws.null_chunk-ints;
        begun_floats = laws.null_chunk-floats;
        begun_fit = all_nil;
      } in
      let next = append_buffer-Full [] b.values d.null_chunk b.chunk begun (Usable-Full b u) in
      append_all-Full b.values (append_buffer d d.null_chunk b.chunk) bs next us

  pub Full-Holds :
      (vs : List d.Float) (c : d.Chunk) → Full vs c → Holds d (some (map r.number vs)) dtype c
  Full-Holds vs c f = (
    λ none. ground (arith, f.some_bytes, none),
    ap (λ t. d.same_dtype t dtype) f.full_dtype ∙ laws.same_dtype-refl,
    λ float. rw f.full_floats (
        Pointwise-map r.number laws.read_float vs
          (λ v fits. fits.fits_float (ap d.is_float (sym f.full_dtype) ∙ float)) f.full_fit),
    λ int. rw f.full_ints (
        Pointwise-map r.number laws.read_int vs
          (λ v fits. fits.fits_int (ap d.is_float (sym f.full_dtype) ∙ int)) f.full_fit),
  )
