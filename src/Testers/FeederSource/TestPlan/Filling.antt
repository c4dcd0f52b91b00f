-- ===== src/Testers/FeederSource/TestPlan/Filling.antt =====
-- The buffers that `feedTestPlan` fills, read back.
use mathlib.Core.List.{append_assoc}
use pothos_blocks.Shared.{
  ℕ, zero, suc, ◌+◌, ◌*◌, ◌≤◌, ◌≡◌, ◌⊎◌, refl, sym, ap, ◌∙◌, true, false, List, [], ◌∷◌, ◌++◌, map,
  length, set, arith, length-map, length_zero, length-append,
}
use pothos_blocks.Testers.CollectorSink.{Data}
use pothos_blocks.Testers.FeederSource.TestPlan.Random.{Kind, Draws, Settings}
use pothos_blocks.Testers.FeederSource.TestPlan.Buffers.{
  Filled, write_elements, value_from, value_to,
}

-- every element has the property
pub data All {ℓ κ} {A : Type ℓ} (P : A → Type κ) : List A → Type (ℓ ⊔ κ) where
  all_nil : All P []
  all_cons : {a : A} {xs : List A} → P a → All P xs → All P (a ∷ xs)

-- the elements from an index on are replaced
abbrev replaced {ℓ} : {A : Type ℓ} → ℕ → List A → List A → List A
replaced i [] xs = xs
replaced i (v ∷ vs) xs = replaced (i + 1) vs (set xs i v)

set-append {ℓ} :
    {A : Type ℓ} (i : ℕ) (pre : List A) (x v : A) (rest : List A)
    → length pre ≡ i
    → set (pre ++ (x ∷ rest)) i v ≡ (pre ++ (v ∷ [])) ++ rest
set-append zero [] x v rest h = refl
set-append (suc i) [] x v rest h = absurd (omega (arith, h))
set-append zero (y ∷ pre) x v rest h = absurd (omega (arith, h))
set-append (suc i) (y ∷ pre) x v rest h =
    ap (λ l. y ∷ l) (set-append i pre x v rest (omega (arith, h)))

replaced-append {ℓ} :
    {A : Type ℓ} (i : ℕ) (pre vs rest : List A)
    → length pre ≡ i
    → length rest ≡ length vs
    → replaced i vs (pre ++ rest) ≡ pre ++ vs
replaced-append i pre [] rest h e = ap (λ l. pre ++ l) (length_zero rest e)
replaced-append i pre (v ∷ vs) [] h e = absurd (omega (arith, e))
replaced-append i pre (v ∷ vs) (x ∷ rest) h e =
    ap (λ l. replaced (i + 1) vs l) (set-append i pre x v rest h)
    ∙ replaced-append (i + 1) (pre ++ (v ∷ [])) vs rest
        (length-append pre (v ∷ []) ∙ omega (arith, h)) (omega (arith, e))
    ∙ append_assoc pre (v ∷ []) vs

module _ (d : Data) (r : Draws d) where
  -- What the draws and the buffers promise, where elements of the type are written as this kind.
  pub record Laws (s : Settings) (dtype : d.DType) (kind : Kind) : Type 0 where
    pub draw-range :
        (lo hi : ℕ) (g : r.Generator)
        → lo ≤ hi
        → (lo ≤ (r.draw lo hi g).0) × ((r.draw lo hi g).0 ≤ hi)
    pub same_dtype-refl : d.same_dtype dtype dtype ≡ true
    pub size_pos : 1 ≤ r.size dtype
    -- a new buffer has the type and so many elements
    pub new_chunk-dtype : (n : ℕ) → d.dtype (r.new_chunk dtype n) ≡ dtype
    pub new_chunk-bytes : (n : ℕ) → length (d.bytes (r.new_chunk dtype n)) ≡ n * r.size dtype
    pub new_chunk-ints : (n : ℕ) → length (d.ints (r.new_chunk dtype n)) ≡ n
    pub new_chunk-floats : (n : ℕ) → length (d.floats (r.new_chunk dtype n)) ≡ n
    -- a write changes one element
    pub write-dtype : (i : ℕ) (v : d.Float) (c : d.Chunk) → d.dtype (r.write kind i v c) ≡ d.dtype c
    pub write-bytes :
        (i : ℕ) (v : d.Float) (c : d.Chunk)
        → length (d.bytes (r.write kind i v c)) ≡ length (d.bytes c)
    pub read_int : d.Float → d.Int
    pub read_float : d.Float → d.Float
    pub write-ints :
        (i : ℕ) (v : d.Float) (c : d.Chunk)
        → d.dtype c ≡ dtype
        → d.ints (r.write kind i v c) ≡ set (d.ints c) i (read_int v)
    pub write-floats :
        (i : ℕ) (v : d.Float) (c : d.Chunk)
        → d.dtype c ≡ dtype
        → d.floats (r.write kind i v c) ≡ set (d.floats c) i (read_float v)
    -- buffers of the type in a row
    pub append-dtype :
        (a b : d.Chunk)
        → (d.bytes a ≡ []) ⊎ (d.dtype a ≡ d.dtype b)
        → d.dtype (d.append a b) ≡ d.dtype b
    pub append-ints :
        (a b : d.Chunk)
        → (d.bytes a ≡ []) ⊎ (d.dtype a ≡ d.dtype b)
        → d.ints (d.append a b) ≡ d.ints a ++ d.ints b
    pub append-floats :
        (a b : d.Chunk)
        → (d.bytes a ≡ []) ⊎ (d.dtype a ≡ d.dtype b)
        → d.floats (d.append a b) ≡ d.floats a ++ d.floats b
    pub null_chunk-ints : d.ints d.null_chunk ≡ []
    pub null_chunk-floats : d.floats d.null_chunk ≡ []
    -- a value that is drawn fits an element
    pub draw_value-fits-float :
        (g : r.Generator)
        → d.is_float dtype ≡ true
        → let v = (r.draw_value (value_from d r s dtype) (value_to d r s dtype) g).0 in
          d.same_float (d.float_of (r.number v)) (read_float v) ≡ true
    pub draw_value-fits-int :
        (g : r.Generator)
        → d.is_float dtype ≡ false
        → let v = (r.draw_value (value_from d r s dtype) (value_to d r s dtype) g).0 in
          d.same_int (d.int_of (r.number v)) (read_int v) ≡ true

  -- A value reads back from its element.
  pub record Fits (s : Settings) (dtype : d.DType) (kind : Kind) (laws : Laws s dtype kind)
      (v : d.Float) : Type 0 where
    pub fits_float :
        d.is_float dtype ≡ true → d.same_float (d.float_of (r.number v)) (laws.read_float v) ≡ true
    pub fits_int :
        d.is_float dtype ≡ false → d.same_int (d.int_of (r.number v)) (laws.read_int v) ≡ true

  module _ (s : Settings) (dtype : d.DType) (kind : Kind) (laws : Laws s dtype kind) where
    -- A buffer that holds so many values.
    pub record Good (n : ℕ) (b : Filled d) : Type 0 where
      pub right_dtype : d.dtype b.chunk ≡ dtype
      pub right_length : length b.values ≡ n
      pub right_bytes : length (d.bytes b.chunk) ≡ n * r.size dtype
      pub right_ints : d.ints b.chunk ≡ map laws.read_int b.values
      pub right_floats : d.floats b.chunk ≡ map laws.read_float b.values
      pub fit : All (Fits s dtype kind laws) b.values

    -- What the loop leaves of a buffer, and the values that it has drawn.
    record Written (i n : ℕ) (c : d.Chunk) (b : Filled d) : Type 0 where
      same_dtype : d.dtype b.chunk ≡ dtype
      count : length b.values ≡ n
      same_bytes : length (d.bytes b.chunk) ≡ length (d.bytes c)
      ints : d.ints b.chunk ≡ replaced i (map laws.read_int b.values) (d.ints c)
      floats : d.floats b.chunk ≡ replaced i (map laws.read_float b.values) (d.floats c)
      all_fit : All (Fits s dtype kind laws) b.values

    write_elements-Written :
        (i n : ℕ) (c : d.Chunk) (g : r.Generator)
        → d.dtype c ≡ dtype
        → Written i n c
            (write_elements d r kind (value_from d r s dtype) (value_to d r s dtype) i n c g).0
    unfolding write_elements
    write_elements-Written i zero c g h = record {
      same_dtype = h;
      count = refl;
      same_bytes = refl;
      ints = refl;
      floats = refl;
      all_fit = all_nil;
    }
    write_elements-Written i (suc n) c g h =
        let drawn = r.draw_value (value_from d r s dtype) (value_to d r s dtype) g in
        let c' = r.write kind i drawn.0 c in
        let rest = write_elements-Written (i + 1) n c' drawn.1 (laws.write-dtype i drawn.0 c ∙ h) in
        let vs =
          (write_elements d r kind (value_from d r s dtype) (value_to d r s dtype) (i + 1) n c'
            drawn.1).0.values in
        record {
          same_dtype = rest.same_dtype;
          count = ap suc rest.count;
          same_bytes = rest.same_bytes ∙ laws.write-bytes i drawn.0 c;
          ints =
              rest.ints
              ∙ ap (λ xs. replaced (i + 1) (map laws.read_int vs) xs)
                  (laws.write-ints i drawn.0 c h);
          floats =
              rest.floats
              ∙ ap (λ xs. replaced (i + 1) (map laws.read_float vs) xs)
                  (laws.write-floats i drawn.0 c h);
          all_fit =
              all_cons
                (record {
                  fits_float = laws.draw_value-fits-float g;
                  fits_int = laws.draw_value-fits-int g;
                })
                rest.all_fit;
        }

    pub fill-Good :
        (n : ℕ) (g : r.Generator)
        → let b =
            (write_elements d r kind
              (value_from d r s dtype)
              (value_to d r s dtype)
              0
              n
              (r.new_chunk dtype n)
              g).0 in
          Good n b
    fill-Good n g =
        let c = r.new_chunk dtype n in
        let w = write_elements-Written 0 n c g (laws.new_chunk-dtype n) in
        record {
          right_dtype = w.same_dtype;
          right_length = w.count;
          right_bytes = w.same_bytes ∙ laws.new_chunk-bytes n;
          right_ints =
              w.ints
              ∙ replaced-append 0 [] (map laws.read_int _) (d.ints c) refl
                  (laws.new_chunk-ints n ∙ sym (length-map _ laws.read_int ∙ w.count));
          right_floats =
              w.floats
              ∙ replaced-append 0 [] (map laws.read_float _) (d.floats c) refl
                  (laws.new_chunk-floats n ∙ sym (length-map _ laws.read_float ∙ w.count));
          fit = w.all_fit;
        }
