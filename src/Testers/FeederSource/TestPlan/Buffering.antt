-- ===== src/Testers/FeederSource/TestPlan/Buffering.antt =====
-- All the buffers that `feedTestPlan` generates.
use mathlib.Core.Path.{subst}
use pothos_blocks.Shared.{
  ℕ, zero, suc, ◌+◌, ◌*◌, ◌≤◌, ◌≡◌, refl, sym, ap, false, List, [], ◌∷◌, length, some, arith,
  returns, sum, ◌==◌,
}
use pothos_blocks.Testers.CollectorSink.{Data}
use pothos_blocks.Testers.FeederSource.TestPlan.Random.{Kind, Draws, Settings, value_or}
use pothos_blocks.Testers.FeederSource.TestPlan.Buffers.{
  Filled, buffer_size, pad, num_elems, element_kind, fill, write_elements, elements_from,
  elements_to, fill_buffers, value_from, value_to,
}
use pothos_blocks.Testers.FeederSource.TestPlan.Filling.{
  All, all_nil, all_cons, Laws, Good, fill-Good,
}
use pothos_blocks.Testers.FeederSource.TestPlan.Counts.{
  IsMultiple, buffer_size-IsMultiple, buffer_size-le, pad_lem,
}

-- every element but the last has the property
pub data AllButLast {ℓ κ} {A : Type ℓ} (P : A → Type κ) : List A → Type (ℓ ⊔ κ) where
  no_more : AllButLast P []
  last_one : {a : A} → AllButLast P (a ∷ [])
  and_one : {a b : A} {xs : List A} → P a → AllButLast P (b ∷ xs) → AllButLast P (a ∷ (b ∷ xs))

module _ (d : Data) (r : Draws d) where
  abbrev pub buffer_multiple : Settings → ℕ
  buffer_multiple s = value_or s.buffer_multiple 1

  abbrev pub total_multiple : Settings → ℕ
  total_multiple s = value_or s.total_multiple 1

  -- what the sizes of a plan are to satisfy
  pub record Sizes (s : Settings) (dtype : d.DType) : Type 0 where
    pub some_elements : 1 ≤ elements_from d r s dtype
    pub in_order : elements_from d r s dtype ≤ elements_to d r s dtype
    pub buffer_multiple_pos : 1 ≤ buffer_multiple s
    pub total_multiple_pos : 1 ≤ total_multiple s
    -- a multiple within the bounds of a buffer
    pub between : ℕ
    pub between-from : elements_from d r s dtype ≤ between * buffer_multiple s
    pub between-to : between * buffer_multiple s ≤ elements_to d r s dtype

  -- no buffer has more elements
  abbrev pub most : Settings → d.DType → ℕ
  most s dtype = elements_to d r s dtype + total_multiple s

  abbrev pub counts : List (Filled d) → List ℕ
  counts [] = []
  counts (b ∷ bs) = length b.values ∷ counts bs

  module _ (s : Settings) (dtype : d.DType) (kind : Kind) (laws : Laws d r s dtype kind)
      (sizes : Sizes s dtype) where
    -- A buffer as it was generated.
    pub record Usable (b : Filled d) : Type 0 where
      pub good : Good d r s dtype kind laws (length b.values) b
      pub enough : elements_from d r s dtype ≤ length b.values

    -- The buffers of a loop that starts at `total`, and the number of elements at the end.
    pub record Buffered (n total : ℕ) (bs : List (Filled d)) (all : ℕ) : Type 0 where
      pub as_many : length bs ≡ n
      pub usable : All Usable bs
      pub counted : all ≡ total + sum (counts bs)
      pub bounded : all ≤ total + n * most s dtype
      pub multiples :
          AllButLast
            (λ b.
              (length b.values ≤ elements_to d r s dtype)
              × IsMultiple (buffer_multiple s) (length b.values))
            bs
      pub padded : 1 ≤ n → IsMultiple (total_multiple s) all

    -- the number of elements of the next buffer, where `more` come behind it
    record Count (total more n : ℕ) : Type 0 where
      least : elements_from d r s dtype ≤ n
      at_most : n ≤ most s dtype
      last_one_padded : more ≡ 0 → IsMultiple (total_multiple s) (total + n)
      others_multiple : 1 ≤ more → (n ≤ elements_to d r s dtype) × IsMultiple (buffer_multiple s) n

    pad_others : (total more n : ℕ) → pad (suc more == 0) (total_multiple s) total n ≡ n
    unfolding pad
    pad_others total more n =
        let e : (suc more == 0) ≡ false = ground arith in
        ap (λ last. pad last (total_multiple s) total n) e

    padded_size :
        (total more n : ℕ)
        → elements_from d r s dtype ≤ n
        → n ≤ elements_to d r s dtype
        → IsMultiple (buffer_multiple s) n
        → Count total more (pad (more == 0) (total_multiple s) total n)
    padded_size total zero n x le z =
        let (u, v, w) = pad_lem (total_multiple s) total n sizes.total_multiple_pos in
        record {
          least = omega (arith, x, u);
          at_most = omega (arith, le, v);
          last_one_padded = λ h. w;
          others_multiple = λ h. absurd (omega (arith, h));
        }
    padded_size total (suc more) n x le z =
        subst (Count total (suc more)) (sym (pad_others total more n)) (record {
          least = x;
          at_most = omega (arith, le);
          last_one_padded = λ h. absurd (omega (arith, h));
          others_multiple = λ h. (le, z);
        })

    num_elems-Count :
        (total more drawn : ℕ)
        → elements_from d r s dtype ≤ drawn
        → drawn ≤ elements_to d r s dtype
        → Count total more (num_elems d r s dtype total more drawn)
    unfolding num_elems
    num_elems-Count total more drawn a b =
        let n =
          buffer_size (elements_from d r s dtype) (elements_to d r s dtype) (buffer_multiple s)
            drawn in
        let (x, y, z) =
          buffer_size-IsMultiple (elements_from d r s dtype) (elements_to d r s dtype)
            (buffer_multiple s) drawn sizes.buffer_multiple_pos a b in
        let le =
          buffer_size-le (elements_from d r s dtype) (elements_to d r s dtype) (buffer_multiple s)
            drawn sizes.between sizes.buffer_multiple_pos a b sizes.between-from sizes.between-to in
        padded_size total more n x le z

    at_least_from :
        (n : ℕ) (w : Filled d)
        → Good d r s dtype kind laws n w
        → elements_from d r s dtype ≤ n
        → Usable w
    at_least_from n w good h = record {
      good = subst (λ k. Good d r s dtype kind laws k w) (sym good.right_length) good;
      enough = omega (arith, h, good.right_length);
    }

    extend :
        (more total n all : ℕ) (w : Filled d) (bs : List (Filled d))
        → Good d r s dtype kind laws n w
        → Count total more n
        → Buffered more (total + n) bs all
        → Buffered (suc more) total (w ∷ bs) all
    extend more total n all w [] good c rest =
        let none_more : more ≡ 0 = sym rest.as_many in
        let end : all ≡ total + n = omega (arith, rest.counted) in
        record {
          as_many = ap suc rest.as_many;
          usable = all_cons (at_least_from n w good c.least) all_nil;
          counted = omega (arith, good.right_length, end);
          bounded = omega (arith, none_more, end, c.at_most);
          multiples = last_one;
          padded =
              λ h. subst (IsMultiple (total_multiple s)) (sym end) (c.last_one_padded none_more);
        }
    extend more total n all w (b ∷ bs) good c rest =
        let some_more : 1 ≤ more = omega (arith, rest.as_many) in
        record {
          as_many = ap suc rest.as_many;
          usable = all_cons (at_least_from n w good c.least) rest.usable;
          counted = omega (arith, good.right_length, rest.counted);
          bounded = omega (arith, rest.bounded, c.at_most);
          multiples = and_one (rw good.right_length (c.others_multiple some_more)) rest.multiples;
          padded = λ h. rest.padded some_more;
        }

    pub fill_buffers-Buffered :
        (n total : ℕ) (g : r.Generator)
        → element_kind (r.size dtype) (d.is_float dtype) ≡ some kind
        → (bs : List (Filled d)) × (all : ℕ) × (g' : r.Generator) × (fill_buffers d r s dtype n
              total g
            ≡ returns (bs, all, g'))
          × Buffered n total bs all
    unfolding fill_buffers fill
    fill_buffers-Buffered zero total g e = (
      [],
      total,
      g,
      refl,
      record {
        as_many = refl;
        usable = all_nil;
        counted = omega arith;
        bounded = omega arith;
        multiples = no_more;
        padded = λ h. absurd (omega (arith, h));
      },
    )
    fill_buffers-Buffered (suc more) total g e =
        let (drawn, g1) = r.draw (elements_from d r s dtype) (elements_to d r s dtype) g in
        let (a, b) =
          laws.draw-range (elements_from d r s dtype) (elements_to d r s dtype) g sizes.in_order in
        let n = num_elems d r s dtype total more drawn in
        let (w, g2) =
          write_elements d r kind (value_from d r s dtype) (value_to d r s dtype) 0 n
            (r.new_chunk dtype n) g1 in
        let good = fill-Good d r s dtype kind laws n g1 in
        let (bs, all, g', same, rest) = fill_buffers-Buffered more (total + n) g2 e in
        (
          w ∷ bs,
          all,
          g',
          rw e (rw same refl),
          extend more total n all w bs good (num_elems-Count total more drawn a b) rest,
        )
