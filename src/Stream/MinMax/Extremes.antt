-- ===== src/Stream/MinMax/Extremes.antt =====
-- What the two outputs are.
use mathlib.Core.Path.{subst}
use native.Mathlib.Nat.{zero-mul}
use pothos_blocks.Shared.{
  ℕ, zero, suc, ◌+◌, ◌*◌, ◌<◌, ◌≡◌, refl, ap, true, false, List, [], ◌∷◌, get_elem?, some, ◌==◌,
  arith, Bool-cases, inl, inr,
}
use pothos_blocks.Stream.Clamp.{Element}
use pothos_blocks.Stream.MinMax.{smallest, largest, at, column, min_max, work}

pub data All {A : Type 0} (P : A → Type 0) : List A → Type 0 where
  all_nil : All P []
  all_cons : {x : A} {xs : List A} → P x → All P xs → All P (x ∷ xs)

-- an element of a list
abbrev pub Among : {A : Type 0} → A → List A → Type 0
Among a xs = (k : ℕ) × (get_elem? xs k ≡ some a)

module _ (e : Element) where
  -- One of these elements, and none is smaller.
  abbrev pub IsSmallest : e.T → List e.T → Type 0
  IsSmallest m xs = Among m xs × All (λ x. e.lt x m ≡ false) xs

  -- One of these elements, and it is smaller than none.
  abbrev pub IsLargest : e.T → List e.T → Type 0
  IsLargest m xs = Among m xs × All (λ x. e.lt m x ≡ false) xs

  -- `m` was passed over, or not, when the next element was looked at.
  skipped : (m x : e.T) (xs : List e.T) {r : e.T} → Among r (m ∷ xs) → Among r (m ∷ (x ∷ xs))
  skipped m x xs (zero, p) = (zero, p)
  skipped m x xs (suc k, p) = (suc (suc k), p)

  taken : (m x : e.T) (xs : List e.T) {r : e.T} → Among r (x ∷ xs) → Among r (m ∷ (x ∷ xs))
  taken m x xs (k, p) = (suc k, p)

  IsSmallest-step :
      {m x : e.T} {xs : List e.T} {r : e.T}
      → e.lt x m ≡ true
      → IsSmallest r (x ∷ xs)
      → IsSmallest r (m ∷ (x ∷ xs))
  IsSmallest-step {m} {x} {xs} {r} b (k, all_cons p ps) =
      (taken m x xs k, all_cons (e.not_lt_trans r x m p (e.lt_asymm x m b)) (all_cons p ps))

  IsSmallest-kept :
      {m x : e.T} {xs : List e.T} {r : e.T}
      → e.lt x m ≡ false
      → IsSmallest r (m ∷ xs)
      → IsSmallest r (m ∷ (x ∷ xs))
  IsSmallest-kept {m} {x} {xs} {r} b (k, all_cons p ps) =
      (skipped m x xs k, all_cons p (all_cons (e.not_lt_trans r m x p b) ps))

  IsLargest-kept :
      {m x : e.T} {xs : List e.T} {r : e.T}
      → e.lt x m ≡ true
      → IsLargest r (m ∷ xs)
      → IsLargest r (m ∷ (x ∷ xs))
  IsLargest-kept {m} {x} {xs} {r} b (k, all_cons p ps) =
      (skipped m x xs k, all_cons p (all_cons (e.not_lt_trans x m r (e.lt_asymm x m b) p) ps))

  IsLargest-step :
      {m x : e.T} {xs : List e.T} {r : e.T}
      → e.lt x m ≡ false
      → IsLargest r (x ∷ xs)
      → IsLargest r (m ∷ (x ∷ xs))
  IsLargest-step {m} {x} {xs} {r} b (k, all_cons p ps) =
      (taken m x xs k, all_cons (e.not_lt_trans m x r b p) (all_cons p ps))

  smallest-IsSmallest : (m : e.T) (xs : List e.T) → IsSmallest (smallest e m xs) (m ∷ xs)
  unfolding smallest
  smallest-IsSmallest m [] = ((zero, refl), all_cons (e.lt_irrefl m) all_nil)
  smallest-IsSmallest m (x ∷ xs) = elim (Bool-cases (e.lt x m)) [
    | inl b ↦ rw b (IsSmallest-step b (smallest-IsSmallest x xs))
    | inr b ↦ rw b (IsSmallest-kept b (smallest-IsSmallest m xs))
  ]

  largest-IsLargest : (m : e.T) (xs : List e.T) → IsLargest (largest e m xs) (m ∷ xs)
  unfolding largest
  largest-IsLargest m [] = ((zero, refl), all_cons (e.lt_irrefl m) all_nil)
  largest-IsLargest m (x ∷ xs) = elim (Bool-cases (e.lt x m)) [
    | inl b ↦ rw b (IsLargest-kept b (largest-IsLargest m xs))
    | inr b ↦ rw b (IsLargest-step b (largest-IsLargest x xs))
  ]

  min_max-at :
      (input : List e.T) (inputs : List (List e.T)) (i n k : ℕ)
      → k < n
      → (get_elem? (min_max e input inputs i n).0 k
          ≡ some (smallest e (at e input (i + k)) (column e inputs (i + k))))
        × (get_elem? (min_max e input inputs i n).1 k
            ≡ some (largest e (at e input (i + k)) (column e inputs (i + k))))
  unfolding min_max
  min_max-at input inputs i zero k h = absurd (omega (arith, h))
  min_max-at input inputs i (suc n) zero h =
      let here : i + 0 ≡ i = omega arith in rw here (refl, refl)
  min_max-at input inputs i (suc n) (suc k) h =
      let there : i + suc k ≡ (i + 1) + k = omega arith in
      rw there (min_max-at input inputs (i + 1) n k (omega (arith, h)))

  -- In a call of `work` on this many elements of this dimension, the number at each place of the output
  -- "min" is one of the numbers at that place of the inputs, and none of these is smaller; likewise at
  -- the output "max", and none is larger. Each port moves on by as many elements.
  pub work-extremes :
      (input : List e.T) (inputs : List (List e.T)) (elems dimension k : ℕ)
      → k < elems * dimension
      → let (mins, maxs, n) = work e input inputs elems dimension in
        (n ≡ elems)
        × ((m : e.T) × (get_elem? mins k ≡ some m)
            × IsSmallest m (at e input k ∷ column e inputs k))
        × ((m : e.T) × (get_elem? maxs k ≡ some m) × IsLargest m (at e input k ∷ column e inputs k))
  unfolding work
  work-extremes input inputs elems dimension k h = elim (Bool-cases (elems == 0)) [
    | inl z ↦
        let none_there : elems ≡ 0 = ground (arith, z) in
        absurd
          (omega (arith, h, none_there, zero-mul dimension, ap (λ n. n * dimension) none_there))
    | inr z ↦
        let (a, b) = min_max-at input inputs 0 (elems * dimension) k h in
        let here : 0 + k ≡ k = omega arith in
        rw z (
          refl,
          (
            smallest e (at e input k) (column e inputs k),
            subst
                (λ i.
                  get_elem? (min_max e input inputs 0 (elems * dimension)).0 k
                  ≡ some (smallest e (at e input i) (column e inputs i)))
                here a,
            smallest-IsSmallest (at e input k) (column e inputs k),
          ),
          (
            largest e (at e input k) (column e inputs k),
            subst
                (λ i.
                  get_elem? (min_max e input inputs 0 (elems * dimension)).1 k
                  ≡ some (largest e (at e input i) (column e inputs i)))
                here b,
            largest-IsLargest (at e input k) (column e inputs k),
          ),
        )
  ]
