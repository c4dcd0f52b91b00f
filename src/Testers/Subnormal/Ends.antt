-- ===== src/Testers/Subnormal/Ends.antt =====
-- When the loop that draws indices ends.
use mathlib.Core.Path.{subst}
use mathlib.Core.Option.{some-injective}
use pothos_blocks.Shared.{
  ℕ, zero, suc, ◌+◌, ◌≤◌, ◌<◌, ◌≡◌, ◌⊎◌, refl, sym, ap, ◌∙◌, Bool, true, false, List, [], ◌∷◌, ◌++◌,
  length, set, get_elem?, some, if◌then◌else◌, Bool-cases, inl, inr, arith, Pointwise,
  pointwise_nil, pointwise_cons, length-set,
}
use pothos_blocks.Testers.Subnormal.{pick, substitute}
use pothos_blocks.Testers.Subnormal.Counts.{count, Free, set-count, substitute-pick, pick-Free}

-- the index is among the draws
pub data Among (i : ℕ) : List ℕ → Type 0 where
  first : {draws : List ℕ} → Among i (i ∷ draws)
  later : {j : ℕ} {draws : List ℕ} → Among i draws → Among i (j ∷ draws)

-- The draws are indices below `len`, and in `n` stretches, one behind the other, each of them comes up.
pub data Fair (len : ℕ) : ℕ → List ℕ → Type 0 where
  fair_end : Fair len 0 []
  fair_cons : {n i : ℕ} {draws : List ℕ} → i < len → Fair len n draws → Fair len n (i ∷ draws)
  fair_round :
      {n : ℕ} {draws : List ℕ} (stretch : List ℕ)
      → ((i : ℕ) → i < len → Among i stretch)
      → ((i : ℕ) → Among i stretch → i < len)
      → Fair len n draws
      → Fair len (suc n) (stretch ++ draws)

Fair-append :
    {len n : ℕ} {draws : List ℕ} (stretch : List ℕ)
    → ((i : ℕ) → Among i stretch → i < len)
    → Fair len n draws
    → Fair len n (stretch ++ draws)
Fair-append [] h f = f
Fair-append (i ∷ stretch) h f = fair_cons (h i first) (Fair-append stretch (λ j a. h j (later a)) f)

-- A round less is left over.
Fair-pred : {len n : ℕ} {draws : List ℕ} → Fair len (suc n) draws → Fair len n draws
Fair-pred (fair_cons h f) = fair_cons h (Fair-pred f)
Fair-pred (fair_round stretch all below f) = Fair-append stretch below f

get_elem?-lt {ℓ} :
    {A : Type ℓ} (xs : List A) (n : ℕ) → n < length xs → (a : A) × (get_elem? xs n ≡ some a)
get_elem?-lt [] n h = absurd (omega arith)
get_elem?-lt (x ∷ xs) zero h = (x, refl)
get_elem?-lt (x ∷ xs) (suc n) h = get_elem?-lt xs n (omega (arith, h))

pub length-Pointwise {ℓ ℓ' κ} :
    {A : Type ℓ} {B : Type ℓ'} {P : A → B → Type κ} {xs : List A} {ys : List B}
    → Pointwise P xs ys
    → length xs ≡ length ys
length-Pointwise pointwise_nil = refl
length-Pointwise (pointwise_cons p ps) = ap suc (length-Pointwise ps)

module _ {A : Type 0} where
  -- Where not every element is a substitute, one is left to replace.
  count-Free :
      (check : A → Bool) (xs : List A)
      → count check xs < length xs
      → (i : ℕ) × (i < length xs) × Free check xs i
  count-Free check [] h = absurd (omega (arith, h))
  count-Free check (x ∷ xs) h = elim (Bool-cases (check x)) [
    | inr e ↦ (0, omega arith, record { element = x; there = refl; is_free = e })
    | inl e ↦
        let fewer : suc (count check xs) < suc (length xs) =
          subst (λ b. (if b then suc (count check xs) else count check xs) < suc (length xs)) e h in
        let (i, lt, f) = count-Free check xs (omega (arith, fewer)) in
        (
          suc i,
          omega (arith, lt),
          record { element = f.element; there = f.there; is_free = f.is_free },
        )
  ]

  -- One more draw: it is taken, or it is a substitute.
  one_draw :
      (check : A → Bool) (xs : List A) (i : ℕ) (draws : List ℕ)
      → i < length xs
      → (pick check xs (i ∷ draws) ≡ some (i, draws))
        ⊎ ((pick check xs (i ∷ draws) ≡ pick check xs draws) × ¬ Free check xs i)
  unfolding pick
  one_draw check xs i draws lt =
      let (a, there) = get_elem?-lt xs i lt in
      elim (Bool-cases (check a)) [
        | inr free ↦ inl (rw there (rw free refl))
        | inl sub ↦ inr (
          rw there (rw sub refl),
          λ f.
              let same = some-injective a f.element (sym there ∙ f.there) in
              let both : true ≡ false = sym sub ∙ ap check same ∙ f.is_free in ground (arith, both),
        )
      ]

  not_first :
      (check : A → Bool) (xs : List A) {i j : ℕ} {draws : List ℕ}
      → Free check xs j
      → ¬ Free check xs i
      → Among j (i ∷ draws)
      → Among j draws
  not_first check xs f none_free first = absurd (none_free f)
  not_first check xs f none_free (later a) = a

  -- A stretch that has the index of an element to replace ends the loop.
  pick_in_stretch :
      (check : A → Bool) (xs : List A) (n j : ℕ) (stretch draws : List ℕ)
      → Free check xs j
      → Among j stretch
      → ((i : ℕ) → Among i stretch → i < length xs)
      → Fair (length xs) n draws
      → (i : ℕ) × (rest : List ℕ) × (pick check xs (stretch ++ draws) ≡ some (i, rest))
        × Fair (length xs) n rest
  pick_in_stretch check xs n j [] draws f a below fair = elim a [ ]
  pick_in_stretch check xs n j (i ∷ stretch) draws f a below fair =
      elim (one_draw check xs i (stretch ++ draws) (below i first)) [
        | inl taken ↦
            (i, stretch ++ draws, taken, Fair-append stretch (λ k b. below k (later b)) fair)
        | inr (again, not_free) ↦
            let (k, rest, picked, left) =
              pick_in_stretch check xs n j stretch draws f (not_first check xs f not_free a)
                (λ k b. below k (later b)) fair in
            (k, rest, again ∙ picked, left)
      ]

  -- Fair draws end the loop, and stay fair.
  pick-Fair :
      (check : A → Bool) (xs : List A) (n j : ℕ) (draws : List ℕ)
      → Free check xs j
      → j < length xs
      → Fair (length xs) (suc n) draws
      → (i : ℕ) × (rest : List ℕ) × (pick check xs draws ≡ some (i, rest)) × Fair (length xs) n rest
  pick-Fair check xs n j (i ∷ draws) f lt (fair_cons h fair) = elim (one_draw check xs i draws h) [
    | inl taken ↦ (i, draws, taken, Fair-pred fair)
    | inr (again, not_free) ↦
        let (k, rest, picked, left) = pick-Fair check xs n j draws f lt fair in
        (k, rest, again ∙ picked, left)
  ]
  pick-Fair check xs n j draws f lt (fair_round {draws = later_draws} stretch all below fair) =
      pick_in_stretch check xs n j stretch later_draws f (all j lt) below fair

  pub substitute-Fair :
      (check : A → Bool) (sub : A) (n : ℕ) (xs : List A) (draws : List ℕ)
      → check sub ≡ true
      → n + count check xs ≤ length xs
      → Fair (length xs) n draws
      → (out : List A) × (rest : List ℕ) × (substitute check sub n xs draws ≡ some (out, rest))
  unfolding substitute
  substitute-Fair check sub zero xs draws s h fair = (xs, draws, refl)
  substitute-Fair check sub (suc n) xs draws s h fair =
      let (j, lt, f) = count-Free check xs (omega (arith, h)) in
      let (i, more, picked, left) = pick-Fair check xs n j draws f lt fair in
      let free = pick-Free check xs draws i more picked in
      let same_length = length-set xs i sub in
      let counted = set-count check sub xs i s free in
      let (out, rest, done) =
        substitute-Fair check sub n (set xs i sub) more s (omega (arith, h, same_length, counted))
          (subst (λ l. Fair l n more) (sym same_length) left) in
      (out, rest, substitute-pick check sub n xs draws more i picked ∙ done)
