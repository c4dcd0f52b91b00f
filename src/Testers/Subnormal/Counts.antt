-- ===== src/Testers/Subnormal/Counts.antt =====
-- How many substitutes stand in a buffer.
use mathlib.Core.Path.{subst}
use mathlib.Core.Option.{some-injective}
use pothos_blocks.Shared.{
  ℕ, zero, suc, ◌+◌, ◌≤◌, ◌≡◌, ◌⊎◌, refl, sym, ap, ◌∙◌, Bool, true, false, List, [], ◌∷◌, length,
  set, get_elem?, Option, none, some, if◌then◌else◌, Bool-cases, inl, inr, arith, Pointwise,
  pointwise_nil, pointwise_cons, Option-cases,
}
use pothos_blocks.Testers.Subnormal.{pick_at, pick, substitute}

module _ {A : Type 0} where
  abbrev pub count : (A → Bool) → List A → ℕ
  count check [] = 0
  count check (a ∷ as') = let rest = count check as' in if check a then suc rest else rest

  -- The element stays, or was none of them and is replaced.
  abbrev pub Stays : (A → Bool) → A → A → A → Type 0
  Stays check sub a b = (a ≡ b) ⊎ ((check a ≡ false) × (b ≡ sub))

  pub count-le : (check : A → Bool) (xs : List A) → count check xs ≤ length xs
  count-le check [] = omega arith
  count-le check (x ∷ xs) = elim (Bool-cases (check x)) [
    | inl e ↦ rw e (omega (arith, count-le check xs))
    | inr e ↦ rw e (omega (arith, count-le check xs))
  ]

  -- an index whose element is none of them
  pub record Free (check : A → Bool) (xs : List A) (i : ℕ) : Type 0 where
    pub element : A
    pub there : get_elem? xs i ≡ some element
    pub is_free : check element ≡ false

  pub set-count :
      (check : A → Bool) (sub : A) (xs : List A) (i : ℕ)
      → check sub ≡ true
      → Free check xs i
      → count check (set xs i sub) ≡ suc (count check xs)
  set-count check sub [] i s f = ground (arith, f.there)
  set-count check sub (x ∷ xs) zero s f =
      let same = some-injective x f.element f.there in
      let free : check x ≡ false = ap check same ∙ f.is_free in rw (s, free) refl
  set-count check sub (x ∷ xs) (suc i) s f =
      let rest =
        set-count check sub xs i s
          (record { element = f.element; there = f.there; is_free = f.is_free }) in
      elim (Bool-cases (check x)) [ inl e ↦ rw e (ap suc rest) | inr e ↦ rw e rest ]

  -- what was drawn, where the loop is over
  pick_at-Free :
      (check : A → Bool) (xs : List A) (i j : ℕ) (draws rest : List ℕ) (again : Option (ℕ × List ℕ))
      (o : Option A)
      → get_elem? xs i ≡ o
      → (again ≡ some (j, rest) → Free check xs j)
      → pick_at check i draws again o ≡ some (j, rest)
      → Free check xs j
  pick_at-Free check xs i j draws rest again none there h e = ground (arith, e)
  pick_at-Free check xs i j draws rest again (some a) there h e = elim (Bool-cases (check a)) [
    | inl sub ↦ h (subst (λ b. (if b then again else some (i, draws)) ≡ some (j, rest)) sub e)
    | inr free ↦
        let drawn : some (i, draws) ≡ some (j, rest) =
          subst (λ b. (if b then again else some (i, draws)) ≡ some (j, rest)) free e in
        let same : i ≡ j =
          ap (λ (p : ℕ × List ℕ). p.0) (some-injective (i, draws) (j, rest) drawn) in
        subst (Free check xs) same (record { element = a; there = there; is_free = free })
  ]

  pub pick-Free :
      (check : A → Bool) (xs : List A) (draws : List ℕ) (i : ℕ) (rest : List ℕ)
      → pick check xs draws ≡ some (i, rest)
      → Free check xs i
  unfolding pick
  pick-Free check xs [] j rest e = ground (arith, e)
  pick-Free check xs (i ∷ draws) j rest e =
      pick_at-Free check xs i j draws rest (pick check xs draws) (get_elem? xs i) refl
        (pick-Free check xs draws j rest) e

  pub refl-Stays : (check : A → Bool) (sub : A) (xs : List A) → Pointwise (Stays check sub) xs xs
  refl-Stays check sub [] = pointwise_nil
  refl-Stays check sub (x ∷ xs) = pointwise_cons (inl refl) (refl-Stays check sub xs)

  now :
      (check : A → Bool) (sub x y : A)
      → check sub ≡ true
      → check y ≡ false
      → Stays check sub x y
      → Stays check sub x sub
  now check sub x y s free (inl e) = inr (ap check e ∙ free, refl)
  now check sub x y s free (inr (was, e)) = inr (was, refl)

  set-Stays :
      (check : A → Bool) (sub : A) (xs ys : List A) (i : ℕ)
      → check sub ≡ true
      → Free check ys i
      → Pointwise (Stays check sub) xs ys
      → Pointwise (Stays check sub) xs (set ys i sub)
  set-Stays check sub [] [] i s f pointwise_nil = pointwise_nil
  set-Stays check sub (x ∷ xs) (y ∷ ys) zero s f (pointwise_cons p ps) =
      let same = some-injective y f.element f.there in
      let free : check y ≡ false = ap check same ∙ f.is_free in
      pointwise_cons (now check sub x y s free p) ps
  set-Stays check sub (x ∷ xs) (y ∷ ys) (suc i) s f (pointwise_cons p ps) = pointwise_cons p (
      set-Stays check sub xs ys i s
        (record { element = f.element; there = f.there; is_free = f.is_free }) ps)
  set-Stays check sub [] (y ∷ ys) i s f ps = elim ps [ ]
  set-Stays check sub (x ∷ xs) [] i s f ps = elim ps [ ]

  pub substitute-pick :
      (check : A → Bool) (sub : A) (n : ℕ) (ys : List A) (draws more : List ℕ) (i : ℕ)
      → pick check ys draws ≡ some (i, more)
      → substitute check sub (suc n) ys draws ≡ substitute check sub n (set ys i sub) more
  unfolding substitute
  substitute-pick check sub n ys draws more i drawn = rw (substitute, drawn) refl

  substitute_ends :
      (check : A → Bool) (sub : A) (n : ℕ) (ys : List A) (draws : List ℕ)
      → pick check ys draws ≡ none
      → substitute check sub (suc n) ys draws ≡ none
  unfolding substitute
  substitute_ends check sub n ys draws stuck = rw (substitute, stuck) refl

  -- What the loop leaves, where it ends: so many substitutes more, in places of other elements.
  pub substitute-count :
      (check : A → Bool) (sub : A) (n : ℕ) (xs ys out : List A) (draws rest : List ℕ)
      → check sub ≡ true
      → Pointwise (Stays check sub) xs ys
      → substitute check sub n ys draws ≡ some (out, rest)
      → (count check out ≡ n + count check ys) × Pointwise (Stays check sub) xs out
  unfolding substitute
  substitute-count check sub zero xs ys out draws rest s ps e =
      let same : ys ≡ out =
        ap (λ (p : List A × List ℕ). p.0) (some-injective (ys, draws) (out, rest) e) in
      (ap (count check) (sym same) ∙ omega arith, subst (Pointwise (Stays check sub) xs) same ps)
  substitute-count check sub (suc n) xs ys out draws rest s ps e =
      elim (Option-cases (pick check ys draws)) [
        | inl stuck ↦
            let none_is_some = sym (substitute_ends check sub n ys draws stuck) ∙ e in
            ground (arith, none_is_some)
        | inr ((i, more), drawn) ↦
            let f = pick-Free check ys draws i more drawn in
            let (counted, stays) =
              substitute-count check sub n xs (set ys i sub) out more rest s
                (set-Stays check sub xs ys i s f ps)
                (sym (substitute-pick check sub n ys draws more i drawn) ∙ e) in
            (omega (arith, counted, set-count check sub ys i s f), stays)
      ]
