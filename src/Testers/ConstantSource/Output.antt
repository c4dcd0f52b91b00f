-- ===== src/Testers/ConstantSource/Output.antt =====
-- What the constant source writes.
use mathlib.Core.Path.{subst}
use native.Mathlib.Nat.{mul-one}
use pothos_blocks.Shared.{
  ℕ, zero, suc, ◌-◌, ◌^◌, ◌≤◌, ◌≡◌, ◌↔◌, refl, sym, ap, ap₂, ◌∙◌, Bool, true, false, List, [], ◌∷◌,
  ◌++◌, length, take, replicate, some, ltb, ◌==◌, arith, Bool-cases, inl, inr, length-append,
  length-replicate,
}
use pothos_blocks.Testers.ConstantSource.{
  ConstantSource, kept, update_cache, make, set_constant, copy_out, work,
}

-- All elements are `a`.
pub data AllSame {ℓ} {T : Type ℓ} (a : T) : List T → Type ℓ where
  same_nil : AllSame a []
  same_cons : {x : T} {xs : List T} → x ≡ a → AllSame a xs → AllSame a (x ∷ xs)

module _ {ℓ} {T : Type ℓ} where
  AllSame-replicate : (a : T) (n : ℕ) → AllSame a (replicate n a)
  AllSame-replicate a zero = same_nil
  AllSame-replicate a (suc n) = same_cons refl (AllSame-replicate a n)

  AllSame-append : (a : T) {xs ys : List T} → AllSame a xs → AllSame a ys → AllSame a (xs ++ ys)
  AllSame-append a same_nil q = q
  AllSame-append a (same_cons e p) q = same_cons e (AllSame-append a p q)

  AllSame-take :
      (a : T) (n : ℕ) {xs : List T} → AllSame a xs → n ≤ length xs → take n xs ≡ replicate n a
  AllSame-take a zero p h = refl
  AllSame-take a (suc n) same_nil h = absurd (omega (arith, h))
  AllSame-take a (suc n) (same_cons e p) h =
      ap₂ (λ x xs. x ∷ xs) e (AllSame-take a n p (omega (arith, h)))

module _ {ℓ} {T : Type ℓ} (same : T → T → Bool)
    (same_iff : (a b : T) → (same a b ≡ true) ↔ (a ≡ b)) where
  -- the calls of setConstant and work
  pub data Op : Type ℓ where
    sets : T → Op
    calls : ℕ → Op

  unfoldable pub step : ConstantSource T → Op → ConstantSource T
  step s (sets a) = set_constant same a s
  step s (calls elems) = (work same elems 1 s).1

  unfoldable pub run : List Op → ConstantSource T → ConstantSource T
  run [] s = s
  run (o ∷ ops) s = run ops (step s o)

  kept-AllSame : {a : T} (c : T) {xs : List T} → AllSame a xs → AllSame c (kept same c xs)
  kept-AllSame c same_nil = same_nil
  kept-AllSame {a} c (same_cons {x} {xs} e p) = elim (Bool-cases (same c x)) [
    | inl h ↦
        let other : c ≡ x = (same_iff c x).0 h in
        rw h (same_cons (sym other) (subst (λ b. AllSame b xs) (sym e ∙ sym other) p))
    | inr h ↦ rw h same_nil
  ]

  -- The cache holds the constant alone, and as many of it as wanted.
  update_cache_lem :
      {a : T} (size : ℕ) (s : ConstantSource T)
      → AllSame a s.cache
      → AllSame (update_cache same size s).constant (update_cache same size s).cache
        × (size ≤ length (update_cache same size s).cache)
        × ((update_cache same size s).constant ≡ s.constant)
  unfolding update_cache
  update_cache_lem size s p =
      let xs = kept same s.constant s.cache in
      let q = kept-AllSame s.constant p in
      elim (Bool-cases (ltb (length xs) size)) [
        | inl e ↦
            let more = replicate (size - length xs) s.constant in
            rw e (
              AllSame-append s.constant q (AllSame-replicate s.constant (size - length xs)),
              omega (arith, length-append xs more, length-replicate (size - length xs) s.constant),
              refl,
            )
        | inr e ↦ rw e (q, ground (arith, e), refl)
      ]

  Full : ConstantSource T → Type ℓ
  Full s = AllSame s.constant s.cache

  -- the constant that was set last
  abbrev pub last_set : T → List Op → T
  last_set a [] = a
  last_set a (sets b ∷ ops) = last_set b ops
  last_set a (calls elems ∷ ops) = last_set a ops

  after_work :
      (elems : ℕ) (s : ConstantSource T)
      → Full s
      → AllSame (work same elems 1 s).1.constant (work same elems 1 s).1.cache
        × ((work same elems 1 s).1.constant ≡ s.constant)
  unfolding work Full
  after_work elems s p = elim (Bool-cases (elems == 0)) [
    | inl e ↦ rw e (p, refl)
    | inr e ↦ let (q, enough, kept) = update_cache_lem elems s p in rw e (q, kept)
  ]

  step-Full : (s : ConstantSource T) (o : Op) → Full s → Full (step s o)
  unfolding step set_constant work Full
  step-Full s (sets a) p =
      let (q, enough, kept) = update_cache_lem (length s.cache) (record s { constant = a }) p in q
  step-Full s (calls elems) p = (after_work elems s p).0

  step-constant :
      (s : ConstantSource T) (o : Op) → Full s → (step s o).constant ≡ last_set s.constant (o ∷ [])
  unfolding step set_constant work Full
  step-constant s (sets a) p =
      let (q, enough, kept) = update_cache_lem (length s.cache) (record s { constant = a }) p in
      kept
  step-constant s (calls elems) p = (after_work elems s p).1

  last_set-step :
      (a : T) (o : Op) (ops : List Op) → last_set (last_set a (o ∷ [])) ops ≡ last_set a (o ∷ ops)
  last_set-step a (sets b) ops = refl
  last_set-step a (calls elems) ops = refl

  run-Full :
      (ops : List Op) (s : ConstantSource T)
      → Full s
      → Full (run ops s) × ((run ops s).constant ≡ last_set s.constant ops)
  unfolding run
  run-Full [] s p = (p, refl)
  run-Full (o ∷ ops) s p =
      let (q, c) = run-Full ops (step s o) (step-Full s o p) in
      (q, c ∙ ap (λ a. last_set a ops) (step-constant s o p) ∙ last_set-step s.constant o ops)

  work-Full :
      (elems : ℕ) (s : ConstantSource T)
      → Full s
      → (work same elems 1 s).0 ≡ some (replicate elems s.constant)
  unfolding work copy_out Full
  work-Full elems s p = elim (Bool-cases (elems == 0)) [
    | inl e ↦ let z : elems ≡ 0 = ground (arith, e) in rw (e, z) refl
    | inr e ↦
        let (q, enough, kept) = update_cache_lem elems s p in
        let room : ltb (length (update_cache same elems s).cache) elems ≡ false =
          ground (arith, enough) in
        rw (e, mul-one elems, room)
          (ap some (
            AllSame-take (update_cache same elems s).constant elems q enough
            ∙ ap (replicate elems) kept))
  ]

  make-Full : (a : T) → Full (make same a) × ((make same a).constant ≡ a)
  unfolding make Full
  make-Full a =
      let (q, enough, kept) =
        update_cache_lem {a = a} (2 ^ 14) (record { constant = a; cache = [] }) same_nil in
      (q, kept)

  -- Let the equality test of the type be right. Whatever calls of `setConstant` and `work` came before
  -- on a new block, a call of `work` for elements of dimension 1 reads only what the cache holds, and
  -- writes the constant that was set last, or the zero of the type, for every element.
  pub work-constant :
      (zero_of : T) (ops : List Op) (elems : ℕ)
      → (work same elems 1 (run ops (make same zero_of))).0
        ≡ some (replicate elems (last_set zero_of ops))
  work-constant zero_of ops elems =
      let (p, c) = make-Full zero_of in
      let (q, k) = run-Full ops (make same zero_of) p in
      work-Full elems (run ops (make same zero_of)) q
      ∙ ap (λ a. some (replicate elems a)) (k ∙ ap (λ a. last_set a ops) c)
