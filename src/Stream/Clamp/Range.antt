-- ===== src/Stream/Clamp/Range.antt =====
-- The range of what the clamp block writes.
use native.Mathlib.Nat.{zero-mul}
use pothos_blocks.Shared.{
  ℕ, ◌*◌, ◌≡◌, refl, ◌⊎◌, Bool, true, false, List, [], ◌∷◌, ◌==◌, returns, take, map, Pointwise,
  pointwise_nil, pointwise_cons, Bool-cases, inl, inr, arith,
}
use pothos_blocks.Stream.Clamp.{
  Element, Clamp, make, validated, set_min, set_max, set_min_and_max, set_clamp_min, set_clamp_max,
  clamp, lower, upper, work,
}

module _ (e : Element) where
  -- The states that the setters lead to from the constructor's.
  pub data Reached : Clamp e → Type 0 where
    made : Reached (make e)
    min_set : {s s' : Clamp e} (lo : e.T) → set_min e lo s ≡ returns s' → Reached s → Reached s'
    max_set : {s s' : Clamp e} (hi : e.T) → set_max e hi s ≡ returns s' → Reached s → Reached s'
    both_set :
        {s s' : Clamp e} (lo hi : e.T)
        → set_min_and_max e lo hi s ≡ returns s'
        → Reached s
        → Reached s'
    clamp_min_set : {s : Clamp e} (b : Bool) → Reached s → Reached (set_clamp_min e b s)
    clamp_max_set : {s : Clamp e} (b : Bool) → Reached s → Reached (set_clamp_max e b s)

  Ordered : Clamp e → Type 0
  Ordered s = e.lt s.max s.min ≡ false

  validated-Ordered :
      (lo hi : e.T) (t s' : Clamp e)
      → t.min ≡ lo
      → t.max ≡ hi
      → validated e lo hi t ≡ returns s'
      → Ordered s'
  unfolding validated Ordered
  validated-Ordered lo hi t s' p q h = elim (Bool-cases (e.lt hi lo)) [
    | inl b ↦ ground (arith, h, b)
    | inr b ↦ ground (arith, h, b, p, q)
  ]

  Reached-Ordered : {s : Clamp e} → Reached s → Ordered s
  unfolding make set_min set_max set_min_and_max set_clamp_min set_clamp_max Ordered
  Reached-Ordered made = e.lt_irrefl e.zero_of
  Reached-Ordered (min_set lo h r) = validated-Ordered _ _ _ _ refl refl h
  Reached-Ordered (max_set hi h r) = validated-Ordered _ _ _ _ refl refl h
  Reached-Ordered (both_set lo hi h r) = validated-Ordered lo hi _ _ refl refl h
  Reached-Ordered (clamp_min_set b r) = Reached-Ordered r
  Reached-Ordered (clamp_max_set b r) = Reached-Ordered r

  -- not below the one and not above the other
  abbrev pub Between : e.T → e.T → e.T → Type 0
  Between lo hi y = (e.lt y lo ≡ false) × (e.lt hi y ≡ false)

  -- `y` is in the range; it is `x` itself, or the limit that `x` is beyond.
  abbrev pub Clamped : e.T → e.T → e.T → e.T → Type 0
  Clamped lo hi x y =
      Between lo hi y
      × ((y ≡ x) ⊎ (((e.lt x lo ≡ true) × (y ≡ lo)) ⊎ ((e.lt hi x ≡ true) × (y ≡ hi))))

  clamp-Clamped : (lo hi x : e.T) → e.lt hi lo ≡ false → Clamped lo hi x (clamp e lo hi x)
  unfolding clamp
  clamp-Clamped lo hi x h = elim (Bool-cases (e.lt x lo)) [
    | inl b ↦ rw b ((e.lt_irrefl lo, h), inr (inl (refl, refl)))
    | inr b ↦ elim (Bool-cases (e.lt hi x)) [
      | inl d ↦ rw (b, d) ((h, e.lt_irrefl hi), inr (inr (refl, refl)))
      | inr d ↦ rw (b, d) ((b, d), inl refl)
    ]
  ]

  bounds :
      (s : Clamp e)
      → Ordered s
      → (s.clamp_min ≡ true) ⊎ ((a : e.T) → e.lt a e.limit_min ≡ false)
      → (s.clamp_max ≡ true) ⊎ ((a : e.T) → e.lt e.limit_max a ≡ false)
      → e.lt (upper e s) (lower e s) ≡ false
  unfolding lower upper Ordered
  bounds s o h k = elim (Bool-cases s.clamp_max) [
    | inr d ↦ elim k [ inl c ↦ ground (arith, c, d) | inr greatest ↦ rw d (greatest _) ]
    | inl d ↦ elim (Bool-cases s.clamp_min) [
      | inl b ↦ rw (b, d) o
      | inr b ↦ elim h [ inl c ↦ ground (arith, b, c) | inr least ↦ rw (b, d) (least s.max) ]
    ]
  ]

  map-Clamped :
      (lo hi : e.T) (xs : List e.T)
      → e.lt hi lo ≡ false
      → Pointwise (Clamped lo hi) xs (map (clamp e lo hi) xs)
  map-Clamped lo hi [] h = pointwise_nil
  map-Clamped lo hi (x ∷ xs) h = pointwise_cons (clamp-Clamped lo hi x h) (map-Clamped lo hi xs h)

  none_taken :
      (elems dimension : ℕ) (xs : List e.T) → (elems == 0) ≡ true → take (elems * dimension) xs ≡ []
  none_taken elems dimension xs z =
      let zero_elems : elems ≡ 0 = ground (arith, z) in rw (zero_elems, zero-mul dimension) refl

  -- Let the block be in a state that its setters lead to, refused calls apart, and let the minimum be
  -- enforced or the type's `std::numeric_limits::min` be its least value, and the maximum be enforced or
  -- its `std::numeric_limits::max` be its greatest value, as they are of the integers but not of the
  -- floating point numbers. Then `work` writes as many numbers as it takes; each is not below
  -- the minimum in force and not above the maximum in force, and it is the number that came in, or the
  -- limit that this number is beyond.
  pub work-range :
      (s : Clamp e) (elems dimension : ℕ) (input : List e.T)
      → Reached s
      → (s.clamp_min ≡ true) ⊎ ((a : e.T) → e.lt a e.limit_min ≡ false)
      → (s.clamp_max ≡ true) ⊎ ((a : e.T) → e.lt e.limit_max a ≡ false)
      → Pointwise
          (Clamped (lower e s) (upper e s))
          (take (elems * dimension) input)
          (work e s elems dimension input).0
  unfolding work
  work-range s elems dimension input r h k = elim (Bool-cases (elems == 0)) [
    | inl z ↦ rw (z, none_taken elems dimension input z) pointwise_nil
    | inr z ↦ rw z (
        map-Clamped (lower e s) (upper e s) (take (elems * dimension) input)
          (bounds s (Reached-Ordered r) h k))
  ]
