-- ===== src/Testers/FeederSource/TestPlan/Counts.antt =====
-- How many elements the buffers of `feedTestPlan` have.
use native.Mathlib.Nat.{mod-add-div', mod-lt, mul-le-mul_right}
use pothos_blocks.Shared.{
  ℕ, zero, suc, ◌+◌, ◌-◌, ◌*◌, ◌/◌, ◌%◌, ◌≤◌, ◌<◌, ◌≡◌, refl, true, false, arith, Bool-cases, inl,
  inr, ltb, leb, ◌==◌, if◌then◌else◌, if◌then◌else◌,
}
use pothos_blocks.Testers.FeederSource.TestPlan.Buffers.{buffer_size, pad}

-- so many times the number
abbrev pub IsMultiple : ℕ → ℕ → Type 0
IsMultiple m n = (k : ℕ) × (n ≡ k * m)

-- The rounded number, between the drawn one and the next multiple behind it.
round_up-bounds :
    (drawn m : ℕ)
    → 1 ≤ m
    → (drawn ≤ ((drawn + m - 1) / m) * m) × (((drawn + m - 1) / m) * m ≤ drawn + m - 1)
round_up-bounds drawn m h =
    let split = mod-add-div' (drawn + m - 1) m in
    let small = mod-lt (drawn + m - 1) {m = m} h in
    (omega (arith, h, split, small), omega (arith, h, split, small))

ltb-false : (a b : ℕ) → b ≤ a → ltb a b ≡ false
ltb-false a b h = ground (arith, h)

abbrev settle : ℕ → ℕ → ℕ → ℕ → ℕ
settle lo hi m up =
    let capped = if ltb hi up then up - m else up in if ltb capped lo then capped + m else capped

multiple-pred : (q m : ℕ) → 1 ≤ q * m → (p : ℕ) × (q ≡ suc p) × (q * m ≡ p * m + m)
multiple-pred zero m h = absurd (omega (arith, h))
multiple-pred (suc p) m h = (p, refl, omega arith)

-- No multiple stands between two neighbours.
multiple-below : (k p m : ℕ) → k * m < p * m + m → k * m ≤ p * m
multiple-below k p m h = elim (Bool-cases (leb k p)) [
  | inl le ↦ mul-le-mul_right m (ground (arith, le))
  | inr gt ↦
      let over : suc p * m ≤ k * m = mul-le-mul_right m (ground (arith, gt)) in
      absurd (omega (arith, over, h))
]

settle-IsMultiple :
    (lo hi m drawn q : ℕ)
    → lo ≤ drawn
    → drawn ≤ hi
    → drawn ≤ q * m
    → q * m ≤ drawn + m - 1
    → 1 ≤ m
    → let n = settle lo hi m (q * m) in (lo ≤ n) × (n ≤ hi + m) × IsMultiple m n
settle-IsMultiple lo hi m drawn q a b c e one = elim (Bool-cases (ltb hi (q * m))) [
  | inr below ↦
      let le : q * m ≤ hi = ground (arith, below) in
      rw below (
        rw (ltb-false (q * m) lo (omega (arith, a, c)))
          (omega (arith, a, c), omega (arith, le), (q, refl)))
  | inl above ↦
      let gt : hi < q * m = ground (arith, above) in
      let (p, eq, split) = multiple-pred q m (omega (arith, gt)) in
      rw above (elim (Bool-cases (ltb (q * m - m) lo)) [
        | inl under ↦
            rw under
              (omega (arith, split, a, c), omega (arith, split, e, b), (q, omega (arith, split)))
        | inr inside ↦
            let le : lo ≤ q * m - m = ground (arith, inside) in
            rw inside (le, omega (arith, e, b), (p, omega (arith, split)))
      ])
]

settle-le :
    (lo hi m drawn q k : ℕ)
    → lo ≤ drawn
    → drawn ≤ hi
    → drawn ≤ q * m
    → q * m ≤ drawn + m - 1
    → 1 ≤ m
    → lo ≤ k * m
    → k * m ≤ hi
    → settle lo hi m (q * m) ≤ hi
settle-le lo hi m drawn q k a b c e one x y = elim (Bool-cases (ltb hi (q * m))) [
  | inr below ↦
      let le : q * m ≤ hi = ground (arith, below) in
      rw below (rw (ltb-false (q * m) lo (omega (arith, a, c))) le)
  | inl above ↦
      let gt : hi < q * m = ground (arith, above) in
      let (p, eq, split) = multiple-pred q m (omega (arith, gt)) in
      let le = multiple-below k p m (omega (arith, y, gt, split)) in
      rw above (rw (ltb-false (q * m - m) lo (omega (arith, x, le, split))) (omega (arith, e, b)))
]

-- The number is a multiple from the lower bound on, and less than a multiple above the upper one.
pub buffer_size-IsMultiple :
    (lo hi m drawn : ℕ)
    → 1 ≤ m
    → lo ≤ drawn
    → drawn ≤ hi
    → let n = buffer_size lo hi m drawn in (lo ≤ n) × (n ≤ hi + m) × IsMultiple m n
unfolding buffer_size
buffer_size-IsMultiple lo hi m drawn one a b =
    let (c, e) = round_up-bounds drawn m one in
    settle-IsMultiple lo hi m drawn ((drawn + m - 1) / m) a b c e one

-- Where a multiple stands in the bounds, it does, too.
pub buffer_size-le :
    (lo hi m drawn k : ℕ)
    → 1 ≤ m
    → lo ≤ drawn
    → drawn ≤ hi
    → lo ≤ k * m
    → k * m ≤ hi
    → buffer_size lo hi m drawn ≤ hi
unfolding buffer_size
buffer_size-le lo hi m drawn k one a b x y =
    let (c, e) = round_up-bounds drawn m one in
    settle-le lo hi m drawn ((drawn + m - 1) / m) k a b c e one x y

-- The padding fills up to a multiple.
pub pad_lem :
    (m total n : ℕ)
    → 1 ≤ m
    → let padded = pad true m total n in
      (n ≤ padded) × (padded ≤ n + m) × IsMultiple m (total + padded)
unfolding pad
pad_lem m total n one =
    let split = mod-add-div' (total + n) m in
    let small = mod-lt (total + n) {m = m} one in
    elim (Bool-cases ((total + n) % m == 0)) [
      | inl e ↦
          let none_left : (total + n) % m ≡ 0 = ground (arith, e) in
          rw e (omega arith, omega arith, ((total + n) / m, omega (arith, split, none_left)))
      | inr e ↦
          rw e (omega arith, omega arith, (suc ((total + n) / m), omega (arith, split, small)))
    ]
