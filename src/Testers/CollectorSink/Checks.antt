-- ===== src/Testers/CollectorSink/Checks.antt =====
-- When a sequence of checks returns.
use mathlib.Core.Path.{subst}
use mathlib.Core.Option.{some-injective}
use pothos_blocks.Shared.{
  ℕ, ◌+◌, ◌≡◌, ◌≢◌, ◌↔◌, refl, Bool, true, false, not, List, [], ◌∷◌, length, Option, none, some,
  ◌==◌, if◌then◌else◌, returns, throws, arith, ==_iff, Pointwise, pointwise_nil, pointwise_cons,
}
use pothos_blocks.Testers.CollectorSink.Verify.{
  Error, Checked, then_check, require, check_each, check_all, where_present, within_packet,
}

abbrev pub Ok : Checked → Type 0
Ok c = c ≡ returns tt

pub then_check_iff : (a b : Checked) → Ok (then_check a b) ↔ (Ok a × Ok b)
then_check_iff (returns tt) b = (λ h. (refl, h), λ h. h.1)
then_check_iff (throws e) b = (λ h. ground (arith, h), λ h. h.0)

pub require_iff : (b : Bool) (e : Error) → Ok (require b e) ↔ (b ≡ true)
require_iff true e = (λ h. refl, λ h. refl)
require_iff false e = (λ h. ground (arith, h), λ h. ground (arith, h))

pub both_iff : {P Q : Type 0} {a b : Checked} → Ok a ↔ P → Ok b ↔ Q → Ok (then_check a b) ↔ (P × Q)
both_iff {a} {b} p q =
    let h = then_check_iff a b in
    (λ ok. let (x, y) = h.0 ok in (p.0 x, q.0 y), λ (x, y). h.1 (p.1 x, q.1 y))

pub test_iff : {P : Type 0} {b : Bool} (e : Error) → (b ≡ true) ↔ P → Ok (require b e) ↔ P
test_iff {b} e p = let h = require_iff b e in (λ ok. p.0 (h.0 ok), λ x. h.1 (p.1 x))

pub within_packet_iff : (i : ℕ) (c : Checked) → Ok (within_packet i c) ↔ Ok c
within_packet_iff i (returns tt) = (λ h. refl, λ h. refl)
within_packet_iff i (throws e) = (λ h. ground (arith, h), λ h. ground (arith, h))

-- The value, where there is one, is as wanted.
abbrev pub Present : {A : Type 0} → Option A → (A → Type 0) → Type 0
Present {A} o P = (a : A) → o ≡ some a → P a

pub where_present_iff :
    {A : Type 0} (o : Option A) (check : A → Checked) (P : A → Type 0)
    → ((a : A) → Ok (check a) ↔ P a)
    → Ok (where_present o check) ↔ Present o P
where_present_iff none check P h = (λ k a e. ground (arith, e), λ k. refl)
where_present_iff (some a) check P h =
    (λ k b e. subst P (some-injective a b e) ((h a).0 k), λ k. (h a).1 (k a refl))

module _ {E A : Type 0} where
  check_each→Pointwise :
      (check : ℕ → E → A → Checked) (P : E → A → Type 0) (i : ℕ) (es : List E) (xs : List A)
      → ((i : ℕ) (e : E) (a : A) → Ok (check i e a) ↔ P e a)
      → Ok (check_each check i es xs)
      → length xs ≡ length es
      → Pointwise P es xs
  unfolding check_each
  check_each→Pointwise check P i [] [] h ok len = pointwise_nil
  check_each→Pointwise check P i [] (a ∷ xs) h ok len = absurd (omega (arith, len))
  check_each→Pointwise check P i (e ∷ es) [] h ok len = absurd (omega (arith, len))
  check_each→Pointwise check P i (e ∷ es) (a ∷ xs) h ok len =
      let (x, y) = (then_check_iff (check i e a) (check_each check (i + 1) es xs)).0 ok in
      pointwise_cons ((h i e a).0 x)
        (check_each→Pointwise check P (i + 1) es xs h y (omega (arith, len)))

  Pointwise→check_each :
      (check : ℕ → E → A → Checked) (P : E → A → Type 0) (i : ℕ) {es : List E} {xs : List A}
      → ((i : ℕ) (e : E) (a : A) → Ok (check i e a) ↔ P e a)
      → Pointwise P es xs
      → Ok (check_each check i es xs) × (length xs ≡ length es)
  unfolding check_each
  Pointwise→check_each check P i h pointwise_nil = (refl, refl)
  Pointwise→check_each check P i h (pointwise_cons {a = e} {b = a} {xs = es} {bs = xs} p ps) =
      let (x, y) = Pointwise→check_each check P (i + 1) h ps in
      (
        (then_check_iff (check i e a) (check_each check (i + 1) es xs)).1 ((h i e a).1 p, x),
        omega (arith, y),
      )

  pub check_all_iff :
      (check : ℕ → E → A → Checked) (P : E → A → Type 0) (count : ℕ → ℕ → Error)
      → ((i : ℕ) (e : E) (a : A) → Ok (check i e a) ↔ P e a)
      → (es : List E) (xs : List A) → Ok (check_all check count es xs) ↔ Pointwise P es xs
  unfolding check_all
  check_all_iff check P count h es xs =
      let both =
        then_check_iff (check_each check 0 es xs)
          (require (length xs == length es) (count (length es) (length xs))) in
      let same = test_iff _ (==_iff (length xs) (length es)) in
      (
        λ ok. let (x, y) = both.0 ok in check_each→Pointwise check P 0 es xs h x (same.0 y),
        λ ps. let (x, y) = Pointwise→check_each check P 0 h ps in both.1 (x, same.1 y),
      )

pub not_empty_iff : (xs : List ℕ) → (not (length xs == 0) ≡ true) ↔ (xs ≢ [])
not_empty_iff [] = (λ h. ground (arith, h), λ h. absurd (h refl))
not_empty_iff (x ∷ xs) = (λ h e. ground (arith, e), λ h. ground arith)

pub branch_iff :
    {P Q : Type 0} {a c : Checked} (b : Bool)
    → Ok a ↔ P
    → Ok c ↔ Q
    → Ok (if b then a else c) ↔ ((b ≡ true → P) × (b ≡ false → Q))
branch_iff true p q = (λ ok. (λ e. p.0 ok, λ e. ground (arith, e)), λ h. p.1 (h.0 refl))
branch_iff false p q = (λ ok. (λ e. ground (arith, e), λ e. q.0 ok), λ h. q.1 (h.1 refl))
