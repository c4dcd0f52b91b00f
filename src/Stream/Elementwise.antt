-- ===== src/Stream/Elementwise.antt =====
-- stream/IsX.cpp and stream/Round.cpp without the SIMD kernels. The functions of the standard library
-- on floating point numbers are a parameter.
use pothos_blocks.Shared.{
  ℕ, ◌+◌, ◌*◌, ◌≡◌, refl, sym, ap, ap₂, arith, Bool, List, [], ◌∷◌, ◌++◌, map, take, drop, Option,
  none, some, ◌==◌, if◌then◌else◌, Outcome, returns, throws, Bool-cases, inl, inr, sum, take-add,
  drop-add,
}

pub data Error : Type 0 where
  invalid_type : Error

-- An element type of the framework, without its dimension.
pub data Scalar : Type 0 where
  float32 : Scalar
  float64 : Scalar
  other : Scalar

-- The functions, for the numbers `A` of a type.
pub record FloatFunctions (A : Type 0) : Type 0 where
  pub is_finite : A → Bool
  pub is_inf : A → Bool
  pub is_nan : A → Bool
  pub is_normal : A → Bool
  pub sign_bit : A → Bool
  pub ceil : A → A
  pub floor : A → A
  pub trunc : A → A

-- a test, as the number that is put out
unfoldable pub test_of : {A : Type 0} → (A → Bool) → A → ℕ
test_of p a = if p a then 1 else 0

module _ {A : Type 0} (f : FloatFunctions A) where
  -- `getIsFinite` to `getIsNegative`
  unfoldable pub is_finite_fcn : A → ℕ
  unfolding test_of
  is_finite_fcn = test_of f.is_finite

  unfoldable pub is_inf_fcn : A → ℕ
  unfolding test_of
  is_inf_fcn = test_of f.is_inf

  unfoldable pub is_nan_fcn : A → ℕ
  unfolding test_of
  is_nan_fcn = test_of f.is_nan

  unfoldable pub is_normal_fcn : A → ℕ
  unfolding test_of
  is_normal_fcn = test_of f.is_normal

  unfoldable pub is_negative_fcn : A → ℕ
  unfolding test_of
  is_negative_fcn = test_of f.sign_bit

-- `getCeilFcn`, `getFloorFcn` and `getTruncFcn`, over the standard library
module _ {A : Type 0} (f : FloatFunctions A) where
  unfoldable pub ceil_fcn : A → A
  ceil_fcn = f.ceil

  unfoldable pub floor_fcn : A → A
  floor_fcn = f.floor

  unfoldable pub trunc_fcn : A → A
  trunc_fcn = f.trunc

-- A block: the function that it was made with, and the dimension of its elements.
pub record Elementwise (A B : Type 0) : Type 0 where
  pub dimension : ℕ
  pub function : A → B

no_elements : (n m : ℕ) → n ≡ 0 → n * m ≡ 0
no_elements n m e = rw e (omega arith)

module _ {A B : Type 0} where
  -- the factories, with the function for each type
  unfoldable pub make :
      {C D : Type 0}
      → (A → B)
      → (C → D)
      → Scalar
      → ℕ
      → Outcome Error (Option (Elementwise A B) × Option (Elementwise C D))
  make f g float32 n = returns (some (record { dimension = n; function = f }), none)
  make f g float64 n = returns (none, some (record { dimension = n; function = g }))
  make f g other n = throws invalid_type

  -- `work`, with `minElements`: what is produced, and what is left of the input.
  unfoldable pub work : ℕ → List A → Elementwise A B → List B × List A
  work elems input s =
      if elems == 0
      then ([], input)
      else (map s.function (take (elems * s.dimension) input), drop (elems * s.dimension) input)

  -- one call after the other
  unfoldable pub works : List ℕ → List A → Elementwise A B → List B × List A
  works [] input s = ([], input)
  works (n ∷ ns) input s =
      let (out, rest) = work n input s in let (more, left) = works ns rest s in (out ++ more, left)

  map-append : (f : A → B) (xs ys : List A) → map f (xs ++ ys) ≡ map f xs ++ map f ys
  map-append f [] ys = refl
  map-append f (x ∷ xs) ys = ap (λ l. f x ∷ l) (map-append f xs ys)

  -- A call of `work`, with no element as with more, maps the front of the input.
  work-map :
      (n : ℕ) (input : List A) (s : Elementwise A B)
      → work n input s
        ≡ (map s.function (take (n * s.dimension) input), drop (n * s.dimension) input)
  unfolding work
  work-map n input s = elim (Bool-cases (n == 0)) [
    | inl e ↦ rw (e, no_elements n s.dimension (ground (arith, e))) refl
    | inr e ↦ rw e refl
  ]

  -- However the input is divided among the calls of `work`, they put out the function's value at each
  -- number that they have taken, in order, and leave the rest.
  pub works-map :
      (ns : List ℕ) (input : List A) (s : Elementwise A B)
      → works ns input s
        ≡ (map s.function (take (sum ns * s.dimension) input), drop (sum ns * s.dimension) input)
  unfolding works
  works-map [] input s = let none_left = no_elements 0 s.dimension refl in rw none_left refl
  works-map (n ∷ ns) input s =
      let m = n * s.dimension in
      let k = sum ns * s.dimension in
      let split : (n + sum ns) * s.dimension ≡ m + k = omega arith in
      rw (work-map n input s) (
        rw (works-map ns (drop m input) s) (
          rw (split, sym (take-add m k input))
            (ap₂ (λ x y. (x, y))
              (sym (map-append s.function (take m input) (take k (drop m input))))
              (drop-add m k input))))

-- The factories of the rounding blocks, over the numbers of the two types.
module _ {A B : Type 0} (f : FloatFunctions A) (g : FloatFunctions B) where
  abbrev pub Made : Type 0
  Made = Outcome Error (Option (Elementwise A A) × Option (Elementwise B B))

  unfoldable pub make_ceil : Scalar → ℕ → Made
  unfolding make ceil_fcn
  make_ceil = make (ceil_fcn f) (ceil_fcn g)

  unfoldable pub make_floor : Scalar → ℕ → Made
  unfolding make floor_fcn
  make_floor = make (floor_fcn f) (floor_fcn g)

  unfoldable pub make_trunc : Scalar → ℕ → Made
  unfolding make trunc_fcn
  make_trunc = make (trunc_fcn f) (trunc_fcn g)
