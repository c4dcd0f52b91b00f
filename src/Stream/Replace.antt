-- ===== src/Stream/Replace.antt =====
-- stream/Replace.cpp and stream/Replace.hpp. The numbers of C++ are a parameter.
use mathlib.Core.List.{append_assoc}
use pothos_blocks.Shared.{
  ap, ◌∙◌, take-append-drop, append-Pointwise, ℕ, ◌*◌, ◌≡◌, ◌⊎◌, refl, Bool, true, false, ◌&&◌, not,
  List, [], ◌∷◌, ◌++◌, take, drop, ◌==◌, if◌then◌else◌, Bool-cases, inl, inr, Pointwise,
  pointwise_nil, pointwise_cons,
}

-- A type of floating point numbers, with the classification of `std::isnan` and `std::isinf`, `x < 0.0`,
-- and `std::abs(x - y) <= epsilon`.
pub record Floating : Type 1 where
  pub Float : Type 0
  pub is_nan : Float → Bool
  pub is_inf : Float → Bool
  pub is_negative : Float → Bool
  pub Epsilon : Type 0
  pub within : Epsilon → Float → Float → Bool

abbrev same_sign : Bool → Bool → Bool
same_sign true b = b
same_sign false b = not b

module _ (fl : Floating) where
  -- `isEqual` of integers
  unfoldable pub is_equal_int : fl.Epsilon → ℕ → ℕ → Bool
  is_equal_int epsilon a b = a == b

  -- `isEqual` of floating point numbers
  unfoldable pub is_equal_float : fl.Epsilon → fl.Float → fl.Float → Bool
  is_equal_float epsilon a b =
      if fl.is_nan a && fl.is_nan b
      then true
      else if fl.is_inf a && fl.is_inf b
      then same_sign (fl.is_negative a) (fl.is_negative b)
      else fl.within epsilon a b

  -- `isEqual` of complex numbers, by their two parts
  unfoldable pub is_equal_complex :
      {A : Type 0} → (fl.Epsilon → A → A → Bool) → fl.Epsilon → A × A → A × A → Bool
  is_equal_complex equal epsilon (a, b) (c, e) = equal epsilon a c && equal epsilon b e

-- `replaceBuffer`, with the test of equality
unfoldable pub replace_buffer : {A : Type 0} → (A → A → Bool) → A → A → List A → List A
replace_buffer equal old new [] = []
replace_buffer equal old new (a ∷ as') =
    (if equal old a then new else a) ∷ replace_buffer equal old new as'

-- The members, over the elements' type and that of epsilon.
pub record Replace (A E : Type 0) : Type 0 where
  pub old_value : A
  pub new_value : A
  pub epsilon : E

module _ {A E : Type 0} where
  -- the constructor, with the values of 0 and of `std::numeric_limits<double>::epsilon()`
  unfoldable pub make : A → E → Replace A E
  make nothing least = record { old_value = nothing; new_value = nothing; epsilon = least }

  unfoldable pub set_old_value : A → Replace A E → Replace A E
  set_old_value a s = record s { old_value = a }

  unfoldable pub set_new_value : A → Replace A E → Replace A E
  set_new_value a s = record s { new_value = a }

  unfoldable pub set_epsilon : E → Replace A E → Replace A E
  set_epsilon e s = record s { epsilon = e }

  -- `work`, with `minElements` of so many numbers each: what is produced, and what is left.
  unfoldable pub work : (E → A → A → Bool) → ℕ → ℕ → List A → Replace A E → List A × List A
  unfolding replace_buffer
  work equal dimension elems input s = if elems == 0 then ([], input) else (
    replace_buffer (equal s.epsilon) s.old_value s.new_value (take (elems * dimension) input),
    drop (elems * dimension) input,
  )

  -- what became of a number
  abbrev pub Replaced : (E → A → A → Bool) → Replace A E → A → A → Type 0
  Replaced equal s a b =
      ((equal s.epsilon s.old_value a ≡ true) × (b ≡ s.new_value))
      ⊎ ((equal s.epsilon s.old_value a ≡ false) × (b ≡ a))

  -- So many calls, with the numbers of elements: what was produced, and what is left.
  unfoldable pub works : (E → A → A → Bool) → ℕ → List ℕ → List A → Replace A E → List A × List A
  works equal dimension [] input s = ([], input)
  works equal dimension (n ∷ ns) input s =
      let (out, rest) = work equal dimension n input s in
      let (more, left) = works equal dimension ns rest s in (out ++ more, left)

  -- No number that is equal to the old value is produced, where the new value is not; the rest stay.
  replace_buffer-Replaced :
      (equal : E → A → A → Bool) (s : Replace A E) (xs : List A)
      → Pointwise
          (Replaced equal s)
          xs
          (replace_buffer (equal s.epsilon) s.old_value s.new_value xs)
  unfolding replace_buffer
  replace_buffer-Replaced equal s [] = pointwise_nil
  replace_buffer-Replaced equal s (x ∷ xs) =
      pointwise_cons
        (elim (Bool-cases (equal s.epsilon s.old_value x)) [
          | inl e ↦ rw e (inl (refl, refl))
          | inr e ↦ rw e (inr (refl, refl))
        ])
        (replace_buffer-Replaced equal s xs)

  -- However the input is divided among the calls of `work`, what they produce is, number for number,
  -- an input number that is not equal to the old value, or the new value in place of one that is;
  -- what is left is the rest of the input.
  pub works-Replaced :
      (equal : E → A → A → Bool) (dimension : ℕ) (ns : List ℕ) (input : List A) (s : Replace A E)
      → let (out, left) = works equal dimension ns input s in
        (used : List A) × (used ++ left ≡ input) × Pointwise (Replaced equal s) used out
  unfolding works work
  works-Replaced equal dimension [] input s = ([], refl, pointwise_nil)
  works-Replaced equal dimension (n ∷ ns) input s = elim (Bool-cases (n == 0)) [
    | inl e ↦ rw e (works-Replaced equal dimension ns input s)
    | inr e ↦
        let front = take (n * dimension) input in
        let (used, all, same) = works-Replaced equal dimension ns (drop (n * dimension) input) s in
        rw e (
          front ++ used,
          append_assoc front used _
              ∙ ap (λ l. front ++ l) all
              ∙ take-append-drop (n * dimension) input,
          append-Pointwise (replace_buffer-Replaced equal s front) same,
        )
  ]
