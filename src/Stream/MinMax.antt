-- ===== src/Stream/MinMax.antt =====
-- stream/MinMax.cpp, for an element type with an order.
pub mod Extremes
use pothos_blocks.Shared.{
  ℕ, zero, suc, ◌+◌, ◌*◌, Bool, true, false, List, [], ◌∷◌, map, get_or, ◌==◌, if◌then◌else◌,
}
use pothos_blocks.Stream.Clamp.{Element}

module _ (e : Element) where
  -- `std::minmax_element`: the first smallest element and the last largest one, from one on.
  unfoldable pub smallest : e.T → List e.T → e.T
  smallest m [] = m
  smallest m (x ∷ xs) = smallest (if e.lt x m then x else m) xs

  unfoldable pub largest : e.T → List e.T → e.T
  largest m [] = m
  largest m (x ∷ xs) = largest (if e.lt x m then m else x) xs

  -- an element of an input buffer
  abbrev pub at : List e.T → ℕ → e.T
  at input i = get_or input i e.zero_of

  abbrev pub column : List (List e.T) → ℕ → List e.T
  column inputs i = map (λ input. at input i) inputs

  -- The loop of `getMinMaxFcn` over the elements from `i` on, for the first input and the others: what
  -- goes to the output "min" and to the output "max".
  unfoldable pub min_max : List e.T → List (List e.T) → ℕ → ℕ → List e.T × List e.T
  unfolding smallest largest
  min_max input inputs i zero = ([], [])
  min_max input inputs i (suc n) =
      let (mins, maxs) = min_max input inputs (i + 1) n in
      (
        smallest (at input i) (column inputs i) ∷ mins,
        largest (at input i) (column inputs i) ∷ maxs,
      )

  -- `work`, with the framework's `minAllElements` and the type's dimension: the two outputs, and how
  -- many elements every port consumes and produces.
  unfoldable pub work : List e.T → List (List e.T) → ℕ → ℕ → List e.T × List e.T × ℕ
  unfolding min_max
  work input inputs elems dimension =
      let (mins, maxs) = min_max input inputs 0 (elems * dimension) in
      if elems == 0 then ([], [], 0) else (mins, maxs, elems)
