-- ===== src/Testers/ConstantSource.antt =====
-- testers/ConstantSource.cpp, for an element type `T` with its equality test. The signal of the setter is
-- left out.
pub mod Output
use pothos_blocks.Shared.{
  ℕ, ◌+◌, ◌-◌, ◌*◌, ◌^◌, Bool, true, false, not, List, [], ◌∷◌, ◌++◌, length, take, replicate, ltb,
  ◌==◌, if◌then◌else◌, Option, none, some,
}

-- `_constant` and `_cache`
pub record ConstantSource {ℓ} (T : Type ℓ) : Type ℓ where
  pub constant : T
  pub cache : List T

module _ {ℓ} {T : Type ℓ} (same : T → T → Bool) where
  -- `std::vector::resize` to more elements
  abbrev grow : ℕ → T → List T → List T
  grow size a xs = xs ++ replicate (size - length xs) a

  -- The cache is emptied where its first element is another.
  abbrev pub kept : T → List T → List T
  kept a [] = []
  kept a (x ∷ xs) = if same a x then x ∷ xs else []

  -- `_updateCache`
  unfoldable pub update_cache : ℕ → ConstantSource T → ConstantSource T
  update_cache size s =
      let cache = kept s.constant s.cache in
      if ltb (length cache) size
      then record s { cache = grow size s.constant cache }
      else record s { cache = cache }

  -- the constructor, with the zero of the type
  unfoldable pub make : T → ConstantSource T
  unfolding update_cache
  make zero_of = update_cache (2 ^ 14) (record { constant = zero_of; cache = [] })

  unfoldable pub set_constant : T → ConstantSource T → ConstantSource T
  unfolding update_cache
  set_constant a s = update_cache (length s.cache) (record s { constant = a })

  -- What is copied out of the cache: `none` where that reads past its end.
  unfoldable pub copy_out : ℕ → List T → Option (List T)
  copy_out n cache = if ltb (length cache) n then none else some (take n cache)

  -- `work`, for this many elements of this dimension: the numbers that are written, and the block.
  unfoldable pub work : ℕ → ℕ → ConstantSource T → Option (List T) × ConstantSource T
  unfolding update_cache copy_out
  work elems dimension s =
      let s' = update_cache elems s in
      if elems == 0 then (some [], s) else (copy_out (elems * dimension) s'.cache, s')
