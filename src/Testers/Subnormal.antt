-- ===== src/Testers/Subnormal.antt =====
-- testers/SporadicSubnormal.cpp. The random draws are arguments: whether a substitution takes place, and
-- the indices, in order.
pub mod Counts
pub mod Ends
pub mod Work
use pothos_blocks.Shared.{
  ℕ, zero, suc, min, Bool, true, false, not, ◌||◌, List, [], ◌∷◌, length, take, drop, set,
  get_elem?, Option, none, some, ◌==◌, if◌then◌else◌, Outcome, returns, throws,
}

pub data Error : Type 0 where
  range : Error

-- The members, over the elements' type and that of probabilities, with `_checkFcn`.
pub record Subnormal (A P : Type 0) : Type 0 where
  pub sub_val : A
  pub check : A → Bool
  pub probability : P
  pub num_subs : ℕ

module _ {A P : Type 0} where
  -- the constructor, with the probability 0.0
  unfoldable pub make : P → A → (A → Bool) → Subnormal A P
  make nothing sub_val check = record {
    sub_val = sub_val;
    check = check;
    probability = nothing;
    num_subs = 1;
  }

  -- `setProbability`, with the test of the bounds
  unfoldable pub set_probability : (P → Bool) → P → Subnormal A P → Outcome Error (Subnormal A P)
  set_probability in_bounds p s =
      if in_bounds p then returns (record s { probability = p }) else throws range

  unfoldable pub set_num_subs : ℕ → Subnormal A P → Subnormal A P
  set_num_subs n s = record s { num_subs = n }

module _ {A : Type 0} where
  -- An index was drawn, with the draws behind it and what comes of drawing again, and this is the
  -- element there.
  abbrev pub pick_at :
      (A → Bool) → ℕ → List ℕ → Option (ℕ × List ℕ) → Option A → Option (ℕ × List ℕ)
  pick_at check i draws again none = none
  pick_at check i draws again (some a) = if check a then again else some (i, draws)

  -- The loop that draws an index whose element is not a substitute yet: the index, with the draws that
  -- are left, or none where the draws have run out or one is out of range.
  unfoldable pub pick : (A → Bool) → List A → List ℕ → Option (ℕ × List ℕ)
  pick check buff [] = none
  pick check buff (i ∷ draws) = pick_at check i draws (pick check buff draws) (get_elem? buff i)

  -- The loop over the substitutions.
  unfoldable pub substitute : (A → Bool) → A → ℕ → List A → List ℕ → Option (List A × List ℕ)
  unfolding pick
  substitute check sub zero buff draws = some (buff, draws)
  substitute check sub (suc n) buff draws = elim (pick check buff draws) [
    | none ↦ none
    | some (i, rest) ↦ substitute check sub n (set buff i sub) rest
  ]

-- What is posted, and how many elements are consumed.
pub record Result (A : Type 0) : Type 0 where
  pub posted : List A
  pub consumed : ℕ

abbrev pub result : {A : Type 0} → ℕ → Option (List A × List ℕ) → Option (Option (Result A))
result n none = none
result n (some (buff, draws)) = some (some (record { posted = buff; consumed = n }))

module _ {A P : Type 0} where
  -- `work`, with the input, the elements of room in the output buffer, and the draws: none where the
  -- draws do not end the loop, and `some none` where nothing is done.
  unfoldable pub work : List A → ℕ → Bool → List ℕ → Subnormal A P → Option (Option (Result A))
  unfolding substitute
  work input room insert draws s =
      let out = take (min (length input) room) input in
      if length input == 0 || (room == 0)
      then some none
      else if insert
      then result (length input)
          (substitute s.check s.sub_val (min s.num_subs (length out)) out draws)
      else some (some (record { posted = out; consumed = length input }))
