-- ===== src/Stream/Clamp.antt =====
-- stream/Clamp.cpp, for an element type with an order: the integers, and the floating point numbers
-- without NaN. The signals of the setters are left out.
pub mod Range
use pothos_blocks.Shared.{
  ℕ, ◌*◌, Bool, true, false, List, [], ◌∷◌, ◌≡◌, ◌==◌, if◌then◌else◌, Outcome, returns, throws,
  take, map,
}

-- An element type: its `<`, which is a strict weak order, and what `std::numeric_limits` calls `min` and
-- `max`. Infinity is above the latter.
pub record Element : Type 1 where
  pub T : Type 0
  pub zero_of : T
  pub lt : T → T → Bool
  pub lt_irrefl : (a : T) → lt a a ≡ false
  pub lt_asymm : (a b : T) → lt a b ≡ true → lt b a ≡ false
  pub not_lt_trans : (a b c : T) → lt b a ≡ false → lt c b ≡ false → lt c a ≡ false
  pub limit_min : T
  pub limit_max : T

pub data Error : Type 0 where
  invalid_argument : Error

module _ (e : Element) where
  -- `_min`, `_max`, `_clampMin` and `_clampMax`
  pub record Clamp : Type 0 where
    pub min : e.T
    pub max : e.T
    pub clamp_min : Bool
    pub clamp_max : Bool

  -- the constructor
  unfoldable pub make : Clamp
  make = record { min = e.zero_of; max = e.zero_of; clamp_min = true; clamp_max = true }

  -- `validateMinMax`, and what is done where it does not throw
  unfoldable pub validated : e.T → e.T → Clamp → Outcome Error Clamp
  validated lo hi s = if e.lt hi lo then throws invalid_argument else returns s

  unfoldable pub set_min : e.T → Clamp → Outcome Error Clamp
  unfolding validated
  set_min lo s = validated lo s.max (record s { min = lo })

  unfoldable pub set_max : e.T → Clamp → Outcome Error Clamp
  unfolding validated
  set_max hi s = validated s.min hi (record s { max = hi })

  unfoldable pub set_min_and_max : e.T → e.T → Clamp → Outcome Error Clamp
  unfolding validated
  set_min_and_max lo hi s = validated lo hi (record s { min = lo; max = hi })

  unfoldable pub set_clamp_min : Bool → Clamp → Clamp
  set_clamp_min b s = record s { clamp_min = b }

  unfoldable pub set_clamp_max : Bool → Clamp → Clamp
  set_clamp_max b s = record s { clamp_max = b }

  -- one element of the loop of `getClampFcn`
  unfoldable pub clamp : e.T → e.T → e.T → e.T
  clamp lo hi x = if e.lt x lo then lo else (if e.lt hi x then hi else x)

  unfoldable pub lower : Clamp → e.T
  lower s = if s.clamp_min then s.min else e.limit_min

  unfoldable pub upper : Clamp → e.T
  upper s = if s.clamp_max then s.max else e.limit_max

  -- `work`: what is written, and how many elements are consumed and produced. The input is its
  -- scalars, `dimension` for an element.
  unfoldable pub work : Clamp → ℕ → ℕ → List e.T → List e.T × ℕ
  unfolding clamp lower upper
  work s elems dimension input =
      if elems == 0
      then ([], 0)
      else (map (clamp (lower s) (upper s)) (take (elems * dimension) input), elems)
