-- ===== src/Testers/VectorSource.antt =====
-- testers/VectorSource.cpp. `T` is an element of the output port.
pub mod Rounds
pub mod Copies
pub mod Once
use Prim.Native.String.{String}
use text.Mathlib.Text.{◌==◌ as str_eq}
use pothos_blocks.Shared.{
  ℕ, ◌+◌, ◌-◌, ◌%◌, ◌^◌, Bool, true, false, ◌&&◌, ◌||◌, not, List, [], ◌∷◌, ◌++◌, length, take,
  drop, min, if◌then◌else◌, Outcome, returns, throws,
}

pub data Error : Type 0 where
  invalid_argument : Error

-- a label, by its name, its data and its index
pub record Mark : Type 0 where
  pub id : String
  pub data_value : ℕ
  pub index : ℕ

abbrev pub is_empty {ℓ} : {A : Type ℓ} → List A → Bool
is_empty [] = true
is_empty (x ∷ xs) = false

pub record VectorSource {ℓ} (T : Type ℓ) : Type ℓ where
  pub elems : List T
  pub pending : List T
  pub repeat : Bool
  pub once : Bool
  pub start_id : String
  pub end_id : String

-- What `work` does at the output port: a label, elements, and another label.
pub record Posts {ℓ} (T : Type ℓ) : Type ℓ where
  pub start_label : List Mark
  pub output : List T
  pub end_label : List Mark

-- a label is posted if it has a name
abbrev pub post_label : String → ℕ → ℕ → List Mark
post_label id n index =
    if str_eq id "" then [] else record { id = id; data_value = n; index = index } ∷ []

module _ {ℓ} {T : Type ℓ} where
  -- the constructor
  unfoldable pub make : VectorSource T
  make = record {
    elems = [];
    pending = [];
    repeat = false;
    once = false;
    start_id = "";
    end_id = "";
  }

  -- `setElements`; the conversion to the type of the output port is the framework's.
  unfoldable pub set_elements :
      {C : Type ℓ} → (List C → List T) → List C → VectorSource T → VectorSource T
  set_elements convert elems s = record s { elems = convert elems; once = false; pending = [] }

  unfoldable pub set_mode : String → VectorSource T → Outcome Error (VectorSource T)
  set_mode mode s =
      if str_eq mode "REPEAT"
      then returns (record s { repeat = true })
      else (if str_eq mode "ONCE"
          then returns (record s { repeat = false })
          else throws invalid_argument)

  unfoldable pub set_start_id : String → VectorSource T → VectorSource T
  set_start_id id s = record s { start_id = id }

  unfoldable pub set_end_id : String → VectorSource T → VectorSource T
  set_end_id id s = record s { end_id = id }

  unfoldable pub activate : VectorSource T → VectorSource T
  activate s = record s { once = false; pending = [] }

  -- the pending buffer once it was begun again
  abbrev pub current : VectorSource T → List T
  current s = if is_empty s.pending then s.elems else s.pending

  -- The body of `work`, with room for this many elements at the output port.
  unfoldable pub produce : VectorSource T → ℕ → Posts T × VectorSource T
  produce s room =
      let pending = current s in
      let num_elems = min (length pending) room in
      let rest = drop num_elems pending in
      (
        record {
          start_label = if is_empty s.pending then post_label s.start_id (length s.elems) 0 else [];
          output = take num_elems pending;
          end_label =
              if is_empty rest
              then post_label s.end_id (length s.elems) ((num_elems + 2 ^ 64 - 1) % 2 ^ 64)
              else [];
        },
        record s { pending = rest; once = s.once || is_empty rest },
      )

  -- `work`
  unfoldable pub work : VectorSource T → ℕ → Posts T × VectorSource T
  unfolding produce
  work s room =
      if not s.repeat && s.once
      then (record { start_label = []; output = []; end_label = [] }, s)
      else produce s room
