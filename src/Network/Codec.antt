-- ===== src/Network/Codec.antt =====
-- The values that pass between the two network blocks. How the framework serializes objects is not
-- part of this repository, so it is a parameter.
use pothos_blocks.Shared.{ℕ, ◌≡◌, ◌↔◌, Bool, true, List, Option, some}

-- `Pothos::Object::serialize`, and `deserialize` with the extraction of the type that is expected:
-- `none` where it throws. What was serialized is read back.
pub record Serial (A : Type 0) : Type 0 where
  pub serialize : A → List ℕ
  pub deserialize : List ℕ → Option A
  pub back : (a : A) → deserialize (serialize a) ≡ some a

-- The objects that are no packets, the packets without their payload, the element types and the labels.
pub record Codec : Type 1 where
  pub Object : Type 0
  pub Header : Type 0
  pub DType : Type 0
  -- `Pothos::Label`, with its index
  pub Label : Type 0
  pub label_index : Label → ℕ
  pub objects : Serial Object
  pub headers : Serial Header
  pub labels : Serial Label
  pub dtypes : Serial DType
  -- `DType::operator==`
  pub same : DType → DType → Bool
  pub same_iff : (a b : DType) → (same a b ≡ true) ↔ (a ≡ b)
  -- A packet header that was moved from.
  pub moved_from : Header

-- `PothosPacketType...`
abbrev pub type_message : ℕ
type_message = b'M'

abbrev pub type_label : ℕ
type_label = b'L'

abbrev pub type_buffer : ℕ
type_buffer = b'B'

abbrev pub type_dtype : ℕ
type_dtype = b'D'

abbrev pub type_header : ℕ
type_header = b'H'

abbrev pub type_payload : ℕ
type_payload = b'P'

-- A call of the endpoint's `send`, without the hint that more follows; also what its `recv` gives.
pub record Sent : Type 0 where
  pub type : ℕ
  pub bytes : List ℕ
