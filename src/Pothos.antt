-- ===== src/Pothos.antt =====
-- What the blocks use of the Pothos framework, which is not part of this repository: the values that
-- pass through ports, and the calls that a block makes on them, in order.
use pothos_blocks.Shared.{ℕ, ◌*◌, ◌/◌, ◌<◌, ◌≡◌, Option, List}
use Prim.Native.String.{String}

-- The public fields of `Pothos::BufferChunk` that the blocks read and write; `elem_size` is
-- `dtype.size()`. The content is the memory from `address` on.
pub record BufferChunk : Type 0 where
  pub address : ℕ
  pub length : ℕ
  pub elem_size : ℕ

-- `Pothos::Label`; `count` is `data.convert<size_t>()`, where `data.canConvert(typeid(size_t))`.
pub record Label : Type 0 where
  pub id : String
  pub count : Option ℕ
  pub index : ℕ
  pub width : ℕ

-- `Pothos::Packet`
pub record Packet : Type 0 where
  pub payload : BufferChunk
  pub labels : List Label

-- A message: a packet, or any other object.
pub data Message : Type 0 where
  packet : Packet → Message
  other : ℕ → Message

-- The calls that a block makes on its input port and its output port.
pub data Call : Type 0 where
  consume : ℕ → Call
  set_reserve : ℕ → Call
  post_message : Message → Call
  post_label : Label → Call
  post_buffer : BufferChunk → Call

-- What an input port shows to `work`.
pub record Input : Type 0 where
  pub messages : List Message
  pub labels : List Label
  pub elements : ℕ
  pub buffer : BufferChunk

-- The methods of those values whose result the blocks rely on, as documented: `elements()` is the
-- length in whole elements, and `toAdjusted` scales the index and the width.
pub record Framework : Type 0 where
  pub elements : BufferChunk → ℕ
  pub to_adjusted : Label → ℕ → ℕ → Label
  pub elements_lem : (c : BufferChunk) → 0 < c.elem_size → elements c ≡ c.length / c.elem_size
  pub adjusted_id : (l : Label) (m d : ℕ) → (to_adjusted l m d).id ≡ l.id
  pub adjusted_count : (l : Label) (m d : ℕ) → (to_adjusted l m d).count ≡ l.count
  pub adjusted_index : (l : Label) (m d : ℕ) → 0 < d → (to_adjusted l m d).index ≡ l.index * m / d
  pub adjusted_width : (l : Label) (m d : ℕ) → 0 < d → (to_adjusted l m d).width ≡ l.width * m / d
