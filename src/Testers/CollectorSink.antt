-- ===== src/Testers/CollectorSink.antt =====
-- testers/CollectorSink.cpp. What belongs to the framework and to the JSON library is a parameter: a
-- buffer, its conversion to numbers, and the numbers of a plan; a plan is the parsed text.
pub mod Verify
pub mod Checks
pub mod Accept
use Prim.Native.String.{String}
use pothos_blocks.Shared.{
  ℕ, ◌+◌, ◌≡◌, Bool, List, [], ◌∷◌, ◌++◌, map, length, ◌==◌, if◌then◌else◌, Option, none, some,
}

pub record Data : Type 1 where
  -- `Pothos::BufferChunk`, with `append`, and its type
  pub Chunk : Type 0
  pub null_chunk : Chunk
  pub append : Chunk → Chunk → Chunk
  pub bytes : Chunk → List ℕ
  pub null_chunk-bytes : bytes null_chunk ≡ []
  pub append-bytes : (a b : Chunk) → bytes (append a b) ≡ bytes a ++ bytes b
  pub DType : Type 0
  pub dtype : Chunk → DType
  pub same_dtype : DType → DType → Bool
  pub is_float : DType → Bool
  -- `convert(typeid(float))` and `convert(typeid(int))`
  pub Float : Type 0
  pub Int : Type 0
  pub floats : Chunk → List Float
  pub ints : Chunk → List Int
  -- a number of the plan, and what it is converted to
  pub Number : Type 0
  pub float_of : Number → Float
  pub int_of : Number → Int
  -- `==` of floating point numbers and of integers
  pub same_float : Float → Float → Bool
  pub same_int : Int → Int → Bool

-- a label, with its data where that is a string
pub record Label : Type 0 where
  pub id : String
  pub text : Option String
  pub index : ℕ
  pub width : ℕ

module _ (d : Data) where
  pub record Packet : Type 0 where
    pub payload : d.Chunk
    pub labels : List Label

  -- a message: a packet, or another object, with its value where that is a string
  pub data Message : Type 0 where
    packet : Packet → Message
    object : Option String → Message

  -- the members
  pub record CollectorSink : Type 0 where
    pub buffer : d.Chunk
    pub labels : List Label
    pub messages : List (Option String)
    pub packets : List Packet

  unfoldable pub clear : CollectorSink → CollectorSink
  clear s = record { buffer = d.null_chunk; labels = []; messages = []; packets = [] }

  -- What the input port shows to `work`, with `totalElements`.
  pub record Input : Type 0 where
    pub buffer : d.Chunk
    pub labels : List Label
    pub messages : List Message
    pub total_elements : ℕ

  -- the index counted from the start of the stream
  unfoldable pub to_absolute : ℕ → Label → Label
  to_absolute total l = record l { index = l.index + total }

  -- The loop over the messages.
  unfoldable pub store_messages : List Message → CollectorSink → CollectorSink
  store_messages [] s = s
  store_messages (packet p ∷ ms) s =
      store_messages ms (record s { packets = s.packets ++ (p ∷ []) })
  store_messages (object o ∷ ms) s =
      store_messages ms (record s { messages = s.messages ++ (o ∷ []) })

  unfoldable pub append_buffer : d.Chunk → d.Chunk → d.Chunk
  append_buffer b c = if length (d.bytes c) == 0 then b else d.append b c

  -- `work`
  unfoldable pub work : Input → CollectorSink → CollectorSink
  unfolding to_absolute store_messages append_buffer
  work inp s = store_messages inp.messages (record s {
    buffer = append_buffer s.buffer inp.buffer;
    labels = s.labels ++ map (to_absolute inp.total_elements) inp.labels;
  })
