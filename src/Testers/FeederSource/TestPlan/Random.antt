-- ===== src/Testers/FeederSource/TestPlan/Random.antt =====
-- What `feedTestPlan` of testers/FeederSource.cpp takes from elsewhere, which is a parameter: the random
-- draws, and the buffers to which numbers are written. The settings of a plan; random text.
use Prim.Native.String.{String, slice, ◌++◌ as str_append, len}
use pothos_blocks.Shared.{
  ℕ, zero, suc, ◌-◌, ◌+◌, ◌/◌, ◌%◌, Bool, Option, none, some, ltb, if◌then◌else◌,
}
use pothos_blocks.Shared.Int.{ℤ}
use pothos_blocks.Testers.CollectorSink.{Data}

-- the types of C++ as which an element is written
pub data Kind : Type 0 where
  as_char : Kind
  as_short : Kind
  as_float : Kind
  as_int : Kind

pub record Draws (d : Data) : Type 1 where
  -- the generators' state, and what `std::uniform_int_distribution` and
  -- `std::uniform_real_distribution<float>` draw from them
  pub Generator : Type 0
  pub draw : ℕ → ℕ → Generator → ℕ × Generator
  pub draw_value : ℤ → ℤ → Generator → d.Float × Generator
  -- a number of JSON
  pub number : d.Float → d.Number
  -- `Pothos::DType`
  pub size : d.DType → ℕ
  pub is_signed : d.DType → Bool
  -- `Pothos::BufferChunk(dtype, elements)`, and a write to the element at an index
  pub new_chunk : d.DType → ℕ → d.Chunk
  pub write : Kind → ℕ → d.Float → d.Chunk → d.Chunk
  -- what C++ leaves open: `1 << 32` for an `int` of 32 bits
  pub shifted_out : ℤ

-- What a plan of JSON says under each name. Its numbers of buffers, elements, labels, messages and
-- characters are not negative.
pub record Settings : Type 0 where
  pub enable_buffers : Option Bool
  pub enable_labels : Option Bool
  pub enable_messages : Option Bool
  pub enable_packets : Option Bool
  pub min_trials : Option ℕ
  pub max_trials : Option ℕ
  pub min_size : Option ℕ
  pub max_size : Option ℕ
  pub min_buffers : Option ℕ
  pub max_buffers : Option ℕ
  pub min_buffer_size : Option ℕ
  pub max_buffer_size : Option ℕ
  pub min_value : Option ℤ
  pub max_value : Option ℤ
  pub total_multiple : Option ℕ
  pub buffer_multiple : Option ℕ
  pub min_labels : Option ℕ
  pub max_labels : Option ℕ
  pub min_label_size : Option ℕ
  pub max_label_size : Option ℕ
  pub min_messages : Option ℕ
  pub max_messages : Option ℕ
  pub min_message_size : Option ℕ
  pub max_message_size : Option ℕ

-- `json::value`
abbrev pub value_or : {A : Type 0} → Option A → A → A
value_or none a = a
value_or (some b) a = b

abbrev pub trials_from : Settings → ℕ
trials_from s = value_or s.min_trials 10

abbrev pub trials_to : Settings → ℕ
trials_to s = value_or s.max_trials 100

abbrev pub size_from : Settings → ℕ
size_from s = value_or s.min_size 10

abbrev pub size_to : Settings → ℕ
size_to s = value_or s.max_size 100

abbrev pub alphanums : String
alphanums = "0123456789abcdefghijklmnopqrstuvwxyzABCDEFGHIJKLMNOPQRSTUVWXYZ"

module _ (d : Data) (r : Draws d) where
  -- `s`, and so many random characters
  unfoldable pub random_chars : ℕ → String → r.Generator → String × r.Generator
  random_chars zero s g = (s, g)
  random_chars (suc n) s g =
      let (i, g') = r.draw 0 (len alphanums - 1) g in
      random_chars n (str_append s (slice alphanums i (i + 1))) g'

  -- `random_string`
  unfoldable pub random_string : ℕ → r.Generator → String × r.Generator
  unfolding random_chars
  random_string n g = random_chars n "" g

-- `std::to_string` of an `unsigned long long`: at most twenty digits
abbrev pub digits : ℕ → ℕ → String → String
digits zero n s = s
digits (suc fuel) n s =
    let t = str_append (slice alphanums (n % 10) (n % 10 + 1)) s in
    let rest = digits fuel (n / 10) t in if ltb n 10 then t else rest

abbrev pub to_string : ℕ → String
to_string n = digits 20 n ""
