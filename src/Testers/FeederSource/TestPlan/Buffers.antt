-- ===== src/Testers/FeederSource/TestPlan/Buffers.antt =====
-- The random buffers of `feedTestPlan`.
use pothos_blocks.Shared.{
  ℕ, zero, suc, ◌+◌, ◌-◌, ◌*◌, ◌/◌, ◌%◌, Bool, true, false, List, [], ◌∷◌, Option, none, some, ◌==◌,
  ltb, ◌||◌, if◌then◌else◌, Outcome, returns, throws,
}
use pothos_blocks.Shared.Int.{ℤ, pos, negsuc, ◌-ℤ◌}
use pothos_blocks.Testers.CollectorSink.{Data}
use pothos_blocks.Testers.FeederSource.TestPlan.Random.{
  Kind, as_char, as_short, as_float, as_int, Draws, Settings, value_or, trials_from, trials_to,
  size_from, size_to,
}

pub data Error : Type 0 where
  -- `Pothos::AssertionViolationException`: no way to write an element of the type
  bad_dtype : Error
  -- `std::out_of_range`
  out_of_range : Error

-- the type as which an element of so many bytes is written
unfoldable pub element_kind : ℕ → Bool → Option Kind
element_kind size is_float =
    if size == 1
    then some as_char
    else if size == 2
    then some as_short
    else if size == 4
    then if is_float then some as_float else some as_int
    else none

-- A number of elements, rounded up to the multiple and moved back to the bounds of the distribution.
unfoldable pub buffer_size : ℕ → ℕ → ℕ → ℕ → ℕ
buffer_size lo hi multiple drawn =
    let up = ((drawn + multiple - 1) / multiple) * multiple in
    let capped = if ltb hi up then up - multiple else up in
    if ltb capped lo then capped + multiple else capped

-- The last buffer is padded to the multiple.
unfoldable pub pad : Bool → ℕ → ℕ → ℕ → ℕ
pad false multiple total n = n
pad true multiple total n =
    let extra = (total + n) % multiple in if extra == 0 then n else n + (multiple - extra)

-- a buffer, with the values that were drawn for it
pub record Filled (d : Data) : Type 0 where
  pub values : List d.Float
  pub chunk : d.Chunk

module _ (d : Data) (r : Draws d) where
  -- The loop over the elements.
  unfoldable pub write_elements :
      Kind → ℤ → ℤ → ℕ → ℕ → d.Chunk → r.Generator → Filled d × r.Generator
  write_elements kind lo hi i zero c g = (record { values = []; chunk = c }, g)
  write_elements kind lo hi i (suc n) c g =
      let (v, g1) = r.draw_value lo hi g in
      let (rest, g2) = write_elements kind lo hi (i + 1) n (r.write kind i v c) g1 in
      (record { values = v ∷ rest.values; chunk = rest.chunk }, g2)

  -- A new buffer of so many elements is filled.
  unfoldable pub fill :
      Option Kind → d.DType → ℤ → ℤ → ℕ → r.Generator → Outcome Error (Filled d × r.Generator)
  unfolding write_elements
  fill (some kind) dtype lo hi n g = returns (write_elements kind lo hi 0 n (r.new_chunk dtype n) g)
  fill none dtype lo hi zero g = returns (record { values = []; chunk = r.new_chunk dtype 0 }, g)
  fill none dtype lo hi (suc n) g = throws bad_dtype

  -- `valueSize` and `signedOff`
  unfoldable pub value_size : d.DType → ℤ
  value_size dtype =
      if r.size dtype == 1 then pos 256 else if r.size dtype == 2 then pos 65536 else r.shifted_out

  -- half of it, towards zero
  abbrev pub half : ℤ → ℤ
  half (pos n) = pos (n / 2)
  half (negsuc n) = pos 0 -ℤ pos ((n + 1) / 2)

  unfoldable pub signed_off : d.DType → ℤ
  unfolding value_size
  signed_off dtype = if r.is_signed dtype then half (value_size dtype) else pos 0

  -- the bounds of the distributions
  unfoldable pub value_from : Settings → d.DType → ℤ
  unfolding signed_off
  value_from s dtype = value_or s.min_value (pos 0 -ℤ signed_off dtype)

  unfoldable pub value_to : Settings → d.DType → ℤ
  unfolding signed_off value_size
  value_to s dtype = value_or s.max_value ((value_size dtype -ℤ signed_off dtype) -ℤ pos 1)

  abbrev pub elements_from : Settings → d.DType → ℕ
  elements_from s dtype = value_or s.min_buffer_size (size_from s) / r.size dtype

  abbrev pub elements_to : Settings → d.DType → ℕ
  elements_to s dtype = value_or s.max_buffer_size (size_to s) / r.size dtype

  -- how many elements the next buffer has, where `more` are to come behind it
  unfoldable pub num_elems : Settings → d.DType → ℕ → ℕ → ℕ → ℕ
  unfolding buffer_size pad
  num_elems s dtype total more drawn = pad (more == 0) (value_or s.total_multiple 1) total (
      buffer_size (elements_from s dtype) (elements_to s dtype) (value_or s.buffer_multiple 1)
        drawn)

  -- what `fill` has made, in front of what comes behind it
  abbrev pub then_filled :
      {A : Type 0}
      → Outcome Error (Filled d × r.Generator)
      → (Filled d → r.Generator → Outcome Error A)
      → Outcome Error A
  then_filled (throws e) f = throws e
  then_filled (returns (b, g)) f = f b g

  abbrev pub put_first :
      Filled d
      → Outcome Error (List (Filled d) × ℕ × r.Generator)
      → Outcome Error (List (Filled d) × ℕ × r.Generator)
  put_first b (throws e) = throws e
  put_first b (returns (bs, total, g)) = returns (b ∷ bs, total, g)

  -- The loop over the buffers, from `totalElements` on.
  unfoldable pub fill_buffers :
      Settings → d.DType → ℕ → ℕ → r.Generator → Outcome Error (List (Filled d) × ℕ × r.Generator)
  unfolding num_elems fill element_kind value_from value_to
  fill_buffers s dtype zero total g = returns ([], total, g)
  fill_buffers s dtype (suc more) total g =
      let (drawn, g1) = r.draw (elements_from s dtype) (elements_to s dtype) g in
      let n = num_elems s dtype total more drawn in
      then_filled
        (fill (element_kind (r.size dtype) (d.is_float dtype)) dtype (value_from s dtype)
          (value_to s dtype) n g1)
        (λ b g2. put_first b (fill_buffers s dtype more (total + n) g2))

  unfoldable pub make_some :
      Settings → d.DType → r.Generator → Outcome Error (List (Filled d) × ℕ × r.Generator)
  unfolding fill_buffers
  make_some s dtype g =
      let (n, g1) =
        r.draw (value_or s.min_buffers (trials_from s)) (value_or s.max_buffers (trials_to s)) g in
      fill_buffers s dtype n 0 g1

  -- Buffers where the plan has buffers or packets.
  unfoldable pub make_buffers :
      Settings → d.DType → r.Generator → Outcome Error (List (Filled d) × ℕ × r.Generator)
  unfolding make_some
  make_buffers s dtype g =
      if value_or s.enable_buffers false || value_or s.enable_packets false
      then make_some s dtype g
      else returns ([], 0, g)
