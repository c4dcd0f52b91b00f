-- ===== src/Stream/Interleave.antt =====
-- stream/Interleaver.cpp and stream/Deinterleaver.cpp
pub mod Copy
pub mod Work
use pothos_blocks.Shared.{
  ℕ, zero, suc, ◌+◌, ◌*◌, ◌/◌, min, List, [], ◌∷◌, ◌++◌, map, length, take, drop, replicate, ltb,
  ◌==◌, if◌then◌else◌, Outcome, returns, throws,
}

pub data Error : Type 0 where
  invalid_argument : Error

-- The members of both blocks: `_outputDType.size()`, `_numInputs` or `_numOutputs`, `_chunkSize` and
-- `_chunkSizeBytes`.
pub record Interleaver : Type 0 where
  pub dtype_size : ℕ
  pub num_ports : ℕ
  pub chunk_size : ℕ
  pub chunk_size_bytes : ℕ

unfoldable pub set_chunk_size : ℕ → Interleaver → Outcome Error Interleaver
set_chunk_size n s =
    if n == 0
    then throws invalid_argument
    else returns (record s { chunk_size = n; chunk_size_bytes = n * s.dtype_size })

-- the constructors, which call `setChunkSize(1)`
unfoldable pub make : ℕ → ℕ → Outcome Error Interleaver
unfolding set_chunk_size
make dtype_size num_ports = set_chunk_size 1 (record {
  dtype_size = dtype_size;
  num_ports = num_ports;
  chunk_size = 0;
  chunk_size_bytes = 0;
})

-- `std::min_element` of numbers of elements
unfoldable pub min_elements : List ℕ → ℕ
min_elements [] = 0
min_elements (n ∷ []) = n
min_elements (n ∷ (m ∷ ns)) = min n (min_elements (m ∷ ns))

-- The inner loop of the interleaver: a chunk of each input, one behind the other.
unfoldable pub copy_row : ℕ → List (List ℕ) → List ℕ
copy_row n [] = []
copy_row n (b ∷ bs) = take n b ++ copy_row n bs

-- The outer loop: the bytes that are written to the output, in `rounds` rounds; each moves the
-- pointers into the inputs on.
unfoldable pub interleave : ℕ → ℕ → List (List ℕ) → List ℕ
unfolding copy_row
interleave zero n bs = []
interleave (suc rounds) n bs = copy_row n bs ++ interleave rounds n (map (drop n) bs)

-- The inner loop of the deinterleaver: the next chunk for each of `ports` outputs.
unfoldable pub split_row : ℕ → ℕ → List ℕ → List (List ℕ)
split_row zero n b = []
split_row (suc ports) n b = take n b ∷ split_row ports n (drop n b)

-- what is written to each output, behind what was written before
unfoldable pub behind : List (List ℕ) → List (List ℕ) → List (List ℕ)
behind [] ys = []
behind (x ∷ xs) [] = x ∷ xs
behind (x ∷ xs) (y ∷ ys) = (x ++ y) ∷ behind xs ys

-- The outer loop of the deinterleaver.
unfoldable pub deinterleave : ℕ → ℕ → ℕ → List ℕ → List (List ℕ)
unfolding split_row behind
deinterleave zero ports n b = replicate ports []
deinterleave (suc rounds) ports n b =
    behind (split_row ports n b) (deinterleave rounds ports n (drop (ports * n) b))

-- What a call of `work` writes to each output, how many elements it produces on each, and how many
-- elements of each (converted) input it consumes.
pub record Moved : Type 0 where
  pub written : List (List ℕ)
  pub produced : ℕ
  pub consumed : ℕ

abbrev nothing : ℕ → Moved
nothing outputs = record { written = replicate outputs []; produced = 0; consumed = 0 }

-- `Interleaver::work` on the converted input buffers, with `elems` the framework's `minElements` and
-- room for `elems_out` elements in the output
unfoldable pub interleaver_work : Interleaver → ℕ → ℕ → List (List ℕ) → Moved
unfolding min_elements interleave
interleaver_work s elems elems_out inputs =
    let elems_in = min_elements (map (λ b. length b / s.dtype_size) inputs) in
    let num_chunks = min (elems_in / s.chunk_size) (elems_out / s.chunk_size / s.num_ports) in
    if elems == 0
    then nothing 1
    else (if num_chunks == 0 then nothing 1 else record {
      written = interleave num_chunks s.chunk_size_bytes inputs ∷ [];
      produced = num_chunks * (s.num_ports * s.chunk_size);
      consumed = elems_in;
    })

-- `Deinterleaver::work` on the converted input buffer, with the room in each output
unfoldable pub deinterleaver_work : Interleaver → ℕ → List ℕ → List ℕ → Moved
unfolding min_elements deinterleave
deinterleaver_work s elems elems_outs input =
    let elems_in = length input / s.dtype_size in
    let elems_out = min_elements elems_outs in
    let num_chunks = min (elems_out / s.chunk_size) (elems_in / s.chunk_size / s.num_ports) in
    if elems == 0
    then nothing s.num_ports
    else (if num_chunks == 0 then nothing s.num_ports else record {
      written = deinterleave num_chunks s.num_ports s.chunk_size_bytes input;
      produced = num_chunks * s.chunk_size;
      consumed = elems_in;
    })
