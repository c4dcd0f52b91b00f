-- ===== src/Stream/Interleave/Work.antt =====
-- What a call of the Interleaver's or the Deinterleaver's `work` reads and writes.
use mathlib.Core.List.{append-nil}
use native.Mathlib.Nat.{
  div-mul-le_self, mul-le-mul_left, mul-le-mul_right, mul_assoc, mul_left_comm,
}
use pothos_blocks.Shared.{
  ℕ, ◌*◌, ◌/◌, ◌≤◌, ◌<◌, ◌≡◌, min, refl, sym, ap, ◌∙◌, List, [], ◌∷◌, map, length, take, arith,
  ◌==◌, false, returns,
}
use pothos_blocks.Stream.Interleave.{
  Interleaver, set_chunk_size, min_elements, interleave, deinterleave, interleaver_work,
}
use pothos_blocks.Stream.Interleave.Copy.{
  Filled, filled_nil, filled_cons, Filled-le, deinterleave-interleave,
}

-- Each buffer has as many elements as the smallest.
min_elements-Filled :
    (size : ℕ) (bs : List (List ℕ))
    → Filled (min_elements (map (λ b. length b / size) bs) * size) bs
unfolding min_elements
min_elements-Filled size [] = filled_nil
min_elements-Filled size (b ∷ []) = filled_cons (div-mul-le_self (length b) size) filled_nil
min_elements-Filled size (b ∷ (c ∷ bs)) =
    let n = length b / size in
    let m = min_elements (map (λ b. length b / size) (c ∷ bs)) in
    let first : min n m * size ≤ n * size = mul-le-mul_right size (omega arith) in
    let others : min n m * size ≤ m * size = mul-le-mul_right size (omega arith) in
    filled_cons (omega (arith, first, div-mul-le_self (length b) size))
      (Filled-le others (min_elements-Filled size (c ∷ bs)))

-- the number of chunks that are copied from each input in a call of the interleaver
abbrev pub chunks_in : Interleaver → ℕ → List (List ℕ) → ℕ
chunks_in s elems_out inputs =
    min (min_elements (map (λ b. length b / s.dtype_size) inputs) / s.chunk_size)
      (elems_out / s.chunk_size / s.num_ports)

chunks-fit :
    (s : Interleaver) (elems_out : ℕ) (inputs : List (List ℕ))
    → s.chunk_size_bytes ≡ s.chunk_size * s.dtype_size
    → Filled (chunks_in s elems_out inputs * s.chunk_size_bytes) inputs
chunks-fit s elems_out inputs e =
    let elems = min_elements (map (λ b. length b / s.dtype_size) inputs) in
    let n = chunks_in s elems_out inputs in
    let a : n * s.chunk_size ≤ elems / s.chunk_size * s.chunk_size =
      mul-le-mul_right s.chunk_size (omega arith) in
    let b = div-mul-le_self elems s.chunk_size in
    let c : n * s.chunk_size * s.dtype_size ≤ elems * s.dtype_size =
      mul-le-mul_right s.dtype_size (omega (arith, a, b)) in
    let d : n * s.chunk_size_bytes ≡ n * s.chunk_size * s.dtype_size =
      ap (λ k. n * k) e ∙ sym (mul_assoc n s.chunk_size s.dtype_size) in
    Filled-le (omega (arith, c, d)) (min_elements-Filled s.dtype_size inputs)

bytes_set :
    (s t : Interleaver) (n : ℕ)
    → set_chunk_size n t ≡ returns s
    → s.chunk_size_bytes ≡ s.chunk_size * s.dtype_size
unfolding set_chunk_size
bytes_set s t n h = ground (arith, h)

-- What a call of the interleaver's `work` writes holds whole chunks of every input: to deinterleave it
-- gives the first chunks of each input back, as many as the smallest input has and the output has
-- room for. (There is one input for each of its ports, `work` has been called with elements, at
-- least one chunk can be moved, and the chunk size has been set by `setChunkSize`.)
pub interleaver_work-deinterleave :
    (s t : Interleaver) (n elems elems_out : ℕ) (inputs : List (List ℕ))
    → set_chunk_size n t ≡ returns s
    → 0 < elems
    → 0 < chunks_in s elems_out inputs
    → (out : List ℕ) × ((interleaver_work s elems elems_out inputs).written ≡ out ∷ [])
      × (deinterleave (chunks_in s elems_out inputs) (length inputs) s.chunk_size_bytes out
          ≡ map (take (chunks_in s elems_out inputs * s.chunk_size_bytes)) inputs)
unfolding interleaver_work
interleaver_work-deinterleave s t n elems elems_out inputs set h some_chunks =
    let k = chunks_in s elems_out inputs in
    let out = interleave k s.chunk_size_bytes inputs in
    let run : (elems == 0) ≡ false = ground (arith, h) in
    let moves : (k == 0) ≡ false = ground (arith, some_chunks) in
    let fit = chunks-fit s elems_out inputs (bytes_set s t n set) in
    (
      out,
      rw (run, moves) refl,
      ap (deinterleave k (length inputs) s.chunk_size_bytes) (sym (append-nil out))
          ∙ deinterleave-interleave k s.chunk_size_bytes inputs [] fit,
    )

-- A call of the interleaver's `work` produces no more elements than the output has room for, and
-- reads from each input no more elements than it consumes from it.
pub interleaver_work-bounds :
    (s : Interleaver) (elems elems_out : ℕ) (inputs : List (List ℕ))
    → let m = interleaver_work s elems elems_out inputs in
      (m.produced ≤ elems_out) × (m.produced ≤ s.num_ports * m.consumed)
unfolding interleaver_work
interleaver_work-bounds s elems elems_out inputs =
    let k = chunks_in s elems_out inputs in
    let elems_in = min_elements (map (λ b. length b / s.dtype_size) inputs) in
    let room = elems_out / s.chunk_size in
    let a : k * s.num_ports ≤ room / s.num_ports * s.num_ports =
      mul-le-mul_right s.num_ports (omega arith) in
    let b = div-mul-le_self room s.num_ports in
    let c : k * s.num_ports * s.chunk_size ≤ room * s.chunk_size =
      mul-le-mul_right s.chunk_size (omega (arith, a, b)) in
    let d = div-mul-le_self elems_out s.chunk_size in
    let e : k * (s.num_ports * s.chunk_size) ≡ k * s.num_ports * s.chunk_size =
      sym (mul_assoc k s.num_ports s.chunk_size) in
    let f : k * s.chunk_size ≤ elems_in / s.chunk_size * s.chunk_size =
      mul-le-mul_right s.chunk_size (omega arith) in
    let g = div-mul-le_self elems_in s.chunk_size in
    let h : s.num_ports * (k * s.chunk_size) ≤ s.num_ports * elems_in =
      mul-le-mul_left s.num_ports (omega (arith, f, g)) in
    let i : k * (s.num_ports * s.chunk_size) ≡ s.num_ports * (k * s.chunk_size) =
      mul_left_comm k s.num_ports s.chunk_size in
    let fits : k * (s.num_ports * s.chunk_size) ≤ elems_out = omega (arith, c, d, e) in
    let reads : k * (s.num_ports * s.chunk_size) ≤ s.num_ports * elems_in = omega (arith, h, i) in
    ground (arith, fits, reads)
