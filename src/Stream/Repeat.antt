-- ===== src/Stream/Repeat.antt =====
-- stream/Repeat.cpp
use mathlib.Core.List.{append_assoc}
use native.Mathlib.Nat.{div-mul-le_self, mul-le-mul_right}
use pothos_blocks.Shared.{
  ℕ, zero, suc, ◌+◌, ◌*◌, ◌/◌, ◌≤◌, ◌<◌, ◌≡◌, min, refl, sym, ap, ◌∙◌, List, [], ◌++◌, length, take,
  drop, arith, ◌==◌, if◌then◌else◌, length-append, length-take, length-drop, drop-add,
  drop-append_of_length, take-append_of_length,
}

-- `_dtypeSize` and `_repeatCount`
pub record Repeat : Type 0 where
  pub dtype_size : ℕ
  pub repeat_count : ℕ

-- The constructor, and the reserve it sets on the output.
unfoldable pub make : ℕ → ℕ → Repeat × ℕ
make dtype_size repeat_count =
    (record { dtype_size = dtype_size; repeat_count = repeat_count }, repeat_count)

unfoldable pub set_repeat_count : ℕ → Repeat → Repeat × ℕ
set_repeat_count n s = (record s { repeat_count = n }, n)

-- The inner loop: an element is written `n` times.
unfoldable pub write_times : ℕ → List ℕ → List ℕ
write_times zero element = []
write_times (suc n) element = element ++ write_times n element

-- The outer loop over the elements of the input.
unfoldable pub repeat_loop : ℕ → ℕ → ℕ → List ℕ → List ℕ
unfolding write_times
repeat_loop size n zero input = []
repeat_loop size n (suc elems) input =
    write_times n (take size input) ++ repeat_loop size n elems (drop size input)

-- `elemsToRepeat`
unfoldable pub elems_to_repeat : Repeat → List ℕ → ℕ → ℕ
elems_to_repeat s input elems_out = min (length input / s.dtype_size) (elems_out / s.repeat_count)

-- `work`, with `elems` the framework's `minElements` and room for `elems_out` elements in the output:
-- the bytes written, the number of elements consumed and the number produced
unfoldable pub work : Repeat → ℕ → ℕ → List ℕ → List ℕ × ℕ × ℕ
unfolding repeat_loop elems_to_repeat
work s elems elems_out input =
    let n = elems_to_repeat s input elems_out in
    if elems == 0
    then ([], 0, 0)
    else (repeat_loop s.dtype_size s.repeat_count n input, n, n * s.repeat_count)

length-write_times :
    (n : ℕ) (element : List ℕ) → length (write_times n element) ≡ n * length element
unfolding write_times
length-write_times zero element = omega arith
length-write_times (suc n) element =
    length-append element (write_times n element)
    ∙ ap (λ k. length element + k) (length-write_times n element)
    ∙ omega arith

-- the copy `r` of an element
write_times-at :
    (n r : ℕ) (element rest : List ℕ)
    → r < n
    → take (length element) (drop (r * length element) (write_times n element ++ rest)) ≡ element
unfolding write_times
write_times-at zero r element rest h = absurd (omega arith)
write_times-at (suc n) zero element rest h =
    let none : 0 * length element ≡ 0 = omega arith in
    rw (none, append_assoc element (write_times n element) rest)
      (take-append_of_length (length element) element (write_times n element ++ rest) refl)
write_times-at (suc n) (suc r) element rest h =
    let size = length element in
    let one_on : suc r * size ≡ size + r * size = omega arith in
    rw (one_on, append_assoc element (write_times n element) rest)
      (ap (take size) (
          sym (drop-add size (r * size) (element ++ (write_times n element ++ rest)))
          ∙ ap (drop (r * size))
              (drop-append_of_length size element (write_times n element ++ rest) refl))
        ∙ write_times-at n r element rest (omega (arith, h)))

-- In what the loops write, the element at `e * n + r`, with `r` less than `n`, is the element `e` of the
-- input: each element stands `n` times in a row, in the input's order. (The input has all the
-- elements that the loop reads.)
pub repeat_loop-at :
    (size n elems e r : ℕ) (input : List ℕ)
    → elems * size ≤ length input
    → e < elems
    → r < n
    → take size (drop ((e * n + r) * size) (repeat_loop size n elems input))
      ≡ take size (drop (e * size) input)
unfolding repeat_loop
repeat_loop-at size n zero e r input there h k = absurd (omega arith)
repeat_loop-at size n (suc elems) zero r input there h k =
    let one : length (take size input) ≡ size = length-take size input ∙ omega (arith, there) in
    let rest = repeat_loop size n elems (drop size input) in
    let at = write_times-at n r (take size input) rest k in
    let pos : (0 * n + r) * size ≡ r * size = omega arith in
    let start : 0 * size ≡ 0 = omega arith in
    rw (pos, start)
      (ap (λ m. take m (drop (r * m) (write_times n (take size input) ++ rest))) (sym one) ∙ at)
repeat_loop-at size n (suc elems) (suc e) r input there h k =
    let one : length (take size input) ≡ size = length-take size input ∙ omega (arith, there) in
    let rest = repeat_loop size n elems (drop size input) in
    let row : length (write_times n (take size input)) ≡ n * size =
      length-write_times n (take size input) ∙ ap (λ m. n * m) one in
    let pos : (suc e * n + r) * size ≡ n * size + (e * n + r) * size = omega arith in
    let there' : elems * size ≤ length (drop size input) =
      omega (arith, there, length-drop size input) in
    rw pos (
      ap (take size) (
        sym (drop-add (n * size) ((e * n + r) * size) (write_times n (take size input) ++ rest))
        ∙ ap (drop ((e * n + r) * size)) (drop-append_of_length (n * size) _ rest row))
      ∙ repeat_loop-at size n elems e r (drop size input) there' (omega (arith, h)) k
      ∙ ap (take size) (drop-add size (e * size) input ∙ ap (λ m. drop m input) (omega arith)))

-- A call of `work` produces no more elements than the output has room for, and reads no more bytes
-- than the input has.
pub work-bounds :
    (s : Repeat) (elems elems_out : ℕ) (input : List ℕ)
    → let (written, consumed, produced) = work s elems elems_out input in
      (produced ≤ elems_out) × (consumed * s.dtype_size ≤ length input)
unfolding work elems_to_repeat
work-bounds s elems elems_out input =
    let n = elems_to_repeat s input elems_out in
    let a : n * s.repeat_count ≤ elems_out / s.repeat_count * s.repeat_count =
      mul-le-mul_right s.repeat_count (omega arith) in
    let b = div-mul-le_self elems_out s.repeat_count in
    let c : n * s.dtype_size ≤ length input / s.dtype_size * s.dtype_size =
      mul-le-mul_right s.dtype_size (omega arith) in
    let d = div-mul-le_self (length input) s.dtype_size in ground (arith, a, b, c, d)
