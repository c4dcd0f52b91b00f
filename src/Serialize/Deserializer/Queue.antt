-- ===== src/Serialize/Deserializer/Queue.antt =====
-- The buffers of the Deserializer as one queue of bytes.
use mathlib.Core.List.{append-nil}
use pothos_blocks.Shared.{
  ℕ, zero, suc, ◌-◌, ◌+◌, ◌≤◌, ◌<◌, ◌≡◌, refl, sym, ap, ◌∙◌, min, inl, inr, List, [], ◌∷◌, ◌++◌,
  length, take, drop, arith, length-append, length-drop, take_all, take-nil, drop-nil,
  drop-append_le, take-append_le, ltb, Bool-cases,
}
use pothos_blocks.Serialize.Deserializer.{
  Chunk, get_total_buffer_size, clear_loop, clear_bytes_from_buffers, append_loop,
  get_appended_buffers,
}

-- the bytes in the buffers, in order
abbrev pub content : List Chunk → List ℕ
content [] = []
content (c ∷ cs) = c.bytes ++ content cs

pub total-length-content : (cs : List Chunk) → get_total_buffer_size cs ≡ length (content cs)
unfolding get_total_buffer_size
total-length-content [] = refl
total-length-content (c ∷ cs) =
    omega (arith, total-length-content cs, length-append c.bytes (content cs))

drop-append_more :
    (n : ℕ) (xs ys : List ℕ) → length xs ≤ n → drop n (xs ++ ys) ≡ drop (n - length xs) ys
drop-append_more n [] ys h = ap (λ k. drop k ys) (omega arith)
drop-append_more zero (x ∷ xs) ys h = absurd (omega arith)
drop-append_more (suc n) (x ∷ xs) ys h =
    let same : n - length xs ≡ suc n - length (x ∷ xs) = omega arith in
    drop-append_more n xs ys (omega arith) ∙ ap (λ k. drop k ys) same

take-append_more :
    (n : ℕ) (xs ys : List ℕ) → length xs ≤ n → take n (xs ++ ys) ≡ xs ++ take (n - length xs) ys
take-append_more n [] ys h = ap (λ k. take k ys) (omega arith)
take-append_more zero (x ∷ xs) ys h = absurd (omega arith)
take-append_more (suc n) (x ∷ xs) ys h =
    let same : n - length xs ≡ suc n - length (x ∷ xs) = omega arith in
    ap (λ zs. x ∷ zs) (take-append_more n xs ys (omega arith) ∙ ap (λ k. xs ++ take k ys) same)

clear_loop-drop : (cs : List Chunk) (n : ℕ) → content (clear_loop cs n) ≡ drop n (content cs)
unfolding clear_loop
clear_loop-drop [] n = sym (drop-nil n)
clear_loop-drop (c ∷ cs) zero = ground arith
clear_loop-drop (c ∷ cs) (suc n) = ground (
  arith,
  clear_loop-drop cs (suc n - length c.bytes),
  drop-append_le (suc n) c.bytes (content cs),
  drop-append_more (suc n) c.bytes (content cs),
)

drop_all : (n : ℕ) (xs : List ℕ) → n ≡ length xs → drop n xs ≡ []
drop_all n [] h = drop-nil n
drop_all zero (x ∷ xs) h = absurd (omega arith)
drop_all (suc n) (x ∷ xs) h = drop_all n xs (omega arith)

drop_none : (n : ℕ) (xs : List ℕ) → n ≡ 0 → drop n xs ≡ xs
drop_none zero xs h = refl
drop_none (suc n) xs h = absurd (omega arith)

take_none : (n : ℕ) (xs : List ℕ) → n ≡ 0 → take n xs ≡ []
take_none zero xs h = refl
take_none (suc n) xs h = absurd (omega arith)

pub clear-drop :
    (cs : List Chunk) (n : ℕ) → content (clear_bytes_from_buffers cs n) ≡ drop n (content cs)
unfolding clear_bytes_from_buffers
clear-drop cs n = ground (
  arith,
  clear_loop-drop cs n,
  total-length-content cs,
  drop_all n (content cs),
  drop_none n (content cs),
)

append_loop-take : (cs : List Chunk) (n : ℕ) → append_loop cs n ≡ take n (content cs)
unfolding append_loop
append_loop-take [] n = sym (take-nil n)
append_loop-take (c ∷ cs) zero = ground arith
append_loop-take (c ∷ cs) (suc n) =
    let m = min (length c.bytes) (suc n) in
    elim (Bool-cases (ltb (length c.bytes) (suc n))) [
      | inl some_more ↦ ground (
        arith,
        append_loop-take cs (suc n - m),
        take_all m c.bytes,
        take-append_more (suc n) c.bytes (content cs),
      )
      | inr enough ↦ ground (
        arith,
        append_loop-take cs (suc n - m),
        take-append_le (suc n) c.bytes (content cs),
        take_none (suc n - m) (content cs),
        append-nil (take (suc n) c.bytes),
      )
    ]

pub appended-take :
    (fresh : List ℕ) (cs : List Chunk) (n : ℕ)
    → (get_appended_buffers fresh cs n).bytes ≡ take n (content cs)
unfolding get_appended_buffers
appended-take fresh [] n = sym (take-nil n)
appended-take fresh (c ∷ cs) n =
    ground (arith, append_loop-take (c ∷ cs) n, take-append_le n c.bytes (content cs))

-- Let a buffer be held, and no more bytes be cleared than the buffers hold, as `clearBytesFromBuffers`
-- asserts. Then, whatever the split of the stream into buffers, `clearBytesFromBuffers` takes exactly so
-- many bytes off the front of the bytes held; and `getAppendedBuffers` gives exactly so many of them, or
-- all of them where more are asked for.
pub buffers_are_a_queue :
    (fresh : List ℕ) (cs : List Chunk) (n m : ℕ)
    → 0 < length cs
    → n ≤ get_total_buffer_size cs
    → (content (clear_bytes_from_buffers cs n) ≡ drop n (content cs))
      × (length (content (clear_bytes_from_buffers cs n)) + n ≡ length (content cs))
      × ((get_appended_buffers fresh cs m).bytes ≡ take m (content cs))
buffers_are_a_queue fresh cs n m held enough =
    let cleared = clear-drop cs n in
    let sizes = ap length cleared ∙ length-drop n (content cs) in
    (cleared, omega (arith, sizes, enough, total-length-content cs), appended-take fresh cs m)
