-- ===== src/Stream/Interleave/Copy.antt =====
-- The copying loops of the Interleaver and the Deinterleaver undo each other.
use mathlib.Core.List.{append_assoc}
use pothos_blocks.Shared.{
  ℕ, zero, suc, ◌+◌, ◌*◌, ◌≤◌, ◌≡◌, refl, sym, ap, ap₂, ◌∙◌, List, [], ◌∷◌, ◌++◌, map, length, take,
  drop, replicate, arith, take-add, length-drop, length-take, take-append_of_length,
  drop-append_of_length, length-append, length-map,
}
use pothos_blocks.Stream.Interleave.{copy_row, interleave, split_row, behind, deinterleave}

-- Each of the buffers has at least `n` bytes.
pub data Filled (n : ℕ) : List (List ℕ) → Type 0 where
  filled_nil : Filled n []
  filled_cons : {b : List ℕ} {bs : List (List ℕ)} → n ≤ length b → Filled n bs → Filled n (b ∷ bs)

split_row-copy_row :
    (n : ℕ) (bs : List (List ℕ)) (rest : List ℕ)
    → Filled n bs
    → split_row (length bs) n (copy_row n bs ++ rest) ≡ map (take n) bs
unfolding split_row copy_row
split_row-copy_row n [] rest f = refl
split_row-copy_row n (b ∷ bs) rest (filled_cons h f) =
    let e : length (take n b) ≡ n = length-take n b ∙ omega (arith, h) in
    rw
      (
        append_assoc (take n b) (copy_row n bs) rest,
        take-append_of_length n (take n b) (copy_row n bs ++ rest) e,
        drop-append_of_length n (take n b) (copy_row n bs ++ rest) e,
      )
      (ap (λ r. take n b ∷ r) (split_row-copy_row n bs rest f))

length-copy_row :
    (n : ℕ) (bs : List (List ℕ)) → Filled n bs → length (copy_row n bs) ≡ length bs * n
unfolding copy_row
length-copy_row n [] f = omega arith
length-copy_row n (b ∷ bs) (filled_cons h f) =
    let e : length (take n b) ≡ n = length-take n b ∙ omega (arith, h) in
    length-append (take n b) (copy_row n bs) ∙ ap₂ ◌+◌ e (length-copy_row n bs f) ∙ omega arith

map-drop-Filled : (n k : ℕ) (bs : List (List ℕ)) → Filled (n + k) bs → Filled k (map (drop n) bs)
map-drop-Filled n k [] f = filled_nil
map-drop-Filled n k (b ∷ bs) (filled_cons h f) =
    filled_cons (omega (arith, h, length-drop n b)) (map-drop-Filled n k bs f)

pub Filled-le : {m n : ℕ} {bs : List (List ℕ)} → m ≤ n → Filled n bs → Filled m bs
Filled-le h filled_nil = filled_nil
Filled-le h (filled_cons l f) = filled_cons (omega (arith, h, l)) (Filled-le h f)

behind-take :
    (n k : ℕ) (bs : List (List ℕ))
    → behind (map (take n) bs) (map (take k) (map (drop n) bs)) ≡ map (take (n + k)) bs
unfolding behind
behind-take n k [] = refl
behind-take n k (b ∷ bs) = ap₂ ◌∷◌ (take-add n k b) (behind-take n k bs)

empty-take : (bs : List (List ℕ)) → replicate (length bs) [] ≡ map (take 0) bs
empty-take [] = refl
empty-take (b ∷ bs) = ap (λ r. [] ∷ r) (empty-take bs)

-- To deinterleave, in as many rounds, what the interleaver's loops wrote gives the first `rounds`
-- chunks of `n` bytes of each input back, in the inputs' order, where each input has that many bytes.
pub deinterleave-interleave :
    (rounds n : ℕ) (bs : List (List ℕ)) (rest : List ℕ)
    → Filled (rounds * n) bs
    → deinterleave rounds (length bs) n (interleave rounds n bs ++ rest)
      ≡ map (take (rounds * n)) bs
unfolding deinterleave interleave
deinterleave-interleave zero n bs rest f =
    let none : 0 ≡ 0 * n = omega arith in empty-take bs ∙ ap (λ k. map (take k) bs) none
deinterleave-interleave (suc rounds) n bs rest f =
    let sum : suc rounds * n ≡ n + rounds * n = omega arith in
    let first : Filled n bs = Filled-le (omega arith) f in
    let more : Filled (n + rounds * n) bs = Filled-le (omega arith) f in
    let later = interleave rounds n (map (drop n) bs) in
    let row = length-copy_row n bs first in
    rw
      (
        append_assoc (copy_row n bs) later rest,
        split_row-copy_row n bs (later ++ rest) first,
        drop-append_of_length (length bs * n) (copy_row n bs) (later ++ rest) row,
      )
      (ap (behind (map (take n) bs)) (
          ap (λ k. deinterleave rounds k n (later ++ rest)) (sym (length-map bs (drop n)))
          ∙ deinterleave-interleave rounds n (map (drop n) bs) rest
              (map-drop-Filled n (rounds * n) bs more))
        ∙ behind-take n (rounds * n) bs
        ∙ ap (λ k. map (take k) bs) (sym sum))
