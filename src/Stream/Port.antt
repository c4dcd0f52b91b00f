-- ===== src/Stream/Port.antt =====
-- What one call of `work` does to an input port and an output port of bytes, and what a block makes
-- of a stream that comes in part by part.
use mathlib.Core.List.{append-nil}
use pothos_blocks.Shared.{
  ℕ, ◌*◌, ◌≡◌, sym, ap, ◌∙◌, Option, List, [], ◌∷◌, ◌++◌, length, drop, drop-append_of_length,
}

-- The block's next state, the bytes that are posted or produced, the number of bytes consumed, and
-- the reserve that is set.
pub record Step {ℓ} (S : Type ℓ) : Type ℓ where
  pub next : S
  pub posted : List ℕ
  pub used : ℕ
  pub reserve : Option ℕ

-- The output of a block whose `work` is called once for each part; what it does not consume is in
-- front of the next part.
unfoldable pub feed {ℓ} : {S : Type ℓ} → (S → List ℕ → Step S) → S → List ℕ → List (List ℕ) → List ℕ
feed work s pending [] = []
feed work s pending (a ∷ parts) =
    let step = work s (pending ++ a) in
    step.posted ++ feed work step.next (drop step.used (pending ++ a)) parts

-- The output followed by the input that is left in the port.
unfoldable pub drain {ℓ} :
    {S : Type ℓ} → (S → List ℕ → Step S) → S → List ℕ → List (List ℕ) → List ℕ
drain work s pending [] = pending
drain work s pending (a ∷ parts) =
    let step = work s (pending ++ a) in
    step.posted ++ drain work step.next (drop step.used (pending ++ a)) parts

-- the whole of a stream
unfoldable pub concat : List (List ℕ) → List ℕ
concat [] = []
concat (a ∷ parts) = a ++ concat parts

-- Every part is a whole number of elements.
pub data Whole (size : ℕ) : List (List ℕ) → Type 0 where
  whole_nil : Whole size []
  whole_cons :
      {a : List ℕ} {parts : List (List ℕ)} (k : ℕ)
      → length a ≡ k * size
      → Whole size parts
      → Whole size (a ∷ parts)

pub left_none : (n : ℕ) (b : List ℕ) → length b ≡ n → drop n b ≡ []
left_none n b e = ap (drop n) (sym (append-nil b)) ∙ drop-append_of_length n b [] e
