-- ===== src/Testers/VectorSource/Rounds.antt =====
-- The rounds of the vector source, and what has been given in them.
use text.Mathlib.Text.{◌==◌ as str_eq}
use Prim.Native.String.{String}
use native.Mathlib.Nat.{add-mul, one-mul}
use pothos_blocks.Shared.{
  ℕ, zero, suc, ◌+◌, ◌-◌, ◌*◌, ◌≤◌, ◌≡◌, refl, true, false, List, [], ◌∷◌, ◌++◌, map, length, arith,
  length-append, Bool-cases, inl, inr,
}
use pothos_blocks.Testers.VectorSource.{VectorSource, Posts, Mark, is_empty, post_label, work}

-- a label at its place in the stream, behind the elements that came before the call
abbrev pub at : ℕ → Mark → Mark
at n m = record m { index = n + m.index }

-- The labels of the first rounds, each at the index that `f` gives.
abbrev pub marks : String → ℕ → (ℕ → ℕ) → ℕ → List Mark
marks id n f zero = []
marks id n f (suc k) = marks id n f k ++ post_label id n (f k)

pub at-post_label :
    (base n i j : ℕ) (id : String)
    → base + i ≡ j
    → map (at base) (post_label id n i) ≡ post_label id n j
at-post_label base n i j id e = elim (Bool-cases (str_eq id "")) [
  | inl b ↦ rw b refl
  | inr b ↦ rw (b, e) refl
]

-- The first and the last index of round `k`.
abbrev pub first_at : ℕ → ℕ → ℕ
first_at n k = k * n

abbrev pub last_at : ℕ → ℕ → ℕ
last_at n k = (k * n) + n - 1

module _ {ℓ} {T : Type ℓ} where
  abbrev pub copies : ℕ → List T → List T
  copies zero xs = []
  copies (suc k) xs = copies k xs ++ xs

  pub length-copies : (k : ℕ) (xs : List T) → length (copies k xs) ≡ k * length xs
  length-copies zero xs = omega arith
  length-copies (suc k) xs = omega (
    arith,
    length-append (copies k xs) xs,
    length-copies k xs,
    add-mul k 1 (length xs),
    one-mul (length xs),
  )

-- What has been given at the output port: the elements, and the labels by their place in the stream.
pub record Seen {ℓ} (T : Type ℓ) : Type ℓ where
  pub out : List T
  pub starts : List Mark
  pub ends : List Mark

-- Between two rounds, or within a round, of which a part is pending.
pub data Cycle {ℓ} {T : Type ℓ} (s : VectorSource T) (t : Seen T) : Type ℓ where
  between :
      (k : ℕ)
      → is_empty s.pending ≡ true
      → t.out ≡ copies k s.elems
      → t.starts ≡ marks s.start_id (length s.elems) (first_at (length s.elems)) k
      → t.ends ≡ marks s.end_id (length s.elems) (last_at (length s.elems)) k
      → Cycle s t
  within :
      (k : ℕ)
      → is_empty s.pending ≡ false
      → length s.pending ≤ length s.elems
      → t.out ++ s.pending ≡ copies (suc k) s.elems
      → t.starts ≡ marks s.start_id (length s.elems) (first_at (length s.elems)) (suc k)
      → t.ends ≡ marks s.end_id (length s.elems) (last_at (length s.elems)) k
      → Cycle s t

module _ {ℓ} {T : Type ℓ} where
  unfoldable pub see : Posts T → Seen T → Seen T
  see p t = record {
    out = t.out ++ p.output;
    starts = t.starts ++ map (at (length t.out)) p.start_label;
    ends = t.ends ++ map (at (length t.out)) p.end_label;
  }

  -- a sequence of calls of `work`, each with this much room at the output port
  unfoldable pub follow : VectorSource T → List ℕ → Seen T → Seen T × VectorSource T
  unfolding work see
  follow s [] t = (t, s)
  follow s (room ∷ rooms) t = let (posts, s') = work s room in follow s' rooms (see posts t)
