-- ===== src/Stream/FirstN.antt =====
-- stream/FirstN.cpp. A buffer is its bytes, `size` the size of an element.
use mathlib.Core.List.{append_assoc, append-nil}
use native.Mathlib.Nat.{le-div_iff_mul-le, mul-div_left, add-mul}
use pothos_blocks.Shared.{
  ℕ, ◌+◌, ◌*◌, ◌/◌, ◌≤◌, ◌<◌, ◌≡◌, inl, inr, refl, sym, ap, ◌∙◌, Bool, true, false, Option, none,
  some, List, [], ◌∷◌, ◌++◌, length, take, drop, leb, ◌==◌, if◌then◌else◌, arith, take-append_le,
  drop-append_le, ap₂, length-append, Bool-cases,
}
use pothos_blocks.Stream.Port.{Step, feed, concat, Whole, whole_cons, left_none}

-- The members that change: `_elems` and `_done`, of both blocks.
pub record FirstN : Type 0 where
  pub elems : ℕ
  pub done : Bool

-- the constructors
unfoldable pub make : ℕ → FirstN
make elems = record { elems = elems; done = false }

unfoldable pub reset : FirstN → FirstN
reset s = record s { done = false }

-- `return`, with or without a reserve
abbrev idle : FirstN → Option ℕ → Step FirstN
idle s r = record { next = s; posted = []; used = 0; reserve = r }

module _ (size : ℕ) where
  -- `FirstN::work`
  unfoldable pub work : FirstN → List ℕ → Step FirstN
  work s buffer =
      let elems_in = length buffer / size in
      if elems_in == 0
      then idle s none
      else (if s.done
          then record { next = s; posted = []; used = elems_in * size; reserve = none }
          else (if leb s.elems elems_in
              then record {
                next = record s { done = true };
                posted = take (s.elems * size) buffer;
                used = elems_in * size;
                reserve = none;
              }
              else idle s (some s.elems)))

  -- `SkipFirstN::work`
  unfoldable pub skip_work : FirstN → List ℕ → Step FirstN
  skip_work s buffer =
      let elems_in = length buffer / size in
      if elems_in == 0
      then idle s none
      else (if s.done
          then record { next = s; posted = buffer; used = elems_in * size; reserve = none }
          else (if leb s.elems elems_in
              then record {
                next = record s { done = true };
                posted = drop (s.elems * size) buffer;
                used = elems_in * size;
                reserve = none;
              }
              else idle s (some s.elems)))

-- Enough elements are there exactly where enough bytes are.
leb-elements : (size n len : ℕ) → 0 < size → leb n (len / size) ≡ leb (n * size) len
leb-elements size n len pos = ground (arith, le-div_iff_mul-le {x = n} {y = len} pos)

-- One call of `work` where too little is there, and where enough is.
module _ (size : ℕ) (pos : 0 < size) (s : FirstN) (wants : 0 < s.elems) (open_ : s.done ≡ false)
    (b : List ℕ) where
  work_short :
      leb (s.elems * size) (length b) ≡ false
      → ((work size s b).posted ≡ [])
        × ((work size s b).used ≡ 0)
        × ((work size s b).next ≡ s)
        × ((skip_work size s b).posted ≡ [])
        × ((skip_work size s b).used ≡ 0)
        × ((skip_work size s b).next ≡ s)
  unfolding work skip_work
  work_short h = let e = leb-elements size s.elems (length b) pos ∙ h in ground (arith, e, open_)

  work_enough :
      leb (s.elems * size) (length b) ≡ true
      → (work size s b ≡ record {
        next = record s { done = true };
        posted = take (s.elems * size) b;
        used = length b / size * size;
        reserve = none;
      })
        × (skip_work size s b ≡ record {
          next = record s { done = true };
          posted = drop (s.elems * size) b;
          used = length b / size * size;
          reserve = none;
        })
  unfolding work skip_work
  work_enough h =
      let e = leb-elements size s.elems (length b) pos ∙ h in ground (arith, e, open_, wants)

work_done :
    (size : ℕ) (s : FirstN) (b : List ℕ)
    → s.done ≡ true
    → ((work size s b).posted ≡ []) × ((work size s b).next ≡ s)
unfolding work
work_done size s b h = ground (arith, h)

feed_done :
    (size : ℕ) (s : FirstN) (pending : List ℕ) (parts : List (List ℕ))
    → s.done ≡ true
    → feed (work size) s pending parts ≡ []
unfolding feed
feed_done size s pending [] h = refl
feed_done size s pending (a ∷ parts) h =
    let (p, n) = work_done size s (pending ++ a) h in
    let rest = drop (work size s (pending ++ a)).used (pending ++ a) in
    rw (p, n) (feed_done size s rest parts h)

-- the first `n` bytes, once they are there
abbrev pub first_of : ℕ → List ℕ → List ℕ
first_of n bytes = if leb n (length bytes) then take n bytes else []

-- what is behind the first `n` bytes, once they are there
abbrev pub skip_of : ℕ → List ℕ → List ℕ
skip_of n bytes = if leb n (length bytes) then drop n bytes else []

first-enough :
    (n : ℕ) (pending a rest : List ℕ)
    → n ≤ length (pending ++ a)
    → take n (pending ++ a) ++ [] ≡ first_of n (pending ++ (a ++ rest))
first-enough n pending a rest le =
    let all : length (pending ++ (a ++ rest)) ≡ length (pending ++ a) + length rest =
      ap length (sym (append_assoc pending a rest)) ∙ length-append (pending ++ a) rest in
    let there : leb n (length (pending ++ (a ++ rest))) ≡ true = ground (arith, le, all) in
    rw there (
      append-nil (take n (pending ++ a))
      ∙ sym (take-append_le n (pending ++ a) rest le)
      ∙ ap (take n) (append_assoc pending a rest))

skip-enough :
    (n : ℕ) (pending a rest : List ℕ)
    → n ≤ length (pending ++ a)
    → drop n (pending ++ a) ++ rest ≡ skip_of n (pending ++ (a ++ rest))
skip-enough n pending a rest le =
    let all : length (pending ++ (a ++ rest)) ≡ length (pending ++ a) + length rest =
      ap length (sym (append_assoc pending a rest)) ∙ length-append (pending ++ a) rest in
    let there : leb n (length (pending ++ (a ++ rest))) ≡ true = ground (arith, le, all) in
    rw there
      (sym (drop-append_le n (pending ++ a) rest le) ∙ ap (drop n) (append_assoc pending a rest))

-- However its input is cut into parts, the block FirstN posts the first `elems` elements of the whole
-- input, once that many have come in, and nothing else, where elements have a positive size, at
-- least one is wanted, and fewer are pending at the start.
pub work-first :
    (size : ℕ) (s : FirstN) (pending : List ℕ) (parts : List (List ℕ))
    → 0 < size
    → 0 < s.elems
    → s.done ≡ false
    → length pending < s.elems * size
    → feed (work size) s pending parts ≡ first_of (s.elems * size) (pending ++ concat parts)
unfolding feed concat
work-first size s pending [] pos wants h short = ground (arith, length-append pending [], short)
work-first size s pending (a ∷ parts) pos wants h short =
    elim (Bool-cases (leb (s.elems * size) (length (pending ++ a)))) [
      | inr f ↦
          let (p, u, n, _, _, _) = work_short size pos s wants h (pending ++ a) f in
          let shorter : length (pending ++ a) < s.elems * size = ground (arith, f) in
          rw (p, u, n)
            (work-first size s (pending ++ a) parts pos wants h shorter
              ∙ ap (first_of (s.elems * size)) (append_assoc pending a (concat parts)))
      | inl t ↦
          let (e, _) = work_enough size pos s wants h (pending ++ a) t in
          let n = s.elems * size in
          let le : n ≤ length (pending ++ a) = ground (arith, t) in
          let left = drop (length (pending ++ a) / size * size) (pending ++ a) in
          let quiet = feed_done size (record s { done = true }) left parts refl in
          rw (e, quiet) (first-enough n pending a (concat parts) le)
    ]

-- What a call on a whole number of elements uses.
used_all :
    (size k : ℕ) (b : List ℕ) → 0 < size → length b ≡ k * size → length b / size * size ≡ length b
used_all size k b pos e =
    ap (λ n. n / size * size) e ∙ ap (λ n. n * size) (mul-div_left k pos) ∙ sym e

skip_done :
    (size k : ℕ) (s : FirstN) (b : List ℕ)
    → 0 < size
    → s.done ≡ true
    → length b ≡ k * size
    → let step = skip_work size s b in (step.posted ≡ b) × (drop step.used b ≡ []) × (step.next ≡ s)
unfolding skip_work
skip_done size k s [] pos h e = ground (arith, h)
skip_done size k s (x ∷ xs) pos h e =
    let all = used_all size k (x ∷ xs) pos e in
    let none_left = left_none (length (x ∷ xs) / size * size) (x ∷ xs) (sym all) in
    let some_in : (length (x ∷ xs) / size == 0) ≡ false = ground (arith, all) in
    rw (some_in, h) (refl, none_left, refl)

feed-skip_done :
    (size : ℕ) (s : FirstN) (parts : List (List ℕ))
    → 0 < size
    → s.done ≡ true
    → Whole size parts
    → feed (skip_work size) s [] parts ≡ concat parts
unfolding feed concat
feed-skip_done size s [] pos h w = refl
feed-skip_done size s (a ∷ parts) pos h (whole_cons k e w) =
    let (p, u, n) = skip_done size k s a pos h e in
    rw (p, u, n) (ap (λ r. a ++ r) (feed-skip_done size s parts pos h w))

-- However its input is cut into parts of whole elements, the block SkipFirstN posts all that comes
-- behind the first `elems` elements of the whole input, once that many have come in, where elements
-- have a positive size, at least one is to be skipped, and fewer are pending at the start.
pub skip_work-rest :
    (size : ℕ) (s : FirstN) (j : ℕ) (pending : List ℕ) (parts : List (List ℕ))
    → 0 < size
    → 0 < s.elems
    → s.done ≡ false
    → length pending ≡ j * size
    → length pending < s.elems * size
    → Whole size parts
    → feed (skip_work size) s pending parts ≡ skip_of (s.elems * size) (pending ++ concat parts)
unfolding feed concat
skip_work-rest size s j pending [] pos wants h multiple short w =
    ground (arith, length-append pending [], short)
skip_work-rest size s j pending (a ∷ parts) pos wants h multiple short (whole_cons k e w) =
    let more : length (pending ++ a) ≡ (j + k) * size =
      length-append pending a ∙ ap₂ ◌+◌ multiple e ∙ sym (add-mul j k size) in
    elim (Bool-cases (leb (s.elems * size) (length (pending ++ a)))) [
      | inr f ↦
          let (_, _, _, p, u, n) = work_short size pos s wants h (pending ++ a) f in
          let shorter : length (pending ++ a) < s.elems * size = ground (arith, f) in
          rw (p, u, n)
            (skip_work-rest size s (j + k) (pending ++ a) parts pos wants h more shorter w
              ∙ ap (skip_of (s.elems * size)) (append_assoc pending a (concat parts)))
      | inl t ↦
          let (_, en) = work_enough size pos s wants h (pending ++ a) t in
          let n = s.elems * size in
          let le : n ≤ length (pending ++ a) = ground (arith, t) in
          let none_left =
            left_none (length (pending ++ a) / size * size) (pending ++ a)
              (sym (used_all size (j + k) (pending ++ a) pos more)) in
          rw (en, none_left, feed-skip_done size (record s { done = true }) parts pos refl w)
            (skip-enough n pending a (concat parts) le)
    ]
