-- ===== src/Stream/Delay.antt =====
-- stream/Delay.cpp. A buffer is its bytes, `size` the size of an element.
use mathlib.Core.List.{append_assoc, append-nil}
use native.Mathlib.Nat.{mul-div_left, mul-le-mul_right, add-mul}
use pothos_blocks.Shared.{
  ℕ, zero, suc, ◌+◌, ◌-◌, ◌*◌, ◌/◌, ◌≤◌, ◌<◌, ◌≡◌, min, refl, sym, ap, ◌∙◌, false, none, List, [],
  ◌∷◌, ◌++◌, length, drop, replicate, ◌==◌, if◌then◌else◌, arith, inl, inr, drop-append_of_length,
  drop-append_le, drop-add, drop-nil, ◌⊎◌,
}
use pothos_blocks.Shared.Int.{ℤ, pos, negsuc, ◌+ℤ◌, ◌-ℤ◌, ltb_ℤ, neg_part, pos_part}
use pothos_blocks.Stream.Port.{Step, drain, concat, Whole, whole_cons, left_none}

-- `_deltaElements` and `_actualDeltaElements`
pub record Delay : Type 0 where
  pub delta_elements : ℤ
  pub actual_delta_elements : ℤ

-- the constructor
unfoldable pub make : Delay
make = record { delta_elements = pos 0; actual_delta_elements = pos 0 }

-- The source has an `int`; here the delay has no bounds.
unfoldable pub set_delay : ℤ → Delay → Delay
set_delay elements s = record s { delta_elements = elements }

unfoldable pub work : ℕ → Delay → List ℕ → Step Delay
unfolding ◌+ℤ◌ ◌-ℤ◌
work size s buffer =
    let delta = s.actual_delta_elements -ℤ s.delta_elements in
    let num_elems = min (length buffer / size) (neg_part delta) in
    if length buffer == 0
    then record { next = s; posted = []; used = 0; reserve = none }
    else (if ltb_ℤ delta (pos 0)
        then record {
          next = record s { actual_delta_elements = s.actual_delta_elements +ℤ pos num_elems };
          posted = [];
          used = num_elems * size;
          reserve = none;
        }
        else (if ltb_ℤ (pos 0) delta
            then record {
              next = record s { actual_delta_elements = s.actual_delta_elements -ℤ delta };
              posted = replicate (pos_part delta * size) 0;
              used = 0;
              reserve = none;
            }
            else record { next = s; posted = buffer; used = length buffer; reserve = none }))

-- A call where the delay is the one that is set forwards everything.
work_settled :
    (size : ℕ) (s : Delay) (b : List ℕ)
    → s.actual_delta_elements ≡ s.delta_elements
    → ((work size s b).posted ≡ b) × (drop (work size s b).used b ≡ []) × ((work size s b).next ≡ s)
unfolding work ◌-ℤ◌
work_settled size s [] e = ground (arith, e)
work_settled size s (x ∷ xs) e =
    let none_left = left_none (length (x ∷ xs)) (x ∷ xs) refl in ground (arith, e, none_left)

drain_settled :
    (size : ℕ) (s : Delay) (pending : List ℕ) (parts : List (List ℕ))
    → s.actual_delta_elements ≡ s.delta_elements
    → drain (work size) s pending parts ≡ pending ++ concat parts
unfolding drain concat
drain_settled size s pending [] e = sym (append-nil pending)
drain_settled size s pending (a ∷ parts) e =
    let (p, u, n) = work_settled size s (pending ++ a) e in
    rw (p, u, n)
      (ap (λ r. (pending ++ a) ++ r) (drain_settled size s [] parts e)
        ∙ append_assoc pending a (concat parts))

le_or_ge : (k g : ℕ) → (k ≤ g) ⊎ (g ≤ k)
le_or_ge k g = ground arith

lt_or_eq : (a d : ℕ) → a ≤ d → (a < d) ⊎ (a ≡ d)
lt_or_eq a d h = ground (arith, h)

-- A delay `d` that is set, and the part `a` of it that is reached.
abbrev on_the_way : ℕ → ℕ → Delay
on_the_way d a = record { delta_elements = pos d; actual_delta_elements = pos a }

delta-negative : (a d : ℕ) → a < d → pos a -ℤ pos d ≡ negsuc (d - a - 1)
unfolding ◌-ℤ◌
delta-negative a d h = ground (arith, h)

work_drops :
    (size d a k : ℕ) (b : List ℕ)
    → 0 < size
    → a < d
    → length b ≡ k * size
    → let step = work size (on_the_way d a) b in
      (step.posted ≡ [])
      × (step.used ≡ min k (d - a) * size)
      × (step.next ≡ on_the_way d (a + min k (d - a)))
unfolding work ◌+ℤ◌ ◌-ℤ◌
work_drops size d a zero b p h e = ground (arith, e)
work_drops size d a (suc k) b p h e =
    let elements : length b / size ≡ suc k = ap (λ n. n / size) e ∙ mul-div_left (suc k) p in
    let some_in : (length b == 0) ≡ false =
      let grows : 1 * size ≤ suc k * size = mul-le-mul_right size (omega arith) in
      ground (arith, e, p, grows) in
    rw (some_in, elements, delta-negative a d h) (ground (arith, h))

drop-part :
    (size g k : ℕ) (b rest : List ℕ)
    → length b ≡ k * size
    → k ≤ g
    → drop (g * size) (b ++ rest) ≡ drop ((g - k) * size) rest
drop-part size g k b rest e h =
    let split : g * size ≡ k * size + (g - k) * size =
      ap (λ n. n * size) (omega (arith, h)) ∙ add-mul k (g - k) size in
    ap (λ n. drop n (b ++ rest)) split
    ∙ sym (drop-add (k * size) ((g - k) * size) (b ++ rest))
    ∙ ap (drop ((g - k) * size)) (drop-append_of_length (k * size) b rest e)

drain-on_the_way :
    (size d a : ℕ) (parts : List (List ℕ))
    → 0 < size
    → a ≤ d
    → Whole size parts
    → drain (work size) (on_the_way d a) [] parts ≡ drop ((d - a) * size) (concat parts)
unfolding drain concat
drain-on_the_way size d a [] p h w = sym (drop-nil ((d - a) * size))
drain-on_the_way size d a (b ∷ parts) p h (whole_cons k e w) = elim (lt_or_eq a d h) [
  | inr settled ↦
      drain_settled size (on_the_way d a) [] (b ∷ parts) (ap pos settled)
      ∙ (let none_more : 0 * size ≡ (d - a) * size = ap (λ n. n * size) (omega (arith, settled)) in
          let zero_bytes : 0 ≡ 0 * size = omega arith in
          ap (λ n. drop n (b ++ concat parts)) (zero_bytes ∙ none_more))
  | inl h ↦
      let (posts, uses, goes) = work_drops size d a k b p h e in
      elim (le_or_ge k (d - a)) [
        | inl all ↦
            let n : min k (d - a) ≡ k = omega (arith, all) in
            let none_left = left_none (k * size) b e in
            rw (posts, uses, goes, n, none_left)
              (drain-on_the_way size d (a + k) parts p (omega (arith, all, h)) w
                ∙ ap (λ n. drop (n * size) (concat parts)) (omega arith)
                ∙ sym (drop-part size (d - a) k b (concat parts) e all))
        | inr some_left ↦
            let n : min k (d - a) ≡ d - a = omega (arith, some_left) in
            let there : (d - a) * size ≤ length b =
              (let m = mul-le-mul_right size some_left in omega (arith, m, e)) in
            let arrived : a + (d - a) ≡ d = omega (arith, h) in
            rw (posts, uses, goes, n)
              (drain_settled size (on_the_way d (a + (d - a))) (drop ((d - a) * size) b) parts
                  (ap pos arrived)
                ∙ sym (drop-append_le ((d - a) * size) b (concat parts) there))
      ]
]

-- Whatever the parts that its input comes in, the block Delay takes the first `d` elements away from
-- the stream, where a delay of `d` elements is set in a new block: what it posts, followed by what
-- it has not consumed, is the input without its first `d` elements. (Elements have a positive size,
-- and each part is a whole number of elements.)
pub work-drain_delay :
    (size d : ℕ) (parts : List (List ℕ))
    → 0 < size
    → Whole size parts
    → drain (work size) (set_delay (pos d) make) [] parts ≡ drop (d * size) (concat parts)
unfolding set_delay make
work-drain_delay size d parts p w =
    drain-on_the_way size d 0 parts p (omega arith) w
    ∙ ap (λ n. drop (n * size) (concat parts)) (omega arith)

delta-positive : (n : ℕ) → (pos 0 -ℤ negsuc n ≡ pos (suc n)) × (pos 0 -ℤ pos (suc n) ≡ negsuc n)
unfolding ◌-ℤ◌
delta-positive n = ground arith

work_inserts :
    (size n : ℕ) (b : List ℕ)
    → 0 < length b
    → let step = work size (set_delay (negsuc n) make) b in
      (step.posted ≡ replicate (suc n * size) 0)
      × (step.used ≡ 0)
      × (step.next ≡ record { delta_elements = negsuc n; actual_delta_elements = negsuc n })
unfolding work set_delay make
work_inserts size n b h =
    let (d, back) = delta-positive n in
    let some_in : (length b == 0) ≡ false = ground (arith, h) in
    rw (some_in, d, back) (ground arith)

-- A negative delay inserts zeros: where a delay of -(n + 1) elements is set in a new block and the
-- first part of the input is not empty, what the block posts, followed by what it has not consumed,
-- is n + 1 elements of zeros and the whole input, however the input is cut into parts.
pub work-drain_advance :
    (size n : ℕ) (a : List ℕ) (parts : List (List ℕ))
    → 0 < length a
    → drain (work size) (set_delay (negsuc n) make) [] (a ∷ parts)
      ≡ replicate (suc n * size) 0 ++ (a ++ concat parts)
unfolding drain set_delay make
work-drain_advance size n [] parts h = absurd (omega arith)
work-drain_advance size n (x ∷ a) parts h =
    let (p, u, m) = work_inserts size n (x ∷ a) h in
    rw (p, u, m)
      (ap (λ r. replicate (suc n * size) 0 ++ r)
        (drain_settled size (record { delta_elements = negsuc n; actual_delta_elements = negsuc n })
          (x ∷ a) parts refl))
