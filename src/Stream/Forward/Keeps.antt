-- ===== src/Stream/Forward/Keeps.antt =====
-- The blocks lose nothing of a stream and keep its order.
use mathlib.Core.List.{append_assoc, append-nil}
use native.Mathlib.Nat.{
  zero-mul, add-mul, le-div_iff_mul-le, div-mul-le_self, mul-le-mul_right, zero-div,
}
use pothos_blocks.Shared.{
  ℕ, ◌+◌, ◌-◌, ◌*◌, ◌/◌, ◌<◌, ◌≤◌, ◌≡◌, ◌⊎◌, leb, refl, sym, ap, ◌∙◌, List, [], ◌∷◌, ◌++◌, length,
  take, drop, min, ◌==◌, arith, Bool-cases, inl, inr, take-append-drop, length-drop,
}
use pothos_blocks.Stream.Forward.{
  Message, Flow, move, copy_message, copier_work, forward_all, relabeler_work,
}

module _ {L P O : Type 0} where
  -- What was posted with what still waits is the same, in order.
  pub record Keeps (f g : Flow L P O) : Type 0 where
    pub bytes_kept : g.sent ++ g.bytes ≡ f.sent ++ f.bytes
    pub messages_kept : g.sent_messages ++ g.messages ≡ f.sent_messages ++ f.messages

  Keeps-move : (n : ℕ) (f g : Flow L P O) → Keeps f g → Keeps f (move n g)
  unfolding move
  Keeps-move n f g k = record {
    bytes_kept =
        append_assoc g.sent (take n g.bytes) (drop n g.bytes)
        ∙ ap (λ l. g.sent ++ l) (take-append-drop n g.bytes)
        ∙ k.bytes_kept;
    messages_kept = k.messages_kept;
  }

  Keeps-copy_message :
      (f : Flow L P O) (ms : List (Message L P O)) → ms ≡ f.messages → Keeps f (copy_message f ms)
  unfolding copy_message
  Keeps-copy_message f [] e = record { bytes_kept = refl; messages_kept = refl }
  Keeps-copy_message f (m ∷ ms) e = record {
    bytes_kept = refl;
    messages_kept = append_assoc f.sent_messages (m ∷ []) ms ∙ ap (λ l. f.sent_messages ++ l) e;
  }

  Keeps-forward_all : (f : Flow L P O) → Keeps f (forward_all f)
  unfolding forward_all
  Keeps-forward_all f = record {
    bytes_kept = refl;
    messages_kept = append-nil (f.sent_messages ++ f.messages);
  }

  copier_work-Keeps : (size room : ℕ) (f : Flow L P O) → Keeps f (copier_work size room f)
  unfolding copier_work
  copier_work-Keeps size room f =
      let g = copy_message f f.messages in
      let k = Keeps-copy_message f f.messages refl in
      elim (Bool-cases (length f.bytes == 0)) [
        | inl e ↦ rw e k
        | inr e ↦ rw e (Keeps-move (min (length f.bytes / size) (room / size) * size) f g k)
      ]

  relabeler_work-Keeps :
      (size lbl_size : ℕ) (lbl : List ℕ) (f : Flow L P O)
      → Keeps f (relabeler_work size lbl_size lbl f).0
  unfolding relabeler_work
  relabeler_work-Keeps size lbl_size lbl f =
      let n = min (length f.bytes / size) (length lbl / lbl_size) in
      elim (Bool-cases (n == 0)) [
        | inl e ↦ rw e (Keeps-forward_all f)
        | inr e ↦ rw e (Keeps-move (n * size) f (forward_all f) (Keeps-forward_all f))
      ]

-- What is left of the elements once all whole ones are taken is no whole element.
none_whole : (len size n : ℕ) → 0 < size → n ≡ len / size → (len - n * size) / size ≡ 0
none_whole len size n h e =
    let k = (len - n * size) / size in
    let fits : k * size ≤ len - n * size = div-mul-le_self (len - n * size) size in
    let whole : n * size ≤ len = rw e (div-mul-le_self len size) in
    let both : (k + n) * size ≤ len = rw (add-mul k n size) (omega (arith, fits, whole)) in
    let most : k + n ≤ len / size = (le-div_iff_mul-le h).1 both in omega (arith, most, e)

-- As many elements as both ports have are taken from each, and one of them has no whole element left.
abbrev pub Paired : ℕ → ℕ → List ℕ → List ℕ → List ℕ → List ℕ → Type 0
Paired size lbl_size bytes lbl bytes' lbl' =
    (n : ℕ) × (bytes' ≡ drop (n * size) bytes)
    × (lbl' ≡ drop (n * lbl_size) lbl)
    × ((length bytes' / size ≡ 0) ⊎ (length lbl' / lbl_size ≡ 0))

smaller : (a b : ℕ) → (min a b ≡ a) ⊎ (min a b ≡ b)
smaller a b = elim (Bool-cases (leb a b)) [
  | inl e ↦ inl (ground (arith, e))
  | inr e ↦ inr (ground (arith, e))
]

rest_zero :
    (size n : ℕ) (xs : List ℕ)
    → 0 < size
    → n ≡ length xs / size
    → length (drop (n * size) xs) / size ≡ 0
rest_zero size n xs h e = rw (length-drop (n * size) xs) (none_whole (length xs) size n h e)

-- Whole elements are taken, no more than there is room for; then there is no whole element left, or no
-- room for another.
abbrev pub Copied : ℕ → ℕ → List ℕ → List ℕ → Type 0
Copied size room bytes bytes' =
    (n : ℕ) × (bytes' ≡ drop (n * size) bytes)
    × (n * size ≤ room)
    × ((length bytes' / size ≡ 0) ⊎ (room < n * size + size))

fits_in : (n room size : ℕ) → n ≤ room / size → n * size ≤ room
fits_in n room size h =
    let le : n * size ≤ room / size * size = mul-le-mul_right size h in
    omega (arith, le, div-mul-le_self room size)

no_more : (n room size : ℕ) → 0 < size → n ≡ room / size → room < n * size + size
no_more n room size h e = rw e (omega (arith, h))

module _ {L P O : Type 0} where
  copy_message-bytes :
      (f : Flow L P O) (ms : List (Message L P O)) → (copy_message f ms).bytes ≡ f.bytes
  unfolding copy_message
  copy_message-bytes f [] = refl
  copy_message-bytes f (m ∷ ms) = refl

  copy_message-rest :
      (f : Flow L P O) (ms : List (Message L P O))
      → ms ≡ f.messages
      → (copy_message f ms).messages ≡ drop 1 ms
  unfolding copy_message
  copy_message-rest f [] e = sym e
  copy_message-rest f (m ∷ ms) e = refl

  relabeler_work-Paired :
      (size lbl_size : ℕ) (lbl : List ℕ) (f : Flow L P O)
      → 0 < size
      → 0 < lbl_size
      → Paired size lbl_size f.bytes lbl
          (relabeler_work size lbl_size lbl f).0.bytes
          (relabeler_work size lbl_size lbl f).1
  unfolding relabeler_work move forward_all
  relabeler_work-Paired size lbl_size lbl f h k =
      let a = length f.bytes / size in
      let b = length lbl / lbl_size in
      elim (Bool-cases (min a b == 0)) [
        | inl e ↦
            let z : min a b ≡ 0 = ground (arith, e) in
            rw e (
              0,
              ap (λ m. drop m f.bytes) (sym (zero-mul size)),
              ap (λ m. drop m lbl) (sym (zero-mul lbl_size)),
              elim (smaller a b) [ inl p ↦ inl (sym p ∙ z) | inr p ↦ inr (sym p ∙ z) ],
            )
        | inr e ↦ rw e (
          min a b,
          refl,
          refl,
          elim (smaller a b) [
            | inl p ↦ inl (rest_zero size (min a b) f.bytes h p)
            | inr p ↦ inr (rest_zero lbl_size (min a b) lbl k p)
          ],
        )
      ]

  copier_work-Copied :
      (size room : ℕ) (f : Flow L P O)
      → 0 < size
      → Copied size room f.bytes (copier_work size room f).bytes
  unfolding copier_work
  copier_work-Copied size room f h =
      let a = length f.bytes / size in
      let b = room / size in
      let g = copy_message f f.messages in
      let same = copy_message-bytes f f.messages in
      elim (Bool-cases (length f.bytes == 0)) [
        | inl e ↦
            let z : length f.bytes ≡ 0 = ground (arith, e) in
            rw e (
              0,
              same ∙ ap (λ m. drop m f.bytes) (sym (zero-mul size)),
              omega arith,
              inl (ap (λ bs. length bs / size) same ∙ ap (λ m. m / size) z ∙ zero-div size),
            )
        | inr e ↦ rw e (
          min a b,
          ap (drop (min a b * size)) same,
          fits_in (min a b) room size (omega arith),
          elim (smaller a b) [
            | inl p ↦ inl (
                ap (λ bs. length (drop (min a b * size) bs) / size) same
                ∙ rest_zero size (min a b) f.bytes h p)
            | inr p ↦ inr (no_more (min a b) room size h p)
          ],
        )
      ]

  relabeler_work-messages :
      (size lbl_size : ℕ) (lbl : List ℕ) (f : Flow L P O)
      → (relabeler_work size lbl_size lbl f).0.messages ≡ []
  unfolding relabeler_work move forward_all
  relabeler_work-messages size lbl_size lbl f =
      elim (Bool-cases (min (length f.bytes / size) (length lbl / lbl_size) == 0)) [
        | inl e ↦ rw e refl
        | inr e ↦ rw e refl
      ]

  copier_work-messages :
      (size room : ℕ) (f : Flow L P O) → (copier_work size room f).messages ≡ drop 1 f.messages
  unfolding copier_work move
  copier_work-messages size room f = elim (Bool-cases (length f.bytes == 0)) [
    | inl e ↦ rw e (copy_message-rest f f.messages refl)
    | inr e ↦ rw e (copy_message-rest f f.messages refl)
  ]

  -- A call of the Copier's `work`, for elements of this size and an output buffer of this many bytes, and
  -- one of the Relabeler's lose no message and no byte of the primary port and keep their order: what was
  -- posted, followed by what still waits, is the same as before. The Copier takes one message, if there
  -- is one, and as many whole elements as there are or as the output buffer has room for. The Relabeler
  -- takes all messages and as many elements from the primary port as from the port of the labels, and
  -- then one of them has no whole element.
  pub works-Keep :
      (size room lbl_size : ℕ) (lbl : List ℕ) (f : Flow L P O)
      → 0 < size
      → 0 < lbl_size
      → let copied = copier_work size room f in
        let (relabeled, lbl') = relabeler_work size lbl_size lbl f in
        (Keeps f copied
          × (copied.messages ≡ drop 1 f.messages)
          × Copied size room f.bytes copied.bytes)
        × (Keeps f relabeled
            × (relabeled.messages ≡ [])
            × Paired size lbl_size f.bytes lbl relabeled.bytes lbl')
  works-Keep size room lbl_size lbl f h k = (
    (
      copier_work-Keeps size room f,
      copier_work-messages size room f,
      copier_work-Copied size room f h,
    ),
    (
      relabeler_work-Keeps size lbl_size lbl f,
      relabeler_work-messages size lbl_size lbl f,
      relabeler_work-Paired size lbl_size lbl f h k,
    ),
  )
