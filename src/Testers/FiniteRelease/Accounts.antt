-- ===== src/Testers/FiniteRelease/Accounts.antt =====
-- How much the finite release lets through.
use mathlib.Core.List.{append_assoc}
use pothos_blocks.Shared.{
  length_zero, ℕ, ◌+◌, ◌-◌, ◌<◌, ◌≡◌, ◌⊎◌, inl, inr, refl, sym, ap, ◌∙◌, List, [], ◌∷◌, ◌++◌,
  length, take, drop, min, ◌==◌, arith, Bool-cases, length-append, length-take, length-drop,
  take-append-drop,
}
use pothos_blocks.Testers.FiniteRelease.{
  FiniteRelease, set_total_elements, Flow, release_messages, release_buffer, work, arrive, works,
}

release_messages_lem {ℓ} :
    {M : Type ℓ} (left : ℕ) (ms : List M)
    → let (out, rest, left') = release_messages left ms in
      (out ++ rest ≡ ms) × (length out + left' ≡ left) × ((left' ≡ 0) ⊎ (rest ≡ []))
unfolding release_messages
release_messages_lem left [] = (refl, omega arith, inr refl)
release_messages_lem left (m ∷ ms) = elim (Bool-cases (left == 0)) [
  | inl e ↦ rw e (refl, omega arith, inl (ground (arith, e)))
  | inr e ↦
      let (a, b, c) = release_messages_lem (left - 1) ms in
      rw e (ap (λ l. m ∷ l) a, ground (arith, b, e), c)
]

-- What is taken is all there is, or all that is still allowed.
taken_out {ℓ} :
    {T : Type ℓ} (left : ℕ) (xs : List T)
    → (left - min left (length xs) ≡ 0) ⊎ (drop (min left (length xs)) xs ≡ [])
taken_out left xs = elim (Bool-cases (left - min left (length xs) == 0)) [
  | inl e ↦ inl (ground (arith, e))
  | inr e ↦
      let more : min left (length xs) < left = ground (arith, e) in
      inr (
        length_zero (drop (min left (length xs)) xs)
          (omega (arith, more, length-drop (min left (length xs)) xs)))
]

nothing_taken {ℓ} :
    {T : Type ℓ} (left : ℕ) (xs : List T) → min left (length xs) ≡ 0 → (left ≡ 0) ⊎ (xs ≡ [])
nothing_taken left [] h = inr refl
nothing_taken left (x ∷ xs) h = inl (omega (arith, h))

module _ {ℓ} {M T : Type ℓ} where
  -- What came in at the input port in all.
  pub record Accounts (total : ℕ) (ms : List M) (xs : List T) (f : Flow M T) : Type ℓ where
    pub messages_kept : f.sent_messages ++ f.messages ≡ ms
    pub elements_kept : f.sent ++ f.buffer ≡ xs
    pub counted : length f.sent_messages + length f.sent + f.block.elements_left ≡ total
    pub total_kept : f.block.total_elements ≡ total

  -- Either the count is used up, or nothing is left waiting.
  abbrev pub Settled : Flow M T → Type ℓ
  Settled f = (f.block.elements_left ≡ 0) ⊎ ((f.messages ≡ []) × (f.buffer ≡ []))

  settle :
      (left : ℕ) (ms : List M) (xs : List T) (before : ℕ)
      → (before ≡ 0) ⊎ (ms ≡ [])
      → (before ≡ 0 → left ≡ 0)
      → (left ≡ 0) ⊎ (xs ≡ [])
      → (left ≡ 0) ⊎ ((ms ≡ []) × (xs ≡ []))
  settle left ms xs before (inl a) h b = inl (h a)
  settle left ms xs before (inr a) h (inl b) = inl b
  settle left ms xs before (inr a) h (inr b) = inr (a, b)

  release_buffer-Accounts :
      (total : ℕ) (ms : List M) (xs : List T) (f : Flow M T)
      → (f.block.elements_left ≡ 0) ⊎ (f.messages ≡ [])
      → Accounts total ms xs f
      → Accounts total ms xs (release_buffer f) × Settled (release_buffer f)
  unfolding release_buffer
  release_buffer-Accounts total ms xs f h a =
      let n = min f.block.elements_left (length f.buffer) in
      elim (Bool-cases (n == 0)) [
        | inl e ↦ rw e (
          a,
          settle f.block.elements_left f.messages f.buffer f.block.elements_left h (λ z. z)
              (nothing_taken f.block.elements_left f.buffer (ground (arith, e))),
        )
        | inr e ↦ rw e (
          record {
            messages_kept = a.messages_kept;
            elements_kept =
                append_assoc f.sent (take n f.buffer) (drop n f.buffer)
                ∙ ap (λ l. f.sent ++ l) (take-append-drop n f.buffer)
                ∙ a.elements_kept;
            counted =
                omega (
                  arith,
                  a.counted,
                  length-append f.sent (take n f.buffer),
                  length-take n f.buffer,
                );
            total_kept = a.total_kept;
          },
          settle (f.block.elements_left - n) f.messages (drop n f.buffer) f.block.elements_left h
              (λ z. omega (arith, z)) (taken_out f.block.elements_left f.buffer),
        )
      ]

  work-Accounts :
      (total : ℕ) (ms : List M) (xs : List T) (f : Flow M T)
      → Accounts total ms xs f
      → Accounts total ms xs (work f) × Settled (work f)
  unfolding work
  work-Accounts total ms xs f a =
      let (out, rest, left) = release_messages f.block.elements_left f.messages in
      let (whole, count, settled) = release_messages_lem f.block.elements_left f.messages in
      release_buffer-Accounts total ms xs _ settled (record {
        messages_kept =
            append_assoc f.sent_messages out rest
            ∙ ap (λ l. f.sent_messages ++ l) whole
            ∙ a.messages_kept;
        elements_kept = a.elements_kept;
        counted = omega (arith, length-append f.sent_messages out, count, a.counted);
        total_kept = a.total_kept;
      })

  arrive-Accounts :
      (total : ℕ) (ms ms' : List M) (xs xs' : List T) (f : Flow M T)
      → Accounts total ms xs f
      → Accounts total (ms ++ ms') (xs ++ xs') (arrive ms' xs' f)
  unfolding arrive
  arrive-Accounts total ms ms' xs xs' f a = record {
    messages_kept =
        sym (append_assoc f.sent_messages f.messages ms') ∙ ap (λ l. l ++ ms') a.messages_kept;
    elements_kept = sym (append_assoc f.sent f.buffer xs') ∙ ap (λ l. l ++ xs') a.elements_kept;
    counted = a.counted;
    total_kept = a.total_kept;
  }

  -- all that comes in, behind what came in before
  abbrev pub all_messages : List M → List (List M × List T) → List M
  all_messages ms [] = ms
  all_messages ms ((ms', xs') ∷ calls) = all_messages (ms ++ ms') calls

  abbrev pub all_elements : List T → List (List M × List T) → List T
  all_elements xs [] = xs
  all_elements xs ((ms', xs') ∷ calls) = all_elements (xs ++ xs') calls

  works-Accounts :
      (total : ℕ) (ms : List M) (xs : List T) (calls : List (List M × List T)) (f : Flow M T)
      → Accounts total ms xs f × Settled f
      → Accounts total (all_messages ms calls) (all_elements xs calls) (works calls f)
        × Settled (works calls f)
  unfolding works
  works-Accounts total ms xs [] f a = a
  works-Accounts total ms xs ((ms', xs') ∷ calls) f (a, b) =
      works-Accounts total (ms ++ ms') (xs ++ xs') calls (work (arrive ms' xs' f)) (
        work-Accounts total (ms ++ ms') (xs ++ xs') (arrive ms' xs' f)
          (arrive-Accounts total ms ms' xs xs' f a))

  -- After `setTotalElements`, with nothing waiting and nothing posted yet, let messages and elements
  -- come in in any portions, with a call of `work` after each. Then what was posted is the front of
  -- what came in, with the rest waiting, the messages and elements posted together with
  -- `_elementsLeft` make the total, and where some are left, all that came in was posted.
  pub set_total_elements-works :
      (s : FiniteRelease) (total : ℕ) (calls : List (List M × List T))
      → let f = works calls (record {
        block = set_total_elements total s;
        messages = [];
        buffer = [];
        sent_messages = [];
        sent = [];
      }) in
        Accounts total (all_messages [] calls) (all_elements [] calls) f × Settled f
  unfolding set_total_elements
  set_total_elements-works s total calls = works-Accounts total [] [] calls _ (
    record { messages_kept = refl; elements_kept = refl; counted = omega arith; total_kept = refl },
    inr (refl, refl),
  )
