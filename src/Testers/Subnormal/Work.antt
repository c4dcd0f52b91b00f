-- ===== src/Testers/Subnormal/Work.antt =====
-- What `work` does with a buffer in which elements are substituted.
use pothos_blocks.Shared.{
  ℕ, ◌+◌, ◌≤◌, ◌<◌, ◌≡◌, refl, ap, ◌∙◌, true, false, List, length, min, take, none, some, inl, inr,
  arith, Pointwise, Option-cases, ◌==◌, ◌||◌,
}
use pothos_blocks.Testers.Subnormal.{Subnormal, Result, result, substitute, work}
use pothos_blocks.Testers.Subnormal.Counts.{count, count-le, substitute-count, Stays, refl-Stays}
use pothos_blocks.Testers.Subnormal.Ends.{Fair, substitute-Fair, length-Pointwise}

no_skip : (m n : ℕ) → 0 < m → 0 < n → (m == 0 || (n == 0)) ≡ false
no_skip m n h k = ground (arith, h, k)

-- the elements for which there is room
abbrev pub kept : {A : Type 0} → List A → ℕ → List A
kept input room = take (min (length input) room) input

module _ {A P : Type 0} where
  -- how many substitutes are asked for
  abbrev pub wanted : Subnormal A P → List A → ℕ → ℕ
  wanted s input room = min s.num_subs (length (kept input room))

  work-insert :
      (input : List A) (room : ℕ) (draws : List ℕ) (s : Subnormal A P)
      → 0 < length input
      → 0 < room
      → work input room true draws s
        ≡ result
            (length input)
            (substitute s.check s.sub_val (wanted s input room) (kept input room) draws)
  unfolding work
  work-insert input room draws s h k = rw (no_skip (length input) room h k) refl

  -- Let a substitution take place in `work`, where there is input and room, and let the substitute pass
  -- the check. Let the elements that are kept have enough of others, and the indices that are drawn be
  -- fair: as often as there are substitutes to put in, each index comes up. Then the loops end; what is
  -- posted has so many substitutes more, every other element is as it came, and all of the input is
  -- consumed.
  pub work-substitutes :
      (input : List A) (room : ℕ) (draws : List ℕ) (s : Subnormal A P)
      → 0 < length input
      → 0 < room
      → s.check s.sub_val ≡ true
      → wanted s input room + count s.check (kept input room) ≤ length (kept input room)
      → Fair (length (kept input room)) (wanted s input room) draws
      → (r : Result A) × (work input room true draws s ≡ some (some r))
        × (r.consumed ≡ length input)
        × (count s.check r.posted ≡ wanted s input room + count s.check (kept input room))
        × Pointwise (Stays s.check s.sub_val) (kept input room) r.posted
  work-substitutes input room draws s h k sub enough fair =
      let out = kept input room in
      let n = wanted s input room in
      let (ys, rest, done) = substitute-Fair s.check s.sub_val n out draws sub enough fair in
      let (counted, stays) =
        substitute-count s.check s.sub_val n out out ys draws rest sub
          (refl-Stays s.check s.sub_val out) done in
      (
        record { posted = ys; consumed = length input },
        work-insert input room draws s h k ∙ ap (result (length input)) done,
        refl,
        counted,
        stays,
      )

  -- Where the elements that are kept have fewer others than substitutes are to be put in, the loop of
  -- `work` goes on whatever is drawn.
  pub work-endless :
      (input : List A) (room : ℕ) (draws : List ℕ) (s : Subnormal A P)
      → 0 < length input
      → 0 < room
      → s.check s.sub_val ≡ true
      → length (kept input room) < wanted s input room + count s.check (kept input room)
      → work input room true draws s ≡ none
  work-endless input room draws s h k sub too_many =
      let out = kept input room in
      let n = wanted s input room in
      elim (Option-cases (substitute s.check s.sub_val n out draws)) [
        | inl stuck ↦ work-insert input room draws s h k ∙ ap (result (length input)) stuck
        | inr ((ys, rest), done) ↦
            let (counted, stays) =
              substitute-count s.check s.sub_val n out out ys draws rest sub
                (refl-Stays s.check s.sub_val out) done in
            let most = count-le s.check ys in
            let same = length-Pointwise stays in
            absurd (omega (arith, counted, most, same, too_many))
      ]
