-- ===== src/Testers/VectorSource/Copies.antt =====
-- What the vector source gives in either mode, with its labels.
use mathlib.Core.List.{append-nil, append_assoc}
use native.Mathlib.Nat.{add-mul, one-mul}
use pothos_blocks.Shared.{
  ℕ, suc, ◌+◌, ◌-◌, ◌*◌, ◌%◌, ◌^◌, ◌<◌, ◌≤◌, ◌≡◌, refl, sym, ap, ◌∙◌, true, false, ◌&&◌, not, List,
  [], ◌∷◌, ◌++◌, map, length, take, drop, min, arith, length-append, take-append-drop, length-drop,
  Bool-cases, inl, inr,
}
use pothos_blocks.Testers.VectorSource.{
  VectorSource, Mark, is_empty, post_label, current, produce, work, activate,
}
use pothos_blocks.Testers.VectorSource.Once.{
  step, work_goes, is_empty-length, not_empty-length, is_empty_nil,
}
use pothos_blocks.Testers.VectorSource.Rounds.{
  at, marks, at-post_label, first_at, last_at, copies, length-copies, Seen, Cycle, between, within,
  see, follow,
}

module _ {ℓ} {T : Type ℓ} where
  -- Within a round, once the pending elements were begun again where they were at an end.
  record Begun (s : VectorSource T) (t : Seen T) (starts : List Mark) (k : ℕ) : Type ℓ where
    fits : length (current s) ≤ length s.elems
    some_left : is_empty (current s) ≡ false
    gives : t.out ++ current s ≡ copies (suc k) s.elems
    begins : starts ≡ marks s.start_id (length s.elems) (first_at (length s.elems)) (suc k)
    finished : t.ends ≡ marks s.end_id (length s.elems) (last_at (length s.elems)) k

  starts_after : VectorSource T → ℕ → Seen T → List Mark
  unfolding produce
  starts_after s room t = t.starts ++ map (at (length t.out)) (produce s room).0.start_label

  begun :
      (s : VectorSource T) (room : ℕ) (t : Seen T)
      → is_empty s.elems ≡ false
      → Cycle s t
      → (k : ℕ) × Begun s t (starts_after s room t) k
  unfolding produce starts_after
  begun s room t some (between k p o a b) = (
    k,
    record {
      fits = rw p (omega arith);
      some_left = rw (p, some) refl;
      gives = rw p (ap (λ l. l ++ s.elems) o);
      begins = rw p (
          ap (λ l. l ++ map (at (length t.out)) (post_label s.start_id (length s.elems) 0)) a
          ∙ ap (λ l. marks s.start_id (length s.elems) (first_at (length s.elems)) k ++ l)
              (at-post_label (length t.out) (length s.elems) 0 (k * length s.elems) s.start_id
                (rw (o, length-copies k s.elems) (omega arith))));
      finished = b;
    },
  )
  begun s room t some (within k p f o a b) = (
    k,
    record {
      fits = rw p f;
      some_left = rw (p, p) refl;
      gives = rw p o;
      begins = rw p (append-nil t.starts ∙ a);
      finished = b;
    },
  )

  -- where the last element of a round goes
  last_place :
      (s : VectorSource T) (t : Seen T) (k n : ℕ)
      → t.out ++ current s ≡ copies (suc k) s.elems
      → length (current s) ≡ n
      → 1 ≤ n
      → length s.elems < 2 ^ 64
      → n ≤ length s.elems
      → length t.out + (n + 2 ^ 64 - 1) % 2 ^ 64 ≡ last_at (length s.elems) k
  last_place s t k n gives e some small fits =
      let a : length t.out + n ≡ suc k * length s.elems =
        ap (λ m. length t.out + m) (sym e)
        ∙ sym (length-append t.out (current s))
        ∙ ap length gives
        ∙ length-copies (suc k) s.elems in
      omega (arith, a, some, small, fits, add-mul k 1 (length s.elems), one-mul (length s.elems))

  Cycle-step :
      (s : VectorSource T) (room : ℕ) (t : Seen T) (k : ℕ)
      → Begun s t (starts_after s room t) k
      → length s.elems < 2 ^ 64
      → Cycle (step s room) (see (produce s room).0 t)
  unfolding produce starts_after see
  Cycle-step s room t k b small =
      let xs = current s in
      let n = min (length xs) room in
      let whole : (t.out ++ take n xs) ++ drop n xs ≡ copies (suc k) s.elems =
        append_assoc t.out (take n xs) (drop n xs)
        ∙ ap (λ l. t.out ++ l) (take-append-drop n xs)
        ∙ b.gives in
      elim (Bool-cases (is_empty (drop n xs))) [
        | inl e ↦
            let all : n ≡ length xs =
              omega (arith, is_empty-length (drop n xs) e, length-drop n xs) in
            let place =
              last_place s t k n b.gives (sym all)
                (omega (arith, all, not_empty-length xs b.some_left)) small
                (omega (arith, all, b.fits)) in
            between (suc k) e
              (sym (append-nil (t.out ++ take n xs))
                ∙ ap (λ l. (t.out ++ take n xs) ++ l) (sym (is_empty_nil (drop n xs) e))
                ∙ whole)
              b.begins
              (rw (e, b.finished)
                (ap (λ l. marks s.end_id (length s.elems) (last_at (length s.elems)) k ++ l)
                  (at-post_label (length t.out) (length s.elems) _ _ s.end_id place)))
        | inr e ↦
            within k e (omega (arith, length-drop n xs, b.fits)) whole b.begins
              (rw e (append-nil t.ends ∙ b.finished))
      ]

  see_nothing : (t : Seen T) → see (record { start_label = []; output = []; end_label = [] }) t ≡ t
  unfolding see
  see_nothing t =
      ap (λ l. record { out = l; starts = t.starts ++ []; ends = t.ends ++ [] }) (append-nil t.out)
      ∙ ap (λ l. record { out = t.out; starts = l; ends = t.ends ++ [] }) (append-nil t.starts)
      ∙ ap (λ l. record { out = t.out; starts = t.starts; ends = l }) (append-nil t.ends)

  idles :
      (s : VectorSource T) (room : ℕ)
      → (not s.repeat && s.once) ≡ true
      → work s room ≡ (record { start_label = []; output = []; end_label = [] }, s)
  unfolding work
  idles s room h = simp h refl

  -- Nothing but the place in the stream has changed.
  abbrev pub SameSettings : VectorSource T → VectorSource T → Type ℓ
  SameSettings s s' = (s'.elems ≡ s.elems) × (s'.start_id ≡ s.start_id) × (s'.end_id ≡ s.end_id)

  work-SameSettings : (s : VectorSource T) (room : ℕ) → SameSettings s (work s room).1
  unfolding work produce
  work-SameSettings s room = elim (Bool-cases (not s.repeat && s.once)) [
    | inl e ↦ simp e (refl, refl, refl)
    | inr e ↦ simp e (refl, refl, refl)
  ]

  follow-SameSettings :
      (s : VectorSource T) (rooms : List ℕ) (t : Seen T) → SameSettings s (follow s rooms t).1
  unfolding follow
  follow-SameSettings s [] t = (refl, refl, refl)
  follow-SameSettings s (room ∷ rooms) t =
      let (a, b, c) = work-SameSettings s room in
      let (d, e, f) = follow-SameSettings (work s room).1 rooms (see (work s room).0 t) in
      (d ∙ a, e ∙ b, f ∙ c)

  work-Cycle :
      (s : VectorSource T) (room : ℕ) (t : Seen T)
      → is_empty s.elems ≡ false
      → length s.elems < 2 ^ 64
      → Cycle s t
      → Cycle (work s room).1 (see (work s room).0 t)
  work-Cycle s room t some small c = elim (Bool-cases (not s.repeat && s.once)) [
    | inl e ↦ rw (idles s room e, see_nothing t) c
    | inr e ↦
        let (k, b) = begun s room t some c in
        rw (work_goes s room e) (Cycle-step s room t k b small)
  ]

  follow-Cycle :
      (s : VectorSource T) (rooms : List ℕ) (t : Seen T)
      → is_empty s.elems ≡ false
      → length s.elems < 2 ^ 64
      → Cycle s t
      → Cycle (follow s rooms t).1 (follow s rooms t).0
  unfolding follow
  follow-Cycle s [] t some small c = c
  follow-Cycle s (room ∷ rooms) t some small c =
      let same = (work-SameSettings s room).0 in
      follow-Cycle (work s room).1 rooms (see (work s room).0 t) (rw same some) (rw same small)
        (work-Cycle s room t some small c)

  -- After `activate`, let there be elements, fewer than 2^64. Then in either mode, whatever the
  -- sequence of calls of `work` and the room at the output port, what the vector source has given is
  -- the elements back to back, round after round, the last round possibly in part with the rest
  -- pending. There is a start label at the first element of each round begun, and an end label at the
  -- last element of each round completed, if these labels have a name, and no other label. The
  -- elements and the names are as they were.
  pub work-Cycles :
      (s : VectorSource T) (rooms : List ℕ)
      → is_empty s.elems ≡ false
      → length s.elems < 2 ^ 64
      → let (t, s') = follow (activate s) rooms (record { out = []; starts = []; ends = [] }) in
        SameSettings s s' × Cycle s' t
  unfolding activate
  work-Cycles s rooms some small =
      let t : Seen T = record { out = []; starts = []; ends = [] } in
      (
        follow-SameSettings (activate s) rooms t,
        follow-Cycle (activate s) rooms t some small (between 0 refl refl refl refl),
      )
