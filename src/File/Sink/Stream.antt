-- ===== src/File/Sink/Stream.antt =====
-- What the file holds.
use mathlib.Core.List.{append_assoc, append-nil}
use mathlib.Core.Option.{some-injective, none-ne-some}
use pothos_blocks.Shared.{
  ℕ, ◌≡◌, refl, sym, ap, ◌∙◌, true, List, [], ◌∷◌, ◌++◌, length, take, drop, Option, none, some,
  ◌==◌, Bool-cases, inl, inr, take-append-drop,
}
use pothos_blocks.File.Sink.{Files, Sink, written, write_to, work}

module _ (files : Files) where
  -- A call of `work` each time that more comes in; what it does not consume is in front of what comes
  -- next, also where it throws. The sink, and what is left at the input port.
  unfoldable pub feed : Sink files → List ℕ → List (List ℕ) → Sink files × List ℕ
  feed s pending [] = (s, pending)
  feed s pending (a ∷ parts) =
      let (o, s', used) = work files (pending ++ a) s in feed s' (drop used (pending ++ a)) parts

  abbrev pub all_of : List (List ℕ) → List ℕ
  all_of [] = []
  all_of (a ∷ parts) = a ++ all_of parts

  -- The sink is enabled and has this file open.
  abbrev pub IsOpen : ℕ → Sink files → Type 0
  IsOpen fd s = (s.enabled ≡ true) × (s.fd ≡ some fd)

  -- Nothing is lost: the file grows by what is consumed.
  Grows : ℕ → Sink files → List ℕ → Sink files → ℕ → Type 0
  Grows fd s input s' used =
      files.content s'.os fd ++ drop used input ≡ files.content s.os fd ++ input

  written-Grows :
      (fd : ℕ) (s : Sink files) (input : List ℕ) (o : Option ℕ)
      → (files.write s.os fd input).0 ≡ o
      → IsOpen fd s
      → let (r, s', used) = written files s (o, (files.write s.os fd input).1) in
        Grows fd s input s' used × IsOpen fd s'
  unfolding written Grows
  written-Grows fd s input none e h = (ap (λ l. l ++ input) (files.write_fails s.os fd input e), h)
  written-Grows fd s input (some n) e h =
      let (short, grown) = files.write_lem s.os fd n input e in
      (
        ap (λ l. l ++ drop n input) grown
            ∙ append_assoc (files.content s.os fd) (take n input) (drop n input)
            ∙ ap (λ l. files.content s.os fd ++ l) (take-append-drop n input),
        h,
      )

  write_to-Grows :
      (fd : ℕ) (s : Sink files) (input : List ℕ) (o : Option ℕ)
      → o ≡ some fd
      → IsOpen fd s
      → let (r, s', used) = write_to files o input s in Grows fd s input s' used × IsOpen fd s'
  unfolding write_to
  write_to-Grows fd s input none e h = absurd (none-ne-some fd e)
  write_to-Grows fd s input (some n) e h =
      let same : n ≡ fd = some-injective n fd e in
      rw same (written-Grows fd s input (files.write s.os fd input).0 refl h)

  work-Grows :
      (fd : ℕ) (s : Sink files) (input : List ℕ)
      → IsOpen fd s
      → let (r, s', used) = work files input s in Grows fd s input s' used × IsOpen fd s'
  unfolding work
  work-Grows fd s input (on, there) = elim (Bool-cases (length input == 0)) [
    | inl e ↦ rw e (unfold Grows in refl, (on, there))
    | inr e ↦ simp (e, on) (write_to-Grows fd s input s.fd there (on, there))
  ]

  -- Let a sink be enabled and have a file open. However its input comes in, and where `write` takes
  -- only a part or fails, what the file holds, followed by what is left at the input port, is what it
  -- held at first, followed by all that came in.
  pub feed-content :
      (fd : ℕ) (s : Sink files) (pending : List ℕ) (parts : List (List ℕ))
      → s.enabled ≡ true
      → s.fd ≡ some fd
      → let (s', left) = feed s pending parts in
        files.content s'.os fd ++ left ≡ files.content s.os fd ++ (pending ++ all_of parts)
  unfolding feed Grows
  feed-content fd s pending [] on there =
      ap (λ l. files.content s.os fd ++ l) (sym (append-nil pending))
  feed-content fd s pending (a ∷ parts) on at_fd =
      let (o, s', used) = work files (pending ++ a) s in
      let (same, (still, there)) = work-Grows fd s (pending ++ a) (on, at_fd) in
      feed-content fd s' (drop used (pending ++ a)) parts still there
      ∙ sym (append_assoc (files.content s'.os fd) (drop used (pending ++ a)) (all_of parts))
      ∙ ap (λ l. l ++ all_of parts) same
      ∙ append_assoc (files.content s.os fd) (pending ++ a) (all_of parts)
      ∙ ap (λ l. files.content s.os fd ++ l) (append_assoc pending a (all_of parts))
