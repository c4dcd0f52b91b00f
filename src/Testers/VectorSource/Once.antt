-- ===== src/Testers/VectorSource/Once.antt =====
-- What the vector source gives where it does not repeat.
use mathlib.Core.List.{append-nil}
use pothos_blocks.Shared.{
  sum, ℕ, ◌+◌, ◌≤◌, ◌≡◌, refl, sym, ap, ◌∙◌, true, false, not, ◌&&◌, List, [], ◌∷◌, ◌++◌, length,
  take, drop, min, arith, take_all, take-add, length-drop, Bool-cases, inl, inr, leb, leb→le,
}
use pothos_blocks.Testers.VectorSource.{VectorSource, is_empty, current, produce, work, activate}

module _ {ℓ} {T : Type ℓ} where
  -- A sequence of calls of `work`, each with this much room at the output port: the elements that are
  -- produced, and the block.
  unfoldable pub run : VectorSource T → List ℕ → List T × VectorSource T
  unfolding work
  run s [] = ([], s)
  run s (room ∷ rooms) =
      let (posts, s') = work s room in let (out, s'') = run s' rooms in (posts.output ++ out, s'')

  pub is_empty-length : (xs : List T) → is_empty xs ≡ true → length xs ≡ 0
  is_empty-length [] h = refl
  is_empty-length (x ∷ xs) h = ground (arith, h)

  pub not_empty-length : (xs : List T) → is_empty xs ≡ false → 1 ≤ length xs
  not_empty-length [] h = ground (arith, h)
  not_empty-length (x ∷ xs) h = omega arith

  pub is_empty_nil : (xs : List T) → is_empty xs ≡ true → xs ≡ []
  is_empty_nil [] h = refl
  is_empty_nil (x ∷ xs) h = ground (arith, h)

  take_min : (n : ℕ) (xs : List T) → take (min (length xs) n) xs ≡ take n xs
  take_min n xs = elim (Bool-cases (leb n (length xs))) [
    | inl b ↦ let e : min (length xs) n ≡ n = ground (arith, b, leb→le n (length xs)) in rw e refl
    | inr b ↦
        let e : min (length xs) n ≡ length xs = ground (arith, b) in
        let l : length xs ≤ n = ground (arith, b) in
        rw e (take_all (length xs) xs (omega arith) ∙ sym (take_all n xs l))
  ]

  -- All that is pending fits.
  drained : (n : ℕ) (xs : List T) → is_empty (drop (min (length xs) n) xs) ≡ true → length xs ≤ n
  drained n xs h =
      let e = is_empty-length (drop (min (length xs) n) xs) h in
      omega (arith, e, length-drop (min (length xs) n) xs)

  kept :
      (n : ℕ) (xs : List T) → is_empty (drop (min (length xs) n) xs) ≡ false → min (length xs) n ≡ n
  kept n xs h =
      let e = not_empty-length (drop (min (length xs) n) xs) h in
      omega (arith, e, length-drop (min (length xs) n) xs)

  work_stops :
      (s : VectorSource T) (room : ℕ)
      → s.repeat ≡ false
      → s.once ≡ true
      → ((work s room).0.output ≡ []) × ((work s room).1 ≡ s)
  unfolding work
  work_stops s room r o = simp (r, o) (refl, refl)

  pub work_goes :
      (s : VectorSource T) (room : ℕ)
      → (not s.repeat && s.once) ≡ false
      → work s room ≡ produce s room
  unfolding work
  work_goes s room h = simp h refl

  run-done :
      (s : VectorSource T) (rooms : List ℕ)
      → s.repeat ≡ false
      → s.once ≡ true
      → (run s rooms).0 ≡ []
  unfolding run
  run-done s [] r o = refl
  run-done s (room ∷ rooms) r o =
      let (a, b) = work_stops s room r o in rw (a, b) (run-done s rooms r o)

  -- after a call that produces
  abbrev pub step : VectorSource T → ℕ → VectorSource T
  step s room = (produce s room).1

  step-once :
      (s : VectorSource T) (room : ℕ)
      → s.once ≡ false
      → (step s room).once ≡ is_empty (drop (min (length (current s)) room) (current s))
  unfolding produce
  step-once s room o = simp o refl

  run-once :
      (s : VectorSource T) (rooms : List ℕ)
      → s.repeat ≡ false
      → s.once ≡ false
      → (run s rooms).0 ≡ take (sum rooms) (current s)
  unfolding run produce
  run-once s [] r o = refl
  run-once s (room ∷ rooms) r o =
      let xs = current s in
      let goes : work s room ≡ produce s room = work_goes s room (simp (r, o) refl) in
      let once_after = step-once s room o in
      rw goes (elim (Bool-cases (is_empty (drop (min (length xs) room) xs))) [
        | inl b ↦
            ap (λ l. take (min (length xs) room) xs ++ l)
              (run-done (step s room) rooms r (once_after ∙ b))
            ∙ append-nil (take (min (length xs) room) xs)
            ∙ take_min room xs
            ∙ take_all room xs (drained room xs b)
            ∙ sym (take_all (room + sum rooms) xs (omega (arith, drained room xs b)))
        | inr b ↦
            ap (λ l. take (min (length xs) room) xs ++ l)
              (run-once (step s room) rooms r (once_after ∙ b))
            ∙ rw (b, kept room xs b) (take-add room (sum rooms) xs)
      ])

  -- After `activate` or `setElements`, let the mode be ONCE. Then any sequence of calls of `work`
  -- gives the elements in order, each once, up to as many as there was room for at the output.
  pub work-once :
      (s : VectorSource T) (rooms : List ℕ)
      → s.repeat ≡ false
      → (run (activate s) rooms).0 ≡ take (sum rooms) s.elems
  unfolding activate
  work-once s rooms r = run-once (activate s) rooms r refl
