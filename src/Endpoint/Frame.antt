-- ===== src/Endpoint/Frame.antt =====
-- A relation between the data before and after a piece of code, however the code ends.
use pothos_blocks.Shared.{◌≡◌, ap, Outcome-cases, inl, inr, returns, throws}
use pothos_blocks.Endpoint.Types.{Impl, M, Error, ◌>>=◌}

module _ {S A B : Type 0} (m : M S A) (f : A → M S B) {w w' : Impl S} where
  -- A sequence whose first part is known to return.
  pub bind-returns : {a : A} → m w ≡ (returns a, w') → (m >>= f) w ≡ f a w'
  unfolding ◌>>=◌
  bind-returns {a} e = rw (e, ◌>>=◌) (ap (λ r. f a r.1) e)

  -- A sequence whose first part is known to throw.
  pub bind-throws : {e : Error} → m w ≡ (throws e, w') → (m >>= f) w ≡ (throws e, w')
  unfolding ◌>>=◌
  bind-throws {e} h = rw (h, ◌>>=◌) (ap (λ r. (throws e, r.1)) h)

pub record Respects {S A : Type 0} (R : Impl S → Impl S → Type 0) (m : M S A) : Type 0 where
  pub run : (w : Impl S) → R w (m w).1

module _ {S : Type 0} (R : Impl S → Impl S → Type 0)
    (trans : (u v w : Impl S) → R u v → R v w → R u w) where
  bind_run :
      {A B : Type 0} (m : M S A) (f : A → M S B)
      → Respects R m
      → ((a : A) → Respects R (f a))
      → (w : Impl S) → R w ((m >>= f) w).1
  unfolding ◌>>=◌
  bind_run m f hm hf w = elim (Outcome-cases (m w).0) [
    | inl (a, e) ↦ rw (e, ◌>>=◌) (trans w (m w).1 _ (hm.run w) ((hf a).run (m w).1))
    | inr (x, e) ↦ rw (e, ◌>>=◌) (hm.run w)
  ]

  -- The rule for a sequence: a transitive relation that holds of the parts holds of the whole.
  pub bind-Respects :
      {A B : Type 0} {m : M S A} {f : A → M S B}
      → Respects R m
      → ((a : A) → Respects R (f a))
      → Respects R (m >>= f)
  bind-Respects {m} {f} hm hf = record { run = bind_run m f hm hf }
