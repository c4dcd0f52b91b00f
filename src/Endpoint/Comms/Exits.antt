-- ===== src/Endpoint/Comms/Exits.antt =====
-- How `openComms` and `closeComms` end.
use pothos_blocks.Shared.{ℕ, ◌≡◌, inl, inr, arith, Outcome, returns, throws, Outcome-cases}
use pothos_blocks.Endpoint.Types.{Impl, M, ◌>>=◌, Error, State, established, closed}
use pothos_blocks.ByteOrder.{ByteOrder}
use pothos_blocks.Endpoint.Net.{Iface}
use pothos_blocks.Endpoint.Comms.{check_open, check_close, open_comms, close_open, close_comms}

-- `Finally P k`: whatever the data, `P` holds of the result of `k`, or `k` threw on the way there.
pub record Finally {S A : Type 0} (P : Outcome Error A → Impl S → Type 0) (k : M S A) : Type 0 where
  pub run : (w : Impl S) → P (k w).0 (k w).1

module _ {S A B : Type 0} (P : Outcome Error B → Impl S → Type 0)
    (early : (e : Error) (w : Impl S) → P (throws e) w) where
  bind_finally :
      (m : M S A) (f : A → M S B)
      → ((a : A) → Finally P (f a))
      → (w : Impl S) → P ((m >>= f) w).0 ((m >>= f) w).1
  unfolding ◌>>=◌
  bind_finally m f h w = elim (Outcome-cases (m w).0) [
    | inl (a, e) ↦ rw (e, ◌>>=◌) ((h a).run (m w).1)
    | inr (x, e) ↦ rw (e, ◌>>=◌) (early x (m w).1)
  ]

  -- Where an early exception satisfies `P`, the last part of a sequence decides.
  bind-Finally : (m : M S A) (f : A → M S B) → ((a : A) → Finally P (f a)) → Finally P (m >>= f)
  bind-Finally m f h = record { run = bind_finally m f h }

abbrev Settled : {S : Type 0} → State → Outcome Error (Unit {0}) → Impl S → Type 0
Settled s o w = o ≡ returns tt → w.state ≡ s

module _ (bo : ByteOrder) (net : Iface) where
  check_open-Finally : Finally (Settled established) (check_open bo net)
  unfolding check_open ◌>>=◌
  check_open-Finally = record { run = λ w. ground arith }

  -- `openComms` returns normally only with the connection established.
  pub open_comms-established :
      (random ticks : ℕ) (w : Impl net.Sock)
      → (open_comms bo net random ticks w).0 ≡ returns tt
      → (open_comms bo net random ticks w).1.state ≡ established
  unfolding open_comms
  open_comms-established random ticks w =
      (bind-Finally (Settled established) (λ e w. cc) _ _
          (λ _.
            bind-Finally (Settled established) (λ e w. cc) _ _
              (λ _.
                bind-Finally (Settled established) (λ e w. cc) _ _ (λ _. check_open-Finally)))).run
        w

  check_close-closed : (w : Impl net.Sock) → (check_close bo net w).1.state ≡ closed
  unfolding check_close ◌>>=◌
  check_close-closed w = ground arith

  check_close-Finally : Finally (Settled closed) (check_close bo net)
  check_close-Finally = record { run = λ w _. check_close-closed w }

  close_open-Finally :
      (s : State) (ticks : ℕ) → Finally (Settled closed) (close_open bo net s ticks)
  unfolding close_open
  close_open-Finally s ticks =
      bind-Finally (Settled closed) (λ e w. cc) _ _
        (λ _.
          bind-Finally (Settled closed) (λ e w. cc) _ _
            (λ _. bind-Finally (Settled closed) (λ e w. cc) _ _ (λ _. check_close-Finally)))

  -- `closeComms` returns normally only with the connection closed.
  pub close_comms-closed :
      (ticks : ℕ) (w : Impl net.Sock)
      → (close_comms bo net ticks w).0 ≡ returns tt
      → (close_comms bo net ticks w).1.state ≡ closed
  unfolding close_comms
  close_comms-closed ticks w = ground (arith, (close_open-Finally w.state ticks).run w)
