-- ===== src/Endpoint/States/Machine.antt =====
-- How far `handleState` moves a connection.
use pothos_blocks.Shared.{ℕ, ◌<◌, ◌≡◌, refl, ◌⊎◌, inl, inr, List, [], ◌∷◌, arith, Outcome-cases}
use pothos_blocks.Endpoint.Types.{
  Impl, ◌>>=◌, State, listen, syn_sent, syn_received, established, fin_wait_1, fin_wait_2,
  close_wait, closing, last_ack, time_wait, closed,
}
use pothos_blocks.ByteOrder.{ByteOrder}
use pothos_blocks.Endpoint.Net.{Iface}
use pothos_blocks.Endpoint.Send.{send_flags}
use pothos_blocks.Endpoint.Send.Frame.{send_flags-SentOnly}
use pothos_blocks.Endpoint.States.{react, perform, handle_state}

-- How far a connection has come.
abbrev pub rank : State → ℕ
rank listen = 0
rank syn_sent = 0
rank syn_received = 1
rank established = 2
rank fin_wait_1 = 3
rank fin_wait_2 = 4
rank close_wait = 3
rank closing = 4
rank last_ack = 4
rank time_wait = 5
rank closed = 5

react-rank : (s : State) (f : ℕ) → ((react s f).target ≡ s) ⊎ (rank s < rank (react s f).target)
unfolding react
react-rank listen f = ground arith
react-rank s f = ground arith

module _ (bo : ByteOrder) (net : Iface) where
  -- A reply that throws leaves the state as it was.
  perform-state :
      (fs : List ℕ) (s : State) (w : Impl net.Sock)
      → ((perform bo net fs s w).1.state ≡ w.state) ⊎ ((perform bo net fs s w).1.state ≡ s)
  unfolding perform ◌>>=◌
  perform-state [] s w = inr refl
  perform-state (f ∷ fs) s w = elim (Outcome-cases (send_flags bo net f w).0) [
    | inl (a, e) ↦ ground (
      arith,
      e,
      (send_flags-SentOnly bo net f).run w,
      perform-state fs s (send_flags bo net f w).1,
    )
    | inr (x, e) ↦ ground (arith, e, (send_flags-SentOnly bo net f).run w)
  ]

  -- `handleState` never takes a connection back: the state stays, or it moves strictly forward in the
  -- order of `rank`, also where sending a reply throws.
  pub handle_state-forward :
      (flags : ℕ) (w : Impl net.Sock)
      → ((handle_state bo net flags w).1.state ≡ w.state)
        ⊎ (rank w.state < rank (handle_state bo net flags w).1.state)
  unfolding handle_state
  handle_state-forward flags w = ground (
    arith,
    react-rank w.state flags,
    perform-state (react w.state flags).replies (react w.state flags).target w,
  )
