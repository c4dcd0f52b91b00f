-- ===== src/Endpoint/Comms.antt =====
-- The public operations: the opening and the closing handshake, `isReady`, `send` and `recv`.
pub mod Closing
pub mod Exits
pub mod RoundTrip
use pothos_blocks.Shared.{
  ℕ, zero, suc, ◌+◌, ◌%◌, Bool, true, false, ◌&&◌, List, [], ◌∷◌, ltb, if◌then◌else◌,
}
use pothos_blocks.Endpoint.Types.{
  Impl, M, ◌>>=◌, ◌>>◌, pure, throw, modify, set_state, open_failed, close_failed, mod32, mod64,
  flag_fin, flag_syn, flag_psh, flow_control_window_bytes, State, listen, syn_sent, syn_received,
  established, fin_wait_1, fin_wait_2, close_wait, closing, last_ack, time_wait, closed,
}
use pothos_blocks.ByteOrder.{ByteOrder}
use pothos_blocks.Endpoint.Net.{Iface}
use pothos_blocks.Endpoint.Send.{send, send_flags}
use pothos_blocks.Endpoint.States.{Move, perform}
use pothos_blocks.Endpoint.Recv.{recv}

abbrev pub is_established : State → Bool
is_established established = true
is_established _ = false

abbrev pub is_closed : State → Bool
is_closed closed = true
is_closed _ = false

-- `isReady`
unfoldable pub is_ready : {S : Type 0} → Impl S → Bool
is_ready w =
    is_established w.state
    && ltb w.total_bytes_sent ((w.last_flow_msg_recv + flow_control_window_bytes) % mod64)

-- the buffer of `openComms` and `closeComms`
abbrev comms_buffer : ℕ
comms_buffer = 1024

-- The switch of `closeComms` that starts the closing.
unfoldable pub depart : State → Move
depart established = record { replies = flag_fin ∷ []; target = fin_wait_1 }
depart close_wait = record { replies = flag_fin ∷ []; target = last_ack }
depart s = record { replies = []; target = closed }

module _ (bo : ByteOrder) (net : Iface) where
  -- The public `send`
  unfoldable pub send_data : ℕ → List ℕ → Bool → M net.Sock (Unit {0})
  send_data type buff more = send bo net flag_psh type buff more

  -- The loop of `openComms`. `ticks` is how often the clock is found to be before the exit time.
  unfoldable pub open_loop : ℕ → M net.Sock (Unit {0})
  open_loop zero w = pure tt w
  open_loop (suc ticks) w = elim (is_established w.state) [
    | true ↦ pure tt w
    | false ↦ elim (is_closed w.state) [
      | true ↦ pure tt w
      | false ↦ (do recv bo net comms_buffer; open_loop ticks) w
    ]
  ]

  -- Only a closed endpoint sends the first packet.
  unfoldable pub initiate : State → M net.Sock (Unit {0})
  initiate closed = do send_flags bo net flag_syn; set_state syn_sent
  initiate _ = pure tt

  unfoldable pub check_open : M net.Sock (Unit {0})
  check_open w =
      if is_established w.state then pure tt w else (do set_state closed; throw open_failed) w

  -- `openComms`, with the value of `std::rand()`
  unfoldable pub open_comms : ℕ → ℕ → M net.Sock (Unit {0})
  unfolding open_loop initiate check_open
  open_comms random ticks = do
    modify (λ w. record w {
      last_sent_packet_count = random % mod32;
      total_bytes_recv = 0;
      total_bytes_sent = 0;
      last_flow_msg_recv = 0;
      last_flow_msg_sent = 0;
    })
    (λ w. initiate w.state w)
    open_loop ticks
    check_open

  -- The loop of `closeComms`
  unfoldable pub close_loop : ℕ → M net.Sock (Unit {0})
  close_loop zero w = pure tt w
  close_loop (suc ticks) w = elim (is_closed w.state) [
    | true ↦ pure tt w
    | false ↦ (do recv bo net comms_buffer; close_loop ticks) w
  ]

  unfoldable pub start_close : State → M net.Sock (Unit {0})
  unfolding depart perform
  start_close s = let move = depart s in perform bo net move.replies move.target

  -- A wait that has timed out is over.
  abbrev after_wait : State → State
  after_wait time_wait = closed
  after_wait s = s

  unfoldable pub check_close : M net.Sock (Unit {0})
  check_close w =
      if is_closed w.state then pure tt w else (do set_state closed; throw close_failed) w

  unfoldable pub close_open : State → ℕ → M net.Sock (Unit {0})
  unfolding close_loop start_close check_close
  close_open s ticks = do
    start_close s
    close_loop ticks
    modify (λ w. record w { state = after_wait w.state })
    check_close

  -- `closeComms`
  unfoldable pub close_comms : ℕ → M net.Sock (Unit {0})
  unfolding close_open
  close_comms ticks w = if is_closed w.state then pure tt w else close_open w.state ticks w
