-- ===== src/Endpoint/Recv.antt =====
-- `Impl::recv`: a header if none is being read, what fits of its payload, and flow control.
pub mod Stream
pub mod Framing
pub mod Refused
use pothos_blocks.Shared.{
  ℕ, zero, suc, ◌+◌, ◌-◌, ◌/◌, ◌%◌, min, Bool, true, false, ◌&&◌, not, List, [], ◌++◌, Option, none,
  some, returns, leb, ltb, ◌==◌, if◌then◌else◌, length,
}
use pothos_blocks.Endpoint.Types.{
  Impl, M, ◌>>=◌, ◌>>◌, pure, throw, modify, Error, recv_header, recv_payload, net_exception,
  out_of_fuel, header_size, mod64, has_flag, flag_flo, type_buffer, flow_control_window_bytes,
}
use pothos_blocks.ByteOrder.{ByteOrder}
use pothos_blocks.Endpoint.Net.{Iface, Ret, moved, failed, raised}
use pothos_blocks.Endpoint.Send.{send}
use pothos_blocks.Endpoint.States.{unpack_header}

-- The references that `recv` writes. `payload` is the buffer's content, or `none` where the socket
-- was not ready and the buffer is left alone.
pub record Received : Type 0 where
  pub flags : ℕ
  pub type : ℕ
  pub payload : Option (List ℕ)

abbrev pub add_recv : {S : Type 0} → ℕ → M S (Unit {0})
add_recv n = modify (λ w. record w { total_bytes_recv = (w.total_bytes_recv + n) % mod64 })

-- The length to which the buffer of `cap` bytes is filled from a new packet: a packet that is no
-- stream buffer gets a larger buffer if need be.
unfoldable pub new_length : ℕ → ℕ → ℕ → ℕ
new_length cap type bytes_left =
    if not (type == type_buffer) && ltb cap bytes_left then bytes_left else min cap bytes_left

module _ (bo : ByteOrder) (net : Iface) where
  -- `iface->isRecvReady`
  unfoldable pub iface_ready : M net.Sock (Ret Bool)
  iface_ready w = let (r, s) = net.is_recv_ready w.iface in (returns r, record w { iface = s })

  -- `iface->recv`
  unfoldable pub iface_recv : ℕ → Bool → M net.Sock (Ret (List ℕ))
  iface_recv n wait w = let (r, s) = net.recv w.iface n wait in (returns r, record w { iface = s })

  unfoldable pub check_ready : Ret Bool → M net.Sock Bool
  check_ready (moved b) = pure b
  check_ready failed = pure false
  check_ready raised = throw net_exception

  -- the bytes of a `recv`, if `ret` is positive, counted in `totalBytesRecv`
  unfoldable pub check_recv : Error → Ret (List ℕ) → M net.Sock (List ℕ)
  check_recv e (moved bs) = if length bs == 0 then throw e else (do add_recv (length bs); pure bs)
  check_recv e failed = throw e
  check_recv e raised = throw net_exception

  -- The loop that fills the buffer: `n` bytes are missing, `got` are there. The fuel is the number of
  -- rounds.
  unfoldable pub recv_loop : ℕ → ℕ → List ℕ → M net.Sock (List ℕ)
  unfolding iface_recv check_recv
  recv_loop zero n got = throw out_of_fuel
  recv_loop (suc fuel) n got = elim (n == 0) [
    | true ↦ pure got
    | false ↦ do
      ret ← iface_recv n false
      bs ← check_recv recv_payload ret
      recv_loop fuel (n - length bs) (got ++ bs)
  ]

  unfoldable pub recv_new_head : ℕ → M net.Sock (ℕ × ℕ × ℕ)
  unfolding iface_recv check_recv unpack_header new_length
  recv_new_head cap = do
    ret ← iface_recv header_size true
    bs ← check_recv recv_header ret
    (flags, type) ← unpack_header bo net bs
    λ w. (returns (flags, type, new_length cap type w.bytes_left_in_stream), w)

  -- The flags, the type and the number of bytes to be read: from a new header, or of what is left of
  -- the last packet.
  unfoldable pub recv_head : ℕ → M net.Sock (ℕ × ℕ × ℕ)
  unfolding recv_new_head
  recv_head cap w = elim (w.bytes_left_in_stream == 0) [
    | true ↦ recv_new_head cap w
    | false ↦ (returns (0, w.last_type, min cap w.bytes_left_in_stream), w)
  ]

  -- A flow control packet tells how much the other side has received.
  unfoldable pub flow_incoming : ℕ → List ℕ → M net.Sock (Unit {0})
  flow_incoming flags payload =
      if has_flag flags flag_flo && leb 8 (length payload)
      then modify (λ w. record w { last_flow_msg_recv = bo.load64 payload })
      else pure tt

  -- Every eighth of a window the other side is told how much came in.
  unfoldable pub flow_outgoing : M net.Sock (Unit {0})
  flow_outgoing w =
      if ltb ((w.last_flow_msg_sent + flow_control_window_bytes / 8) % mod64) w.total_bytes_recv
      then (do
        send bo net flag_flo 0 (bo.store64 w.total_bytes_recv) false
        modify (λ w'. record w' { last_flow_msg_sent = w'.total_bytes_recv }))
          w
      else pure tt w

  -- `recv` of a socket that is ready
  unfoldable pub recv_packet : ℕ → M net.Sock Received
  unfolding recv_head recv_loop flow_incoming flow_outgoing
  recv_packet cap = do
    (flags, type, n) ← recv_head cap
    payload ← recv_loop (n + 1) n []
    modify (λ w. record w { bytes_left_in_stream = w.bytes_left_in_stream - n })
    flow_incoming flags payload
    flow_outgoing
    pure (record { flags = flags; type = type; payload = some payload })

  unfoldable pub recv : ℕ → M net.Sock Received
  unfolding iface_ready check_ready recv_packet
  recv cap = do
    ret ← iface_ready
    ready ← check_ready ret
    if ready then recv_packet cap else pure (record { flags = 0; type = 0; payload = none })
