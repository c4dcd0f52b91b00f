-- ===== src/Endpoint/Send/Frame.antt =====
-- What `Impl::send` leaves alone.
use pothos_blocks.Shared.{
  ℕ, zero, suc, ◌+◌, ◌≡◌, Bool, false, List, [], length, drop, ◌==◌, arith, Bool-cases, inl, inr,
}
use pothos_blocks.Endpoint.Types.{Impl, ◌>>=◌}
use pothos_blocks.Endpoint.Frame.{Respects, bind-Respects}
use pothos_blocks.ByteOrder.{ByteOrder}
use pothos_blocks.Endpoint.Net.{Iface, Ret}
use pothos_blocks.Endpoint.Send.{
  iface_send, check_payload, check_header, send_loop, send, send_flags,
}

-- Only the socket, the count of packets sent and the count of bytes sent may differ.
pub record SentOnly {S : Type 0} (w w' : Impl S) : Type 0 where
  pub state : w'.state ≡ w.state
  pub next_recv : w'.next_recv_packet_count ≡ w.next_recv_packet_count
  pub bytes_left : w'.bytes_left_in_stream ≡ w.bytes_left_in_stream
  pub last_type : w'.last_type ≡ w.last_type
  pub total_recv : w'.total_bytes_recv ≡ w.total_bytes_recv
  pub flow_recv : w'.last_flow_msg_recv ≡ w.last_flow_msg_recv
  pub flow_sent : w'.last_flow_msg_sent ≡ w.last_flow_msg_sent

SentOnly-trans : {S : Type 0} (u v w : Impl S) → SentOnly u v → SentOnly v w → SentOnly u w
SentOnly-trans u v w p q = ground arith

module _ (bo : ByteOrder) (net : Iface) where
  iface_send-SentOnly : (bs : List ℕ) (more : Bool) → Respects SentOnly (iface_send bo net bs more)
  unfolding iface_send
  iface_send-SentOnly bs more = record { run = λ w. ground arith }

  check_payload-SentOnly : (r : Ret ℕ) → Respects SentOnly (check_payload bo net r)
  unfolding check_payload ◌>>=◌
  check_payload-SentOnly r = record { run = λ w. ground arith }

  check_header-SentOnly : (r : Ret ℕ) → Respects SentOnly (check_header bo net r)
  unfolding check_header ◌>>=◌
  check_header-SentOnly r = record { run = λ w. ground arith }

  send_loop-SentOnly :
      (fuel : ℕ) (rest : List ℕ) (more : Bool) → Respects SentOnly (send_loop bo net fuel rest more)
  unfolding send_loop
  send_loop-SentOnly zero rest more = record { run = λ w. ground arith }
  send_loop-SentOnly (suc fuel) rest more = elim (Bool-cases (length rest == 0)) [
    | inl e ↦ rw (e, send_loop) (record { run = λ w. ground arith })
    | inr e ↦
        rw (e, send_loop)
          (bind-Respects SentOnly SentOnly-trans (iface_send-SentOnly _ _) (λ r.
            bind-Respects SentOnly SentOnly-trans (check_payload-SentOnly r)
              (λ k. send_loop-SentOnly fuel (drop k rest) more)))
  ]

  -- Whether it succeeds or throws, `send` keeps the state of the connection, the packet count that
  -- is expected, the bytes left in the stream, the last type, the count of bytes received and both
  -- marks of the flow control.
  pub send-SentOnly :
      (flags type : ℕ) (buff : List ℕ) (more : Bool)
      → Respects SentOnly (send bo net flags type buff more)
  unfolding send
  send-SentOnly flags type buff more =
      bind-Respects SentOnly SentOnly-trans (record { run = λ w. ground arith })
        (λ count. bind-Respects SentOnly SentOnly-trans (iface_send-SentOnly _ _) (λ r.
          bind-Respects SentOnly SentOnly-trans (check_header-SentOnly r)
            (λ _. send_loop-SentOnly (length buff + 1) buff more)))

  pub send_flags-SentOnly : (flags : ℕ) → Respects SentOnly (send_flags bo net flags)
  unfolding send_flags
  send_flags-SentOnly flags = send-SentOnly flags 0 [] false
