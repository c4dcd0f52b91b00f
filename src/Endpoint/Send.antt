-- ===== src/Endpoint/Send.antt =====
-- `Impl::send`: the header, then the payload in pieces of at most `send_mtu` bytes.
pub mod Header
pub mod Frame
pub mod Stream
use pothos_blocks.Shared.{
  ℕ, zero, suc, ◌+◌, ◌%◌, min, Bool, true, false, ◌||◌, not, List, [], ◌++◌, returns, throws, leb,
  ◌==◌, if◌then◌else◌, length, take, drop,
}
use pothos_blocks.Endpoint.Types.{
  Impl, M, ◌>>=◌, ◌>>◌, pure, throw, modify, Error, send_header, send_payload, net_exception,
  out_of_fuel, packet_header_word, header_size, send_mtu, mod16, mod32, mod64,
}
use pothos_blocks.ByteOrder.{ByteOrder}
use pothos_blocks.Endpoint.Net.{Iface, Ret, moved, failed, raised}

-- The memory of a `PothosPacketHeader` with these fields, in network order.
unfoldable pub pack_header : ByteOrder → ℕ → ℕ → ℕ → ℕ → List ℕ
pack_header bo flags type payload_bytes count =
    bo.store32 packet_header_word
    ++ (bo.store16 flags
        ++ (bo.store16 type ++ (bo.store32 (payload_bytes % mod32) ++ bo.store32 count)))

abbrev pub add_sent : {S : Type 0} → ℕ → M S (Unit {0})
add_sent n = modify (λ w. record w { total_bytes_sent = (w.total_bytes_sent + n) % mod64 })

-- `lastSentPacketCount++`
abbrev pub next_count : {S : Type 0} → M S ℕ
next_count w = (
  returns w.last_sent_packet_count,
  record w { last_sent_packet_count = (w.last_sent_packet_count + 1) % mod32 },
)

module _ (bo : ByteOrder) (net : Iface) where
  -- `iface->send`
  unfoldable pub iface_send : List ℕ → Bool → M net.Sock (Ret ℕ)
  iface_send bs more w =
      let (r, s) = net.send w.iface bs more in (returns r, record w { iface = s })

  unfoldable pub check_header : Ret ℕ → M net.Sock (Unit {0})
  check_header (moved k) = if k == header_size then add_sent k else throw send_header
  check_header failed = throw send_header
  check_header raised = throw net_exception

  -- `ret` as a number of bytes, if it is positive
  unfoldable pub check_payload : Ret ℕ → M net.Sock ℕ
  check_payload (moved k) = if k == 0 then throw send_payload else (do add_sent k; pure k)
  check_payload failed = throw send_payload
  check_payload raised = throw net_exception

  -- The loop over what is left of the buffer. The fuel is the number of rounds.
  unfoldable pub send_loop : ℕ → List ℕ → Bool → M net.Sock (Unit {0})
  unfolding iface_send check_payload
  send_loop zero rest more = throw out_of_fuel
  send_loop (suc fuel) rest more = elim (length rest == 0) [
    | true ↦ pure tt
    | false ↦ do
      let to_send = min (length rest) send_mtu
      ret ← iface_send (take to_send rest) (not (to_send == length rest) || more)
      k ← check_payload ret
      send_loop fuel (drop k rest) more
  ]

  unfoldable pub send : ℕ → ℕ → List ℕ → Bool → M net.Sock (Unit {0})
  unfolding iface_send check_header send_loop
  send flags type buff more = do
    count ← next_count
    ret ←
        iface_send (pack_header bo flags type (length buff) count) (not (length buff == 0) || more)
    check_header ret
    send_loop (length buff + 1) buff more

  -- `send(flags)`
  unfoldable pub send_flags : ℕ → M net.Sock (Unit {0})
  unfolding send
  send_flags flags = send flags 0 [] false
