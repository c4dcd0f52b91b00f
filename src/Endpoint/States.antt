-- ===== src/Endpoint/States.antt =====
-- `Impl::handleState` and `Impl::unpackHeader`.
pub mod Machine
pub mod Handshake
pub mod Unpack
use pothos_blocks.Shared.{
  ℕ, ◌+◌, ◌%◌, Bool, true, false, ◌||◌, not, List, returns, throws, ltb, ◌==◌, if◌then◌else◌,
  length, drop, [], ◌∷◌,
}
use pothos_blocks.Endpoint.Types.{
  Impl, M, ◌>>=◌, ◌>>◌, pure, throw, modify, set_state, Error, incomplete_header, header_word,
  packet_count, packet_header_word, header_size, mod32, has_flag, flag_fin, flag_syn, flag_ack,
  State, listen, syn_sent, syn_received, established, fin_wait_1, fin_wait_2, close_wait, closing,
  last_ack, time_wait, closed,
}
use pothos_blocks.ByteOrder.{ByteOrder}
use pothos_blocks.Endpoint.Net.{Iface}
use pothos_blocks.Endpoint.Send.{send_flags}

-- What a packet does in a state: the packets sent in reply, by their flags, and the new state.
pub record Move : Type 0 where
  pub replies : List ℕ
  pub target : State

abbrev pub go : State → Move
go s = record { replies = []; target = s }

abbrev pub answer : ℕ → State → Move
answer f s = record { replies = f ∷ []; target = s }

-- The switch of `handleState`, on the state and the flags; a branch that does nothing stays.
unfoldable pub react : State → ℕ → Move
react listen f =
    if has_flag f flag_syn then answer (flag_syn + flag_ack) syn_received else go listen
react syn_sent f =
    if has_flag f flag_syn || has_flag f flag_ack
    then answer flag_ack established
    else (if has_flag f flag_syn then answer (flag_syn + flag_ack) syn_received else go syn_sent)
react syn_received f = if has_flag f flag_ack then go established else go syn_received
react established f = if has_flag f flag_fin then answer flag_ack close_wait else go established
react fin_wait_1 f =
    if has_flag f flag_ack
    then go fin_wait_2
    else (if has_flag f flag_fin then answer flag_ack closing else go fin_wait_1)
react fin_wait_2 f = if has_flag f flag_fin then answer flag_ack time_wait else go fin_wait_2
react close_wait f = go close_wait
react closing f = if has_flag f flag_ack then go time_wait else go closing
react last_ack f = if has_flag f flag_ack then go closed else go last_ack
react time_wait f = go time_wait
react closed f = go closed

module _ (bo : ByteOrder) (net : Iface) where
  -- Sends the replies in order, and goes to the new state if none of them throws.
  unfoldable pub perform : List ℕ → State → M net.Sock (Unit {0})
  perform [] s = set_state s
  perform (f ∷ fs) s = do send_flags bo net f; perform fs s

  -- `handleState`
  unfoldable pub handle_state : ℕ → M net.Sock (Unit {0})
  unfolding react perform
  handle_state flags w = let move = react w.state flags in perform move.replies move.target w

  -- the packet count must be the one expected
  unfoldable pub check_count : ℕ → M net.Sock (Unit {0})
  check_count count w =
      if count == w.next_recv_packet_count then pure tt w else throw packet_count w

  -- The part of `unpackHeader` behind the checks of the header's size and first word. `payloadBytes`
  -- is a reference to `bytesLeftInStream`, so that is written before the packet count is checked.
  unfoldable pub accept_header : ℕ → ℕ → ℕ → ℕ → M net.Sock (ℕ × ℕ)
  accept_header flags type payload_bytes count = do
    modify (λ w. record w { bytes_left_in_stream = payload_bytes })
    modify (λ w. if has_flag flags flag_syn then record w { next_recv_packet_count = count } else w)
    check_count count
    modify (λ w. record w { next_recv_packet_count = (count + 1) % mod32; last_type = type })
    handle_state flags
    pure (flags, type)

  -- `unpackHeader` of the bytes that came in for the header; gives the flags and the type.
  unfoldable pub unpack_header : List ℕ → M net.Sock (ℕ × ℕ)
  unfolding accept_header
  unpack_header bs =
      if ltb (length bs) header_size
      then throw incomplete_header
      else (if bo.load32 bs == packet_header_word
          then accept_header (bo.load16 (drop 4 bs)) (bo.load16 (drop 6 bs)) (bo.load32 (drop 8 bs))
              (bo.load32 (drop 12 bs))
          else throw header_word)
