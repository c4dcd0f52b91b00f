-- ===== src/Endpoint/States/Unpack.antt =====
-- What `unpackHeader` accepts and refuses.
use pothos_blocks.Shared.{ℕ, ◌+◌, ◌%◌, ◌<◌, ◌≡◌, ◌≢◌, refl, ◌∙◌, false, arith, returns, throws}
use pothos_blocks.Endpoint.Types.{Impl, packet_count, mod16, mod32, has_flag, flag_syn, flag_psh}
use pothos_blocks.Endpoint.Frame.{bind-returns, bind-throws}
use pothos_blocks.ByteOrder.{ByteOrder}
use pothos_blocks.Endpoint.Net.{Iface}
use pothos_blocks.Endpoint.Send.{pack_header}
use pothos_blocks.Endpoint.Send.Header.{
  length-pack_header, read_word, read_flags, read_type, read_size, read_count,
}
use pothos_blocks.Endpoint.States.{
  react, perform, handle_state, check_count, accept_header, unpack_header,
}

module _ (bo : ByteOrder) (net : Iface) where
  pub unpack_header-pack_header :
      (flags type n count : ℕ) (w : Impl net.Sock)
      → flags < mod16
      → type < mod16
      → n < mod32
      → count < mod32
      → unpack_header bo net (pack_header bo flags type n count) w
        ≡ accept_header bo net flags type n count w
  unfolding unpack_header
  unpack_header-pack_header flags type n count w f t s c = rw (
    length-pack_header bo flags type n count,
    read_word bo flags type n count,
    read_flags bo flags type n count f,
    read_type bo flags type n count t,
    read_size bo flags type n count s,
    read_count bo flags type n count c,
  )

  -- A packet that carries data changes no state.
  pub handle_state-psh : (w : Impl net.Sock) → handle_state bo net flag_psh w ≡ (returns tt, w)
  unfolding handle_state react perform
  handle_state-psh w = ground arith

  check_count-eq :
      (count : ℕ) (w : Impl net.Sock)
      → count ≡ w.next_recv_packet_count
      → check_count bo net count w ≡ (returns tt, w)
  unfolding check_count
  check_count-eq count w e = ground arith

  check_count-ne :
      (count : ℕ) (w : Impl net.Sock)
      → count ≢ w.next_recv_packet_count
      → check_count bo net count w ≡ (throws packet_count, w)
  unfolding check_count
  check_count-ne count w e = ground arith

  pub accept_header-psh :
      (type n count : ℕ) (w : Impl net.Sock)
      → count ≡ w.next_recv_packet_count
      → accept_header bo net flag_psh type n count w ≡ (
        returns (flag_psh, type),
        record w {
          bytes_left_in_stream = n;
          next_recv_packet_count = (count + 1) % mod32;
          last_type = type;
        },
      )
  unfolding accept_header
  accept_header-psh type n count w e =
      bind-returns _ _ refl
      ∙ bind-returns _ _ refl
      ∙ bind-returns _ _ (check_count-eq count (record w { bytes_left_in_stream = n }) e)
      ∙ bind-returns _ _ refl
      ∙ bind-returns _ _ (handle_state-psh _)

  -- A header that is well formed, opens no new sequence and has another packet count than the one
  -- expected is refused, and does not run the state machine: the state, the count expected and the last
  -- type stay. But the bytes left in the stream are those of its payload.
  pub unpack_header-wrong_count :
      (flags type n count : ℕ) (w : Impl net.Sock)
      → flags < mod16
      → type < mod16
      → n < mod32
      → count < mod32
      → has_flag flags flag_syn ≡ false
      → count ≢ w.next_recv_packet_count
      → unpack_header bo net (pack_header bo flags type n count) w
        ≡ (throws packet_count, record w { bytes_left_in_stream = n })
  unfolding accept_header
  unpack_header-wrong_count flags type n count w f t s c no_syn ne =
      unpack_header-pack_header flags type n count w f t s c
      ∙ bind-returns _ _ refl
      ∙ rw no_syn (
          bind-returns _ _ refl
          ∙ bind-throws _ _ (check_count-ne count (record w { bytes_left_in_stream = n }) ne))
