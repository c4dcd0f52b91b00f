-- ===== src/Endpoint/Recv/Refused.antt =====
-- `Impl::recv` on a packet with a wrong packet count, and the call after it.
use pothos_blocks.Shared.{
  ℕ, ◌+◌, ◌-◌, ◌%◌, ◌≤◌, ◌<◌, ◌≡◌, ◌≢◌, refl, ap, ◌∙◌, min, true, false, List, ◌++◌, some, length,
  take, drop, arith, returns, throws, length-append, take-append_of_length, drop-append_of_length,
  take-append_le, drop-append_le, ◌==◌,
}
use pothos_blocks.Endpoint.Types.{
  Impl, recv_header, packet_count, mod16, mod32, mod64, header_size, has_flag, flag_syn,
}
use pothos_blocks.Endpoint.Frame.{bind-returns, bind-throws}
use pothos_blocks.ByteOrder.{ByteOrder}
use pothos_blocks.Endpoint.Net.{Iface, IsStream, moved}
use pothos_blocks.Endpoint.Send.{pack_header}
use pothos_blocks.Endpoint.Send.Header.{length-pack_header}
use pothos_blocks.Endpoint.States.Unpack.{unpack_header-wrong_count}
use pothos_blocks.Endpoint.Recv.{
  iface_recv, check_recv, recv_new_head, recv_head, recv_packet, recv,
}
use pothos_blocks.Endpoint.Recv.Framing.{
  Gives, recv_packet-Gives, recv-ready, check_recv-moved, recv_head-idle,
}

module _ (bo : ByteOrder) {net : Iface} (h : IsStream net) where
  -- the state in which a refused header leaves the receiver
  abbrev pub refused : Impl net.Sock → ℕ → net.Sock → Impl net.Sock
  refused w n s = record w {
    bytes_left_in_stream = n;
    total_bytes_recv = (w.total_bytes_recv + header_size) % mod64;
    iface = s;
  }

  -- the header is read and refused
  recv_new_head-refused :
      (room flags type count : ℕ) (buff more : List ℕ) (w : Impl net.Sock)
      → flags < mod16
      → type < mod16
      → length buff < mod32
      → count < mod32
      → has_flag flags flag_syn ≡ false
      → count ≢ w.next_recv_packet_count
      → h.incoming w.iface ≡ pack_header bo flags type (length buff) count ++ more
      → (s : net.Sock) × (recv_new_head bo net room w
          ≡ (throws packet_count, refused w (length buff) s))
        × (h.incoming s ≡ more)
  unfolding recv_new_head iface_recv check_recv
  recv_new_head-refused room flags type count buff more w f t b c no_syn ne inc =
      let n = length buff in
      let hd = pack_header bo flags type n count in
      let len = length-pack_header bo flags type n count in
      let (k, s, er, _, _, wait, _, left) =
        h.recv_moves w.iface header_size true (omega arith)
          (omega (arith, ap length inc, length-append hd more, len)) in
      let got : take k (h.incoming w.iface) ≡ hd =
        ap (λ j. take j (h.incoming w.iface)) (wait refl)
        ∙ ap (take header_size) inc
        ∙ take-append_of_length header_size hd more len in
      let after : drop k (h.incoming w.iface) ≡ more =
        ap (λ j. drop j (h.incoming w.iface)) (wait refl)
        ∙ ap (drop header_size) inc
        ∙ drop-append_of_length header_size hd more len in
      let w1 = record w { iface = s } in
      let w2 = record w1 { total_bytes_recv = (w.total_bytes_recv + length hd) % mod64 } in
      (
        s,
        bind-returns _ _ (
              ap (λ r. (returns r.0, record w { iface = r.1 })) (er ∙ ap (λ bs. (moved bs, s)) got))
            ∙ bind-returns _ _ (check_recv-moved bo h recv_header hd w1 (omega (arith, len)))
            ∙ bind-throws _ _
                (unpack_header-wrong_count bo net flags type n count w2 f t b c no_syn ne)
            ∙ ap
                (λ j. (
                  throws packet_count,
                  record w {
                    bytes_left_in_stream = n;
                    total_bytes_recv = (w.total_bytes_recv + j) % mod64;
                    iface = s;
                  },
                ))
                len,
        left ∙ after,
      )

  recv-refused :
      (room flags type count : ℕ) (buff more : List ℕ) (w : Impl net.Sock)
      → flags < mod16
      → type < mod16
      → length buff < mod32
      → count < mod32
      → has_flag flags flag_syn ≡ false
      → count ≢ w.next_recv_packet_count
      → w.bytes_left_in_stream ≡ 0
      → h.incoming w.iface ≡ pack_header bo flags type (length buff) count ++ more
      → (s : net.Sock) × (recv bo net room w ≡ (throws packet_count, refused w (length buff) s))
        × (h.incoming s ≡ more)
  unfolding recv_packet
  recv-refused room flags type count buff more w f t b c no_syn ne idle inc =
      let (s0, ready, _, same) = h.ready_moves w.iface in
      let w0 = record w { iface = s0 } in
      let (s, head, inc') =
        recv_new_head-refused room flags type count buff more w0 f t b c no_syn ne (same ∙ inc) in
      (
        s,
        recv-ready bo h room w s0 ready ∙ bind-throws _ _ (recv_head-idle bo h room w0 idle ∙ head),
        inc',
      )

  recv_head-left :
      (room : ℕ) (w : Impl net.Sock)
      → 0 < w.bytes_left_in_stream
      → recv_head bo net room w ≡ (returns (0, w.last_type, min room w.bytes_left_in_stream), w)
  unfolding recv_head
  recv_head-left room w p =
      let test : (w.bytes_left_in_stream == 0) ≡ false = ground arith in rw (test, recv_head)

  -- what is left of a packet is read under the last type
  recv-left :
      (room : ℕ) (buff rest : List ℕ) (w : Impl net.Sock)
      → 0 < length buff
      → w.bytes_left_in_stream ≡ length buff
      → h.incoming w.iface ≡ buff ++ rest
      → let n = min room (length buff) in
        Gives bo h w
          (recv bo net room w)
          0
          w.last_type
          (take n buff)
          (drop n buff ++ rest)
          (length buff - n)
  recv-left room buff rest w pos left inc =
      let (s0, ready, _, same) = h.ready_moves w.iface in
      let w0 = record w { iface = s0 } in
      let n = min room w.bytes_left_in_stream in
      let m = min room (length buff) in
      let n-m : n ≡ m = ap (min room) left in
      let le : m ≤ length buff = ground arith in
      let inc' : h.incoming s0 ≡ buff ++ rest = same ∙ inc in
      let g =
        recv_packet-Gives bo h room 0 w.last_type n w0 w0
          (recv_head-left room w0 (omega (arith, left, pos)))
          (omega (arith, ap length inc', length-append buff rest, le, n-m)) in
      rw (recv-ready bo h room w s0 ready) (record {
        done =
            g.done
            ∙ ap (λ bs. returns (record { flags = 0; type = w.last_type; payload = some bs }))
                (ap (λ k. take k (h.incoming s0)) n-m
                  ∙ ap (take m) inc'
                  ∙ take-append_le m buff rest le);
        rest_of =
            g.rest_of
            ∙ ap (λ k. drop k (h.incoming s0)) n-m
            ∙ ap (drop m) inc'
            ∙ drop-append_le m buff rest le;
        left_of = g.left_of ∙ omega (arith, left, n-m);
        state = g.state;
        next_recv = g.next_recv;
        last_type = g.last_type;
      })

  -- Let a packet be at the head of a healthy stream that opens no new sequence, has another packet count
  -- than the one expected, and has a payload; and let the receiver be between packets. Then `recv`
  -- refuses the packet, with the state, the count expected and the last type as before. But the next
  -- `recv` gives the beginning of the payload of the refused packet, as much as fits, with no flags and
  -- under the type of the packet before.
  pub recv-wrong_count :
      (room room' flags type count : ℕ) (buff rest : List ℕ) (w : Impl net.Sock)
      → flags < mod16
      → type < mod16
      → length buff < mod32
      → count < mod32
      → has_flag flags flag_syn ≡ false
      → count ≢ w.next_recv_packet_count
      → w.bytes_left_in_stream ≡ 0
      → 0 < length buff
      → h.incoming w.iface ≡ pack_header bo flags type (length buff) count ++ (buff ++ rest)
      → let u = (recv bo net room w).1 in
        let n = min room' (length buff) in
        ((recv bo net room w).0 ≡ throws packet_count)
        × Gives bo h w
            (recv bo net room' u)
            0
            w.last_type
            (take n buff)
            (drop n buff ++ rest)
            (length buff - n)
  recv-wrong_count room room' flags type count buff rest w f t b c no_syn ne idle pos inc =
      let (s, run, inc') =
        recv-refused room flags type count buff (buff ++ rest) w f t b c no_syn ne idle inc in
      let g = recv-left room' buff rest (refused w (length buff) s) pos refl inc' in
      rw run (
        refl,
        record {
          done = g.done;
          rest_of = g.rest_of;
          left_of = g.left_of;
          state = g.state;
          next_recv = g.next_recv;
          last_type = g.last_type;
        },
      )
