-- ===== src/Endpoint/Recv/Framing.antt =====
-- `Impl::recv` against `Impl::send`: packets come out as they went in.
use pothos_blocks.Shared.{
  ℕ, ◌+◌, ◌-◌, ◌%◌, ◌≤◌, ◌<◌, ◌≡◌, refl, sym, ap, ◌∙◌, true, false, List, [], ◌++◌, some, length,
  take, drop, arith, returns, Outcome, length-append, take-append_of_length, drop-append_of_length,
  take-append_le, drop-append_le, ◌==◌,
}
use pothos_blocks.Endpoint.Types.{
  Impl, ◌>>=◌, Error, recv_header, mod16, mod32, mod64, header_size, flag_psh,
}
use pothos_blocks.Endpoint.Frame.{bind-returns}
use pothos_blocks.ByteOrder.{ByteOrder}
use pothos_blocks.Endpoint.Net.{Iface, IsStream, moved}
use pothos_blocks.Endpoint.Send.{pack_header}
use pothos_blocks.Endpoint.Send.Header.{length-pack_header}
use pothos_blocks.Endpoint.States.Unpack.{unpack_header-pack_header, accept_header-psh}
use pothos_blocks.Endpoint.Recv.{
  Received, iface_ready, check_ready, iface_recv, check_recv, recv_loop, new_length, recv_new_head,
  recv_head, flow_incoming, flow_outgoing, recv_packet, recv,
}
use pothos_blocks.Endpoint.Recv.Stream.{recv_loop-Reads, flow_incoming-Calm, flow_outgoing-Calm}

module _ (bo : ByteOrder) {net : Iface} (h : IsStream net) where
  -- The call gave these flags, this type and this payload, left these bytes on the stream, and
  -- expects so many more bytes of the packet.
  pub record Gives (w : Impl net.Sock) (r : Outcome Error Received × Impl net.Sock) (flags type : ℕ)
      (payload rest : List ℕ) (left : ℕ) : Type 0 where
    pub done : r.0 ≡ returns (record { flags = flags; type = type; payload = some payload })
    pub rest_of : h.incoming r.1.iface ≡ rest
    pub left_of : r.1.bytes_left_in_stream ≡ left
    pub state : r.1.state ≡ w.state
    pub next_recv : r.1.next_recv_packet_count ≡ w.next_recv_packet_count
    pub last_type : r.1.last_type ≡ w.last_type

  pub recv_packet-Gives :
      (cap flags type n : ℕ) (w u : Impl net.Sock)
      → recv_head bo net cap w ≡ (returns (flags, type, n), u)
      → n ≤ length (h.incoming u.iface)
      → Gives u
          (recv_packet bo net cap w)
          flags
          type
          (take n (h.incoming u.iface))
          (drop n (h.incoming u.iface))
          (u.bytes_left_in_stream - n)
  unfolding recv_packet
  recv_packet-Gives cap flags type n w u e le =
      let rd = recv_loop-Reads bo h (n + 1) n [] u (omega arith) le in
      let u1 = (recv_loop bo net (n + 1) n [] u).1 in
      let u2 = record u1 { bytes_left_in_stream = u1.bytes_left_in_stream - n } in
      let payload = take n (h.incoming u.iface) in
      let fi = flow_incoming-Calm bo h flags payload u2 in
      let u3 = (flow_incoming bo net flags payload u2).1 in
      let fo = flow_outgoing-Calm bo h u3 in
      let u4 = (flow_outgoing bo net u3).1 in
      let run : recv_packet bo net cap w
          ≡ (returns (record { flags = flags; type = type; payload = some payload }), u4) =
        bind-returns (recv_head bo net cap) _ e
        ∙ bind-returns (recv_loop bo net (n + 1) n []) _ (ap (λ o. (o, u1)) rd.done)
        ∙ bind-returns _ _ refl
        ∙ bind-returns (flow_incoming bo net flags payload) _ (ap (λ o. (o, u3)) fi.done)
        ∙ bind-returns (flow_outgoing bo net) _
            (ap (λ o. (o, (flow_outgoing bo net u3).1)) fo.done) in
      rw run (record {
        done = refl;
        rest_of = fo.rest ∙ fi.rest ∙ rd.rest;
        left_of = fo.same.bytes_left ∙ fi.same.bytes_left ∙ ap (λ k. k - n) rd.same.bytes_left;
        state = fo.same.state ∙ fi.same.state ∙ rd.same.state;
        next_recv = fo.same.next_recv ∙ fi.same.next_recv ∙ rd.same.next_recv;
        last_type = fo.same.last_type ∙ fi.same.last_type ∙ rd.same.last_type;
      })

  -- `recv` of a socket that is ready is `recv_packet`.
  pub recv-ready :
      (cap : ℕ) (w : Impl net.Sock) (s : net.Sock)
      → net.is_recv_ready w.iface ≡ (moved true, s)
      → recv bo net cap w ≡ recv_packet bo net cap (record w { iface = s })
  unfolding recv iface_ready check_ready
  recv-ready cap w s e =
      bind-returns _ _ (ap (λ r. (returns r.0, record w { iface = r.1 })) e) ∙ bind-returns _ _ refl

  pub check_recv-moved :
      (x : Error) (bs : List ℕ) (w : Impl net.Sock)
      → 0 < length bs
      → check_recv bo net x (moved bs) w
        ≡ (returns bs, record w { total_bytes_recv = (w.total_bytes_recv + length bs) % mod64 })
  unfolding check_recv ◌>>=◌
  check_recv-moved x bs w p = let pos : (length bs == 0) ≡ false = ground arith in rw pos

  -- the header of the next packet is read and accepted
  recv_new_head-psh :
      (cap type count : ℕ) (buff more : List ℕ) (w : Impl net.Sock)
      → type < mod16
      → length buff < mod32
      → count < mod32
      → count ≡ w.next_recv_packet_count
      → h.incoming w.iface ≡ pack_header bo flag_psh type (length buff) count ++ more
      → (s : net.Sock) × (recv_new_head bo net cap w ≡ (
        returns (flag_psh, type, new_length cap type (length buff)),
        record w {
          bytes_left_in_stream = length buff;
          next_recv_packet_count = (count + 1) % mod32;
          last_type = type;
          total_bytes_recv = (w.total_bytes_recv + header_size) % mod64;
          iface = s;
        },
      ))
        × (h.incoming s ≡ more)
  unfolding recv_new_head iface_recv check_recv
  recv_new_head-psh cap type count buff more w t b c e inc =
      let n = length buff in
      let hd = pack_header bo flag_psh type n count in
      let len = length-pack_header bo flag_psh type n count in
      let (k, s, er, _, _, wait, _, left) =
        h.recv_moves w.iface header_size true (omega arith)
          (omega (arith, ap length inc, length-append hd more, len)) in
      let got : take k (h.incoming w.iface) ≡ hd =
        ap (λ j. take j (h.incoming w.iface)) (wait refl)
        ∙ ap (take header_size) inc
        ∙ take-append_of_length header_size hd more len in
      let after : drop k (h.incoming w.iface) ≡ more =
        ap (λ j. drop j (h.incoming w.iface)) (wait refl)
        ∙ ap (drop header_size) inc
        ∙ drop-append_of_length header_size hd more len in
      let w1 = record w { iface = s } in
      let w2 = record w1 { total_bytes_recv = (w.total_bytes_recv + length hd) % mod64 } in
      (
        s,
        bind-returns _ _ (
              ap (λ r. (returns r.0, record w { iface = r.1 })) (er ∙ ap (λ bs. (moved bs, s)) got))
            ∙ bind-returns _ _ (check_recv-moved recv_header hd w1 (omega (arith, len)))
            ∙ bind-returns _ _ (
                unpack_header-pack_header bo net flag_psh type n count w2 (omega arith) t b c
                ∙ accept_header-psh bo net type n count w2 e)
            ∙ ap
                (λ j. (
                  returns (flag_psh, type, new_length cap type n),
                  record w {
                    bytes_left_in_stream = n;
                    next_recv_packet_count = (count + 1) % mod32;
                    last_type = type;
                    total_bytes_recv = (w.total_bytes_recv + j) % mod64;
                    iface = s;
                  },
                ))
                len,
        left ∙ after,
      )

  pub recv_head-idle :
      (room : ℕ) (w : Impl net.Sock)
      → w.bytes_left_in_stream ≡ 0
      → recv_head bo net room w ≡ recv_new_head bo net room w
  unfolding recv_head
  recv_head-idle room w e =
      let test : (w.bytes_left_in_stream == 0) ≡ true = ground arith in rw (test, recv_head)

  new_length-le : (type n : ℕ) (room : ℕ) → new_length room type n ≤ n
  unfolding new_length
  new_length-le type n room = ground arith

  -- The call gave this payload and left the packet, the count and the type like this.
  pub record Delivers (w : Impl net.Sock) (r : Outcome Error Received × Impl net.Sock)
      (flags type : ℕ) (payload rest : List ℕ) (left count : ℕ) : Type 0 where
    pub done : r.0 ≡ returns (record { flags = flags; type = type; payload = some payload })
    pub rest_of : h.incoming r.1.iface ≡ rest
    pub left_of : r.1.bytes_left_in_stream ≡ left
    pub state : r.1.state ≡ w.state
    pub next_recv : r.1.next_recv_packet_count ≡ count
    pub last_type : r.1.last_type ≡ type

  -- Let a data packet with the expected count be at the head of a healthy stream, with its type,
  -- length and count in their widths, and let the receiver be between packets. Then `recv` gives its
  -- type and as much of its payload as fits, keeps the rest of the packet for the next call, keeps the
  -- state, and expects the next count.
  pub recv_lem :
      (room type count : ℕ) (buff rest : List ℕ) (w : Impl net.Sock)
      → type < mod16
      → length buff < mod32
      → count < mod32
      → w.bytes_left_in_stream ≡ 0
      → w.next_recv_packet_count ≡ count
      → h.incoming w.iface ≡ pack_header bo flag_psh type (length buff) count ++ (buff ++ rest)
      → let n = new_length room type (length buff) in
        Delivers w
          (recv bo net room w)
          flag_psh
          type
          (take n buff)
          (drop n buff ++ rest)
          (length buff - n)
          ((count + 1) % mod32)
  recv_lem room type count buff rest w t b c idle e inc =
      let n = new_length room type (length buff) in
      let (s0, ready, _, same) = h.ready_moves w.iface in
      let w0 = record w { iface = s0 } in
      let (s, head, inc') =
        recv_new_head-psh room type count buff (buff ++ rest) w0 t b c (sym e) (same ∙ inc) in
      let le = new_length-le type (length buff) room in
      let g =
        recv_packet-Gives room flag_psh type n w0 _ (recv_head-idle room w0 idle ∙ head)
          (omega (arith, ap length inc', length-append buff rest, le)) in
      rw (recv-ready room w s0 ready) (record {
        done =
            g.done
            ∙ ap (λ bs. returns (record { flags = flag_psh; type = type; payload = some bs }))
                (ap (take n) inc' ∙ take-append_le n buff rest le);
        rest_of = g.rest_of ∙ ap (drop n) inc' ∙ drop-append_le n buff rest le;
        left_of = g.left_of;
        state = g.state;
        next_recv = g.next_recv;
        last_type = g.last_type;
      })
