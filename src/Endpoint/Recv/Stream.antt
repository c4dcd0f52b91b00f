-- ===== src/Endpoint/Recv/Stream.antt =====
-- What the payload loop and the flow control of `Impl::recv` do on a healthy stream.
use mathlib.Core.List.{append_assoc, append-nil}
use pothos_blocks.Shared.{
  ℕ, zero, suc, ◌+◌, ◌-◌, ◌%◌, ◌≤◌, ◌<◌, ◌≡◌, refl, ap, ◌∙◌, false, List, ◌++◌, length, take, drop,
  ◌==◌, arith, returns, length-take, length-drop, take-add, drop-add, Outcome,
}
use pothos_blocks.Endpoint.Types.{Impl, ◌>>=◌, Error, mod64, flag_flo}
use pothos_blocks.ByteOrder.{ByteOrder}
use pothos_blocks.Endpoint.Net.{Iface, IsStream, moved}
use pothos_blocks.Endpoint.Send.Frame.{send-SentOnly}
use pothos_blocks.Endpoint.Send.Stream.{send-Emits}
use pothos_blocks.Endpoint.Recv.{iface_recv, check_recv, recv_loop, flow_incoming, flow_outgoing}

-- The data that reading a payload and flow control leave alone.
pub record SameFrame {S : Type 0} (w w' : Impl S) : Type 0 where
  pub state : w'.state ≡ w.state
  pub next_recv : w'.next_recv_packet_count ≡ w.next_recv_packet_count
  pub bytes_left : w'.bytes_left_in_stream ≡ w.bytes_left_in_stream
  pub last_type : w'.last_type ≡ w.last_type

module _ {net : Iface} (h : IsStream net) where
  -- The code gave the next `n` bytes of the stream behind `got`.
  pub record Reads (w : Impl net.Sock) (r : Outcome Error (List ℕ) × Impl net.Sock) (got : List ℕ)
      (n : ℕ) : Type 0 where
    pub done : r.0 ≡ returns (got ++ take n (h.incoming w.iface))
    pub rest : h.incoming r.1.iface ≡ drop n (h.incoming w.iface)
    pub same : SameFrame w r.1

  -- The code succeeded, and left the framing and what comes in alone.
  pub record Calm (w : Impl net.Sock) (r : Outcome Error (Unit {0}) × Impl net.Sock) : Type 0 where
    pub done : r.0 ≡ returns tt
    pub rest : h.incoming r.1.iface ≡ h.incoming w.iface
    pub same : SameFrame w r.1

module _ (bo : ByteOrder) {net : Iface} (h : IsStream net) where
  -- one call of the socket that gives some bytes
  recv_loop-suc :
      (fuel n : ℕ) (got : List ℕ) (w : Impl net.Sock) (bs : List ℕ) (s : net.Sock)
      → 0 < n
      → 0 < length bs
      → net.recv w.iface n false ≡ (moved bs, s)
      → recv_loop bo net (suc fuel) n got w
        ≡ recv_loop bo net fuel
            (n - length bs)
            (got ++ bs)
            (record w { iface = s; total_bytes_recv = (w.total_bytes_recv + length bs) % mod64 })
  unfolding recv_loop iface_recv check_recv ◌>>=◌
  recv_loop-suc fuel n got w bs s p q e =
      let nz : (n == 0) ≡ false = ground arith in
      let kz : (length bs == 0) ≡ false = ground arith in rw (nz, e, kz, recv_loop)

  pub recv_loop-Reads :
      (fuel n : ℕ) (got : List ℕ) (w : Impl net.Sock)
      → n < fuel
      → n ≤ length (h.incoming w.iface)
      → Reads h w (recv_loop bo net fuel n got w) got n
  recv_loop-Reads zero n got w lt le = absurd (omega arith)
  recv_loop-Reads (suc fuel) zero got w lt le =
      unfold recv_loop in record { done = rw (append-nil got); rest = refl; same = ground arith }
  recv_loop-Reads (suc fuel) (suc m) got w lt le =
      let n = suc m in
      let inc = h.incoming w.iface in
      let (k, s, e, pos, k_le, _, _, left) = h.recv_moves w.iface n false (omega arith) le in
      let len : length (take k inc) ≡ k = omega (arith, length-take k inc) in
      let ih =
        recv_loop-Reads fuel (n - length (take k inc)) (got ++ take k inc)
          (record w {
            iface = s;
            total_bytes_recv = (w.total_bytes_recv + length (take k inc)) % mod64;
          })
          (omega (arith, len)) (omega (arith, len, ap length left, length-drop k inc)) in
      let all : k + (n - length (take k inc)) ≡ n = omega (arith, len) in
      rw (recv_loop-suc fuel n got w (take k inc) s (omega arith) (omega (arith, len)) e) (record {
        done =
            ih.done
            ∙ ap returns (
                rw left (
                  append_assoc got (take k inc) _
                  ∙ ap (λ zs. got ++ zs) (take-add k _ inc ∙ ap (λ j. take j inc) all)));
        rest = ih.rest ∙ rw left (drop-add k _ inc ∙ ap (λ j. drop j inc) all);
        same = record {
          state = ih.same.state;
          next_recv = ih.same.next_recv;
          bytes_left = ih.same.bytes_left;
          last_type = ih.same.last_type;
        };
      })

  pub flow_incoming-Calm :
      (flags : ℕ) (payload : List ℕ) (w : Impl net.Sock)
      → Calm h w (flow_incoming bo net flags payload w)
  unfolding flow_incoming
  flow_incoming-Calm flags payload w = ground arith

  pub flow_outgoing-Calm : (w : Impl net.Sock) → Calm h w (flow_outgoing bo net w)
  unfolding flow_outgoing ◌>>=◌
  flow_outgoing-Calm w =
      let msg = bo.store64 w.total_bytes_recv in
      let em = send-Emits bo h flag_flo 0 msg false w in
      let fr = (send-SentOnly bo net flag_flo 0 msg false).run w in
      ground (arith, em.done, em.untouched, fr)
