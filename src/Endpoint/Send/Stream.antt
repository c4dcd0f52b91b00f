-- ===== src/Endpoint/Send/Stream.antt =====
-- What `Impl::send` puts on a healthy stream.
use mathlib.Core.Path.{subst}
use mathlib.Core.List.{append_assoc, append-nil}
use pothos_blocks.Shared.{
  ℕ, zero, suc, ◌+◌, ◌%◌, ◌<◌, ◌≡◌, refl, sym, ap, ◌∙◌, Bool, List, [], ◌∷◌, ◌++◌, length, take,
  drop, ◌==◌, ◌||◌, not, min, arith, returns, length-take, length-drop, length-append,
  take-take-drop, take_all, Outcome, false,
}
use pothos_blocks.Endpoint.Types.{Impl, ◌>>=◌, Error, send_mtu, mod32, mod64, header_size}
use pothos_blocks.ByteOrder.{ByteOrder}
use pothos_blocks.Endpoint.Net.{Iface, IsStream, moved}
use pothos_blocks.Endpoint.Send.Header.{length-pack_header}
use pothos_blocks.Endpoint.Send.{
  iface_send, check_payload, check_header, send_loop, send, pack_header,
}

module _ {net : Iface} (h : IsStream net) where
  -- The code that was run from `w` succeeded, and has sent exactly these bytes.
  pub record Emits (w : Impl net.Sock) (r : Outcome Error (Unit {0}) × Impl net.Sock) (bs : List ℕ)
      (count : ℕ) : Type 0 where
    pub done : r.0 ≡ returns tt
    pub bytes : h.sent r.1.iface ≡ h.sent w.iface ++ bs
    pub untouched : h.incoming r.1.iface ≡ h.incoming w.iface
    pub total : r.1.total_bytes_sent % mod64 ≡ (w.total_bytes_sent + length bs) % mod64
    pub count_of : r.1.last_sent_packet_count ≡ count

  -- First these bytes, and then those.
  Emits-append :
      (u v : Impl net.Sock) (r : Outcome Error (Unit {0}) × Impl net.Sock) (xs ys : List ℕ)
      (count : ℕ)
      → h.sent v.iface ≡ h.sent u.iface ++ xs
      → h.incoming v.iface ≡ h.incoming u.iface
      → v.total_bytes_sent ≡ (u.total_bytes_sent + length xs) % mod64
      → Emits v r ys count
      → Emits u r (xs ++ ys) count
  Emits-append u v r xs ys count sent in_same total e = record {
    done = e.done;
    bytes = e.bytes ∙ ap (λ zs. zs ++ ys) sent ∙ append_assoc (h.sent u.iface) xs ys;
    untouched = e.untouched ∙ in_same;
    total = omega (arith, e.total, total, length-append xs ys);
    count_of = e.count_of;
  }

module _ (bo : ByteOrder) {net : Iface} (h : IsStream net) where
  -- one round of the loop, in which the socket takes `k` bytes
  send_loop-suc :
      (fuel : ℕ) (rest : List ℕ) (more : Bool) (w : Impl net.Sock) (k : ℕ) (s : net.Sock)
      → 0 < length rest
      → 0 < k
      → let n = min (length rest) send_mtu in
        net.send w.iface (take n rest) (not (n == length rest) || more) ≡ (moved k, s)
        → send_loop bo net (suc fuel) rest more w
          ≡ send_loop bo net fuel
              (drop k rest)
              more
              (record w { iface = s; total_bytes_sent = (w.total_bytes_sent + k) % mod64 })
  unfolding send_loop iface_send check_payload ◌>>=◌
  send_loop-suc fuel [] more w k s p q e = absurd (omega arith)
  send_loop-suc fuel (x ∷ xs) more w (suc k) s p q e =
      let nz : (length (x ∷ xs) == 0) ≡ false = ground arith in
      let kz : (suc k == 0) ≡ false = ground arith in rw (nz, e, kz, send_loop)
  send_loop-suc fuel (x ∷ xs) more w zero s p q e = absurd (omega arith)

  send_loop-Emits :
      (fuel : ℕ) (rest : List ℕ) (more : Bool) (w : Impl net.Sock)
      → length rest < fuel
      → Emits h w (send_loop bo net fuel rest more w) rest w.last_sent_packet_count
  send_loop-Emits zero rest more w lt = absurd (omega arith)
  send_loop-Emits (suc fuel) [] more w lt =
      unfold send_loop in
      record {
        done = refl;
        bytes = sym (append-nil (h.sent w.iface));
        untouched = refl;
        total = omega arith;
        count_of = refl;
      }
  send_loop-Emits (suc fuel) (x ∷ xs) more w lt =
      let rest = x ∷ xs in
      let n = min (length rest) send_mtu in
      let (k, s, e, pos, le, _, sent, same) =
        h.send_moves w.iface (take n rest) (not (n == length rest) || more)
          (omega (arith, length-take n rest)) in
      let taken : length (take k (take n rest)) ≡ k =
        omega (arith, length-take k (take n rest), length-take n rest) in
      let w1 = record w { iface = s; total_bytes_sent = (w.total_bytes_sent + k) % mod64 } in
      let r = send_loop bo net fuel (drop k rest) more w1 in
      rw (send_loop-suc fuel rest more w k s (omega arith) pos e) (
        subst (λ bs. Emits h w r bs w.last_sent_packet_count)
          (take-take-drop k n rest (omega (arith, length-take n rest)))
          (Emits-append h w w1 r (take k (take n rest)) (drop k rest) _ sent same
            (ap (λ t. (w.total_bytes_sent + t) % mod64) (sym taken))
            (send_loop-Emits fuel (drop k rest) more w1 (omega (arith, length-drop k rest)))))

  -- the header is sent, and then the loop runs
  send-head :
      (flags type : ℕ) (buff : List ℕ) (more : Bool) (w : Impl net.Sock) (k : ℕ) (s : net.Sock)
      → k ≡ header_size
      → net.send w.iface
          (pack_header bo flags type (length buff) w.last_sent_packet_count)
          (not (length buff == 0) || more)
        ≡ (moved k, s)
      → send bo net flags type buff more w
        ≡ send_loop bo net (length buff + 1) buff more (record w {
          last_sent_packet_count = (w.last_sent_packet_count + 1) % mod32;
          iface = s;
          total_bytes_sent = (w.total_bytes_sent + header_size) % mod64;
        })
  unfolding send iface_send check_header ◌>>=◌
  send-head flags type buff more w k s e16 e = rw (e, e16, send)

  -- On a healthy stream `send` succeeds, and what it sends is the header, with the packet count, and
  -- then the whole buffer in order; the count of bytes sent grows by as much, modulo 2^64, and the
  -- packet count by one, modulo 2^32.
  pub send-Emits :
      (flags type : ℕ) (buff : List ℕ) (more : Bool) (w : Impl net.Sock)
      → Emits h w
          (send bo net flags type buff more w)
          (pack_header bo flags type (length buff) w.last_sent_packet_count ++ buff)
          ((w.last_sent_packet_count + 1) % mod32)
  send-Emits flags type buff more w =
      let hd = pack_header bo flags type (length buff) w.last_sent_packet_count in
      let len = length-pack_header bo flags type (length buff) w.last_sent_packet_count in
      let (k, s, e, pos, le, whole, sent, same) =
        h.send_moves w.iface hd (not (length buff == 0) || more) (omega (arith, len)) in
      let k16 : k ≡ header_size = whole (omega (arith, len)) ∙ len in
      let all = take_all k hd (omega (arith, len)) in
      rw (send-head flags type buff more w k s k16 e) (
        Emits-append h w _ _ hd buff _ (sent ∙ ap (λ zs. h.sent w.iface ++ zs) all) same
          (ap (λ t. (w.total_bytes_sent + t) % mod64) (sym len))
          (send_loop-Emits (length buff + 1) buff more _ (omega arith)))
