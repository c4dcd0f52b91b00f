-- ===== src/Endpoint/Comms/RoundTrip.antt =====
-- What one endpoint sends, the other receives.
use mathlib.Core.List.{append_assoc}
use pothos_blocks.Shared.{
  ℕ, ◌-◌, ◌<◌, ◌≡◌, sym, ap, ◌∙◌, Bool, List, ◌++◌, length, take, drop, returns, drop-append,
}
use pothos_blocks.Endpoint.Types.{Impl, mod16, mod32, flag_psh}
use pothos_blocks.ByteOrder.{ByteOrder}
use pothos_blocks.Endpoint.Net.{Iface, IsStream}
use pothos_blocks.Endpoint.Send.{pack_header}
use pothos_blocks.Endpoint.Send.Stream.{send-Emits}
use pothos_blocks.Endpoint.Recv.{new_length, recv}
use pothos_blocks.Endpoint.Recv.Framing.{Delivers, recv_lem}
use pothos_blocks.Endpoint.Comms.{send_data}

module _ (bo : ByteOrder) {near far : Iface} (hs : IsStream near) (hr : IsStream far) where
  -- What `send` gave to the socket, and what it had been given before.
  abbrev pub newly_sent : ℕ → List ℕ → Bool → Impl near.Sock → List ℕ
  newly_sent type buff more ws =
      drop (length (hs.sent ws.iface)) (hs.sent (send_data bo near type buff more ws).1.iface)

  -- Over healthy streams, for a type of 16 bits and fewer than 2^32 bytes of data: let the packet
  -- counts of the two sides agree, the receiver be between packets, and the bytes of
  -- one `send` come in first at the receiver, in order. Then `send` succeeds, and the receiver's
  -- `recv` gives the type and the data: all of it, or as much as fits where the packet is a stream
  -- buffer, with the rest kept for the next call. The packet counts agree again after it.
  pub recv-send :
      (room type : ℕ) (buff rest : List ℕ) (more : Bool) (ws : Impl near.Sock) (wr : Impl far.Sock)
      → type < mod16
      → length buff < mod32
      → ws.last_sent_packet_count < mod32
      → wr.bytes_left_in_stream ≡ 0
      → wr.next_recv_packet_count ≡ ws.last_sent_packet_count
      → hr.incoming wr.iface ≡ newly_sent type buff more ws ++ rest
      → let n = new_length room type (length buff) in
        ((send_data bo near type buff more ws).0 ≡ returns tt)
        × Delivers bo hr wr
            (recv bo far room wr)
            flag_psh
            type
            (take n buff)
            (drop n buff ++ rest)
            (length buff - n)
            (send_data bo near type buff more ws).1.last_sent_packet_count
  unfolding send_data
  recv-send room type buff rest more ws wr t b c idle agree inc =
      let em = send-Emits bo hs flag_psh type buff more ws in
      let hd = pack_header bo flag_psh type (length buff) ws.last_sent_packet_count in
      let fresh : newly_sent type buff more ws ≡ hd ++ buff =
        ap (drop (length (hs.sent ws.iface))) em.bytes
        ∙ drop-append (hs.sent ws.iface) (hd ++ buff) in
      let d =
        recv_lem bo hr room type ws.last_sent_packet_count buff rest wr t b c idle agree
          (inc ∙ ap (λ bs. bs ++ rest) fresh ∙ append_assoc hd buff rest) in
      (
        em.done,
        record {
          done = d.done;
          rest_of = d.rest_of;
          left_of = d.left_of;
          state = d.state;
          next_recv = d.next_recv ∙ sym em.count_of;
          last_type = d.last_type;
        },
      )
