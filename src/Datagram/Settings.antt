-- ===== src/Datagram/Settings.antt =====
-- What a call of DatagramIO's `work` may change, and how much of the stream it sends.
use native.Mathlib.Nat.{div-mul-le_self, le-div_iff_mul-le, mul-mod_left, mul-le-mul_right}
use pothos_blocks.Shared.{
  ℕ, ◌*◌, ◌/◌, ◌%◌, ◌<◌, ◌≤◌, ◌≡◌, ◌⊎◌, inl, inr, min, Bool, true, false, ◌||◌, not, ◌==◌, Option,
  none, some, List, arith, length,
}
use pothos_blocks.Datagram.{
  UdpSocket, DatagramIo, Message, packet, other, Ports, send_buffer, deliver, receive, clip_length,
  send_stream, wait_and_receive, work_sent, work_message, work,
}

lt_or_ge : (l k : ℕ) → (l < k) ⊎ (k ≤ l)
lt_or_ge l k = ground arith

-- The settings are the same, and of a connected socket also the address.
pub record Kept {S : Type 0} (s t : DatagramIo S) : Type 0 where
  pub packet_mode : t.packet_mode ≡ s.packet_mode
  pub timeout_us : t.timeout_us ≡ s.timeout_us
  pub mtu : t.mtu ≡ s.mtu
  pub socket_connected : t.socket_connected ≡ s.socket_connected
  pub send_addr : (s.socket_connected ≡ false) ⊎ (t.send_addr ≡ s.send_addr)

Kept-trans : {S : Type 0} (s t u : DatagramIo S) → Kept s t → Kept t u → Kept s u
Kept-trans s t u p q = ground (arith, p, q)

module _ (net : UdpSocket) where
  send_buffer-Kept : (s : DatagramIo net.Sock) (b : List ℕ) → Kept s (send_buffer net s b)
  unfolding send_buffer
  send_buffer-Kept s b = ground arith

  deliver-Kept :
      (s : DatagramIo net.Sock) (p : Ports) (b : List ℕ) (a : ℕ) → Kept s (deliver net s p b a).0
  unfolding deliver
  deliver-Kept s p b a = ground arith

  receive-Kept : (s : DatagramIo net.Sock) (p : Ports) → Kept s (receive net s p).0
  unfolding receive deliver
  receive-Kept s p = ground arith

  send_stream-Kept : (s : DatagramIo net.Sock) (p : Ports) → Kept s (send_stream net s p).0
  unfolding send_stream
  send_stream-Kept s p = ground (arith, send_buffer-Kept s)

  receive-Kept_sock :
      (s : DatagramIo net.Sock) (p : Ports) (k : net.Sock)
      → Kept s (receive net (record s { sock = k }) p).0
  receive-Kept_sock s p k =
      let r = receive-Kept (record s { sock = k }) p in
      record {
        packet_mode = r.packet_mode;
        timeout_us = r.timeout_us;
        mtu = r.mtu;
        socket_connected = r.socket_connected;
        send_addr = r.send_addr;
      }

  wait_and_receive-Kept :
      (s : DatagramIo net.Sock) (p : Ports) (had : Bool) → Kept s (wait_and_receive net s p had).0
  unfolding wait_and_receive
  wait_and_receive-Kept s p had = grind (arith, receive-Kept_sock s p)

  work_sent-Kept :
      (s : DatagramIo net.Sock) (p : Ports) (had : Bool) → Kept s (work_sent net s p had).0
  unfolding work_sent
  work_sent-Kept s p had =
      let t = (send_stream net s p).0 in
      Kept-trans s t _ (send_stream-Kept s p)
        (wait_and_receive-Kept t p (had || not (length p.bytes == 0)))

  work_message-Kept :
      (s : DatagramIo net.Sock) (p : Ports) (m : Option Message) → Kept s (work_message net s p m).1
  unfolding work_message
  work_message-Kept s p none = work_sent-Kept s p false
  work_message-Kept s p (some other) = ground arith
  work_message-Kept s p (some (packet bytes)) =
      let t = send_buffer net s bytes in
      Kept-trans s t _ (send_buffer-Kept s bytes) (work_sent-Kept t p true)

  -- Whatever comes in and however the socket behaves, `work` changes none of the settings, also where
  -- it ends in an exception; and a connected socket keeps the address that it sends to.
  pub work-Kept : (s : DatagramIo net.Sock) (p : Ports) → Kept s (work net s p).1
  unfolding work
  work-Kept s p = work_message-Kept s p p.message

clip-cases : (l k : ℕ) → 0 < k → (0 < l / k * k) ⊎ (l < k)
clip-cases l k h = elim (lt_or_ge l k) [
  | inl less ↦ inr less
  | inr ge ↦
      let one : 1 ≤ l / k = (le-div_iff_mul-le {x = 1} {y = l} h).1 (omega (arith, ge)) in
      let more : 1 * k ≤ l / k * k = mul-le-mul_right k one in inl (omega (arith, more, h))
]

-- What is sent from the stream at a time is at most the MTU and at most what is there, in whole
-- elements; and it is something, unless there is no whole element or the MTU is less than one.
-- (Elements have a positive size.)
pub clip_length-bounds :
    (mtu : ℕ) (p : Ports)
    → 0 < p.elem_size
    → let n = clip_length mtu p in
      (n ≤ mtu)
      × (n ≤ length p.bytes)
      × (n % p.elem_size ≡ 0)
      × ((0 < n) ⊎ (length p.bytes < p.elem_size) ⊎ (mtu < p.elem_size))
unfolding clip_length
clip_length-bounds mtu p h =
    let l = min (length p.bytes) mtu in
    let le = div-mul-le_self l p.elem_size in
    (
      omega (arith, le),
      omega (arith, le),
      mul-mod_left (l / p.elem_size) p.elem_size,
      ground (arith, clip-cases l p.elem_size h),
    )
