-- ===== src/Datagram.antt =====
-- network/DatagramIO.cpp
pub mod Settings
use Prim.Native.String.{String}
use text.Mathlib.Text.{◌==◌ as str_eq}
use native.Mathlib.Nat.{div-mul-le_self, le-div_iff_mul-le}
use pothos_blocks.Shared.{
  ℕ, ◌+◌, ◌*◌, ◌/◌, ◌%◌, ◌<◌, ◌≤◌, ◌≡◌, refl, min, Bool, true, false, ◌&&◌, ◌||◌, not, Option, none,
  some, List, [], ◌∷◌, ◌++◌, arith, length, take, if◌then◌else◌, ◌==◌, Outcome, returns, throws,
}
use pothos_blocks.Endpoint.Net.{Ret, moved, failed, raised}

-- The datagram socket of Poco, which is not part of this repository: `sendBytes`, `sendTo`,
-- `available`, `poll` and `receiveFrom`. An address is a number, `none` the default address. Of these,
-- `available` and `poll` are taken not to throw.
pub record UdpSocket : Type 1 where
  pub Sock : Type 0
  pub send_bytes : Sock → List ℕ → Ret ℕ × Sock
  pub send_to : Sock → List ℕ → Option ℕ → Ret ℕ × Sock
  pub available : Sock → ℕ × Sock
  pub poll : Sock → ℕ → Sock
  pub receive_from : Sock → ℕ → Ret (List ℕ × ℕ) × Sock

pub data Error : Type 0 where
  unknown_mode mtu_not_a_multiple not_a_packet : Error

-- What is logged.
pub data Log : Type 0 where
  dropped_message send_failed not_received_yet recv_failed odd_length : Log

-- The block's members, its socket and its log.
pub record DatagramIo (S : Type 0) : Type 0 where
  pub packet_mode : Bool
  pub timeout_us : ℕ
  pub mtu : ℕ
  pub socket_connected : Bool
  pub send_addr : Option ℕ
  pub sock : S
  pub log : List Log

-- The constructor and a `setupSocket` that succeeds, of a socket that is connected or bound.
unfoldable pub make : {S : Type 0} → S → Bool → DatagramIo S
make sock connected = record {
  packet_mode = false;
  timeout_us = 10;
  mtu = 1472;
  socket_connected = connected;
  send_addr = none;
  sock = sock;
  log = [];
}

unfoldable pub set_mode : {S : Type 0} → String → DatagramIo S → Outcome Error (DatagramIo S)
set_mode mode s =
    if str_eq mode "STREAM"
    then returns (record s { packet_mode = false })
    else (if str_eq mode "PACKET"
        then returns (record s { packet_mode = true })
        else throws unknown_mode)

-- `setMTU`: the block and the reserve of its output, which comes from the MTU before.
unfoldable pub set_mtu : {S : Type 0} → ℕ → ℕ → DatagramIo S → Outcome Error (DatagramIo S × ℕ)
set_mtu elem_size mtu s =
    if not (mtu % elem_size == 0)
    then throws mtu_not_a_multiple
    else returns (record s { mtu = mtu }, s.mtu / elem_size)

unfoldable pub set_recv_timeout : {S : Type 0} → ℕ → DatagramIo S → DatagramIo S
set_recv_timeout t s = record s { timeout_us = t }

abbrev logs : {S : Type 0} → Log → DatagramIo S → DatagramIo S
logs l s = record s { log = s.log ++ (l ∷ []) }

-- What waits at the input: a message, which is a packet with its payload or something else, and bytes
-- of elements of a size; and the output's buffer: its size in bytes, and the size of its elements.
pub data Message : Type 0 where
  packet : List ℕ → Message
  other : Message

pub record Ports : Type 0 where
  pub message : Option Message
  pub bytes : List ℕ
  pub elem_size : ℕ
  pub room : ℕ
  pub out_elem_size : ℕ
  pub max_timeout_us : ℕ

-- What is done to the ports.
pub data Post : Type 0 where
  consume pop_elements produce : ℕ → Post
  post_packet : List ℕ → Post

-- the length of the datagram that is sent from the stream: at most the MTU, in whole elements
unfoldable pub clip_length : ℕ → Ports → ℕ
clip_length mtu p = min (length p.bytes) mtu / p.elem_size * p.elem_size

module _ (net : UdpSocket) where
  unfoldable pub send_buffer : DatagramIo net.Sock → List ℕ → DatagramIo net.Sock
  send_buffer s bytes =
      let (ret, sock) =
        if s.socket_connected
        then net.send_bytes s.sock bytes
        else net.send_to s.sock bytes s.send_addr in
      let s' = record s { sock = sock } in
      elim ret [
        | moved k ↦ if k == length bytes then s' else logs send_failed s'
        | failed ↦ logs send_failed s'
        | raised ↦ elim s.send_addr [
          | none ↦ if not s.socket_connected then logs not_received_yet s' else logs send_failed s'
          | some a ↦ logs send_failed s'
        ]
      ]

  -- A datagram that was received: to a packet or to the stream, and the address to send to.
  unfoldable pub deliver :
      DatagramIo net.Sock → Ports → List ℕ → ℕ → DatagramIo net.Sock × List Post
  deliver s p bytes addr =
      let s1 = if length bytes % p.out_elem_size == 0 then s else logs odd_length s in
      (
        if s.socket_connected then s1 else record s1 { send_addr = some addr },
        if s.packet_mode
            then pop_elements (length bytes / p.out_elem_size) ∷ (post_packet bytes ∷ [])
            else produce (length bytes / p.out_elem_size) ∷ [],
      )

  unfoldable pub receive : DatagramIo net.Sock → Ports → DatagramIo net.Sock × List Post
  unfolding deliver
  receive s p =
      let (ret, sock) = net.receive_from s.sock p.room in
      let s' = record s { sock = sock } in
      elim ret [
        | moved (bytes, addr) ↦
            if length bytes == 0 then (logs recv_failed s', []) else deliver s' p bytes addr
        | failed ↦ (logs recv_failed s', [])
        | raised ↦ (logs recv_failed s', [])
      ]

  unfoldable pub send_stream : DatagramIo net.Sock → Ports → DatagramIo net.Sock × List Post
  unfolding send_buffer clip_length
  send_stream s p =
      let n = clip_length s.mtu p in
      if length p.bytes == 0 then (s, []) else (send_buffer s (take n p.bytes), consume n ∷ [])

  -- the rest of `work`, behind the sending
  unfoldable pub wait_and_receive :
      DatagramIo net.Sock → Ports → Bool → DatagramIo net.Sock × List Post
  unfolding receive
  wait_and_receive s p had_event =
      let (n, sock) = net.available s.sock in
      let polled = net.poll sock (min s.timeout_us p.max_timeout_us) in
      let waited =
        if not had_event && n == 0 then polled else (if had_event then s.sock else sock) in
      let (m, sock') = net.available waited in
      let s' = record s { sock = sock' } in if m == 0 then (s', []) else receive s' p

  -- `work`, where the message, if there is one, has been sent
  unfoldable pub work_sent : DatagramIo net.Sock → Ports → Bool → DatagramIo net.Sock × List Post
  unfolding send_stream wait_and_receive
  work_sent s p had_message =
      let (s1, sent) = send_stream s p in
      let (s2, received) = wait_and_receive s1 p (had_message || not (length p.bytes == 0)) in
      (s2, sent ++ received)

  -- What `work` does first: the message, if there is one, is sent, or the work ends in an exception.
  unfoldable pub work_message :
      DatagramIo net.Sock
      → Ports
      → Option Message
      → Outcome Error (Unit {0}) × DatagramIo net.Sock × List Post
  unfolding send_buffer work_sent
  work_message s p none = let (s', posts) = work_sent s p false in (returns tt, s', posts)
  work_message s p (some other) = (throws not_a_packet, logs dropped_message s, [])
  work_message s p (some (packet bytes)) =
      let (s', posts) = work_sent (send_buffer s bytes) p true in (returns tt, s', posts)

  unfoldable pub work :
      DatagramIo net.Sock → Ports → Outcome Error (Unit {0}) × DatagramIo net.Sock × List Post
  unfolding work_message
  work s p = work_message s p p.message
