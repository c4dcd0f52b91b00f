-- ===== src/Tests/DatagramTests.antt =====
-- network/DatagramIO.cpp, over a socket that keeps what is sent and has one datagram to receive.
use pothos_blocks.Shared.{ℕ, ◌≡◌, refl, [], ◌∷◌, length, none, some, false, ◌==◌, if◌then◌else◌}
use pothos_blocks.Endpoint.Net.{moved, raised}
use pothos_blocks.Datagram.{
  UdpSocket, DatagramIo, packet, Ports, make, work, work_message, work_sent, send_buffer,
  send_stream, wait_and_receive, receive, deliver,
}

abbrev one_datagram : UdpSocket
one_datagram = record {
  Sock = ℕ;
  send_bytes = λ n bytes. (moved (length bytes), n);
  send_to = λ n bytes addr. elim addr [ none ↦ (raised, n) | some a ↦ (moved (length bytes), n) ];
  available = λ n. (n, n);
  poll = λ n us. n;
  receive_from = λ n room. if n == 0 then (raised, 0) else (moved (5 ∷ (6 ∷ []), 77), 0);
}

abbrev bound : DatagramIo ℕ
bound = make 1 false

abbrev waiting : Ports
waiting = record {
  message = some (packet (1 ∷ (2 ∷ [])));
  bytes = 3 ∷ (4 ∷ (5 ∷ []));
  elem_size = 2;
  room = 100;
  out_elem_size = 2;
  max_timeout_us = 50;
}

-- The bound socket cannot send before it has received, and then sends to that address.
address_learnt : (work one_datagram bound waiting).1.send_addr ≡ some 77
unfolding make work work_message work_sent send_buffer send_stream wait_and_receive receive deliver
address_learnt = refl
