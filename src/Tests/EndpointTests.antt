-- ===== src/Tests/EndpointTests.antt =====
-- network/SocketEndpoint.cpp, over pipes.
use pothos_blocks.Shared.{
  min, ℕ, ◌+◌, ◌-◌, ◌<◌, ◌≡◌, ◌⊎◌, inl, refl, arith, List, [], ◌∷◌, ◌++◌, take, drop, returns,
  throws, false,
}
use pothos_blocks.Endpoint.Types.{
  Impl, State, established, closed, close_wait, ◌>>=◌, flag_psh, flag_fin, flag_ack, flag_syn,
  packet_count,
}
use pothos_blocks.Endpoint.Send.{
  send, pack_header, send_flags, iface_send, check_header, send_loop, check_payload,
}
use pothos_blocks.Endpoint.Send.Frame.{SentOnly, send-SentOnly}
use pothos_blocks.Endpoint.Send.Stream.{Emits, send-Emits}
use pothos_blocks.Endpoint.Frame.{Respects}
use pothos_blocks.Endpoint.States.{
  react, perform, handle_state, check_count, accept_header, unpack_header,
}
use pothos_blocks.Endpoint.States.Machine.{rank, handle_state-forward}
use pothos_blocks.Endpoint.States.Handshake.{System, Step, Run, at, opening, handshake_completes}
use pothos_blocks.Endpoint.Recv.{
  recv, new_length, iface_ready, iface_recv, check_ready, check_recv, recv_loop, recv_new_head,
  recv_head, flow_incoming, flow_outgoing, recv_packet,
}
use pothos_blocks.Endpoint.Recv.Framing.{Gives, Delivers, recv_lem}
use pothos_blocks.Endpoint.Recv.Refused.{recv-wrong_count}
use pothos_blocks.Endpoint.Comms.{
  send_data, open_comms, close_comms, is_ready, open_loop, initiate, check_open, close_open,
  close_loop, start_close, check_close, depart,
}
use pothos_blocks.Endpoint.Comms.Closing.{
  CloseStep, CloseReach, client_leaves, connected, Ended, closing_never_stuck,
}
use pothos_blocks.Endpoint.Comms.RoundTrip.{newly_sent, recv-send}
use pothos_blocks.Tests.Instances.{big_endian, Pipe, pipe, pipe_stream}

abbrev over : State → List ℕ → Impl Pipe
over s incoming = record {
  state = s;
  last_sent_packet_count = 7;
  next_recv_packet_count = 7;
  bytes_left_in_stream = 0;
  last_type = 0;
  total_bytes_recv = 0;
  total_bytes_sent = 0;
  last_flow_msg_recv = 0;
  last_flow_msg_sent = 0;
  iface = record { sent = []; incoming = incoming };
}

abbrev three : List ℕ
three = 10 ∷ (20 ∷ (30 ∷ []))

abbrev sender : Impl Pipe
sender = over established []

abbrev receiver : Impl Pipe
receiver =
    over established
      (newly_sent big_endian pipe_stream pipe_stream 66 three false sender ++ (1 ∷ []))

recv-send_example :
    ((send_data big_endian pipe 66 three false sender).0 ≡ returns tt)
    × Delivers big_endian pipe_stream receiver
        (recv big_endian pipe 100 receiver)
        flag_psh
        66
        (take (new_length 100 66 3) three)
        (drop (new_length 100 66 3) three ++ (1 ∷ []))
        (3 - new_length 100 66 3)
        (send_data big_endian pipe 66 three false sender).1.last_sent_packet_count
recv-send_example =
    recv-send big_endian pipe_stream pipe_stream 100 66 three (1 ∷ []) false sender receiver
      (omega arith) (omega arith) (omega arith) refl refl refl

abbrev one_packet : Impl Pipe
one_packet = over established (pack_header big_endian flag_psh 66 3 7 ++ (three ++ []))

recv_lem_example :
    Delivers big_endian pipe_stream one_packet
      (recv big_endian pipe 2 one_packet)
      flag_psh
      66
      (take (new_length 2 66 3) three)
      (drop (new_length 2 66 3) three ++ [])
      (3 - new_length 2 66 3)
      8
recv_lem_example =
    recv_lem big_endian pipe_stream 2 66 7 three [] one_packet (omega arith) (omega arith)
      (omega arith) refl refl refl

send-Emits_example :
    Emits pipe_stream sender
      (send big_endian pipe flag_psh 66 three false sender)
      (pack_header big_endian flag_psh 66 3 7 ++ three)
      8
send-Emits_example = send-Emits big_endian pipe_stream flag_psh 66 three false sender

send-SentOnly_example : Respects SentOnly (send big_endian pipe flag_psh 66 three false)
send-SentOnly_example = send-SentOnly big_endian pipe flag_psh 66 three false

handle_state-forward_example :
    ((handle_state big_endian pipe flag_fin sender).1.state ≡ established)
    ⊎ (2 < rank (handle_state big_endian pipe flag_fin sender).1.state)
handle_state-forward_example = handle_state-forward big_endian pipe flag_fin sender

whole_handshake : Run opening 3 (at established established [] [])
unfolding react
whole_handshake =
    Run.next
      (Run.next (Run.next Run.here (Step.to_server flag_syn [] refl))
        (Step.to_client (flag_syn + flag_ack) [] refl))
      (Step.to_server flag_ack [] refl)

abbrev three_packets : ℕ
three_packets = 3

handshake_completes_example :
    ((three_packets ≡ 3) × (at established established [] [] ≡ at established established [] []))
    ⊎ ((three_packets < 3) × ((z : System) × Step (at established established [] []) z))
handshake_completes_example = handshake_completes whole_handshake

-- the connection when the client has called `closeComms`
abbrev client_left : System
client_left = record {
  client = (depart established).target;
  server = established;
  to_server = (depart established).replies;
  to_client = [];
}

client_has_left : CloseReach connected client_left
client_has_left = CloseReach.next CloseReach.here (client_leaves (inl refl))

closing_never_stuck_example : Ended client_left ⊎ ((z : System) × CloseStep client_left z)
closing_never_stuck_example = closing_never_stuck client_has_left

-- a packet with the count 5, where 7 is expected
abbrev wrong_packet : Impl Pipe
wrong_packet = over established (pack_header big_endian flag_psh 66 3 5 ++ (three ++ (1 ∷ [])))

recv-wrong_count_example :
    let u = (recv big_endian pipe 9 wrong_packet).1 in
    ((recv big_endian pipe 9 wrong_packet).0 ≡ throws packet_count)
    × Gives big_endian pipe_stream wrong_packet
        (recv big_endian pipe 2 u)
        0
        0
        (take (min 2 3) three)
        (drop (min 2 3) three ++ (1 ∷ []))
        (3 - min 2 3)
recv-wrong_count_example =
    recv-wrong_count big_endian pipe_stream 9 2 flag_psh 66 5 three (1 ∷ []) wrong_packet
      (omega arith) (omega arith) (omega arith) (omega arith) refl (λ e. absurd (omega (arith, e)))
      refl (omega arith) refl

-- a closed endpoint that the peer's answer is under way to
abbrev fresh_client : Impl Pipe
fresh_client = over closed (pack_header big_endian (flag_syn + flag_ack) 0 0 90)

client_opens : (open_comms big_endian pipe 4 3 fresh_client).0 ≡ returns tt
unfolding open_comms open_loop initiate check_open send_flags send iface_send check_header send_loop
    check_payload recv iface_ready iface_recv check_ready check_recv recv_loop recv_new_head
    recv_head flow_incoming flow_outgoing recv_packet react perform handle_state check_count
    accept_header unpack_header pack_header new_length ◌>>=◌ is_ready
client_opens = refl

-- an endpoint whose peer has left, and acknowledges its own leaving
abbrev leaving_server : Impl Pipe
leaving_server = over close_wait (pack_header big_endian flag_ack 0 0 7)

server_closes : (close_comms big_endian pipe 3 leaving_server).0 ≡ returns tt
unfolding close_comms close_open close_loop start_close depart check_close send_flags send
    iface_send check_header send_loop check_payload recv iface_ready iface_recv check_ready
    check_recv recv_loop recv_new_head recv_head flow_incoming flow_outgoing recv_packet react
    perform handle_state check_count accept_header unpack_header pack_header new_length ◌>>=◌
    is_ready
server_closes = refl
