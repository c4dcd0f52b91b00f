-- ===== src/Tests/PacketTests.antt =====
-- packet/, at concrete inputs.
use pothos_blocks.Shared.{◌≤◌, ◌≡◌, ◌↔◌, refl, arith, List, [], ◌∷◌, true, false, none, some}
use pothos_blocks.Pothos.{BufferChunk, Label, Packet, packet, Input, consume, post_message}
use pothos_blocks.Packet.StreamToPacket.{StreamToPacket, start_frame_mode_work, work}
use pothos_blocks.Packet.StreamToPacket.Modes.{Op, sets_start, sets_end, sets_mtu}
use pothos_blocks.Packet.StreamToPacket.Bounds.{consumed, work-consumed-le}
use pothos_blocks.Packet.StreamToPacket.Frames.{
  first_start, frame_of, frame_spec, start_frame_mode_work_lem,
}
use pothos_blocks.Packet.PacketToStream
use pothos_blocks.Packet.Port.{arrived}
use pothos_blocks.Packet.RoundTrip.{peer, reframed, IsWaiting, full_frame_round_trip}
use pothos_blocks.Tests.Instances.{framework}

-- eight elements of two bytes
abbrev buffer : BufferChunk
buffer = record { address = 100; length = 16; elem_size = 2 }

abbrev starts : Label
starts = record { id = "S"; count = none; index = 0; width = 2 }

abbrev counted : Label
counted = record { id = "S"; count = some 3; index = 0; width = 2 }

abbrev marks : Label
marks = record { id = "M"; count = none; index = 1; width = 1 }

abbrev input : List Label → Input
input ls = record { messages = []; labels = ls; elements = 16; buffer = buffer }

-- in the start-frame mode
abbrev starting : StreamToPacket
starting = record {
  mtu = 0;
  frame_start_id = "S";
  frame_end_id = "";
  in_frame = false;
  start_frame_mode = true;
  full_frame_mode = false;
}

-- in the full-frame mode
abbrev framing : StreamToPacket
framing = record {
  mtu = 0;
  frame_start_id = "S";
  frame_end_id = "E";
  in_frame = false;
  start_frame_mode = false;
  full_frame_mode = true;
}

start_frame_mode_work_example :
    start_frame_mode_work starting (input (counted ∷ (marks ∷ [])))
    ≡ frame_spec "S"
        (input (counted ∷ (marks ∷ [])))
        (frame_of 0 buffer (first_start "S" 16 (counted ∷ (marks ∷ []))))
start_frame_mode_work_example =
    start_frame_mode_work_lem starting (input (counted ∷ (marks ∷ []))) (omega arith)

work-consumed-le_example : consumed (work framework framing (input (starts ∷ (marks ∷ [])))).1 ≤ 16
work-consumed-le_example =
    work-consumed-le framework framing (input (starts ∷ (marks ∷ []))) (omega arith) refl
      ((λ _. omega arith), ((λ _. omega arith), tt))

abbrev calls : List Op
calls = sets_start "S" ∷ (sets_mtu 4 ∷ (sets_end "E" ∷ []))

abbrev whole : Packet
whole = record { payload = buffer; labels = marks ∷ [] }

framing_waits : IsWaiting framework framing
framing_waits = record {
  start_id = refl;
  end_id = refl;
  two_ids = refl;
  full = refl;
  no_start = refl;
  outside = refl;
  no_mtu = refl;
}

full_frame_round_trip_example :
    let (calls, ms) = PacketToStream.work framework (peer framework framing) (packet whole ∷ []) in
    (work framework framing (arrived 1 calls)
      ≡ (framing, consume 17 ∷ (post_message (packet (reframed framework framing whole)) ∷ [])))
    × ((reframed framework framing whole).payload ≡ buffer ↔ buffer.elem_size ≡ 1)
full_frame_round_trip_example =
    full_frame_round_trip framework framing whole 7 framing_waits (omega arith) refl (omega arith)
      ((omega arith, refl), tt)
