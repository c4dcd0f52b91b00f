-- ===== src/Packet/PacketToStream.antt =====
-- packet/PacketToStream.cpp
use Prim.Native.String.{String}
use pothos_blocks.Shared.{ℕ, ◌-◌, ◌+◌, ◌%◌, ◌^◌, List, [], ◌∷◌, ◌++◌, map, some, if◌then◌else◌}
use pothos_blocks.Pothos.{
  BufferChunk, Packet, Message, packet, other, Call, post_message, post_label, post_buffer,
  Framework,
}
use pothos_blocks.Packet.StreamToPacket.{is_empty}

pub record PacketToStream : Type 0 where
  pub frame_start_id : String
  pub frame_end_id : String

unfoldable pub set_frame_start_id : String → PacketToStream → PacketToStream
set_frame_start_id id s = record s { frame_start_id = id }

unfoldable pub set_frame_end_id : String → PacketToStream → PacketToStream
set_frame_end_id id s = record s { frame_end_id = id }

module _ (fw : Framework) where
  -- `postLabel(id, elements, index, size)`
  unfoldable pub frame_label : String → BufferChunk → ℕ → List Call
  frame_label id buff index =
      if is_empty id
      then []
      else post_label (record {
        id = id;
        count = some (fw.elements buff);
        index = index;
        width = buff.elem_size;
      })
        ∷ []

  -- `buff.length-1` wraps round at 0.
  unfoldable pub post_packet : PacketToStream → Packet → List Call
  unfolding frame_label
  post_packet s pkt =
      let buff = pkt.payload in
      map (λ l. post_label (fw.to_adjusted l buff.elem_size 1)) pkt.labels
      ++ (frame_label s.frame_start_id buff 0
          ++ (frame_label s.frame_end_id buff ((buff.length + 2 ^ 64 - 1) % 2 ^ 64)
              ++ (post_buffer buff ∷ [])))

  unfoldable pub post_any : PacketToStream → Message → List Call
  unfolding post_packet
  post_any s (packet p) = post_packet s p
  post_any s (other x) = post_message (other x) ∷ []

  -- `work` handles one message: the calls, and the messages left.
  unfoldable pub work : PacketToStream → List Message → List Call × List Message
  unfolding post_any
  work s [] = ([], [])
  work s (m ∷ ms) = (post_any s m, ms)
