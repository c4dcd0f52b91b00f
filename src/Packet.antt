-- ===== src/Packet.antt =====
-- packet/: the conversions between streams with labels and packets.
pub mod StreamToPacket
pub mod PacketToStream
pub mod Port
pub mod RoundTrip
