-- ===== src/Lib.antt =====
-- PothosBlocks: the blocks of the Pothos toolkit that carry packets, streams and messages.
--
-- The parts and the files that model them:
--   network/SocketEndpoint.cpp: a packet protocol with an opening and a closing handshake and flow
--     control over a stream socket. Endpoint/Types has its constants, states and private data (`Impl`),
--     Endpoint/Send has `Impl::send`, Endpoint/States has `handleState` and `unpackHeader`,
--     Endpoint/Recv has `Impl::recv`, and Endpoint/Comms has the public `send`, `isReady`, `openComms`
--     and `closeComms`. Endpoint/Tcp has the TCP sockets behind it, the constructor and the destructor.
--     Code of the endpoint is a function from the private data to an outcome (a
--     result or an exception) and the private data it leaves, also where it throws.
--   packet/StreamToPacket.cpp and packet/PacketToStream.cpp: Packet/StreamToPacket and
--     Packet/PacketToStream. `work` gives the block's next state and the calls that it makes on its
--     ports, in order.
--   serialize/SerializeCommon.hpp, serialize/Serializer.cpp and serialize/Deserializer.cpp:
--     Serialize/Format, Serialize/Serializer and Serialize/Deserializer. A packet is the memory that
--     holds it, as bytes.
--   network/NetworkSink.cpp and network/NetworkSource.cpp: Network/Sink and Network/Source, over an
--     endpoint that gives and takes whole packets. Network/Codec has what passes between them, and
--     Network/Carry how packets arrive.
--   stream/FirstN.cpp, stream/Delay.cpp, stream/Repeat.cpp, stream/Interleaver.cpp, stream/Mute.cpp,
--     stream/Deinterleaver.cpp and stream/Gateway.cpp: the files of Stream. The two blocks of
--     FirstN.cpp share their state; so do the Interleaver and the Deinterleaver.
--   network/DatagramIO.cpp: Datagram, over a socket that is a parameter (`UdpSocket`); `work` gives what
--     is done to the ports.
--   stream/DynamicRouter.cpp, stream/Clamp.cpp and stream/MinMax.cpp: Stream/Router, Stream/Clamp and
--     Stream/MinMax. stream/Copier.cpp, stream/Relabeler.cpp and stream/LabelStripper.cpp:
--     Stream/Forward. stream/Replace.cpp: Stream/Replace. stream/IsX.cpp and stream/Round.cpp, which are
--     the same but for the function: Stream/Elementwise. stream/Pacer.cpp and stream/RateMonitor.cpp:
--     Stream/Pacer. stream/Reinterpret.cpp and stream/Converter.cpp: Stream/Convert.
--   testers/VectorSource.cpp, testers/ConstantSource.cpp, testers/FiniteRelease.cpp,
--     testers/CollectorSink.cpp and testers/FeederSource.cpp: the files of Testers. The verification
--     of a test plan is Testers/CollectorSink/Verify, its generation
--     Testers/FeederSource/TestPlan, with the settings in Random, the buffers in Buffers and the labels
--     in Labels.
--   testers/SporadicSubnormal.cpp, testers/SporadicLabeler.cpp, testers/SporadicDropper.cpp,
--     testers/InfiniteSource.cpp, testers/BlackHole.cpp and testers/MessageGenerator.cpp:
--     Testers/Subnormal, Testers/Sporadic and Testers/MessageGenerator. What is drawn at random is a
--     parameter or an argument.
--   file/MemoryMappedBufferManager.cpp, file/MemoryMappedBufferContainer.cpp, file/BinaryFileSink.cpp
--     and file/BinaryFileSource.cpp: File/Mapped, File/Container, File/Sink and File/Source.
--   file/TextFileSink.cpp: File/Text.
--   event/LabelToMessage.cpp and event/TriggeredSignal.cpp: Event/Labels.
--   event/MessageToSignal.cpp, event/SlotToMessage.cpp, event/MessagePrinter.cpp and
--     event/PeriodicTrigger.cpp: Event/Signals. The rate of a PeriodicTrigger is the period that the code
--     computes from it.
-- The blocks do not call each other. They are connected in a topology: what PacketToStream posts comes
-- in at StreamToPacket, what Serializer posts at Deserializer, what NetworkSink sends at
-- NetworkSource, what a FeederSource posts at a CollectorSink, and what one endpoint sends is received
-- by another. Packet/RoundTrip, Network/RoundTrip and Testers/FeederSource/Ledger put two
-- blocks together.
--
-- What is not part of the repository is a parameter: the byte order conversions of Poco are the record
-- `ByteOrder` (ByteOrder), the stream socket behind the endpoint's interface is `Iface`, with
-- `IsStream` for what a healthy one does (Endpoint/Net), and the framework's buffers and labels are
-- `Framework` (Pothos). The sockets of Poco are `Poco` (Endpoint/Tcp). The serialization of
-- objects, with the types that it is used for, is `Codec` (Network/Codec), an element type with its
-- order is `Element` (Stream/Clamp), the conversion of buffers `Conversion` (Stream/Convert), the buffers and
-- numbers of a test plan are `Data` (Testers/CollectorSink), and the calls on files are `Files`
-- (File/Sink), `Reads` (File/Source), `Disk` (File/Container), and `Formats` and `OutStream`
-- (File/Text). The random draws are `Draws`
-- (Testers/FeederSource/TestPlan/Random), `Chances` (Testers/Sporadic) and `Drawing`
-- (Testers/MessageGenerator); what a plan relies on of them and of the buffers is `Laws`
-- (Testers/FeederSource/TestPlan/Filling). The floating point functions of the standard library are
-- `Floating` (Stream/Replace) and `FloatFunctions` (Stream/Elementwise), the arithmetic of rates
-- `Rates` (Stream/Pacer). Tests has one of each that a result needs.
--
-- Integers are natural numbers with the wrap-around of their width written out. The loop of
-- `Impl::send` runs on fuel, one more than the bytes to send, as each round sends at least one; the
-- loop that receives a payload likewise. In `openComms` and `closeComms` the number of times that
-- the clock is found to be before the exit time is an argument. The loop of `Deserializer::work` takes
-- the number of its rounds as fuel; a round that goes on takes at least one byte off the buffers, so
-- that one more than the bytes held is enough. The loop of SporadicSubnormal that draws an index runs on
-- the list of the draws, and ends where they are fair and something is left to replace. The numbers of a
-- test plan's settings are natural numbers: those that are negative, or too large for an `int`, are not
-- modelled.
--
-- Not modelled: threads (the endpoint's send mutex), the signals that setters emit (but for
-- Mute's), the assertions that a release build removes, logging (but for what DatagramIO logs),
-- the setting of socket buffer sizes and the parsing of URIs, the serialized form of objects (a
-- message or a label is the bytes it is serialized to), the conversion of element types in the
-- Interleaver and the Deinterleaver (they start from the converted buffers), the block of the
-- expression evaluator, the mapping of files on Windows, the text of test plans (a plan is what
-- the JSON library has parsed), and the SIMD kernels.
pub mod Shared
pub mod ByteOrder
pub mod Endpoint
pub mod Pothos
pub mod Packet
pub mod Serialize
pub mod Stream
pub mod Datagram
pub mod Network
pub mod Testers
pub mod File
pub mod Event
pub mod Tests
