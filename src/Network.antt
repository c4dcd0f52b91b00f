-- ===== src/Network.antt =====
-- network/NetworkSink.cpp and network/NetworkSource.cpp
pub mod Codec
pub mod Sink
pub mod Source
pub mod Carry
pub mod Carries
pub mod RoundTrip
