-- ===== src/Stream.antt =====
-- stream/: the blocks that pass a stream on, as it is or changed.
pub mod Port
pub mod FirstN
pub mod Delay
pub mod Repeat
pub mod Interleave
pub mod Gateway
pub mod Mute
pub mod Router
pub mod Clamp
pub mod MinMax
pub mod Forward
pub mod Replace
pub mod Elementwise
pub mod Pacer
pub mod Convert
