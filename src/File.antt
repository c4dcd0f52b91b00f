-- ===== src/File.antt =====
-- file/: the blocks that read and write files.
pub mod Mapped
pub mod Sink
pub mod Container
pub mod Source
pub mod Text
