-- ===== src/Event.antt =====
-- event/: the blocks that react to labels, and those between messages and signals.
pub mod Labels
pub mod Signals
