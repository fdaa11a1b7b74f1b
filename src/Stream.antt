-- ===== src/Stream.antt =====
-- sound/firewire/amdtp-stream.c: what a stream of isochronous packets carries, and when.
pub mod Sequence
pub mod Cycle
pub mod Cip
pub mod Replay
