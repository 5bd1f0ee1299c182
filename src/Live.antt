-- ===== src/Live.antt =====
-- The live engine, csrc/clap_live.c: a session between one control thread and one audio thread.
pub mod Types
pub mod Interleave
pub mod Session
pub mod Open
pub mod Events
pub mod Queue
pub mod Process
pub mod Lifecycle
pub mod External
pub mod System
pub mod Tests
