-- ===== src/Lv2.antt =====
-- The offline LV2 host of csrc/lv2_host.c: the URID map, atom buffers, blocks and runs.
pub mod Urid
pub mod State
pub mod Atoms
pub mod Input
pub mod Midi
pub mod Process
pub mod Query
pub mod Calls
mod Tests
