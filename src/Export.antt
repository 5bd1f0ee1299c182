-- ===== src/Export.antt =====
-- The CLAP plugin that csrc/clap_plugin_template.c makes of a per-sample step function.
pub mod Program
pub mod Params
pub mod Stream
pub mod State
pub mod Process
pub mod Plugin
mod Tests
