-- ===== src/Host.antt =====
-- The offline host, csrc/clap_host.c: it opens CLAP bundles, keeps one default instance and any
-- number of independent ones behind handles, and runs each plugin one block at a time between an
-- input token and an output token.
pub mod Types
pub mod State
pub mod Tokens
pub mod Modules
pub mod Scan
pub mod Ports
pub mod Open
pub mod Input
pub mod Params
pub mod Process
pub mod Output
pub mod Query
pub mod Instances
pub mod Runs
pub mod Tests
