-- ===== src/Device.antt =====
-- The hardware device of csrc/live_device.c: the sizes of its queues, and its data callback.
pub mod Transport
pub mod Budget
pub mod Callback
pub mod Worker
pub mod Tests
