-- ===== src/Device/Transport.antt =====
-- `configure_transport` of csrc/live_device.c: the sizes of the queues between the device's callback
-- and the worker. The machine's integers wrap where the source's do.
use audio_plugins_jl.Base.{
  ℕ, zero, suc, ◌+◌, ◌-◌, ◌*◌, ◌/◌, ◌%◌, ◌||◌, Option, none, some, ltb, leb, ◌==◌, if◌then◌else◌,
}
use audio_plugins_jl.Base.Words.{u32, u64}

-- What the function reads: the device's period, its number of periods and its rate, and the
-- session's rate, block size and queue size.
pub record Negotiated : Type 0 where
  pub device_period : ℕ
  pub periods : ℕ
  pub device_rate : ℕ
  pub rate : ℕ
  pub block : ℕ
  pub queue_blocks : ℕ

-- What it writes.
pub record Sizes : Type 0 where
  pub pipeline_blocks : ℕ
  pub max_callback_frames : ℕ
  pub queue_blocks : ℕ

-- `while (capacity < wanted) capacity *= 2`, on fuel.
unfoldable pub grow : ℕ → ℕ → ℕ → Option ℕ
grow zero wanted capacity = none
grow (suc n) wanted capacity =
    let rest = grow n wanted (capacity * 2 % u32) in
    if ltb capacity wanted then rest else some capacity

-- `wanted` is at most 1024 and a capacity at least 2, so eleven rounds are enough.
abbrev pub grow_fuel : ℕ
grow_fuel = 11

unfoldable pub native_frames : Negotiated → ℕ
native_frames d = d.device_period * d.periods % u64

-- The hardware burst in frames of the session, rounded up.
unfoldable pub burst_frames : Negotiated → ℕ
burst_frames d = (native_frames d * d.rate + d.device_rate - 1) % u64 / d.device_rate

-- That in whole blocks, with one more for rounding.
unfoldable pub burst_blocks : Negotiated → ℕ
burst_blocks d = (burst_frames d + d.block - 1) % u64 / d.block + 1

-- `none` is the answer 0, upon which the device is not opened.
unfoldable pub configure_transport : Negotiated → Option Sizes
configure_transport d =
    if native_frames d == 0
      || ltb (u32 - 1) (native_frames d)
      || d.device_rate == 0
      || d.rate == 0
      || d.block == 0
    then none
    else if leb 512 (burst_blocks d) || ltb (u32 - 1) (burst_blocks d * d.block % u64)
    then none
    else let pipeline = (burst_blocks d + 1) % u32 in
      elim (grow grow_fuel (2 * pipeline % u32) d.queue_blocks) [
        | none ↦ none
        | some capacity ↦ some (record {
          pipeline_blocks = pipeline;
          max_callback_frames = burst_blocks d * d.block % u32;
          queue_blocks = capacity;
        })
      ]
