-- ===== src/Live/Open.antt =====
-- The configuration that `ap_live_open_adapter` accepts, and the session that it makes of one.
pub mod Valid
use audio_plugins_jl.Base.{ℕ, ◌-◌, ◌*◌, Bool, true, false, not, ◌&&◌, ◌||◌, bit_and, ltb, ◌==◌}
use audio_plugins_jl.Live.Types.{DoubleOps, Config, driver_hardware}

module _ {D : Type 0} ⦃f : DoubleOps D⦄ where
  -- The negation of the test that returns AP_LIVE_INVALID, `path`, `id` and `c` being given.
  unfoldable pub config_valid : Config D → Bool
  config_valid c = not (
      not (f.is_finite c.sample_rate)
      || f.less c.sample_rate (f.of_ℕ 1000)
      || f.less (f.of_ℕ 768000) c.sample_rate
      || c.block_size == 0
      || ltb 8192 c.block_size
      || c.channels == 0
      || ltb 2 c.channels
      || ltb c.queue_blocks 2
      || ltb 1024 c.queue_blocks
      || not (bit_and c.queue_blocks (c.queue_blocks - 1) == 0)
      || ltb driver_hardware c.driver
      || ltb 2 c.priority)

  -- `(uint64_t)(1e9 * c->block_size / c->sample_rate)`
  unfoldable pub period_of : Config D → ℕ
  period_of c = f.to_u64 (f.div (f.mul (f.of_ℕ 1_000_000_000) (f.of_ℕ c.block_size)) c.sample_rate)
