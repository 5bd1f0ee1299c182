-- ===== src/Device/Worker.antt =====
-- The worker's side of csrc/live_device.c: it prepares a run, takes the captured blocks and submits
-- the blocks to play.
pub mod Rounds
use audio_plugins_jl.Base.{ℕ, ◌+◌, Bool, true, false, not, Option, none, some, ◌==◌, if◌then◌else◌}
use audio_plugins_jl.Base.Words.{add32, sub32, add64}
use audio_plugins_jl.Base.Loops.{update}
use audio_plugins_jl.Ring.{slot_index}
use audio_plugins_jl.Device.Callback.{DeviceRing, AudioDevice}

-- What one round of `ap_audio_wait` comes to; `idle` waits for the semaphore.
pub data Round (S : Type 0) : Type 0 where
  device_lost device_closed idle : Round S
  got : Option (ℕ → S) → ℕ → Round S

module _ {S : Type 0} where
  -- The loop's body up to the wait.
  unfoldable pub wait_round : AudioDevice S → Round S × AudioDevice S
  wait_round d =
      let q = d.capture_ring in
      let slot = slot_index d.queue_blocks q.read in
      if d.lost
      then (device_lost, d)
      else if d.closing
      then (device_closed, d)
      else if not (q.read == q.write)
      then (
        got (if d.capture then some (q.samples slot) else none) (q.sequences slot),
        record d {
          worker_capture = q.samples slot;
          capture_ring = record q { read = add32 q.read 1 };
        },
      )
      else (idle, d)

  -- The semaphore's wait has succeeded, and the loop goes round again.
  unfoldable pub woken : AudioDevice S → AudioDevice S
  woken d = record d { wake_pending = false }

  -- `ap_audio_submit`
  unfoldable pub submit : (ℕ → S) → ℕ → AudioDevice S → AudioDevice S
  submit samples sequence d =
      let q = d.playback_ring in
      let slot = slot_index d.queue_blocks q.write in
      if sub32 q.write q.read == d.queue_blocks
      then record d { overruns = add32 d.overruns 1 }
      else record d {
        playback_ring = record q {
          samples = update q.samples slot samples;
          sequences = update q.sequences slot (add64 sequence d.pipeline_blocks);
          write = add32 q.write 1;
        };
      }

  -- `ap_audio_prepare`; true is its AP_LIVE_OK.
  unfoldable pub prepare : AudioDevice S → Bool × AudioDevice S
  prepare d = if d.lost then (false, d) else (
    true,
    record d {
      offset = 0;
      clock = 0;
      capture_ring = record (d.capture_ring) { read = 0; write = 0 };
      playback_ring = record (d.playback_ring) { read = 0; write = 0 };
      closing = false;
    },
  )
