-- ===== src/Device/Tests.antt =====
-- A device of 3 periods of 441 frames at 44100 Hz, for a session of blocks of 256 at 48000 Hz, and
-- one at work on blocks of 4.
use audio_plugins_jl.Base.{ℕ, ◌+◌, ◌≡◌, refl, true, false, none, some, arith, ◌⊎◌, ◌↔◌}
use audio_plugins_jl.Device.Callback.{DeviceRing, AudioDevice, end_frame, callback}
use audio_plugins_jl.Device.Worker.{got, wait_round, submit, prepare}
use audio_plugins_jl.Device.Worker.Rounds.{worker_calls-IsPlaced, captured_block}
use audio_plugins_jl.Device.Callback.Standing.{IsPlaced}
use audio_plugins_jl.Device.Callback.Place.{callback-IsPlaced}
use audio_plugins_jl.Device.Transport.{
  Negotiated, Sizes, configure_transport, grow, native_frames, burst_frames, burst_blocks,
}
use audio_plugins_jl.Device.Budget.{
  IsNegotiated, IsBudget, IsFeasible, configure_transport-IsBudget, configure_transport_settles,
}

abbrev usual : Negotiated
usual = record {
  device_period = 441;
  periods = 3;
  device_rate = 44100;
  rate = 48000;
  block = 256;
  queue_blocks = 8;
}

abbrev usual_sizes : Sizes
usual_sizes = record { pipeline_blocks = 8; max_callback_frames = 1792; queue_blocks = 16 }

usual-IsNegotiated : IsNegotiated usual
usual-IsNegotiated = record {
  period_word = omega arith;
  periods_word = omega arith;
  device_rate_word = omega arith;
  rate_word = omega arith;
  block_word = omega arith;
  log = 3;
  log_range = (omega arith, omega arith);
  power = refl;
}

configure_transport-usual : configure_transport usual ≡ some usual_sizes
unfolding configure_transport grow native_frames burst_frames burst_blocks
configure_transport-usual = refl

-- Too long a burst for the queues.
configure_transport-slow : configure_transport (record usual { block = 1 }) ≡ none
unfolding configure_transport grow native_frames burst_frames burst_blocks
configure_transport-slow = refl

-- A burst of sixteen blocks of 2^28 frames does not fit in 32 bits.
configure_transport-wide :
    configure_transport
      (record usual { device_period = 0xd0000000; periods = 1; block = 0x10000000 })
    ≡ none
unfolding configure_transport grow native_frames burst_frames burst_blocks
configure_transport-wide = refl

configure_transport-IsBudget_example : IsBudget usual usual_sizes
configure_transport-IsBudget_example =
    configure_transport-IsBudget usual usual_sizes usual-IsNegotiated configure_transport-usual

configure_transport_settles_example :
    ((t : Sizes) × (configure_transport usual ≡ some t)) ↔ IsFeasible usual
configure_transport_settles_example = configure_transport_settles usual usual-IsNegotiated

-- The last frame of block 5 is due: one stale block and the next one are queued for playback.
abbrev ring_of : ℕ → ℕ → DeviceRing ℕ
ring_of read write = record {
  read = read;
  write = write;
  samples = λ slot i. slot;
  sequences = λ slot. slot + 4;
}

abbrev at_work : AudioDevice ℕ
at_work = record {
  capture_ring = ring_of 0 1;
  playback_ring = ring_of 1 3;
  staging = λ i. i;
  worker_capture = λ i. 0;
  playback = λ i. 0;
  offset = 3;
  clock = 5;
  block_size = 4;
  channels = 2;
  queue_blocks = 4;
  pipeline_blocks = 2;
  max_callback_frames = 16;
  capture = true;
  closing = false;
  lost = false;
  wake_pending = false;
  wakes = 0;
  callback_guard = false;
  underruns = 0;
  overruns = 0;
}

at_work-IsPlaced : IsPlaced 4 4 23 at_work
at_work-IsPlaced = record {
  block = refl;
  queue = refl;
  inside = omega arith;
  place = refl;
  capture = record { read_word = omega arith; write_word = omega arith; held = omega arith };
  played = record { read_word = omega arith; write_word = omega arith; held = omega arith };
}

callback-IsPlaced_example : IsPlaced 4 4 26 (callback 0 none 3 at_work (λ i. 0)).0
callback-IsPlaced_example =
    callback-IsPlaced 0 4 4 none 3 23 at_work (λ i. 0) (omega arith) (omega arith) (omega arith)
      refl refl refl at_work-IsPlaced

worker_calls-IsPlaced_example :
    IsPlaced 4 4 23 (wait_round at_work).1
    × IsPlaced 4 4 23 (submit (λ i. i) 5 at_work)
    × ((at_work.lost ≡ true) ⊎ IsPlaced 4 4 0 (prepare at_work).1)
worker_calls-IsPlaced_example =
    worker_calls-IsPlaced 4 4 (λ i. i) 5 23 at_work (omega arith) at_work-IsPlaced

-- The same with an empty capture queue.
abbrev drained : AudioDevice ℕ
drained = record at_work { capture_ring = ring_of 1 1 }

captured_block_example :
    (wait_round (end_frame 0 drained)).0 ≡ got (some drained.staging) drained.clock
captured_block_example =
    captured_block 0 drained refl refl (omega arith) (omega arith) refl refl refl
