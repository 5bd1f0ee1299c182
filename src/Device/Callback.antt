-- ===== src/Device/Callback.antt =====
-- The data callback of csrc/live_device.c, which cuts the frames of a hardware device into blocks, and
-- the notification that marks a device lost.
pub mod Standing
pub mod Place
use audio_plugins_jl.Base.{
  ℕ, zero, suc, ◌+◌, ◌*◌, Bool, true, false, not, ◌&&◌, ◌||◌, Option, none, some, ltb, ◌==◌,
  if◌then◌else◌,
}
use audio_plugins_jl.Base.Words.{add32, sub32, add64}
use audio_plugins_jl.Base.Loops.{for_range, update}
use audio_plugins_jl.Ring.{slot_index}

-- `device_ring`; a slot's samples are a function of their position.
pub record DeviceRing (S : Type 0) : Type 0 where
  pub read : ℕ
  pub write : ℕ
  pub samples : ℕ → ℕ → S
  pub sequences : ℕ → ℕ

-- What the callback and the worker use of `struct ap_audio_device`; `wakes` counts the semaphore's releases.
pub record AudioDevice (S : Type 0) : Type 0 where
  pub capture_ring : DeviceRing S
  pub playback_ring : DeviceRing S
  pub staging : ℕ → S
  pub worker_capture : ℕ → S
  pub playback : ℕ → S
  pub offset : ℕ
  pub clock : ℕ
  pub block_size : ℕ
  pub channels : ℕ
  pub queue_blocks : ℕ
  pub pipeline_blocks : ℕ
  pub max_callback_frames : ℕ
  pub capture : Bool
  pub closing : Bool
  pub lost : Bool
  pub wake_pending : Bool
  pub wakes : ℕ
  pub callback_guard : Bool
  pub underruns : ℕ
  pub overruns : ℕ

-- The notifications of a device, as far as they are told apart.
pub data Notification : Type 0 where
  stopped interruption_began rerouted other : Notification

module _ {S : Type 0} where
  unfoldable pub signal_worker : AudioDevice S → AudioDevice S
  signal_worker d =
      if d.wake_pending then d else record d { wake_pending = true; wakes = d.wakes + 1 }

  abbrev pub lose : AudioDevice S → AudioDevice S
  lose d = signal_worker (record d { lost = true })

  unfoldable pub notification : Notification → AudioDevice S → AudioDevice S
  notification other d = d
  notification _ d = if d.closing then d else lose d

  -- `while (r != w)`: `n` rounds are left. Late blocks are passed over; the read index after it, and
  -- the block that is due.
  unfoldable pub find_due : ℕ → ℕ → AudioDevice S → ℕ × Option (ℕ → S)
  find_due zero r d = (r, none)
  find_due (suc n) r d =
      let slot = slot_index d.queue_blocks r in
      let due = d.playback_ring.sequences slot in
      let rest = find_due n (add32 r 1) d in
      if ltb d.clock due
      then (r, none)
      else if due == d.clock
      then (add32 r 1, some (d.playback_ring.samples slot))
      else rest

module _ {S : Type 0} (silence : S) where
  -- The block that is played from offset 0 on.
  unfoldable pub begin_block : AudioDevice S → AudioDevice S
  unfolding find_due
  begin_block d =
      if d.offset == 0
      then (let q = d.playback_ring in
          let (r, found) = find_due (sub32 q.write q.read) q.read d in
          let t = record d { playback_ring = record q { read = r } } in
          elim found [
            | some block ↦ record t { playback = block }
            | none ↦ record t {
              playback = λ i. silence;
              underruns =
                  if ltb d.clock d.pipeline_blocks then d.underruns else add32 d.underruns 1;
            }
          ])
      else d

  -- A frame is taken in and put out.
  unfoldable pub move_frame : Option (ℕ → S) → ℕ → AudioDevice S × (ℕ → S) → AudioDevice S × (ℕ → S)
  move_frame input frame (d, out) =
      for_range d.channels 0
        (λ ch s.
          let position = d.offset * d.channels + ch in
          let sample : S = elim input [ none ↦ silence | some x ↦ x (frame * d.channels + ch) ] in
          (
            record (s.0) { staging = update (s.0).staging position sample },
            update s.1 (frame * d.channels + ch) ((s.0).playback position),
          ))
        (d, out)

  -- A block that is complete goes to the worker, or is dropped.
  unfoldable pub end_frame : AudioDevice S → AudioDevice S
  end_frame d =
      if suc d.offset == d.block_size
      then (let q = d.capture_ring in
          let t =
            if ltb (sub32 q.write q.read) d.queue_blocks
            then (let slot = slot_index d.queue_blocks q.write in
                signal_worker (record d {
                  capture_ring = record q {
                    samples = update q.samples slot d.staging;
                    sequences = update q.sequences slot d.clock;
                    write = add32 q.write 1;
                  };
                }))
            else record d { overruns = add32 d.overruns 1 } in
          record t { offset = 0; clock = add64 t.clock 1 })
      else record d { offset = suc d.offset }

  unfoldable pub frame_step : Option (ℕ → S) → ℕ → AudioDevice S × (ℕ → S) → AudioDevice S × (ℕ → S)
  unfolding begin_block move_frame end_frame
  frame_step input frame (d, out) =
      let (t, o) = move_frame input frame (begin_block d, out) in (end_frame t, o)

  -- `callback`, with the output that it leaves.
  unfoldable pub callback : Option (ℕ → S) → ℕ → AudioDevice S → (ℕ → S) → AudioDevice S × (ℕ → S)
  unfolding frame_step
  callback input frames d out =
      let t = if ltb d.max_callback_frames frames then lose d else d in
      if t.lost || t.closing
      then (t, λ i. if ltb i (frames * t.channels) then silence else out i)
      else if t.callback_guard
      then (
        record t { underruns = add32 t.underruns 1 },
        λ i. if ltb i (frames * t.channels) then silence else out i,
      )
      else for_range frames 0 (frame_step input) (t, out)
