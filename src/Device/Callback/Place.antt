-- ===== src/Device/Callback/Place.antt =====
-- The data callback of csrc/live_device.c moves its device on by the frames that it serves.
use audio_plugins_jl.Base.{
  ℕ, suc, ◌+◌, ◌*◌, ◌≤◌, ◌<◌, ◌≡◌, refl, ap, ◌∙◌, subst, false, Option, ltb, ◌==◌, arith,
  Bool-cases, inl, inr,
}
use native.Mathlib.Nat.{suc-mul}
use audio_plugins_jl.Base.Words.{u32, u64, add32, sub32, add64}
use audio_plugins_jl.Base.Loops.{for_range, for_range_inv, update}
use audio_plugins_jl.Base.Cases.{if_all, if_known}
use audio_plugins_jl.Ring.{slot_index}
use audio_plugins_jl.Device.Callback.{
  DeviceRing, AudioDevice, signal_worker, begin_block, move_frame, end_frame, frame_step, callback,
}
use audio_plugins_jl.Device.Callback.Standing.{
  IsPlaced, with_ring, begin_block-IsPlaced, move_frame-IsPlaced,
}

module _ {S : Type 0} (silence : S) (b q : ℕ) where
  -- The device after a block has been captured, before its clock moves on.
  record Captured (p : ℕ) (d t : AudioDevice S) : Type 0 where
    placed : IsPlaced b q p t
    offset : t.offset ≡ d.offset
    clock : t.clock ≡ d.clock

  signal_worker-Captured :
      (p : ℕ) (d t : AudioDevice S) → Captured p d t → Captured p d (signal_worker t)
  unfolding signal_worker
  signal_worker-Captured p d t v = if_all (Captured p d) t.wake_pending v (record {
    placed = with_ring silence b q p t _ v.placed refl refl refl refl refl v.placed.played;
    offset = v.offset;
    clock = v.clock;
  })

  next_block :
      (p : ℕ) (d t : AudioDevice S)
      → IsPlaced b q p d
      → Captured p d t
      → suc d.offset ≡ b
      → d.clock + 1 < u64
      → IsPlaced b q (p + 1) (record t { offset = 0; clock = add64 t.clock 1 })
        × (add64 t.clock 1 ≤ d.clock + 1)
  next_block p d t v c full long =
      let e : add64 t.clock 1 ≡ suc d.clock = omega (arith, c.clock, long) in
      (
        record {
          block = c.placed.block;
          queue = c.placed.queue;
          inside = omega (arith, full);
          place = ap (λ k. k * b + 0) e ∙ omega (arith, suc-mul d.clock b, v.place, full);
          capture = c.placed.capture;
          played = c.placed.played;
        },
        omega (arith, e),
      )

  end_frame-IsPlaced :
      (p : ℕ) (d : AudioDevice S)
      → q < u32
      → d.clock + 1 < u64
      → IsPlaced b q p d
      → IsPlaced b q (p + 1) (end_frame silence d) × ((end_frame silence d).clock ≤ d.clock + 1)
  unfolding end_frame
  end_frame-IsPlaced p d small long v =
      let ring = d.capture_ring in
      let slot = slot_index d.queue_blocks ring.write in
      let stored : DeviceRing S = record ring {
        samples = update ring.samples slot d.staging;
        sequences = update ring.sequences slot d.clock;
        write = add32 ring.write 1;
      } in
      elim (Bool-cases (suc d.offset == d.block_size)) [
        | inr more ↦ simp more (
          record {
            block = v.block;
            queue = v.queue;
            inside = ground (arith, more, v.inside, v.block);
            place = omega (arith, v.place);
            capture = v.capture;
            played = v.played;
          },
          omega arith,
        )
        | inl full ↦
            let t =
              if_known (Captured p d) (ltb (sub32 ring.write ring.read) d.queue_blocks)
                (λ room.
                  signal_worker-Captured p d (record d { capture_ring = stored })
                    (record {
                      placed = record {
                        block = v.block;
                        queue = v.queue;
                        inside = v.inside;
                        place = v.place;
                        capture = record {
                          read_word = v.capture.read_word;
                          write_word = omega arith;
                          held = ground (
                            arith, room, v.queue, small, v.capture.read_word, v.capture.write_word,
                          );
                        };
                        played = v.played;
                      };
                      offset = refl;
                      clock = refl;
                    }))
                (λ none_left. record {
                  placed =
                      with_ring silence b q p d (record d { overruns = add32 d.overruns 1 }) v refl
                        refl refl refl refl v.played;
                  offset = refl;
                  clock = refl;
                }) in
            simp full (next_block p d _ v t (ground (arith, full, v.block)) long)
      ]

  begin_block_clock : (d : AudioDevice S) → (begin_block silence d).clock ≡ d.clock
  unfolding begin_block
  begin_block_clock d = ground arith

  move_frame_clock :
      (input : Option (ℕ → S)) (frame : ℕ) (d : AudioDevice S) (out : ℕ → S)
      → (move_frame silence input frame (d, out)).0.clock ≡ d.clock
  unfolding move_frame
  move_frame_clock input frame d out =
      for_range_inv (λ k (s : AudioDevice S × (ℕ → S)). s.0.clock ≡ d.clock) _ d.channels 0
        d.channels (d, out) (λ k s lo hi e. e) (omega arith) refl

  frame_step-IsPlaced :
      (input : Option (ℕ → S)) (frame p : ℕ) (d : AudioDevice S) (out : ℕ → S)
      → q < u32
      → d.clock + 1 < u64
      → IsPlaced b q p d
      → IsPlaced b q (p + 1) (frame_step silence input frame (d, out)).0
        × ((frame_step silence input frame (d, out)).0.clock ≤ d.clock + 1)
  unfolding frame_step
  frame_step-IsPlaced input frame p d out small long v =
      let x = begin_block silence d in
      let y = (move_frame silence input frame (x, out)).0 in
      let clocks : y.clock ≡ d.clock = move_frame_clock input frame x out ∙ begin_block_clock d in
      let z = end_frame-IsPlaced p y small (omega (arith, clocks, long)) (
        move_frame-IsPlaced silence b q input frame p x out
          (begin_block-IsPlaced silence b q p d v)) in
      (z.0, omega (arith, z.1, clocks))

  callback_runs :
      (input : Option (ℕ → S)) (frames : ℕ) (d : AudioDevice S) (out : ℕ → S)
      → frames ≤ d.max_callback_frames
      → d.lost ≡ false
      → d.closing ≡ false
      → d.callback_guard ≡ false
      → callback silence input frames d out ≡ for_range frames 0 (frame_step silence input) (d, out)
  unfolding callback
  callback_runs input frames d out agreed present open_still free =
      let few : ltb d.max_callback_frames frames ≡ false = ground arith in
      simp (few, present, open_still, free) refl

  -- For a device whose clock in blocks and offset in the block make `p` frames, whose offset is
  -- within the block, and whose queues hold at most `q` blocks between their 32-bit indices, `q`
  -- below 2^32: when the callback serves `frames` frames, no more than agreed, on a device that
  -- is neither lost nor closing nor already in a callback, and its clock cannot reach 2^64, all
  -- that holds afterwards, with `p + frames` frames.
  pub callback-IsPlaced :
      (input : Option (ℕ → S)) (frames p : ℕ) (d : AudioDevice S) (out : ℕ → S)
      → q < u32
      → d.clock + frames < u64
      → frames ≤ d.max_callback_frames
      → d.lost ≡ false
      → d.closing ≡ false
      → d.callback_guard ≡ false
      → IsPlaced b q p d
      → IsPlaced b q (p + frames) (callback silence input frames d out).0
  callback-IsPlaced input frames p d out small long agreed present open_still free v =
      rw (callback_runs input frames d out agreed present open_still free)
        (for_range_inv
          (λ k (s : AudioDevice S × (ℕ → S)).
            IsPlaced b q (p + k) (s.0) × (s.0.clock ≤ d.clock + k))
          (frame_step silence input) frames 0 frames (d, out)
          (λ k s lo hi w.
            let step =
              frame_step-IsPlaced input k (p + k) (s.0) s.1 small (omega (arith, w.1, long)) w.0 in
            (
              subst (λ i. IsPlaced b q i (frame_step silence input k s).0) (omega arith) step.0,
              omega (arith, step.1, w.1),
            ))
          (omega arith) (subst (λ i. IsPlaced b q i d) (omega arith) v, omega arith)).0
