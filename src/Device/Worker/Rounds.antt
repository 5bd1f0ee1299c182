-- ===== src/Device/Worker/Rounds.antt =====
-- The worker's calls of csrc/live_device.c keep the queues in their bounds, and what is captured is
-- what the worker takes.
use audio_plugins_jl.Base.{
  ℕ, suc, ◌≤◌, ◌<◌, ◌≡◌, refl, ap, ap₂, ◌∙◌, true, false, not, some, ltb, ◌==◌, arith, Bool-cases,
  ◌⊎◌, inl, inr, ==_iff,
}
use audio_plugins_jl.Base.Words.{u32, add32, sub32}
use audio_plugins_jl.Base.Cases.{if_all, if_known}
use audio_plugins_jl.Ring.{slot_index}
use audio_plugins_jl.Device.Callback.{AudioDevice, signal_worker, end_frame}
use audio_plugins_jl.Device.Callback.Standing.{IsPlaced}
use audio_plugins_jl.Device.Worker.{Round, got, wait_round, submit, prepare}

module _ {S : Type 0} (b q : ℕ) where
  -- A round of the worker, and where the device stands after it.
  record Stands (p : ℕ) (r : Round S × AudioDevice S) : Type 0 where
    stands : IsPlaced b q p r.1

  wait_round-Stands : (p : ℕ) (d : AudioDevice S) → IsPlaced b q p d → Stands p (wait_round d)
  unfolding wait_round
  wait_round-Stands p d v =
      let ring = d.capture_ring in
      if_all (Stands p) d.lost (record { stands = v })
        (if_all (Stands p) d.closing (record { stands = v })
          (if_known (Stands p) (not (ring.read == ring.write))
            (λ more. record {
              stands = record {
                block = v.block;
                queue = v.queue;
                inside = v.inside;
                place = v.place;
                capture = record {
                  read_word = omega arith;
                  write_word = v.capture.write_word;
                  held =
                      ground
                        (arith, more, v.capture.read_word, v.capture.write_word, v.capture.held);
                };
                played = v.played;
              };
            })
            (λ empty. record { stands = v })))

  submit-IsPlaced :
      (samples : ℕ → S) (sequence p : ℕ) (d : AudioDevice S)
      → q < u32
      → IsPlaced b q p d
      → IsPlaced b q p (submit samples sequence d)
  unfolding submit
  submit-IsPlaced samples sequence p d small v =
      let ring = d.playback_ring in
      if_known (IsPlaced b q p) (sub32 ring.write ring.read == d.queue_blocks)
        (λ full. record {
          block = v.block;
          queue = v.queue;
          inside = v.inside;
          place = v.place;
          capture = v.capture;
          played = v.played;
        })
        (λ room. record {
          block = v.block;
          queue = v.queue;
          inside = v.inside;
          place = v.place;
          capture = v.capture;
          played = record {
            read_word = v.played.read_word;
            write_word = omega arith;
            held = ground (
              arith, room, v.queue, small, v.played.read_word, v.played.write_word, v.played.held,
            );
          };
        })

  -- For a device whose clock and offset make `p` frames, whose offset is within the block, and whose
  -- queues hold at most `q` blocks, `q` below 2^32, a round of `ap_audio_wait` and a call of
  -- `ap_audio_submit` leave all that so; and `ap_audio_prepare`, unless the device is lost, leaves it
  -- so with 0 frames.
  pub worker_calls-IsPlaced :
      (samples : ℕ → S) (sequence p : ℕ) (d : AudioDevice S)
      → q < u32
      → IsPlaced b q p d
      → IsPlaced b q p (wait_round d).1
        × IsPlaced b q p (submit samples sequence d)
        × ((d.lost ≡ true) ⊎ IsPlaced b q 0 (prepare d).1)
  unfolding prepare
  worker_calls-IsPlaced samples sequence p d small v = (
    (wait_round-Stands p d v).stands,
    submit-IsPlaced samples sequence p d small v,
    elim (Bool-cases d.lost) [
      | inl lost ↦ inl lost
      | inr present ↦ inr (
          simp present (record {
            block = v.block;
            queue = v.queue;
            inside = omega (arith, v.inside);
            place = omega arith;
            capture = record {
              read_word = omega arith;
              write_word = omega arith;
              held = omega arith;
            };
            played = record {
              read_word = omega arith;
              write_word = omega arith;
              held = omega arith;
            };
          }))
    ],
  )

module _ {S : Type 0} (silence : S) where
  end_frame_full :
      (d : AudioDevice S)
      → suc d.offset ≡ d.block_size
      → d.capture_ring.read ≡ d.capture_ring.write
      → d.capture_ring.write < u32
      → 1 ≤ d.queue_blocks
      → let slot = slot_index d.queue_blocks d.capture_ring.write in
        let t = end_frame silence d in
        (t.capture_ring.samples slot ≡ d.staging)
        × (t.capture_ring.sequences slot ≡ d.clock)
        × (t.capture_ring.read ≡ d.capture_ring.read)
        × (t.capture_ring.write ≡ add32 d.capture_ring.write 1)
        × (t.lost ≡ d.lost)
        × (t.closing ≡ d.closing)
        × (t.capture ≡ d.capture)
        × (t.queue_blocks ≡ d.queue_blocks)
  unfolding end_frame signal_worker
  end_frame_full d full empty word some_room =
      let slot = slot_index d.queue_blocks d.capture_ring.write in
      let done : (suc d.offset == d.block_size) ≡ true =
        (==_iff (suc d.offset) d.block_size).1 full in
      let free : ltb (sub32 d.capture_ring.write d.capture_ring.read) d.queue_blocks ≡ true =
        ground (arith, empty, word, some_room) in
      let self : (slot == slot) ≡ true = (==_iff slot slot).1 refl in
      (
        ground (arith, done, free, self),
        ground (arith, done, free, self),
        ground (arith, done, free),
        ground (arith, done, free),
        ground (arith, done, free),
        ground (arith, done, free),
        ground (arith, done, free),
        ground (arith, done, free),
      )

  wait_round_got :
      (t : AudioDevice S)
      → t.lost ≡ false
      → t.closing ≡ false
      → t.capture ≡ true
      → (t.capture_ring.read == t.capture_ring.write) ≡ false
      → let slot = slot_index t.queue_blocks t.capture_ring.read in
        (wait_round t).0 ≡ got (some (t.capture_ring.samples slot)) (t.capture_ring.sequences slot)
  unfolding wait_round
  wait_round_got t present open_still capturing more =
      ground (arith, present, open_still, capturing, more)

  -- On a device that captures, is neither lost nor closing, and whose capture queue is empty with
  -- room for a block: once the frame that completes a block has ended, a round of `ap_audio_wait`
  -- gives the staged samples of that block, with the clock that it was taken at.
  pub captured_block :
      (d : AudioDevice S)
      → suc d.offset ≡ d.block_size
      → d.capture_ring.read ≡ d.capture_ring.write
      → d.capture_ring.write < u32
      → 1 ≤ d.queue_blocks
      → d.lost ≡ false
      → d.closing ≡ false
      → d.capture ≡ true
      → (wait_round (end_frame silence d)).0 ≡ got (some d.staging) d.clock
  captured_block d full empty word some_room present open_still capturing =
      let t = end_frame silence d in
      let (staged, stamped, kept, moved, l, c, k, same_queue) =
        end_frame_full d full empty word some_room in
      let more : (t.capture_ring.read == t.capture_ring.write) ≡ false =
        ground (arith, kept, moved, empty, word) in
      let slots : slot_index t.queue_blocks t.capture_ring.read
          ≡ slot_index d.queue_blocks d.capture_ring.write =
        ap₂ slot_index same_queue (kept ∙ empty) in
      wait_round_got t (l ∙ present) (c ∙ open_still) (k ∙ capturing) more
      ∙ ap₂ got (ap some (ap t.capture_ring.samples slots ∙ staged))
          (ap t.capture_ring.sequences slots ∙ stamped)
