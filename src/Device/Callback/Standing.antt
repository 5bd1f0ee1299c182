-- ===== src/Device/Callback/Standing.antt =====
-- What it is for the device of csrc/live_device.c to stand in its block and in both queues, and the
-- steps of a frame that leave it there.
use audio_plugins_jl.Base.{
  ℕ, zero, suc, ◌+◌, ◌*◌, ◌≤◌, ◌<◌, ◌≡◌, refl, ◌∙◌, Option, ltb, ◌==◌, arith,
}
use audio_plugins_jl.Base.Words.{u32, add32, sub32}
use audio_plugins_jl.Base.Loops.{for_range_inv}
use audio_plugins_jl.Base.Cases.{if_all, option_all}
use audio_plugins_jl.Ring.{slot_index}
use audio_plugins_jl.Device.Callback.{DeviceRing, AudioDevice, find_due, begin_block, move_frame}

-- A queue of at most `q` blocks between its 32-bit indices.
pub record IsHeld {S : Type 0} (q : ℕ) (r : DeviceRing S) : Type 0 where
  pub read_word : r.read < u32
  pub write_word : r.write < u32
  pub held : sub32 r.write r.read ≤ q

-- The device on blocks of `b` frames, `p` frames after its start.
pub record IsPlaced {S : Type 0} (b q p : ℕ) (d : AudioDevice S) : Type 0 where
  pub block : d.block_size ≡ b
  pub queue : d.queue_blocks ≡ q
  pub inside : d.offset < b
  pub place : d.clock * b + d.offset ≡ p
  pub capture : IsHeld q d.capture_ring
  pub played : IsHeld q d.playback_ring

module _ {S : Type 0} where
  -- A read index that has not gone past `w`, with what was found at it.
  record Bounded (w n : ℕ) (x : ℕ × Option (ℕ → S)) : Type 0 where
    both : (x.0 < u32) × (sub32 w x.0 ≤ n)

  bounded : (w n r : ℕ) (o : Option (ℕ → S)) → r < u32 → sub32 w r ≤ n → Bounded w n (r, o)
  bounded w n r o hr le = record { both = (hr, le) }

  find_due_bound :
      (n r w : ℕ) (d : AudioDevice S)
      → r < u32
      → w < u32
      → sub32 w r ≡ n
      → ((find_due n r d).0 < u32) × (sub32 w (find_due n r d).0 ≤ n)
  unfolding find_due
  find_due_bound zero r w d hr hw e = (hr, omega (arith, e))
  find_due_bound (suc n) r w d hr hw e =
      let step : sub32 w (add32 r 1) ≡ n = omega (arith, e, hr, hw) in
      let due = d.playback_ring.sequences (slot_index d.queue_blocks r) in
      let rest = find_due_bound n (add32 r 1) w d (omega arith) hw step in
      (if_all (Bounded w (suc n)) (ltb d.clock due) (bounded w (suc n) r _ hr (omega (arith, e))) (
        if_all (Bounded w (suc n)) (due == d.clock)
          (bounded w (suc n) (add32 r 1) _ (omega arith) (omega (arith, step)))
          (bounded w (suc n) _ _ rest.0 (omega (arith, rest.1))))).both

module _ {S : Type 0} (silence : S) (b q : ℕ) where
  -- A change of the playback queue, its block and the counters.
  pub with_ring :
      (p : ℕ) (d t : AudioDevice S)
      → IsPlaced b q p d
      → t.block_size ≡ d.block_size
      → t.queue_blocks ≡ d.queue_blocks
      → t.offset ≡ d.offset
      → t.clock ≡ d.clock
      → t.capture_ring ≡ d.capture_ring
      → IsHeld q t.playback_ring
      → IsPlaced b q p t
  with_ring p d t v eb eq eo ec er held = record {
    block = eb ∙ v.block;
    queue = eq ∙ v.queue;
    inside = rw eo v.inside;
    place = rw (ec, eo) v.place;
    capture = rw er v.capture;
    played = held;
  }

  pub begin_block-IsPlaced :
      (p : ℕ) (d : AudioDevice S) → IsPlaced b q p d → IsPlaced b q p (begin_block silence d)
  unfolding begin_block
  begin_block-IsPlaced p d v =
      let ring = d.playback_ring in
      let found =
        find_due_bound (sub32 ring.write ring.read) ring.read ring.write d v.played.read_word
          v.played.write_word refl in
      let held : IsHeld q
          (record ring { read = (find_due (sub32 ring.write ring.read) ring.read d).0 }) =
        record {
          read_word = found.0;
          write_word = v.played.write_word;
          held = omega (arith, found.1, v.played.held);
        } in
      if_all (IsPlaced b q p) (d.offset == 0)
        (option_all (IsPlaced b q p) (find_due (sub32 ring.write ring.read) ring.read d).1
          (with_ring p d _ v refl refl refl refl refl held)
          (λ block. with_ring p d _ v refl refl refl refl refl held))
        v

  pub move_frame-IsPlaced :
      (input : Option (ℕ → S)) (frame p : ℕ) (d : AudioDevice S) (out : ℕ → S)
      → IsPlaced b q p d
      → IsPlaced b q p (move_frame silence input frame (d, out)).0
  unfolding move_frame
  move_frame-IsPlaced input frame p d out v =
      for_range_inv (λ k (s : AudioDevice S × (ℕ → S)). IsPlaced b q p (s.0)) _ d.channels 0
        d.channels (d, out) (λ k s lo hi w. with_ring p (s.0) _ w refl refl refl refl refl w.played)
        (omega arith) v
