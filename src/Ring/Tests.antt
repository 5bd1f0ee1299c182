-- ===== src/Ring/Tests.antt =====
-- The ring of two slots, its indices about to wrap at 2^32.
use audio_plugins_jl.Base.{ℕ, ◌≤◌, ◌≡◌, refl, true, false, List, [], ◌∷◌, ◌++◌, some, arith, length}
use audio_plugins_jl.Ring.{
  Ring, slot_index, used, is_full, is_empty, front_slot, publish, consume, reset,
}
use audio_plugins_jl.Ring.Capacity.{IsCapacity}
use audio_plugins_jl.Ring.Fifo.{Holds, queue_step}
use audio_plugins_jl.Ring.Spsc.{
  Shared, Reach, start, resting, copying, load_read, admit, fill, store_write, load_write,
  find_block, here, next,
}
use audio_plugins_jl.Ring.Spsc.Safety.{spsc_fifo, spsc_untorn}

abbrev two-IsCapacity : IsCapacity 2
two-IsCapacity = record { log = 1; small = omega arith; power = refl }

-- Empty, with both indices at the last value that 32 bits hold.
abbrev last : Ring ℕ
last = record { read = 0xffffffff; write = 0xffffffff; slots = 0 ∷ 0 ∷ [] }

last-Holds : Holds 2 last []
last-Holds = record {
  capacity = two-IsCapacity;
  storage = refl;
  read_word = omega arith;
  write_at = refl;
  fits = omega arith;
  window = tt;
}

-- 5, then 6, across the wrap.
abbrev across : Ring ℕ
across = record { read = 0xffffffff; write = 1; slots = 6 ∷ 5 ∷ [] }

across-Holds : Holds 2 across (5 ∷ 6 ∷ [])
across-Holds = record {
  capacity = two-IsCapacity;
  storage = refl;
  read_word = omega arith;
  write_at = refl;
  fits = omega arith;
  window = (refl, (refl, tt));
}

across-is_full :
    (is_full 2 across ≡ true) × (is_empty across ≡ false) × (front_slot 2 across ≡ some 5)
unfolding is_full is_empty front_slot
across-is_full = (refl, refl, refl)

publish-across : publish 2 6 (publish 2 5 last) ≡ across
unfolding publish
publish-across = refl

reset-across : reset across ≡ record { read = 0; write = 0; slots = 6 ∷ 5 ∷ [] }
unfolding reset
reset-across = refl

queue_step_example :
    (used across ≡ 2)
    × (is_full 2 across ≡ true)
    × (is_empty across ≡ false)
    × (front_slot 2 across ≡ some 5)
    × Holds 2 (consume across) (6 ∷ [])
    × Holds 2 (publish 2 7 (consume across)) (6 ∷ 7 ∷ [])
queue_step_example = queue_step 5 7 (6 ∷ []) across-Holds

-- The producer has sent 5 and rests; the consumer is about to copy.
abbrev midway : Shared ℕ
midway = record {
  ring = record { read = 0xffffffff; write = 0; slots = 0 ∷ 5 ∷ [] };
  producer = resting;
  consumer = copying;
  sent = 5 ∷ [];
  received = [];
}

midway-Reach : Reach 2 (start last) midway
unfolding slot_index
midway-Reach =
    next
      (next
        (next
          (next (next (next here (load_read 5 refl)) (admit 5 0xffffffff refl (λ h. omega arith)))
            (fill 5 refl))
          (store_write 5 refl))
        (load_write refl))
      (find_block 0 refl (λ h. omega arith))

spsc_fifo_example : (q : List ℕ) × (5 ∷ [] ≡ [] ++ q) × (length q ≤ 2) × Holds 2 midway.ring q
spsc_fifo_example = spsc_fifo last last-Holds midway-Reach

spsc_untorn_example :
    (x : ℕ) × (p : List ℕ) × (5 ∷ [] ≡ [] ++ x ∷ p) × (front_slot 2 midway.ring ≡ some x)
spsc_untorn_example = spsc_untorn last last-Holds midway-Reach refl
