-- ===== src/Live/Queue/Read.antt =====
-- What `ap_live_try_read` returns, and what it leaves.
use audio_plugins_jl.Base.{
  ℕ, ◌<◌, ◌≡◌, ◌≢◌, refl, ◌↔◌, Bool, true, false, Option, none, some, List, [], ◌∷◌, length, arith,
}
use audio_plugins_jl.Base.Loops.{copy}
use audio_plugins_jl.Ring.{consume}
use audio_plugins_jl.Ring.Fifo.{Holds, is_empty-length, front_slot-Holds, consume-Holds}
use audio_plugins_jl.Live.Types.{ok, Block}
use audio_plugins_jl.Live.Session.{Session, is_control}
use audio_plugins_jl.Live.Queue.{block_samples, is_none, try_read, Reading}

module _ {P D S : Type 0} where
  -- What a read hands over of a block.
  pub record IsReadOf (s : Session P D S) (b : Block D S) (r : Reading S) : Type 0 where
    pub tick_of : r.tick ≡ b.tick
    pub tag_of : r.sequence ≡ b.input_sequence
    pub audio_of : (j : ℕ) → j < block_samples s → r.samples j ≡ b.samples j

  module _ (s : Session P D S) (self : ℕ) (samples : ℕ → S) where
    abbrev reading : Block D S → Reading S
    reading b = record {
      samples = copy (block_samples s) b.samples samples;
      tick = b.tick;
      sequence = b.input_sequence;
    }

    read_value :
        (b : Block D S) (q : List (Block D S))
        → s.control ≡ self
        → Holds s.config.queue_blocks s.output (b ∷ q)
        → try_read s self (some samples) true
          ≡ (ok, some (reading b), record s { output = consume s.output })
    unfolding try_read is_control
    read_value b q thread holds = ground (arith, is_empty-length holds, front_slot-Holds holds)

    -- On the control thread, a read of a queue with blocks hands over the oldest one and takes that
    -- one out; nothing else of the session changes.
    pub try_read_oldest :
        (b : Block D S) (q : List (Block D S))
        → s.control ≡ self
        → Holds s.config.queue_blocks s.output (b ∷ q)
        → (r : Reading S) × IsReadOf s b r
          × ((try_read s self (some samples) true).0 ≡ ok)
          × ((try_read s self (some samples) true).1 ≡ some r)
          × Holds s.config.queue_blocks (try_read s self (some samples) true).2.output q
          × ((try_read s self (some samples) true).2
              ≡ record s { output = (try_read s self (some samples) true).2.output })
    try_read_oldest b q thread holds =
        let e = read_value b q thread holds in
        (
          reading b,
          record { tick_of = refl; tag_of = refl; audio_of = λ j h. ground arith },
          rw e,
          rw e,
          rw e (consume-Holds holds),
          rw e,
        )

  -- When a read gives a block of an output queue that holds `q`.
  pub record Gives (s : Session P D S) (self : ℕ) (samples : Option (ℕ → S)) (places : Bool)
      (q : List (Block D S)) : Type 0 where
    pub buffer : is_none samples ≡ false
    pub places_given : places ≡ true
    pub on_control : s.control ≡ self
    pub waiting : 0 < length q

  -- A read returns OK exactly if it is given a buffer and places for the tick and the tag, on the
  -- control thread, while the output queue holds a block; any other read hands over nothing and
  -- changes nothing.
  pub try_read_iff :
      (s : Session P D S) (q : List (Block D S)) (self : ℕ) (samples : Option (ℕ → S))
      (places : Bool)
      → Holds s.config.queue_blocks s.output q
      → (((try_read s self samples places).0 ≡ ok) ↔ Gives s self samples places q)
        × ((try_read s self samples places).0 ≢ ok
            → ((try_read s self samples places).1 ≡ none)
              × ((try_read s self samples places).2 ≡ s))
  unfolding try_read is_control
  try_read_iff s q self none places holds =
      ((λ h. absurd (ground arith), λ v. absurd (ground (arith, v.buffer))), λ h. (refl, refl))
  try_read_iff s [] self (some samples) places holds = (
    (λ h. absurd (ground (arith, is_empty-length holds)), λ v. absurd (omega (arith, v.waiting))),
    λ h. (ground (arith, is_empty-length holds), ground (arith, is_empty-length holds)),
  )
  try_read_iff s (b ∷ q) self (some samples) places holds =
      let front = front_slot-Holds holds in
      let full = is_empty-length holds in
      (
        (
          λ h. record {
            buffer = refl;
            places_given = ground (arith, full, front);
            on_control = ground (arith, full, front);
            waiting = omega arith;
          },
          λ v. ground (arith, full, front, v.places_given, v.on_control),
        ),
        λ h. (ground (arith, full, front), ground (arith, full, front)),
      )
