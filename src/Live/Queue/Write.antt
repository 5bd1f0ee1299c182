-- ===== src/Live/Queue/Write.antt =====
-- What `ap_live_try_write` accepts, and what a write leaves.
use audio_plugins_jl.Base.{
  ℕ, ◌+◌, ◌≤◌, ◌<◌, ◌≡◌, ◌≢◌, refl, sym, ap, ◌∙◌, ◌↔◌, true, false, Option, none, some, List, [],
  ◌∷◌, ◌++◌, length, arith,
}
use audio_plugins_jl.Base.Loops.{copy}
use audio_plugins_jl.Ring.{publish}
use audio_plugins_jl.Ring.Fifo.{Holds, is_full-length, back_slot-Holds, publish-Holds}
use audio_plugins_jl.Live.Types.{ok, max_events, DoubleOps, LiveEvent, Block}
use audio_plugins_jl.Live.Session.{Session, is_control}
use audio_plugins_jl.Live.Events.{check_events}
use audio_plugins_jl.Live.Events.Admissible.{IsAdmissible, check_events_iff}
use audio_plugins_jl.Live.Queue.{
  no_sequence, is_finished, is_none, block_samples, write_block, enqueue, try_write,
}

module _ {D : Type 0} where
  -- Event `k` of an array that may be absent.
  abbrev given : Option (ℕ → LiveEvent D) → ℕ → Option (LiveEvent D)
  given events k = elim events [ none ↦ none | some e ↦ some (e k) ]

module _ {P D S : Type 0} ⦃f : DoubleOps D⦄ where
  -- When a block of `n` events is accepted into an input queue that holds `q`.
  pub record Accepts (s : Session P D S) (self : ℕ) (events : ℕ → LiveEvent D) (n sequence : ℕ)
      (q : List (Block D S)) : Type 0 where
    pub few : n ≤ max_events
    pub tagged : sequence ≢ no_sequence
    pub on_control : s.control ≡ self
    pub going : s.stop ≡ false
    pub settled : s.restart ≡ false
    pub unfinished : is_finished s.phase ≡ false
    pub admissible : (k : ℕ) → 0 ≤ k → k < 0 + n → IsAdmissible s.setup events k
    pub room : length q < s.config.queue_blocks

  -- The block that an accepted write leaves at the end of the queue.
  pub record IsWritten (s : Session P D S) (samples : ℕ → S) (events : Option (ℕ → LiveEvent D))
      (n sequence : ℕ) (b : Block D S) : Type 0 where
    pub count : b.n ≡ n
    pub tag : b.input_sequence ≡ sequence
    pub audio : (j : ℕ) → j < block_samples s → b.samples j ≡ samples j
    pub list : (k : ℕ) → k < n → some (b.events k) ≡ given events k

  written :
      (s : Session P D S) (samples : ℕ → S) (events : Option (ℕ → LiveEvent D)) (n sequence : ℕ)
      (b : Block D S)
      → (is_none events ≡ true → n ≡ 0)
      → IsWritten s samples events n sequence (write_block s samples events n sequence b)
  unfolding write_block
  written s samples none n sequence b empty = record {
    count = refl;
    tag = refl;
    audio = λ j h. ground arith;
    list = λ k h. absurd (omega (arith, empty refl));
  }
  written s samples (some events) n sequence b empty = record {
    count = refl;
    tag = refl;
    audio = λ j h. ground arith;
    list = λ k h. let same : copy n events b.events k ≡ events k = ground arith in ap some same;
  }

  module _ (s : Session P D S) (q : List (Block D S)) (samples : ℕ → S)
      (events : Option (ℕ → LiveEvent D)) (n sequence : ℕ)
      (holds : Holds s.config.queue_blocks s.input q) where
    enqueue-ok :
        length q < s.config.queue_blocks
        → (b : Block D S) × (enqueue s samples events n sequence ≡ (
          ok,
          record s {
            input =
                publish s.config.queue_blocks (write_block s samples events n sequence b) s.input;
          },
        ))
    unfolding enqueue
    enqueue-ok room =
        let (b, e) = back_slot-Holds holds in (b, ground (arith, e, is_full-length holds))

    enqueue_to : (enqueue s samples events n sequence).0 ≡ ok → length q < s.config.queue_blocks
    unfolding enqueue
    enqueue_to h = ground (arith, is_full-length holds, holds.fits)

  -- A write is refused as it stands or is settled by the queue, to which an absent array brings no
  -- event.
  try_write_to :
      (s : Session P D S) (self : ℕ) (samples : ℕ → S) (events : Option (ℕ → LiveEvent D))
      (n sequence : ℕ)
      → (try_write s self (some samples) events n sequence).0 ≡ ok
      → (is_none events ≡ true → n ≡ 0)
        × (try_write s self (some samples) events n sequence ≡ enqueue s samples events n sequence)
  unfolding try_write
  try_write_to s self samples none n sequence h = (λ e. ground arith, ground arith)
  try_write_to s self samples (some events) n sequence h = (λ e. ground arith, ground arith)

  module _ (s : Session P D S) (q : List (Block D S)) (self : ℕ) (samples : ℕ → S)
      (events : ℕ → LiveEvent D) (n sequence : ℕ)
      (holds : Holds s.config.queue_blocks s.input q) where
    checks_to :
        (try_write s self (some samples) (some events) n sequence).0 ≡ ok
        → (n ≤ max_events)
          × (sequence ≢ no_sequence)
          × (s.control ≡ self)
          × (s.stop ≡ false)
          × (s.restart ≡ false)
          × (is_finished s.phase ≡ false)
          × (check_events s.setup events n 0 ≡ ok)
          × ((enqueue s samples (some events) n sequence).0 ≡ ok)
    unfolding try_write is_control
    checks_to h = (
      ground arith,
      ground arith,
      ground arith,
      ground arith,
      ground arith,
      ground arith,
      ground arith,
      ground arith,
    )

    -- A block with an event array of bytes is accepted exactly in these conditions: on the control
    -- thread, while the session is neither stopping, restarting nor finished, under a tag other than
    -- UINT64_MAX, with at most 64 admissible events, and while the queue has a free slot.
    pub try_write_iff :
        ((k : ℕ) → (events k).bytes 0 < 256)
        → ((try_write s self (some samples) (some events) n sequence).0 ≡ ok)
          ↔ Accepts s self events n sequence q
    unfolding try_write is_control
    try_write_iff byte = (
      λ h.
          let (few, tagged, thread, going, settled, unfinished, events_ok, room) = checks_to h in
          record {
            few = few;
            tagged = tagged;
            on_control = thread;
            going = going;
            settled = settled;
            unfinished = unfinished;
            admissible = (check_events_iff s.setup events n 0 byte).0 events_ok;
            room = enqueue_to s q samples (some events) n sequence holds room;
          },
      λ v. ground (
        arith,
        v.few,
        v.tagged,
        v.on_control,
        v.going,
        v.settled,
        v.unfinished,
        (check_events_iff s.setup events n 0 byte).1 v.admissible,
        (enqueue-ok s q samples (some events) n sequence holds v.room).1,
      ),
    )

  -- A write that is accepted, with or without an event array, appends one block with the samples,
  -- events and tag given to the input queue; it changes nothing else of the session.
  pub try_write_appends :
      (s : Session P D S) (q : List (Block D S)) (self : ℕ) (samples : ℕ → S)
      (events : Option (ℕ → LiveEvent D)) (n sequence : ℕ)
      → Holds s.config.queue_blocks s.input q
      → (try_write s self (some samples) events n sequence).0 ≡ ok
      → (b : Block D S) × IsWritten s samples events n sequence b
        × Holds s.config.queue_blocks
            (try_write s self (some samples) events n sequence).1.input
            (q ++ b ∷ [])
        × ((try_write s self (some samples) events n sequence).1
            ≡ record s { input = (try_write s self (some samples) events n sequence).1.input })
  try_write_appends s q self samples events n sequence holds h =
      let (empty, to) = try_write_to s self samples events n sequence h in
      let room = enqueue_to s q samples events n sequence holds (ap (λ r. r.0) (sym to) ∙ h) in
      let (b, e) = enqueue-ok s q samples events n sequence holds room in
      let new = write_block s samples events n sequence b in
      let whole = to ∙ e in
      (
        new,
        written s samples events n sequence b empty,
        rw whole (publish-Holds new holds room),
        rw whole refl,
      )

  -- A refused write changes nothing, whatever its arguments and its reason.
  pub try_write_refused :
      (s : Session P D S) (self : ℕ) (samples : Option (ℕ → S)) (events : Option (ℕ → LiveEvent D))
      (n sequence : ℕ)
      → (try_write s self samples events n sequence).0 ≢ ok
      → (try_write s self samples events n sequence).1 ≡ s
  unfolding try_write enqueue
  try_write_refused s self none events n sequence h = refl
  try_write_refused s self (some samples) none n sequence h = ground arith
  try_write_refused s self (some samples) (some events) n sequence h = ground arith
