-- ===== src/Live/Queue.antt =====
-- `ap_live_try_write` and `ap_live_try_read` of csrc/clap_live.c, the control thread's ends of the
-- two queues. The session pointer is given; a null `samples`, `events`, `tick` or `sequence` is
-- `none`. A slot out of bounds would be `none`; both functions then change nothing.
pub mod Write
pub mod Read
use audio_plugins_jl.Base.{
  ℕ, ◌-◌, ◌*◌, Bool, true, false, not, ◌&&◌, ◌||◌, Option, none, some, ltb, ◌==◌, if◌then◌else◌,
}
use audio_plugins_jl.Base.Words.{u64}
use audio_plugins_jl.Base.Loops.{copy}
use audio_plugins_jl.Ring.{is_full, is_empty, back_slot, front_slot, publish, consume}
use audio_plugins_jl.Live.Types.{
  Status, ok, again, invalid, wrong_thread, wrong_state, Phase, prepared, running, finished,
  max_events, DoubleOps, LiveEvent, Block,
}
use audio_plugins_jl.Live.Session.{Session, is_control}
use audio_plugins_jl.Live.Events.{check_events}

-- UINT64_MAX, the sequence of silence.
abbrev pub no_sequence : ℕ
no_sequence = u64 - 1

abbrev pub is_finished : Phase → Bool
is_finished prepared = false
is_finished running = false
is_finished finished = true

abbrev pub is_none {ℓ} : {A : Type ℓ} → Option A → Bool
is_none none = true
is_none (some a) = false

-- `tick` and `sequence` of a read, and the caller's samples after it.
pub record Reading (S : Type 0) : Type 0 where
  pub samples : ℕ → S
  pub tick : ℕ
  pub sequence : ℕ

module _ {P D S : Type 0} where
  -- `sizeof(float) * channels * block_size` in samples.
  abbrev pub block_samples : Session P D S → ℕ
  block_samples s = s.config.channels * s.config.block_size

  -- The slot after its stores; what the write does not name stays as an older block left it.
  unfoldable pub write_block :
      Session P D S → (ℕ → S) → Option (ℕ → LiveEvent D) → ℕ → ℕ → Block D S → Block D S
  write_block s samples events n sequence b = record b {
    samples = copy (block_samples s) samples b.samples;
    events = elim events [ none ↦ b.events | some e ↦ copy n e b.events ];
    n = n;
    input_sequence = sequence;
  }

  -- The tail of the function, past the checks.
  unfoldable pub enqueue :
      Session P D S → (ℕ → S) → Option (ℕ → LiveEvent D) → ℕ → ℕ → Status × Session P D S
  unfolding write_block
  enqueue s samples events n sequence =
      let size = s.config.queue_blocks in
      if is_full size s.input then (again, s) else elim (back_slot size s.input) [
        | none ↦ (again, s)
        | some b ↦ (
          ok,
          record s { input = publish size (write_block s samples events n sequence b) s.input },
        )
      ]

  unfoldable pub try_read :
      Session P D S → ℕ → Option (ℕ → S) → Bool → Status × Option (Reading S) × Session P D S
  try_read s self none places = (invalid, none, s)
  try_read s self (some samples) places =
      let size = s.config.queue_blocks in
      if not places
      then (invalid, none, s)
      else if not (is_control s self)
      then (wrong_thread, none, s)
      else if is_empty s.output
      then (again, none, s)
      else elim (front_slot size s.output) [
        | none ↦ (again, none, s)
        | some b ↦ (
          ok,
          some (record {
            samples = copy (block_samples s) b.samples samples;
            tick = b.tick;
            sequence = b.input_sequence;
          }),
          record s { output = consume s.output },
        )
      ]

module _ {P D S : Type 0} ⦃f : DoubleOps D⦄ where
  -- The loop over the events; an absent array is read only if `n` is 0, which is never.
  unfoldable pub check_array : Session P D S → Option (ℕ → LiveEvent D) → ℕ → Status
  check_array s none n = ok
  check_array s (some e) n = check_events s.setup e n 0

  unfoldable pub try_write :
      Session P D S → ℕ → Option (ℕ → S) → Option (ℕ → LiveEvent D) → ℕ → ℕ → Status × Session P D S
  unfolding check_array
  try_write s self none events n sequence = (invalid, s)
  try_write s self (some samples) events n sequence =
      if ltb max_events n || (not (n == 0) && is_none events) || sequence == no_sequence
      then (invalid, s)
      else if not (is_control s self)
      then (wrong_thread, s)
      else if s.stop || s.restart || is_finished s.phase
      then (wrong_state, s)
      else elim (check_array s events n) [
        | ok ↦ enqueue s samples events n sequence
        | bad ↦ (bad, s)
      ]
