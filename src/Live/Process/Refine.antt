-- ===== src/Live/Process/Refine.antt =====
-- `process_block` against the two queues: which block the plugin gets, and which the reader will.

use audio_plugins_jl.Base.{
  ℕ, ◌+◌, ◌*◌, ◌<◌, ◌≤◌, ◌≡◌, refl, Bool, none, some, List, [], ◌∷◌, arith, if◌then◌else◌,
}
use audio_plugins_jl.Base.Loops.{for_range_inv}
use audio_plugins_jl.Live.Interleave.{deinterleave, deinterleave_lem}
use audio_plugins_jl.Ring.{consume}
use audio_plugins_jl.Live.Queue.{no_sequence}
use audio_plugins_jl.Base.Words.{add32}
use audio_plugins_jl.Ring.Fifo.{Holds, is_empty-length, front_slot-Holds, consume-Holds}
use audio_plugins_jl.Live.Types.{LiveEvent, Block, HostEvent, ProcessArgs}
use audio_plugins_jl.Live.Session.{Session, event_get}
use audio_plugins_jl.Live.Process.{host_event, convert_events, silence, fetch, process_args}

convert_events_lem :
    {D : Type 0} (n : ℕ) (events : ℕ → LiveEvent D) (old : ℕ → HostEvent D) (k : ℕ)
    → k < n
    → convert_events n events old k ≡ host_event (events k) (events k).type
unfolding convert_events
convert_events_lem {D} n events old k h =
    for_range_inv
      (λ i (v : ℕ → HostEvent D). (j : ℕ) → j < i → v j ≡ host_event (events j) (events j).type) _ n
      0 n old (λ i v _ _ done j lt. ground (arith, done j)) (omega arith)
      (λ j lt. absurd (omega arith)) k h

module _ {P D S : Type 0} where
  -- The session once the block `b` has been taken from its input queue.
  abbrev pub fetched : Session P D S → Block D S → Session P D S
  fetched s b = record s {
    in_ptr = deinterleave s.config.channels s.config.block_size b.samples s.in_ptr;
    nevents = b.n;
    events = convert_events b.n b.events s.events;
    input = consume s.input;
  }

  -- The session when its input queue had no block.
  abbrev pub starved : Session P D S → Bool → Session P D S
  starved s captures = record s {
    nevents = 0;
    in_ptr = λ ch. silence s;
    counters = record (s.counters) {
      underruns = if captures then s.counters.underruns else add32 s.counters.underruns 1;
    };
  }

  pub fetch_value :
      (s : Session P D S) (b : Block D S) (q : List (Block D S)) (captures : Bool)
      → Holds s.config.queue_blocks s.input (b ∷ q)
      → fetch s captures ≡ (fetched s b, b.input_sequence)
  unfolding fetch
  fetch_value s b q captures holds = ground (arith, is_empty-length holds, front_slot-Holds holds)

  pub fetch_empty :
      (s : Session P D S) (captures : Bool)
      → Holds s.config.queue_blocks s.input []
      → fetch s captures ≡ (starved s captures, no_sequence)
  unfolding fetch
  fetch_empty s captures holds = ground (arith, is_empty-length holds)

  -- A queued block, in channels, with its events: what the plugin is to be handed.
  pub record IsHanded (s : Session P D S) (b : Block D S) (a : ProcessArgs D S) : Type 0 where
    pub length_of : a.frames_count ≡ s.config.block_size
    pub audio_of :
        (ch i : ℕ)
        → ch < s.config.channels
        → i < s.config.block_size
        → a.audio_inputs ch i ≡ b.samples (i * s.config.channels + ch)
    pub event_number : a.event_count ≡ b.n
    pub event_of :
        (k : ℕ) → k < b.n → a.event_get k ≡ some (host_event (b.events k) (b.events k).type)
    pub no_more : (k : ℕ) → b.n ≤ k → a.event_get k ≡ none

  pub handed : (s : Session P D S) (b : Block D S) → IsHanded s b (process_args (fetched s b))
  unfolding process_args event_get
  handed s b = record {
    length_of = refl;
    audio_of = deinterleave_lem s.config.channels s.config.block_size b.samples s.in_ptr;
    event_number = refl;
    event_of = λ k h. ground (arith, convert_events_lem b.n b.events s.events k h);
    no_more = λ k h. ground arith;
  }

  -- The oldest block of the input queue is taken out, and the plugin is handed that block.
  pub fetch-IsHanded :
      (s : Session P D S) (b : Block D S) (q : List (Block D S)) (captures : Bool)
      → Holds s.config.queue_blocks s.input (b ∷ q)
      → Holds s.config.queue_blocks (fetch s captures).0.input q
        × IsHanded s b (process_args (fetch s captures).0)
        × ((fetch s captures).1 ≡ b.input_sequence)
  fetch-IsHanded s b q captures holds =
      let e = fetch_value s b q captures holds in
      (rw e (consume-Holds holds), rw e (handed s b), rw e)

  -- With an empty input queue the plugin is handed silence without events, tagged UINT64_MAX.
  pub fetch-silent :
      (s : Session P D S) (captures : Bool)
      → Holds s.config.queue_blocks s.input []
      → Holds s.config.queue_blocks (fetch s captures).0.input []
        × ((process_args (fetch s captures).0).event_count ≡ 0)
        × ((ch i : ℕ) → (process_args (fetch s captures).0).audio_inputs ch i ≡ s.zero)
        × ((fetch s captures).1 ≡ no_sequence)
  unfolding process_args
  fetch-silent s captures holds =
      let e = fetch_empty s captures holds in (rw e holds, rw e, rw e (λ ch i. refl), rw e)
