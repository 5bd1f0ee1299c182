-- ===== src/Live/Process.antt =====
-- `process_block` of csrc/clap_live.c, one block on the audio thread.
pub mod Calls
pub mod Refine
pub mod Result
pub mod Flow
use audio_plugins_jl.Base.{
  ℕ, zero, suc, ◌+◌, ◌-◌, ◌*◌, ◌%◌, ◌^◌, Bool, true, false, not, ◌&&◌, ◌||◌, Option, none, some,
  List, [], ◌∷◌, ltb, ◌==◌, if◌then◌else◌,
}
use audio_plugins_jl.Base.Words.{add32, add64, u64}
use audio_plugins_jl.Base.Loops.{for_range, update}
use audio_plugins_jl.Ring.{is_full, is_empty, back_slot, front_slot, publish, consume}
use audio_plugins_jl.Live.Types.{
  Status, ok, stopped, plugin_error, LiveEvent, EventType, param, midi, other, Block, HostEvent,
  param_value, midi_data, ProcessArgs, ProcessStatus, process_error, process_done, ProcessReply,
  PluginOps,
}
use audio_plugins_jl.Live.Interleave.{deinterleave, interleave}
use audio_plugins_jl.Live.Session.{Session, Counters, event_get, host_calls}
use audio_plugins_jl.Live.Queue.{no_sequence}

-- One event of a block as the plugin will read it.
unfoldable pub host_event : {D : Type 0} → LiveEvent D → EventType → HostEvent D
host_event e param = param_value e.frame e.param_id e.value
host_event e midi = midi_data e.frame (e.bytes 0) (e.bytes 1) (e.bytes 2)
host_event e other = midi_data e.frame (e.bytes 0) (e.bytes 1) (e.bytes 2)

-- `for (i = 0; i < b->n; ++i)` over the block's events.
unfoldable pub convert_events :
    {D : Type 0} → ℕ → (ℕ → LiveEvent D) → (ℕ → HostEvent D) → ℕ → HostEvent D
unfolding host_event
convert_events n events old =
    for_range n 0 (λ i v. update v i (host_event (events i) (events i).type)) old

module _ {P D S : Type 0} where
  abbrev pub silence : Session P D S → ℕ → S
  silence s j = s.zero

  -- The input side: the oldest queued block, or silence, which counts as an underrun unless a
  -- device captures. A slot out of bounds, `none`, changes nothing.
  unfoldable pub fetch : Session P D S → Bool → Session P D S × ℕ
  fetch s captures =
      if is_empty s.input
      then (
        record s {
          nevents = 0;
          in_ptr = λ ch. silence s;
          counters = record (s.counters) {
            underruns = if captures then s.counters.underruns else add32 s.counters.underruns 1;
          };
        },
        no_sequence,
      )
      else elim (front_slot s.config.queue_blocks s.input) [
        | none ↦ (s, no_sequence)
        | some b ↦ (
          record s {
            in_ptr = deinterleave s.config.channels s.config.block_size b.samples s.in_ptr;
            nevents = b.n;
            events = convert_events b.n b.events s.events;
            input = consume s.input;
          },
          b.input_sequence,
        )
      ]

  -- A capture buffer takes the place of the queued samples, under the tick as its sequence.
  unfoldable pub overlay : Option (ℕ → S) → Session P D S × ℕ → Session P D S × ℕ
  overlay none (s, sequence) = (s, sequence)
  overlay (some capture) (s, sequence) = (
    record s { in_ptr = deinterleave s.config.channels s.config.block_size capture s.in_ptr },
    s.tick,
  )

  -- What the plugin is handed.
  unfoldable pub process_args : Session P D S → ProcessArgs D S
  unfolding event_get
  process_args s = record {
    steady_time = s.steady;
    frames_count = s.config.block_size;
    audio_inputs = s.in_ptr;
    audio_outputs = λ ch. silence s;
    event_count = s.nevents;
    event_get = event_get s;
  }

  -- CLAP_PROCESS_ERROR silences the block and stops the session.
  unfoldable pub judge : ProcessStatus → Session P D S → Status × Session P D S
  judge process_error s = (
    plugin_error,
    record s {
      out_ptr = λ ch. silence s;
      counters = record (s.counters) { process_errors = add32 s.counters.process_errors 1 };
      error = plugin_error;
      stop = true;
    },
  )
  judge process_done s = (ok, s)

  -- The call of the plugin, its calls back, and its latency where the adapter reports one.
  unfoldable pub run_plugin : PluginOps P D S → Session P D S → Status × Session P D S
  run_plugin ops s =
      let reply = ops.process s.plugin (process_args s) in
      let after =
        host_calls reply.calls (record s { plugin = reply.next; out_ptr = reply.outputs }) in
      judge reply.status (record after {
        latency = elim (ops.audio_latency reply.next) [ none ↦ after.latency | some l ↦ l ];
      })

  -- The output slot after its stores.
  unfoldable pub result_block : Session P D S → ℕ → Block D S → Block D S
  result_block s sequence b = record b {
    samples = interleave s.config.channels s.config.block_size s.out_ptr b.samples;
    tick = s.tick;
    input_sequence = sequence;
  }

  count_overrun : Session P D S → Session P D S
  count_overrun s = record s {
    counters = record (s.counters) { overruns = add32 s.counters.overruns 1 };
  }

  -- The output side: a slot of the output queue, or an overrun.
  unfoldable pub deliver : Session P D S → ℕ → Session P D S
  unfolding count_overrun
  deliver s sequence =
      let size = s.config.queue_blocks in
      if is_full size s.output then count_overrun s else elim (back_slot size s.output) [
        | none ↦ s
        | some b ↦ record s { output = publish size (result_block s sequence b) s.output }
      ]

  -- The clocks and counters at the end of a block that took `spent` nanoseconds.
  unfoldable pub finish : Session P D S → ℕ → Session P D S
  finish s spent = record s {
    tick = add64 s.tick 1;
    steady =
        if ltb (2 ^ 63 - 1 - s.config.block_size) s.steady
        then 0
        else s.steady + s.config.block_size;
    counters = record (s.counters) {
      blocks = add32 s.counters.blocks 1;
      deadline_misses =
          if ltb s.period_ns spent
          then add32 s.counters.deadline_misses 1
          else s.counters.deadline_misses;
    };
  }

  -- `device_output` is the caller's buffer, if there is one; `spent` is the time that the block
  -- took, by the two readings of the clock.
  unfoldable pub process_block :
      PluginOps P D S
      → Session P D S
      → Option (ℕ → S)
      → Option (ℕ → S)
      → ℕ
      → Status × Option (ℕ → S) × Session P D S
  process_block ops s device_output capture spent =
      if s.stop
      then (stopped, elim device_output [ none ↦ none | some d ↦ some (silence s) ], s)
      else let (s1, sequence) =
          overlay capture (fetch s (elim capture [ none ↦ false | some c ↦ true ])) in
        let (result, s2) = run_plugin ops s1 in
        (
          result,
          elim device_output [
            | none ↦ none
            | some d ↦ some (interleave s2.config.channels s2.config.block_size s2.out_ptr d)
          ],
          finish (deliver s2 sequence) spent,
        )
