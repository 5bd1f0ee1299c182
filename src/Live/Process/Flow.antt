-- ===== src/Live/Process/Flow.antt =====
-- A block's way through `process_block`: in at the input queue, through the plugin, out at the
-- output queue.
use audio_plugins_jl.Base.{ℕ, ◌<◌, ◌≡◌, ◌∙◌, false, none, List, [], ◌∷◌, ◌++◌, length}
use audio_plugins_jl.Base.Words.{add32}
use audio_plugins_jl.Ring.Fifo.{Holds, consume-Holds}
use audio_plugins_jl.Live.Types.{Block, ProcessArgs, PluginOps}
use audio_plugins_jl.Live.Session.{Session}
use audio_plugins_jl.Live.Queue.{no_sequence}
use audio_plugins_jl.Live.Process.{fetch, overlay, process_args, run_plugin, process_block}
use audio_plugins_jl.Live.Process.Refine.{
  IsHanded, handed, fetched, fetch_value, fetch_empty, starved,
}
use audio_plugins_jl.Live.Process.Result.{
  planes, outcome, IsResult, emit, emit_room, emit_full, run_plugin-Ran,
}

module _ {P D S : Type 0} (ops : PluginOps P D S) (s : Session P D S) (spent : ℕ) where
  -- With the input settled as `(t, sequence)`, the rest of the block is `emit`.
  settled :
      (t : Session P D S) (sequence : ℕ)
      → s.stop ≡ false
      → fetch s false ≡ (t, sequence)
      → ((process_block ops s none none spent).0 ≡ (run_plugin ops t).0)
        × ((process_block ops s none none spent).2 ≡ emit ops t sequence spent)
  unfolding process_block overlay emit
  settled t sequence going e = (simp (going, e), simp (going, e))

  module _ (going : s.stop ≡ false) (p : List (Block D S))
      (out : Holds s.config.queue_blocks s.output p) where
    -- While the session is not stopping, a block is queued and the output queue has a free slot: the
    -- plugin is handed the oldest queued block, with its events; that block leaves the input queue;
    -- and what the plugin makes of it, or silence if it reports an error, enters the output queue
    -- under the block's own tag and the current tick.
    pub process_block_flow :
        (b : Block D S) (q : List (Block D S))
        → Holds s.config.queue_blocks s.input (b ∷ q)
        → length p < s.config.queue_blocks
        → (a : ProcessArgs D S) × IsHanded s b a
          × ((process_block ops s none none spent).0 ≡ outcome (ops.process s.plugin a).status)
          × Holds s.config.queue_blocks (process_block ops s none none spent).2.input q
          × (r : Block D S) × IsResult s.setup s.tick
              (planes s (ops.process s.plugin a))
              b.input_sequence
              r
          × Holds s.config.queue_blocks (process_block ops s none none spent).2.output (p ++ r ∷ [])
    process_block_flow b q holds room =
        let e = fetch_value s b q false holds in
        let (status, rest) = settled (fetched s b) b.input_sequence going e in
        let (r, made, sent, input_kept, _, _) =
          emit_room ops (fetched s b) b.input_sequence spent p out room in
        (
          process_args (fetched s b),
          handed s b,
          status ∙ (run_plugin-Ran ops (fetched s b)).1,
          rw (rest, input_kept) (consume-Holds holds),
          r,
          made,
          rw rest sent,
        )

    -- While the session is not stopping, no device is attached and the output queue has a free slot,
    -- but without a queued block, the plugin still runs, on silence and no events; its result is tagged UINT64_MAX, and
    -- one underrun is counted.
    pub process_block_underrun :
        Holds s.config.queue_blocks s.input []
        → length p < s.config.queue_blocks
        → (r : Block D S) × IsResult s.setup s.tick
            (planes s (ops.process s.plugin (process_args (starved s false))))
            no_sequence
            r
          × Holds s.config.queue_blocks (process_block ops s none none spent).2.output (p ++ r ∷ [])
          × ((process_block ops s none none spent).2.counters.underruns
              ≡ add32 s.counters.underruns 1)
          × ((process_block ops s none none spent).2.counters.overruns ≡ s.counters.overruns)
    process_block_underrun holds room =
        let e = fetch_empty s false holds in
        let (_, rest) = settled (starved s false) no_sequence going e in
        let (r, made, sent, _, overruns, underruns) =
          emit_room ops (starved s false) no_sequence spent p out room in
        (r, made, rw rest sent, rw rest underruns, rw rest overruns)

    -- While the session is not stopping, no device is attached and a block is queued, but the output queue is full, the
    -- result is dropped and one overrun counted, and the input block is used up all the same.
    pub process_block_overrun :
        (b : Block D S) (q : List (Block D S))
        → Holds s.config.queue_blocks s.input (b ∷ q)
        → length p ≡ s.config.queue_blocks
        → Holds s.config.queue_blocks (process_block ops s none none spent).2.input q
          × ((process_block ops s none none spent).2.output ≡ s.output)
          × ((process_block ops s none none spent).2.counters.overruns
              ≡ add32 s.counters.overruns 1)
    process_block_overrun b q holds full =
        let e = fetch_value s b q false holds in
        let (_, rest) = settled (fetched s b) b.input_sequence going e in
        let (kept, input_kept, overruns, _) =
          emit_full ops (fetched s b) b.input_sequence spent p out full in
        (rw (rest, input_kept) (consume-Holds holds), rw rest kept, rw rest overruns)
