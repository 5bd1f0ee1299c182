-- ===== src/Live/Process/Result.antt =====
-- What one call of `process_block` does to the two queues, the plugin's part included.
use audio_plugins_jl.Base.{
  ℕ, ◌+◌, ◌*◌, ◌<◌, ◌≡◌, refl, sym, ap, subst, List, [], ◌∷◌, ◌++◌, length, arith,
}
use mathlib.Core.Path.{subst₂, subst₃}
use audio_plugins_jl.Base.Words.{add32}
use audio_plugins_jl.Ring.{publish}
use audio_plugins_jl.Ring.Fifo.{Holds, is_full-length, back_slot-Holds, publish-Holds}
use audio_plugins_jl.Live.Types.{
  Status, ok, plugin_error, Block, ProcessStatus, process_error, process_done, ProcessReply,
  PluginOps,
}
use audio_plugins_jl.Live.Interleave.{interleave_lem}
use audio_plugins_jl.Live.Session.{Session, Setup}
use audio_plugins_jl.Live.Process.{
  silence, process_args, judge, run_plugin, result_block, deliver, finish,
}
use audio_plugins_jl.Live.Process.Calls.{host_calls_lem}

abbrev pub outcome : ProcessStatus → Status
outcome process_error = plugin_error
outcome process_done = ok

-- A block of the output queue, made of the planes that leave `process_block` at a tick.
pub record IsResult {D S : Type 0} (c : Setup D) (tick : ℕ) (out : ℕ → ℕ → S) (sequence : ℕ)
    (b : Block D S) : Type 0 where
  pub tick_of : b.tick ≡ tick
  pub tag_of : b.input_sequence ≡ sequence
  pub audio_of :
      (ch i : ℕ)
      → ch < c.config.channels
      → i < c.config.block_size
      → b.samples (i * c.config.channels + ch) ≡ out ch i

module _ {P D S : Type 0} where
  -- The planes that leave a block: the plugin's, or silence if it failed.
  abbrev pub planes : Session P D S → ProcessReply P S → ℕ → ℕ → S
  planes s reply = elim reply.status [
    | process_error ↦ λ ch. silence s
    | process_done ↦ reply.outputs
  ]

  -- What the plugin's call keeps of the session.
  pub record Ran (s t : Session P D S) (reply : ProcessReply P S) : Type 0 where
    pub setup : t.setup ≡ s.setup
    pub input : t.input ≡ s.input
    pub output : t.output ≡ s.output
    pub tick : t.tick ≡ s.tick
    pub out_ptr : t.out_ptr ≡ planes s reply
    pub plugin : t.plugin ≡ reply.next
    pub overruns : t.counters.overruns ≡ s.counters.overruns
    pub underruns : t.counters.underruns ≡ s.counters.underruns
    pub blocks : t.counters.blocks ≡ s.counters.blocks

  pub run_plugin-Ran :
      (ops : PluginOps P D S) (s : Session P D S)
      → Ran s (run_plugin ops s).1 (ops.process s.plugin (process_args s))
        × ((run_plugin ops s).0 ≡ outcome (ops.process s.plugin (process_args s)).status)
  unfolding run_plugin judge
  run_plugin-Ran ops s =
      let reply = ops.process s.plugin (process_args s) in
      let (r, e) =
        host_calls_lem reply.calls (record s { plugin = reply.next; out_ptr = reply.outputs }) in
      rw e (
        record {
          setup = ground arith;
          input = ground arith;
          output = ground arith;
          tick = ground arith;
          out_ptr = ground arith;
          plugin = ground arith;
          overruns = ground arith;
          underruns = ground arith;
          blocks = ground arith;
        },
        ground arith,
      )

  result_block-IsResult :
      (s : Session P D S) (sequence : ℕ) (b : Block D S)
      → IsResult s.setup s.tick s.out_ptr sequence (result_block s sequence b)
  unfolding result_block
  result_block-IsResult s sequence b = record {
    tick_of = refl;
    tag_of = refl;
    audio_of = interleave_lem s.config.channels s.config.block_size s.out_ptr b.samples;
  }

  deliver_room :
      (s : Session P D S) (sequence : ℕ) (p : List (Block D S))
      → Holds s.config.queue_blocks s.output p
      → length p < s.config.queue_blocks
      → (b : Block D S) × (deliver s sequence ≡ record s {
        output = publish s.config.queue_blocks (result_block s sequence b) s.output;
      })
  unfolding deliver
  deliver_room s sequence p holds room =
      let (b, e) = back_slot-Holds holds in (b, ground (arith, e, is_full-length holds))

  deliver_full :
      (s : Session P D S) (sequence : ℕ) (p : List (Block D S))
      → Holds s.config.queue_blocks s.output p
      → length p ≡ s.config.queue_blocks
      → deliver s sequence
        ≡ record s { counters = record (s.counters) { overruns = add32 s.counters.overruns 1 } }
  unfolding deliver
  deliver_full s sequence p holds full = ground (arith, is_full-length holds)

  -- The end of a block, once its input stands in `s`.
  unfoldable pub emit : PluginOps P D S → Session P D S → ℕ → ℕ → Session P D S
  emit ops s sequence spent = finish (deliver (run_plugin ops s).1 sequence) spent

  module _ (ops : PluginOps P D S) (s : Session P D S) (sequence spent : ℕ) (p : List (Block D S))
      (holds : Holds s.config.queue_blocks s.output p) where
    after : Holds (run_plugin ops s).1.config.queue_blocks (run_plugin ops s).1.output p
    after =
        let (ran, _) = run_plugin-Ran ops s in
        subst₂ (λ (c : Setup D) o. Holds c.config.queue_blocks o p) (sym ran.setup) (sym ran.output)
          holds

    pub emit_room :
        length p < s.config.queue_blocks
        → (b : Block D S) × IsResult s.setup s.tick
            (planes s (ops.process s.plugin (process_args s)))
            sequence
            b
          × Holds s.config.queue_blocks (emit ops s sequence spent).output (p ++ b ∷ [])
          × ((emit ops s sequence spent).input ≡ s.input)
          × ((emit ops s sequence spent).counters.overruns ≡ s.counters.overruns)
          × ((emit ops s sequence spent).counters.underruns ≡ s.counters.underruns)
    unfolding emit finish
    emit_room room =
        let (ran, _) = run_plugin-Ran ops s in
        let t = (run_plugin ops s).1 in
        let room' : length p < t.config.queue_blocks =
          subst (λ (c : Setup D). length p < c.config.queue_blocks) (sym ran.setup) room in
        let (b, e) = deliver_room t sequence p after room' in
        let new = result_block t sequence b in
        (
          new,
          subst₃ (λ c k o. IsResult c k o sequence new) ran.setup ran.tick ran.out_ptr
              (result_block-IsResult t sequence b),
          rw e (
              subst
                (λ (c : Setup D).
                  Holds c.config.queue_blocks (publish t.config.queue_blocks new t.output)
                    (p ++ new ∷ []))
                ran.setup (publish-Holds new after room')),
          rw e ran.input,
          rw e ran.overruns,
          rw e ran.underruns,
        )

    pub emit_full :
        length p ≡ s.config.queue_blocks
        → ((emit ops s sequence spent).output ≡ s.output)
          × ((emit ops s sequence spent).input ≡ s.input)
          × ((emit ops s sequence spent).counters.overruns ≡ add32 s.counters.overruns 1)
          × ((emit ops s sequence spent).counters.underruns ≡ s.counters.underruns)
    unfolding emit finish
    emit_full full =
        let (ran, _) = run_plugin-Ran ops s in
        let t = (run_plugin ops s).1 in
        let e =
          deliver_full t sequence p after
            (subst (λ (c : Setup D). length p ≡ c.config.queue_blocks) (sym ran.setup) full) in
        (
          rw e ran.output,
          rw e ran.input,
          rw e (ap (λ k. add32 k 1) ran.overruns),
          rw e ran.underruns,
        )
