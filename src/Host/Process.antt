-- ===== src/Host/Process.antt =====
-- `clap_process` of csrc/clap_host.c, one block through the plugin.
use audio_plugins_jl.Base.{
  ℕ, ◌+◌, ◌-◌, Bool, true, false, not, ◌&&◌, ◌||◌, none, some, [], ltb, ◌==◌, if◌then◌else◌,
}
use audio_plugins_jl.Base.Loops.{for_range, update}
use audio_plugins_jl.Host.Types.{
  param_slots, Doubles, Floats, Target, in_row, out_row, aux, sink, nothing_open, process_failed,
  PluginOps, ProcessArgs,
}
use audio_plugins_jl.Host.State.{State, Ctx, set_err, host_requests}
use audio_plugins_jl.Host.Tokens.{next_token, token_matches}
use audio_plugins_jl.Host.Params.{is_nan, not_negative, queue_param}

module _ {P D S : Type 0} ⦃f : Doubles D⦄ where
  -- The slot `i` of the call, with the value `val` for the parameter `id`.
  unfoldable pub drive_slot : (ℕ → D) → (ℕ → D) → ℕ → State P D S → State P D S
  drive_slot ids vals i s =
      if not (not_negative (ids i))
      then record s {
        slot_id = update s.slot_id i (f.neg (f.of_ℕ 1));
        slot_val = update s.slot_val i f.nan;
      }
      else if not (f.same (s.slot_id i) (ids i))
          || is_nan (s.slot_val i)
          || not (f.same (s.slot_val i) (vals i))
      then record s {
        ev = elim (queue_param (ids i) (vals i) s.ev) [ none ↦ s.ev | some ev ↦ ev ];
        slot_id = update s.slot_id i (ids i);
        slot_val = update s.slot_val i (vals i);
      }
      else s

  -- What a channel pointer reads.
  unfoldable pub read_target : State P D S → Target → ℕ → S
  read_target s (in_row c) = s.input c
  read_target s (out_row c) = s.output c
  read_target s aux = s.aux_in
  read_target s sink = s.sink

  -- What the plugin writes through the pointer of channel `k`.
  unfoldable pub write_target : ℕ → (ℕ → S) → Target → State P D S → State P D S
  write_target block v (in_row c) s = record s {
    input = λ ch i. if ch == c && ltb i block then v i else s.input ch i;
  }
  write_target block v (out_row c) s = record s {
    output = λ ch i. if ch == c && ltb i block then v i else s.output ch i;
  }
  write_target block v aux s = record s { aux_in = λ i. if ltb i block then v i else s.aux_in i }
  write_target block v sink s = record s { sink = λ i. if ltb i block then v i else s.sink i }

  -- All its output channels.
  unfoldable pub write_outputs : (ℕ → ℕ → S) → State P D S → State P D S
  unfolding write_target
  write_outputs v s =
      for_range s.layout.n_out_chan 0 (λ k t. write_target s.block (v k) (s.layout.out_ptr k) t) s

  unfoldable pub process_args : State P D S → ProcessArgs D S
  unfolding read_target
  process_args s = record {
    steady_time = s.steady;
    frames_count = s.block;
    audio_inputs_count = s.layout.n_in_ports;
    audio_outputs_count = s.layout.n_out_ports;
    audio_inputs = λ k. read_target s (s.layout.in_ptr k);
    events = s.ev;
  }

module _ {P D S : Type 0} ⦃f : Doubles D⦄ ⦃g : Floats D S⦄ where
  -- `aux_in` is silenced before a plugin with channels past the main input sees it.
  unfoldable pub clear_aux : State P D S → State P D S
  clear_aux s =
      if s.layout.n_in_aux == 0
      then s
      else record s { aux_in = λ i. if ltb i s.block then g.to_float (f.of_ℕ 0) else s.aux_in i }

  -- A host channel that the main output did not fill.
  unfoldable pub fill_channel : ℕ → State P D S → State P D S
  fill_channel c s =
      if c == 1 && s.layout.n_out_main == 1
      then record s {
        output = λ ch i. if ch == 1 && ltb i s.block then s.output 0 i else s.output ch i;
      }
      else record s {
        output = λ ch i. if ch == c && ltb i s.block then g.to_float (f.of_ℕ 0) else s.output ch i;
      }

  -- `for (c = n_out_main; c < chan; c++)`
  unfoldable pub fill_outputs : State P D S → State P D S
  unfolding fill_channel
  fill_outputs s = for_range (s.chan - s.layout.n_out_main) s.layout.n_out_main fill_channel s

  -- The plugin's call and the counters after it.
  unfoldable pub call_plugin : PluginOps P D S → P → State P D S → Bool × State P D S
  unfolding process_args write_outputs
  call_plugin ops p s =
      let reply = ops.process p (process_args s) in
      let t = write_outputs reply.outputs s in
      (
        reply.failed,
        record t {
          plugin = some reply.next;
          requests = host_requests reply.calls t.requests;
          n_process = t.n_process + 1;
          steady = t.steady + t.block;
          ev = [];
        },
      )

  -- A block that the plugin has been through, or has failed on.
  unfoldable pub finish : Bool → Ctx P D S → D × Ctx P D S
  finish true c = (f.nan, record (set_err process_failed c) { st = record (c.st) { out_n = 0 } })
  finish false c =
      let t = record c { st = record (fill_outputs c.st) { out_n = c.st.block } } in
      let (token, u) = next_token t t.st.out_token in
      (token, record u { st = record (u.st) { out_token = token } })

  -- An open state always has a plugin; `none` would change nothing.
  unfoldable pub process : PluginOps P D S → D → (ℕ → D) → (ℕ → D) → Ctx P D S → D × Ctx P D S
  process ops dep ids vals c =
      if not c.st.is_open
      then (f.nan, set_err nothing_open c)
      else if not (token_matches c.legacy dep c.st.in_token) || f.same c.st.in_token (f.of_ℕ 0)
      then (f.nan, c)
      else elim c.st.plugin [
        | none ↦ (f.nan, c)
        | some p ↦
            let driven = for_range param_slots 0 (drive_slot ids vals) c.st in
            let (failed, after) = call_plugin ops p (clear_aux driven) in
            finish failed (record c { st = after })
      ]
