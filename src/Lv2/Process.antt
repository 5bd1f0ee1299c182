-- ===== src/Lv2/Process.antt =====
-- `lv2_process` of csrc/lv2_host.c, one block through the plugin, and the output block.
use audio_plugins_jl.Base.{
  ℕ, suc, ◌-◌, ◌*◌, Bool, false, not, ◌&&◌, ◌||◌, none, some, ltb, ◌==◌, if◌then◌else◌,
}
use audio_plugins_jl.Base.Loops.{for_range, for_grid, update}
use audio_plugins_jl.Host.Types.{index_below, Doubles, Floats}
use audio_plugins_jl.Host.Params.{is_nan, not_negative}
use audio_plugins_jl.Host.Input.{sample_at}
use audio_plugins_jl.Lv2.State.{
  State, Slot, set_error, control_slots, head_atom_out, plugin_closed, refused_block,
}
use audio_plugins_jl.Lv2.Input.{is_number, is_armed}

-- What `lilv_instance_run` of one block finds in the connected buffers.
pub record RunArgs (S : Type 0) : Type 0 where
  pub frames : ℕ
  pub input : ℕ → ℕ → S
  pub side_in : ℕ → S
  pub ctrl : ℕ → S
  pub slots : ℕ → Slot

-- The instance afterwards, the samples of its main outputs, and its control outputs; what it writes to
-- the sink and to atom outputs is not read, and its inputs stay as they are.
pub record RunReply (P S : Type 0) : Type 0 where
  pub inst : P
  pub output : ℕ → ℕ → S
  pub ctrl_out : ℕ → S

module _ {P D S : Type 0} where
  abbrev pub head_output : ℕ → State P D S → State P D S
  head_output i s = if (s.slots i).is_input then s else head_atom_out i s

module _ {P D S : Type 0} ⦃f : Doubles D⦄ ⦃g : Floats D S⦄ where
  -- Slot `i` of the call sets a control input.
  unfoldable pub set_control : (ℕ → D) → (ℕ → D) → ℕ → State P D S → State P D S
  set_control ids vals i s =
      if not (f.is_finite (ids i)) || not (not_negative (ids i)) || is_nan (vals i)
      then s
      else elim (index_below (f.to_long (f.add (ids i) f.half)) s.n_ports) [
        | none ↦ s
        | some k ↦
            if s.is_ctrl_in k then record s { ctrl = update s.ctrl k (g.to_float (vals i)) } else s
      ]

  -- All that precedes the run: the controls, the atom outputs and the silent side inputs.
  unfoldable pub prepare_run : (ℕ → D) → (ℕ → D) → State P D S → State P D S
  unfolding set_control
  prepare_run ids vals s =
      let t = for_range control_slots 0 (set_control ids vals) s in
      record (for_range t.n_atom 0 head_output t) { side_in = λ i. g.to_float (f.of_ℕ 0) }

  -- The plugin writes its first `chan` main outputs and its control outputs.
  unfoldable pub run_inst : (P → RunArgs S → RunReply P S) → State P D S → State P D S
  run_inst run s =
      let r = run s.inst (record {
        frames = s.block;
        input = s.input;
        side_in = s.side_in;
        ctrl = s.ctrl;
        slots = s.slots;
      }) in
      record s {
        inst = r.inst;
        output = λ c i.
            if ltb c s.n_audio_out && ltb c s.chan && ltb i s.block
            then r.output c i
            else s.output c i;
        ctrl = λ k. if s.is_ctrl_out k then r.ctrl_out k else s.ctrl k;
        n_process = suc s.n_process;
      }

  -- A channel that no main output feeds repeats the last one.
  unfoldable pub repeat_last : State P D S → State P D S
  repeat_last s = record s {
    output = λ c i.
        if ltb 0 s.n_audio_out && ltb s.n_audio_out (suc c) && ltb c s.chan && ltb i s.block
        then s.output (s.n_audio_out - 1) i
        else s.output c i;
  }

  unfoldable pub lv2_process :
      (P → RunArgs S → RunReply P S) → D → (ℕ → D) → (ℕ → D) → State P D S → D × State P D S
  unfolding is_armed prepare_run run_inst repeat_last
  lv2_process run dep ids vals s =
      if not s.is_open
      then (f.nan, set_error plugin_closed s)
      else if not (is_armed dep s)
      then (f.nan, s)
      else if s.midi_bad
      then (f.nan, set_error refused_block s)
      else let t =
          repeat_last (run_inst run (prepare_run ids vals (record s { in_armed = false }))) in
        (f.of_ℕ (suc t.out_token), record t { out_n = t.block; out_token = suc t.out_token })

module _ {P D S : Type 0} ⦃f : Doubles D⦄ where
  unfoldable pub lv2_out_ok : D → State P D S → Bool
  unfolding is_number
  lv2_out_ok dep s =
      s.is_open
      && f.is_finite dep
      && not (s.out_token == 0)
      && is_number (f.to_long (f.add dep f.half)) s.out_token

  unfoldable pub lv2_out_count : D → State P D S → D
  lv2_out_count dep s = if lv2_out_ok dep s then f.of_ℕ s.out_n else f.nan

  unfoldable pub lv2_out_valid : D → State P D S → D
  lv2_out_valid dep s = if lv2_out_ok dep s then f.of_ℕ 1 else f.of_ℕ 0

module _ {P D S : Type 0} ⦃f : Doubles D⦄ ⦃g : Floats D S⦄ where
  unfoldable pub lv2_out_sample : D → D → D → State P D S → D
  lv2_out_sample dep i ch s =
      if not (lv2_out_ok dep s) || not (f.is_finite i) || not (f.is_finite ch)
      then f.nan
      else sample_at s.output s.out_n s.chan i ch

  unfoldable pub lv2_out_rms : D → State P D S → D
  lv2_out_rms dep s =
      if not (lv2_out_ok dep s)
      then f.nan
      else if s.out_n == 0
      then f.of_ℕ 0
      else let sum =
          for_grid s.chan s.out_n
            (λ c i acc. f.add acc (f.mul (g.of_float (s.output c i)) (g.of_float (s.output c i))))
            (f.of_ℕ 0) in
        f.sqrt (f.div sum (f.of_ℕ (s.out_n * s.chan)))

  unfoldable pub lv2_out_peak : D → State P D S → D
  lv2_out_peak dep s =
      if not (lv2_out_ok dep s)
      then f.nan
      else for_grid s.chan s.out_n
          (λ c i m. let a = f.fabs (g.of_float (s.output c i)) in if f.less m a then a else m)
          (f.of_ℕ 0)
