-- ===== src/Export/Process.antt =====
-- `plug_process` of csrc/clap_plugin_template.c: each frame first takes the events that are due.
pub mod Consecutive
pub mod Values
pub mod Applied
pub mod Cut
pub mod InTwo
pub mod Ahead
pub mod Blocks
pub mod Due
use audio_plugins_jl.Base.{
  ℕ, suc, Bool, true, false, not, ◌||◌, List, [], ◌∷◌, Option, none, some, ltb, ◌==◌, if◌then◌else◌,
}
use audio_plugins_jl.Base.Loops.{for_range, update, update_at}
use audio_plugins_jl.Host.Types.{Doubles, Floats}
use audio_plugins_jl.Export.Program.{Program, Inst}
use audio_plugins_jl.Export.Params.{Event, apply_event, apply_events}

-- The first `clap_audio_buffer_t` of a direction, by channel and frame; a pointer may be null.
pub record Audio (D S : Type 0) : Type 0 where
  pub data32 : Option (ℕ → ℕ → S)
  pub data64 : Option (ℕ → ℕ → D)
  pub channel_count : ℕ

-- `clap_process_t`.
pub record Block (D S : Type 0) : Type 0 where
  pub frames_count : ℕ
  pub inputs_count : ℕ
  pub outputs_count : ℕ
  pub input : Audio D S
  pub output : Audio D S
  pub events : List (Option (Event D))

-- The instance, the events that are left, and the output, between two frames.
pub record Frame (Pars Mem D S : Type 0) : Type 0 where
  pub inst : Inst Pars Mem D
  pub events : List (Option (Event D))
  pub output : Audio D S

pub data ProcessStatus : Type 0 where
  process_error process_continue : ProcessStatus

abbrev pub has_data : {D S : Type 0} → Audio D S → Bool
has_data b = elim b.data32 [ some x ↦ true | none ↦ elim b.data64 [ some x ↦ true | none ↦ false ] ]

module _ {D S : Type 0} where
  -- A block that is refused, of no buffers or of none with data.
  unfoldable pub is_refused : Block D S → Bool
  is_refused b =
      b.inputs_count == 0
      || b.outputs_count == 0
      || not (has_data b.input)
      || not (has_data b.output)

module _ {D S : Type 0} ⦃g : Floats D S⦄ where
  -- A buffer with neither pointer is refused before it is read.
  unfoldable pub read_sample : Audio D S → ℕ → ℕ → D → D
  read_sample b c i missing = elim b.data32 [
    | some x ↦ g.of_float (x c i)
    | none ↦ elim b.data64 [ none ↦ missing | some x ↦ x c i ]
  ]

  unfoldable pub write_sample : ℕ → ℕ → D → Audio D S → Audio D S
  write_sample c i y b = elim b.data32 [
    | some x ↦ record b { data32 = some (update_at x c i (g.to_float y)) }
    | none ↦ elim b.data64 [ none ↦ b | some x ↦ record b { data64 = some (update_at x c i y) } ]
  ]

module _ {Pars Mem Out D : Type 0} ⦃f : Doubles D⦄ (prog : Program Pars Mem Out D) where
  -- `for (; ev_i < n_ev; ev_i++)` at frame `i`: an event past it ends the loop.
  unfoldable pub due :
      ℕ → List (Option (Event D)) → Inst Pars Mem D → List (Option (Event D)) × Inst Pars Mem D
  due i [] s = ([], s)
  due i (none ∷ es) s = due i es s
  due i (some e ∷ es) s =
      let rest = due i es (apply_event prog (some e) s) in
      if ltb i e.time then (some e ∷ es, s) else rest

module _ {Pars Mem Out D S : Type 0} ⦃f : Doubles D⦄ ⦃g : Floats D S⦄
    (prog : Program Pars Mem Out D) where
  -- One channel of a frame.
  unfoldable pub step_channel : Audio D S → ℕ → ℕ → Frame Pars Mem D S → Frame Pars Mem D S
  unfolding read_sample write_sample
  step_channel input i c t =
      let (o, pars, mem) = prog.step (read_sample input c i f.nan) t.inst.pars (t.inst.mem c) in
      let (y, kept) = prog.read_output o (t.inst.held c) in
      record t {
        inst = record (t.inst) {
          pars = pars;
          mem = update t.inst.mem c mem;
          held = update t.inst.held c kept;
        };
        output = write_sample c i y t.output;
      }

  unfoldable pub step_frame : Audio D S → ℕ → ℕ → Frame Pars Mem D S → Frame Pars Mem D S
  unfolding due step_channel
  step_frame input channels i t =
      let (es, s) = due prog i t.events t.inst in
      for_range channels 0 (step_channel input i) (record t { inst = s; events = es })

  -- The channels served: the fewest of the input, the output and the program.
  unfoldable pub channels_of : Block D S → ℕ
  channels_of b =
      let n =
        if ltb b.input.channel_count b.output.channel_count
        then b.input.channel_count
        else b.output.channel_count in
      if ltb prog.channels n then prog.channels else n

  -- The frames of a block, and the events that are left past the last one.
  unfoldable pub run_block : Block D S → Inst Pars Mem D → Inst Pars Mem D × Audio D S
  unfolding step_frame
  run_block b s =
      let t =
        for_range b.frames_count 0 (step_frame b.input (channels_of b))
          (record { inst = s; events = b.events; output = b.output }) in
      (apply_events prog t.events t.inst, t.output)

  unfoldable pub plug_process :
      Option (Block D S) → Inst Pars Mem D → ProcessStatus × Inst Pars Mem D × Option (Audio D S)
  unfolding run_block is_refused
  plug_process none s = (process_error, s, none)
  plug_process (some b) s =
      if is_refused b
      then (process_error, s, some b.output)
      else let (t, out) = run_block b s in (process_continue, t, some out)
