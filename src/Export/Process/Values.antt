-- ===== src/Export/Process/Values.antt =====
-- The parameter values that `plug_process` of csrc/clap_plugin_template.c leaves.
use audio_plugins_jl.Base.{
  ℕ, ◌≡◌, refl, ap, ◌∙◌, false, List, [], ◌∷◌, Option, none, some, get_elem?, arith,
}
use audio_plugins_jl.Base.Loops.{for_range_inv, update}
use audio_plugins_jl.Host.Types.{Doubles, Floats}
use audio_plugins_jl.Export.Program.{Program, Inst, param_index}
use audio_plugins_jl.Export.Params.{
  Event, fitted, set_param, set_id, apply_event, apply_events, params_flush,
}
use audio_plugins_jl.Export.Process.{
  Block, Frame, step_channel, step_frame, channels_of, is_refused, run_block, plug_process,
}
use audio_plugins_jl.Export.Process.Due.{due_rest}
use audio_plugins_jl.Export.Process.Ahead.{with_due}

module _ {Pars Mem Out D : Type 0} ⦃f : Doubles D⦄ (prog : Program Pars Mem Out D) where
  set_param_values :
      (k : ℕ) (v : D) (s t : Inst Pars Mem D)
      → s.values ≡ t.values
      → (set_param prog k v s).values ≡ (set_param prog k v t).values
  unfolding set_param
  set_param_values k v s t e =
      elim (get_elem? prog.info k)
        as (λ o.
          Inst.values (elim o [
            | none ↦ s
            | some p ↦ record s {
              values = update s.values k (fitted p v);
              pars = prog.apply k (fitted p v) s.pars;
            }
          ])
          ≡ Inst.values (elim o [
            | none ↦ t
            | some p ↦ record t {
              values = update t.values k (fitted p v);
              pars = prog.apply k (fitted p v) t.pars;
            }
          ])) [ none ↦ e | some p ↦ ap (λ x. update x k (fitted p v)) e ]

  set_id_values :
      (id : ℕ) (v : D) (s t : Inst Pars Mem D)
      → s.values ≡ t.values
      → (set_id prog id v s).values ≡ (set_id prog id v t).values
  unfolding set_id
  set_id_values id v s t e =
      elim (param_index id prog.info 0)
        as (λ o.
          Inst.values (elim o [ none ↦ s | some k ↦ set_param prog k v s ])
          ≡ Inst.values (elim o [ none ↦ t | some k ↦ set_param prog k v t ])) [
            | none ↦ e
            | some k ↦ set_param_values k v s t e
          ]

  apply_event_values :
      (x : Option (Event D)) (s t : Inst Pars Mem D)
      → s.values ≡ t.values
      → (apply_event prog x s).values ≡ (apply_event prog x t).values
  unfolding apply_event
  apply_event_values none s t e = e
  apply_event_values (some x) s t e =
      let IH = set_id_values x.param_id x.value s t e in ground (arith, IH, e)

  pub apply_events_values :
      (es : List (Option (Event D))) (s t : Inst Pars Mem D)
      → s.values ≡ t.values
      → (apply_events prog es s).values ≡ (apply_events prog es t).values
  unfolding apply_events
  apply_events_values [] s t e = e
  apply_events_values (x ∷ es) s t e =
      apply_events_values es (apply_event prog x s) (apply_event prog x t)
        (apply_event_values x s t e)

module _ {Pars Mem Out D S : Type 0} ⦃f : Doubles D⦄ ⦃g : Floats D S⦄
    (prog : Program Pars Mem Out D) where
  -- The values of a frame once the events that are left are applied.
  abbrev outcome : Frame Pars Mem D S → ℕ → D
  outcome t = (apply_events prog t.events t.inst).values

  outcome-step_channel :
      (b : Block D S) (i c : ℕ) (t : Frame Pars Mem D S)
      → outcome (step_channel prog b.input i c t) ≡ outcome t
  unfolding step_channel
  outcome-step_channel b i c t =
      apply_events_values prog t.events (step_channel prog b.input i c t).inst t.inst refl

  outcome-step_frame :
      (b : Block D S) (channels i : ℕ) (t : Frame Pars Mem D S)
      → outcome (step_frame prog b.input channels i t) ≡ outcome t
  unfolding step_frame
  outcome-step_frame b channels i t =
      for_range_inv (λ _ (u : Frame Pars Mem D S). outcome u ≡ outcome t)
        (step_channel prog b.input i) channels 0 channels (with_due prog i t)
        (λ c u _ _ h. outcome-step_channel b i c u ∙ h) (omega arith)
        (ap (λ (s : Inst Pars Mem D). s.values) (due_rest prog i t.events t.inst))

  -- A block that is not refused leaves the parameter values that `params_flush` of its events leaves.
  pub plug_process_values :
      (b : Block D S) (s : Inst Pars Mem D)
      → is_refused b ≡ false
      → (plug_process prog (some b) s).1.values ≡ (params_flush prog b.events s).values
  unfolding plug_process run_block params_flush
  plug_process_values b s e = rw (e) (
      for_range_inv
        (λ _ (u : Frame Pars Mem D S). outcome u ≡ (apply_events prog b.events s).values)
        (step_frame prog b.input (channels_of prog b)) b.frames_count 0 b.frames_count
        (record { inst = s; events = b.events; output = b.output })
        (λ i u _ _ h. outcome-step_frame b (channels_of prog b) i u ∙ h) (omega arith) refl)
