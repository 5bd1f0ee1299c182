-- ===== src/Export/Process/Applied.antt =====
-- Each event that `plug_process` of csrc/clap_plugin_template.c is sent is applied once and in order.
use mathlib.Core.List.{append_assoc, append-nil}
use audio_plugins_jl.Base.{
  ℕ, ◌≡◌, refl, sym, ap, ◌∙◌, false, List, [], ◌∷◌, Option, none, some, get_elem?, not, ◌++◌, arith,
  if◌then◌else◌, Bool-cases, inl, inr,
}
use audio_plugins_jl.Base.Loops.{for_range_inv, update}
use audio_plugins_jl.Host.Types.{Doubles, Floats}
use audio_plugins_jl.Export.Program.{Program, Inst, param_index}
use audio_plugins_jl.Export.Params.{
  Event, fitted, set_param, set_id, apply_event, apply_events, params_flush,
}
use audio_plugins_jl.Export.Process.{
  Block, Frame, step_channel, step_frame, channels_of, is_refused, run_block, plug_process, due,
}
use audio_plugins_jl.Export.Process.Due.{due_rest}
use audio_plugins_jl.Export.Process.Ahead.{with_due}
use audio_plugins_jl.Export.Process.Values.{plug_process_values}

module _ {Pars Mem Out D : Type 0} ⦃f : Doubles D⦄ (prog : Program Pars Mem Out D) where
  -- A row and the value that is fitted to it, and that of an id, if there are any.
  abbrev row_assigned : ℕ → D → List (ℕ × D)
  row_assigned k v = elim (get_elem? prog.info k) [ none ↦ [] | some p ↦ (k, fitted p v) ∷ [] ]

  abbrev id_assigned : ℕ → D → List (ℕ × D)
  id_assigned id v = elim (param_index id prog.info 0) [ none ↦ [] | some k ↦ row_assigned k v ]

  -- The row and the value that a parameter event of the core space assigns, if its id is known.
  abbrev pub assigned : Option (Event D) → List (ℕ × D)
  assigned none = []
  assigned (some e) =
      if not e.core then [] else if not e.param_value then [] else id_assigned e.param_id e.value

  -- Those of a list of events, in its order.
  abbrev pub applied : List (Option (Event D)) → List (ℕ × D)
  applied [] = []
  applied (e ∷ es) = assigned e ++ applied es

  -- The parameters of the program keep a record `see` of what is applied to them, in order, and a
  -- step adds nothing to it.
  pub record IsRecord (see : Pars → List (ℕ × D)) : Type 0 where
    pub notes : (k : ℕ) (v : D) (p : Pars) → see (prog.apply k v p) ≡ see p ++ (k, v) ∷ []
    pub steps : (x : D) (p : Pars) (m : Mem) → see (prog.step x p m).1 ≡ see p

  module _ (see : Pars → List (ℕ × D)) (rec : IsRecord see) where
    set_param-assigned :
        (k : ℕ) (v : D) (s : Inst Pars Mem D)
        → see (set_param prog k v s).pars ≡ see s.pars ++ row_assigned k v
    unfolding set_param
    set_param-assigned k v s =
        elim (get_elem? prog.info k)
          as (λ o.
            see (
              Inst.pars (elim o [
                | none ↦ s
                | some p ↦ record s {
                  values = update s.values k (fitted p v);
                  pars = prog.apply k (fitted p v) s.pars;
                }
              ]))
            ≡ see s.pars ++ elim o [ none ↦ [] | some p ↦ (k, fitted p v) ∷ [] ]) [
              | none ↦ sym (append-nil (see s.pars))
              | some p ↦ rec.notes k (fitted p v) s.pars
            ]

    set_id-assigned :
        (id : ℕ) (v : D) (s : Inst Pars Mem D)
        → see (set_id prog id v s).pars ≡ see s.pars ++ id_assigned id v
    unfolding set_id
    set_id-assigned id v s =
        elim (param_index id prog.info 0)
          as (λ o.
            see (Inst.pars (elim o [ none ↦ s | some k ↦ set_param prog k v s ]))
            ≡ see s.pars ++ elim o [ none ↦ [] | some k ↦ row_assigned k v ]) [
              | none ↦ sym (append-nil (see s.pars))
              | some k ↦ set_param-assigned k v s
            ]

    apply_event-assigned :
        (e : Option (Event D)) (s : Inst Pars Mem D)
        → see (apply_event prog e s).pars ≡ see s.pars ++ assigned e
    unfolding apply_event
    apply_event-assigned none s = sym (append-nil (see s.pars))
    apply_event-assigned (some e) s =
        let same = sym (append-nil (see s.pars)) in
        elim (Bool-cases e.core) [
          | inr foreign ↦ simp foreign same
          | inl core ↦ elim (Bool-cases e.param_value) [
            | inr other ↦ simp (core, other) same
            | inl value ↦ simp (core, value) (set_id-assigned e.param_id e.value s)
          ]
        ]

    apply_events-applied :
        (es : List (Option (Event D))) (s : Inst Pars Mem D)
        → see (apply_events prog es s).pars ≡ see s.pars ++ applied es
    unfolding apply_events
    apply_events-applied [] s = sym (append-nil (see s.pars))
    apply_events-applied (e ∷ es) s =
        apply_events-applied es (apply_event prog e s)
        ∙ ap (λ l. l ++ applied es) (apply_event-assigned e s)
        ∙ append_assoc (see s.pars) (assigned e) (applied es)

    due-applied :
        (i : ℕ) (es : List (Option (Event D))) (s : Inst Pars Mem D)
        → see (due prog i es s).1.pars ++ applied (due prog i es s).0 ≡ see s.pars ++ applied es
    due-applied i es s =
        sym (apply_events-applied (due prog i es s).0 (due prog i es s).1)
        ∙ ap (λ (t : Inst Pars Mem D). see t.pars) (due_rest prog i es s)
        ∙ apply_events-applied es s

module _ {Pars Mem Out D S : Type 0} ⦃f : Doubles D⦄ ⦃g : Floats D S⦄
    (prog : Program Pars Mem Out D) (see : Pars → List (ℕ × D)) (rec : IsRecord prog see) where
  -- What has been applied at a frame, and what is still to come.
  abbrev all_of : Frame Pars Mem D S → List (ℕ × D)
  all_of t = see t.inst.pars ++ applied prog t.events

  step_channel-all_of :
      (b : Block D S) (i c : ℕ) (t : Frame Pars Mem D S)
      → all_of (step_channel prog b.input i c t) ≡ all_of t
  unfolding step_channel
  step_channel-all_of b i c t =
      ap (λ l. l ++ applied prog t.events) (rec.steps _ t.inst.pars (t.inst.mem c))

  step_frame-all_of :
      (b : Block D S) (channels i : ℕ) (t : Frame Pars Mem D S)
      → all_of (step_frame prog b.input channels i t) ≡ all_of t
  unfolding step_frame
  step_frame-all_of b channels i t =
      for_range_inv (λ _ (u : Frame Pars Mem D S). all_of u ≡ all_of t)
        (step_channel prog b.input i) channels 0 channels (with_due prog i t)
        (λ c u _ _ h. step_channel-all_of b i c u ∙ h) (omega arith)
        (due-applied prog see rec i t.events t.inst)

  run_block-applied :
      (b : Block D S) (s : Inst Pars Mem D)
      → see (run_block prog b s).0.pars ≡ see s.pars ++ applied prog b.events
  unfolding run_block
  run_block-applied b s =
      apply_events-applied prog see rec _ _
      ∙ for_range_inv (λ _ (u : Frame Pars Mem D S). all_of u ≡ see s.pars ++ applied prog b.events)
          (step_frame prog b.input (channels_of prog b)) b.frames_count 0 b.frames_count
          (record { inst = s; events = b.events; output = b.output })
          (λ i u _ _ h. step_frame-all_of b (channels_of prog b) i u ∙ h) (omega arith) refl

  -- For a program that records what is applied to its parameters, and whose step adds nothing to
  -- that: a block that is not refused applies the parameter events of the core space with a known
  -- id, each once, in their order and with its value fitted to its row, whatever their times are,
  -- also past the last frame; and it leaves the values that `params_flush` of its events leaves.
  pub plug_process_applies :
      (b : Block D S) (s : Inst Pars Mem D)
      → is_refused b ≡ false
      → (see (plug_process prog (some b) s).1.pars ≡ see s.pars ++ applied prog b.events)
        × ((plug_process prog (some b) s).1.values ≡ (params_flush prog b.events s).values)
  unfolding plug_process
  plug_process_applies b s e = (rw (e) (run_block-applied b s), plug_process_values prog b s e)
