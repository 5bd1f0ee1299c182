-- ===== src/Lv2/Calls/Idle.antt =====
-- Whether a call of csrc/lv2_host.c runs the plugin.
use audio_plugins_jl.Base.{
  ℕ, suc, ◌≡◌, refl, ap, ◌∙◌, Bool, true, false, not, ◌&&◌, ◌||◌, [], ◌∷◌, arith,
}
use audio_plugins_jl.Base.Cases.{if_all, if_known, option_all}
use audio_plugins_jl.Base.Loops.{for_range, for_range_inv, update}
use audio_plugins_jl.Host.Types.{index_below, Doubles, Floats}
use audio_plugins_jl.Host.Params.{is_nan, not_negative}
use audio_plugins_jl.Lv2.State.{State, Slot}
use audio_plugins_jl.Lv2.Input.{is_armed}
use audio_plugins_jl.Lv2.Midi.{Checked, refused, accepted, place_event, midi_refused, lv2_in_midi}
use audio_plugins_jl.Lv2.Process.{
  RunArgs, RunReply, set_control, head_output, prepare_run, run_inst, repeat_last, lv2_process,
}

module _ {P D S : Type 0} where
  -- A run may still come of the state.
  abbrev pub may_run : State P D S → Bool
  may_run s = s.in_armed && not s.midi_bad

  -- The state after a call that has not run the plugin, from which no run may come that could not before.
  pub record IsIdle (s t : State P D S) : Type 0 where
    pub same_count : t.n_process ≡ s.n_process
    pub idle : may_run s ≡ false → may_run t ≡ false

  pub record IsSame (s t : State P D S) : Type 0 where
    pub count : t.n_process ≡ s.n_process
    pub armed : t.in_armed ≡ s.in_armed

module _ {P D S : Type 0} ⦃f : Doubles D⦄ ⦃g : Floats D S⦄ where
  set_control-IsSame :
      (ids vals : ℕ → D) (i : ℕ) (s : State P D S) → IsSame s (set_control ids vals i s)
  unfolding set_control
  set_control-IsSame ids vals i s =
      let none_set : IsSame s s = record { count = refl; armed = refl } in
      if_all (IsSame s) (not (f.is_finite (ids i)) || not (not_negative (ids i)) || is_nan (vals i))
        none_set
        (option_all (IsSame s) (index_below (f.to_long (f.add (ids i) f.half)) s.n_ports) none_set
          (λ k.
            if_all (IsSame s) (s.is_ctrl_in k) (record { count = refl; armed = refl }) none_set))

  head_output-IsSame : (i : ℕ) (s : State P D S) → IsSame s (head_output i s)
  head_output-IsSame i s =
      if_all (IsSame s) (s.slots i).is_input (record { count = refl; armed = refl })
        (record { count = refl; armed = refl })

  loop-IsSame :
      (body : ℕ → State P D S → State P D S) (n : ℕ) (s : State P D S)
      → ((i : ℕ) (s : State P D S) → IsSame s (body i s))
      → IsSame s (for_range n 0 body s)
  loop-IsSame body n s keep =
      for_range_inv (λ _ t. IsSame s t) body n 0 n s
        (λ i t _ _ h. record {
          count = (keep i t).count ∙ h.count;
          armed = (keep i t).armed ∙ h.armed;
        })
        (omega arith) (record { count = refl; armed = refl })

  prepare_run-IsSame : (ids vals : ℕ → D) (s : State P D S) → IsSame s (prepare_run ids vals s)
  unfolding prepare_run
  prepare_run-IsSame ids vals s =
      let t = for_range 4 0 (set_control ids vals) s in
      let first = loop-IsSame (set_control ids vals) 4 s (set_control-IsSame ids vals) in
      let second = loop-IsSame head_output t.n_atom t head_output-IsSame in
      record { count = second.count ∙ first.count; armed = second.armed ∙ first.armed }

  abbrev AnswerIsIdle : State P D S → D × State P D S → Type 0
  AnswerIsIdle s r = IsIdle s r.1

  pub lv2_in_midi-IsIdle :
      (pad : ℕ → ℕ) (dep port frame b0 b1 b2 : D) (s : State P D S)
      → IsIdle s (lv2_in_midi pad dep port frame b0 b1 b2 s).1
  unfolding lv2_in_midi
  lv2_in_midi-IsIdle pad dep port frame b0 b1 b2 s =
      if_all (AnswerIsIdle s) (not s.is_open) (record { same_count = refl; idle = λ h. h })
        (if_all (AnswerIsIdle s) (not (is_armed dep s))
          (record { same_count = refl; idle = λ h. h })
          (settled (place_event pad port frame (b0 ∷ b1 ∷ b2 ∷ []) s)))
    where
      settled :
          (c : Checked (ℕ × Slot))
          → AnswerIsIdle s (elim c [
            | refused why ↦ midi_refused why s
            | accepted placed ↦ (dep, record s { slots = update s.slots placed.0 placed.1 })
          ])
      settled (refused why) = record { same_count = refl; idle = λ h. ground arith }
      settled (accepted (i, slot)) = record { same_count = refl; idle = λ h. h }

  pub lv2_process-IsIdle :
      (run : P → RunArgs S → RunReply P S) (dep : D) (ids vals : ℕ → D) (s : State P D S)
      → may_run s ≡ false
      → IsIdle s (lv2_process run dep ids vals s).1
  unfolding lv2_process is_armed
  lv2_process-IsIdle run dep ids vals s e =
      if_all (AnswerIsIdle s) (not s.is_open) (record { same_count = refl; idle = λ h. h })
        (if_known (AnswerIsIdle s) (not (is_armed dep s))
          (λ _. record { same_count = refl; idle = λ h. h })
          (λ armed.
            if_known (AnswerIsIdle s) s.midi_bad (λ _. record { same_count = refl; idle = λ h. h })
              (λ good. absurd (ground (arith, e, armed, good)))))

  -- The plugin has run once more, and no run is left.
  pub record HasRun (s t : State P D S) : Type 0 where
    pub once_more : t.n_process ≡ suc s.n_process
    pub spent : may_run t ≡ false

  pub lv2_process-HasRun :
      (run : P → RunArgs S → RunReply P S) (dep : D) (ids vals : ℕ → D) (s : State P D S)
      → s.is_open ≡ true
      → is_armed dep s ≡ true
      → s.midi_bad ≡ false
      → HasRun s (lv2_process run dep ids vals s).1
  unfolding lv2_process run_inst repeat_last
  lv2_process-HasRun run dep ids vals s o e b =
      let same = prepare_run-IsSame ids vals (record s { in_armed = false }) in
      let T : D × State P D S → Type 0 = λ r. HasRun s r.1 in
      if_known T (not s.is_open) (λ x. absurd (ground (arith, x, o)))
        (λ _.
          if_known T (not (is_armed dep s)) (λ x. absurd (ground (arith, x, e)))
            (λ _.
              if_known T s.midi_bad (λ x. absurd (ground (arith, x, b)))
                (λ _. record {
                  once_more = ap suc same.count;
                  spent = let a = same.armed in ground (arith, a);
                })))
