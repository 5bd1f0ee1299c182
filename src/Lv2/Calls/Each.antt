-- ===== src/Lv2/Calls/Each.antt =====
-- Filling and running a block in csrc/lv2_host.c, and any sequence of calls, keep the atom buffers.
use audio_plugins_jl.Base.{ℕ, refl, false, not, ◌||◌, List, [], ◌∷◌, Option, arith}
use audio_plugins_jl.Base.Cases.{if_all, option_all}
use audio_plugins_jl.Base.Loops.{for_range, for_range_inv}
use audio_plugins_jl.Host.Types.{ℤ, index_below, Doubles, Floats}
use audio_plugins_jl.Host.Params.{is_nan, not_negative}
use audio_plugins_jl.Host.Input.{count_of}
use audio_plugins_jl.Lv2.State.{
  State, rehead_atom_inputs, set_error, plugin_closed, samples_missing, tone_not_finite,
  refused_block,
}
use audio_plugins_jl.Lv2.Atoms.{Arena}
use audio_plugins_jl.Lv2.Input.{arm, is_armed, lv2_in_fill, lv2_in_tone}
use audio_plugins_jl.Lv2.Process.{
  RunArgs, RunReply, set_control, head_output, prepare_run, run_inst, repeat_last, lv2_process,
}
use audio_plugins_jl.Lv2.Calls.{Call, fill, tone, midi, processing, lv2_call, lv2_calls}
use audio_plugins_jl.Lv2.Calls.Room.{IsPad}
use audio_plugins_jl.Lv2.Calls.Kept.{
  IsKept, AnswerIsKept, same_atoms, each_slot, head_output-IsKept, rehead_atom_inputs-IsKept,
  lv2_in_midi-IsKept,
}

module _ {P D S : Type 0} (pad : ℕ → ℕ) (a : Arena) ⦃f : Doubles D⦄ where
  arm-IsKept :
      (n : ℕ) (rows : ℕ → ℕ → S) (s : State P D S) → IsKept pad a s → IsKept pad a (arm n rows s).1
  unfolding arm
  arm-IsKept n rows s h =
      let t = record s { input = rows } in
      same_atoms pad a (rehead_atom_inputs t) _ refl refl refl
        (rehead_atom_inputs-IsKept pad a t (same_atoms pad a s t refl refl refl h))

  module _ ⦃g : Floats D S⦄ where
    lv2_in_fill-IsKept :
        (samples : Option (ℕ → D)) (n channels : ℤ) (s : State P D S)
        → IsKept pad a s
        → IsKept pad a (lv2_in_fill samples n channels s).1
    unfolding lv2_in_fill
    lv2_in_fill-IsKept samples n channels s h =
        let missed = same_atoms pad a s (set_error samples_missing s) refl refl refl h in
        if_all (AnswerIsKept pad a) (not s.is_open)
          (same_atoms pad a s (set_error plugin_closed s) refl refl refl h)
          (option_all (AnswerIsKept pad a) samples missed (λ given.
            option_all (AnswerIsKept pad a) (count_of n) missed (λ m. arm-IsKept _ _ s h)))

    lv2_in_tone-IsKept :
        (t waveform freq amp : D) (s : State P D S)
        → IsKept pad a s
        → IsKept pad a (lv2_in_tone t waveform freq amp s).1
    unfolding lv2_in_tone
    lv2_in_tone-IsKept t waveform freq amp s h =
        if_all (AnswerIsKept pad a) (not s.is_open)
          (same_atoms pad a s (set_error plugin_closed s) refl refl refl h)
          (if_all (AnswerIsKept pad a)
            (not (f.is_finite (f.mul t s.sample_rate)) || not (f.is_finite waveform))
            (same_atoms pad a s (set_error tone_not_finite s) refl refl refl h)
            (arm-IsKept _ _ s h))

    set_control-IsKept :
        (ids vals : ℕ → D) (i : ℕ) (s : State P D S)
        → IsKept pad a s
        → IsKept pad a (set_control ids vals i s)
    unfolding set_control
    set_control-IsKept ids vals i s h =
        if_all (IsKept pad a)
          (not (f.is_finite (ids i)) || not (not_negative (ids i)) || is_nan (vals i)) h
          (option_all (IsKept pad a) (index_below (f.to_long (f.add (ids i) f.half)) s.n_ports) h
            (λ k. if_all (IsKept pad a) (s.is_ctrl_in k) (same_atoms pad a s _ refl refl refl h) h))

    prepare_run-IsKept :
        (ids vals : ℕ → D) (s : State P D S)
        → IsKept pad a s
        → IsKept pad a (prepare_run ids vals s)
    unfolding prepare_run
    prepare_run-IsKept ids vals s h =
        let t = for_range 4 0 (set_control ids vals) s in
        let set =
          for_range_inv (λ _ u. IsKept pad a u) (set_control ids vals) 4 0 4 s
            (λ i u _ _ k. set_control-IsKept ids vals i u k) (omega arith) h in
        same_atoms pad a (for_range t.n_atom 0 head_output t) _ refl refl refl
          (each_slot pad a head_output t (head_output-IsKept pad a) set)

    lv2_process-IsKept :
        (run : P → RunArgs S → RunReply P S) (dep : D) (ids vals : ℕ → D) (s : State P D S)
        → IsKept pad a s
        → IsKept pad a (lv2_process run dep ids vals s).1
    unfolding lv2_process run_inst repeat_last
    lv2_process-IsKept run dep ids vals s h =
        let taken = record s { in_armed = false } in
        let ready = prepare_run ids vals taken in
        if_all (AnswerIsKept pad a) (not s.is_open)
          (same_atoms pad a s (set_error plugin_closed s) refl refl refl h)
          (if_all (AnswerIsKept pad a) (not (is_armed dep s)) h (
            if_all (AnswerIsKept pad a) s.midi_bad
              (same_atoms pad a s (set_error refused_block s) refl refl refl h)
              (same_atoms pad a ready _ refl refl refl
                (prepare_run-IsKept ids vals taken (same_atoms pad a s taken refl refl refl h)))))

    pub lv2_calls-IsKept :
        (run : P → RunArgs S → RunReply P S) (calls : List (Call D)) (s : State P D S)
        → IsPad pad
        → IsKept pad a s
        → IsKept pad a (lv2_calls pad run calls s)
    unfolding lv2_calls lv2_call
    lv2_calls-IsKept run [] s p h = h
    lv2_calls-IsKept run (fill samples n channels ∷ calls) s p h =
        lv2_calls-IsKept run calls _ p (lv2_in_fill-IsKept samples n channels s h)
    lv2_calls-IsKept run (tone t waveform freq amp ∷ calls) s p h =
        lv2_calls-IsKept run calls _ p (lv2_in_tone-IsKept t waveform freq amp s h)
    lv2_calls-IsKept run (midi dep port frame b0 b1 b2 ∷ calls) s p h =
        lv2_calls-IsKept run calls _ p (lv2_in_midi-IsKept pad a dep port frame b0 b1 b2 s p h)
    lv2_calls-IsKept run (processing dep ids vals ∷ calls) s p h =
        lv2_calls-IsKept run calls _ p (lv2_process-IsKept run dep ids vals s h)
