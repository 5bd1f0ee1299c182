-- ===== src/Lv2/Calls/Once.antt =====
-- One block, one run, in csrc/lv2_host.c.
use audio_plugins_jl.Base.{
  ℕ, ◌+◌, ◌≡◌, refl, ◌∙◌, Bool, true, false, not, ◌||◌, List, [], ◌∷◌, Bool-cases, inl, inr,
  if◌then◌else◌, arith,
}
use audio_plugins_jl.Base.Cases.{if_known}
use audio_plugins_jl.Base.Loops.{update}
use audio_plugins_jl.Host.Types.{Doubles, Floats}
use audio_plugins_jl.Lv2.State.{State, Slot}
use audio_plugins_jl.Lv2.Input.{is_armed}
use audio_plugins_jl.Lv2.Midi.{Checked, refused, accepted, place_event, midi_refused, lv2_in_midi}
use audio_plugins_jl.Lv2.Process.{RunArgs, RunReply, lv2_process}
use audio_plugins_jl.Lv2.Calls.Idle.{
  may_run, lv2_in_midi-IsIdle, lv2_process-IsIdle, lv2_process-HasRun,
}
use audio_plugins_jl.Lv2.Calls.{Call, fill, tone, midi, processing, lv2_call, lv2_calls}

-- The calls arm no new block.
abbrev pub AreRuns : {D : Type 0} → List (Call D) → Type 0
AreRuns [] = Unit
AreRuns (fill _ _ _ ∷ calls) = ⊥
AreRuns (tone _ _ _ _ ∷ calls) = ⊥
AreRuns (midi _ _ _ _ _ _ ∷ calls) = AreRuns calls
AreRuns (processing _ _ _ ∷ calls) = AreRuns calls

abbrev pub was_refused : {A : Type 0} → Checked A → Bool
was_refused (refused why) = true
was_refused (accepted a) = false

module _ {P D S : Type 0} ⦃f : Doubles D⦄ ⦃g : Floats D S⦄ where
  lv2_calls_idle :
      (pad : ℕ → ℕ) (run : P → RunArgs S → RunReply P S) (calls : List (Call D)) (s : State P D S)
      → AreRuns calls
      → may_run s ≡ false
      → (lv2_calls pad run calls s).n_process ≡ s.n_process
  unfolding lv2_calls lv2_call
  lv2_calls_idle pad run [] s a e = refl
  lv2_calls_idle pad run (fill _ _ _ ∷ calls) s a e = absurd a
  lv2_calls_idle pad run (tone _ _ _ _ ∷ calls) s a e = absurd a
  lv2_calls_idle pad run (midi dep port frame b0 b1 b2 ∷ calls) s a e =
      let t = lv2_in_midi-IsIdle pad dep port frame b0 b1 b2 s in
      lv2_calls_idle pad run calls (lv2_in_midi pad dep port frame b0 b1 b2 s).1 a (t.idle e)
      ∙ t.same_count
  lv2_calls_idle pad run (processing dep ids vals ∷ calls) s a e =
      let t = lv2_process-IsIdle run dep ids vals s e in
      lv2_calls_idle pad run calls (lv2_process run dep ids vals s).1 a (t.idle e) ∙ t.same_count

  -- The state after an event for the armed block.
  record IsOffered (dep : D) (refusal : Bool) (s t : State P D S) : Type 0 where
    same_count : t.n_process ≡ s.n_process
    still_open : t.is_open ≡ true
    still_armed : is_armed dep t ≡ true
    bad : t.midi_bad ≡ s.midi_bad || refusal

  abbrev AnswerIsOffered : D → Bool → State P D S → D × State P D S → Type 0
  AnswerIsOffered dep refusal s r = IsOffered dep refusal s r.1

  lv2_in_midi-IsOffered :
      (pad : ℕ → ℕ) (dep port frame b0 b1 b2 : D) (s : State P D S)
      → s.is_open ≡ true
      → is_armed dep s ≡ true
      → IsOffered dep
          (was_refused (place_event pad port frame (b0 ∷ b1 ∷ b2 ∷ []) s))
          s
          (lv2_in_midi pad dep port frame b0 b1 b2 s).1
  unfolding lv2_in_midi is_armed
  lv2_in_midi-IsOffered pad dep port frame b0 b1 b2 s o e =
      if_known T (not s.is_open) (λ x. absurd (ground (arith, x, o)))
        (λ _.
          if_known T (not (is_armed dep s)) (λ x. absurd (ground (arith, x, e))) (λ _. settled c))
    where
      c : Checked (ℕ × Slot)
      c = place_event pad port frame (b0 ∷ b1 ∷ b2 ∷ []) s

      T : D × State P D S → Type 0
      T r = IsOffered dep (was_refused c) s r.1

      settled :
          (x : Checked (ℕ × Slot))
          → AnswerIsOffered dep (was_refused x) s (elim x [
            | refused why ↦ midi_refused why s
            | accepted placed ↦ (dep, record s { slots = update s.slots placed.0 placed.1 })
          ])
      settled (refused why) = record {
        same_count = refl;
        still_open = o;
        still_armed = e;
        bad = ground arith;
      }
      settled (accepted (i, slot)) = record {
        same_count = refl;
        still_open = o;
        still_armed = e;
        bad = ground arith;
      }

  -- On an open state whose armed block `dep` names: after a MIDI event for that block, a run of it, and
  -- any calls that arm no new block, the plugin has run once more where neither that event nor an
  -- earlier one for the block was refused, and has not run where one was.
  pub lv2_process_once :
      (pad : ℕ → ℕ) (run : P → RunArgs S → RunReply P S) (dep port frame b0 b1 b2 : D)
      (ids vals : ℕ → D) (calls : List (Call D)) (s : State P D S)
      → s.is_open ≡ true
      → is_armed dep s ≡ true
      → AreRuns calls
      → (lv2_calls pad run
          (midi dep port frame b0 b1 b2 ∷ processing dep ids vals ∷ calls)
          s).n_process
        ≡ s.n_process
          + (if s.midi_bad || was_refused (place_event pad port frame (b0 ∷ b1 ∷ b2 ∷ []) s)
              then 0
              else 1)
  unfolding lv2_calls lv2_call
  lv2_process_once pad run dep port frame b0 b1 b2 ids vals calls s o e a =
      let offered = lv2_in_midi-IsOffered pad dep port frame b0 b1 b2 s o e in
      let t = (lv2_in_midi pad dep port frame b0 b1 b2 s).1 in
      let u = (lv2_process run dep ids vals t).1 in
      let n = offered.same_count in
      let bad = offered.bad in
      elim (Bool-cases t.midi_bad) [
        | inl spoilt ↦
            let idle = lv2_process-IsIdle run dep ids vals t (ground (arith, spoilt)) in
            let rest = lv2_calls_idle pad run calls u a (idle.idle (ground (arith, spoilt))) in
            let same = idle.same_count in ground (arith, n, bad, spoilt, rest, same)
        | inr good ↦
            let ran =
              lv2_process-HasRun run dep ids vals t offered.still_open offered.still_armed good in
            let rest = lv2_calls_idle pad run calls u a ran.spent in
            let more = ran.once_more in ground (arith, n, bad, good, rest, more)
      ]
