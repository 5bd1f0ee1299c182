-- ===== src/Lv2/Calls/Kept.antt =====
-- Each call of csrc/lv2_host.c leaves the atom buffers in their places, with their sequences inside.
use audio_plugins_jl.Base.{
  ℕ, ◌-◌, ◌<◌, ◌≡◌, refl, sym, ap, subst, ◌∙◌, true, false, not, List, [], ◌∷◌, none, some, ◌==◌,
  arith,
}
use audio_plugins_jl.Base.Cases.{if_all, if_known, option_all, option_known}
use audio_plugins_jl.Base.Loops.{for_range, for_range_inv, update}
use audio_plugins_jl.Host.Types.{index_below, Doubles}
use audio_plugins_jl.Lv2.State.{
  State, Slot, head_atom_seq, rehead_input, rehead_atom_inputs, set_error, plugin_closed,
  no_armed_block,
}
use audio_plugins_jl.Lv2.Atoms.{Arena}
use audio_plugins_jl.Lv2.Midi.{
  Checked, refused, accepted, check_midi_port, check_frame, read_message, check_message,
  append_event, place_event, midi_refused, lv2_in_midi,
}
use audio_plugins_jl.Lv2.Input.{is_armed}
use audio_plugins_jl.Lv2.Process.{head_output}
use audio_plugins_jl.Lv2.Calls.Room.{
  IsPad, IsRoomy, Accepted, checked_all, checked_any, append_event-IsRoomy, emptied-IsRoomy,
  recounted-IsRoomy, output-IsRoomy,
}

pub update_below :
    {A : Type 0} (n : ℕ) (T : ℕ → A → Type 0) (u : ℕ → A) (i : ℕ) (v : A)
    → ((j : ℕ) → j < n → T j (u j))
    → T i v
    → (j : ℕ) → j < n
    → T j (update u i v j)
update_below n T u i v all new j lt =
    if_known (T j) (j == i)
      (λ same. let e : j ≡ i = ground (arith, same) in subst (λ k. T k v) (sym e) new)
      (λ _. all j lt)

-- A slot of the arena, with room.
abbrev IsPlaced : (ℕ → ℕ) → Arena → ℕ × Slot → Type 0
IsPlaced pad a (i, slot) = (i < a.n_atom) × IsRoomy pad (a.slots i) slot

module _ {P D S : Type 0} (pad : ℕ → ℕ) (a : Arena) where
  pub record IsKept (s : State P D S) : Type 0 where
    pub n_atom : s.n_atom ≡ a.n_atom
    pub numbered : (k i : ℕ) → s.atom_slot k ≡ some i → i < a.n_atom
    pub roomy : (i : ℕ) → i < a.n_atom → IsRoomy pad (a.slots i) (s.slots i)

  pub with_slot :
      (s : State P D S) (i : ℕ) (slot : Slot)
      → IsKept s
      → IsRoomy pad (a.slots i) slot
      → IsKept (record s { slots = update s.slots i slot })
  with_slot s i slot h r = record {
    n_atom = h.n_atom;
    numbered = h.numbered;
    roomy = update_below a.n_atom (λ j x. IsRoomy pad (a.slots j) x) s.slots i slot h.roomy r;
  }

  pub rehead_input-IsKept :
      (i : ℕ) (s : State P D S) → i < a.n_atom → IsKept s → IsKept (rehead_input i s)
  rehead_input-IsKept i s lt h =
      let headed =
        with_slot s i
          (record (s.slots i) {
            atom_type = s.u_sequence;
            unit = s.u_frametime;
            size = 8;
            events = [];
          })
          h
          (emptied-IsRoomy pad (a.slots i) (s.slots i) s.u_sequence s.u_frametime (h.roomy i lt)) in
      let t = head_atom_seq i s in
      if_all IsKept (s.slots i).is_input
        (with_slot t i (record (t.slots i) { count = 0; last = none }) headed
          (recounted-IsRoomy pad (a.slots i) (t.slots i) 0 none (headed.roomy i lt)))
        h

  pub head_output-IsKept :
      (i : ℕ) (s : State P D S) → i < a.n_atom → IsKept s → IsKept (head_output i s)
  head_output-IsKept i s lt h =
      if_known IsKept (s.slots i).is_input (λ _. h)
        (λ out.
          with_slot s i
            (record (s.slots i) { atom_type = s.u_chunk; size = (s.slots i).cap - 8; events = [] })
            h
            (output-IsRoomy pad (a.slots i) (s.slots i) s.u_chunk ((s.slots i).cap - 8)
              (h.roomy i lt) out))

  -- A state with the same atom ports and buffers.
  pub same_atoms :
      (s t : State P D S)
      → t.n_atom ≡ s.n_atom
      → t.atom_slot ≡ s.atom_slot
      → t.slots ≡ s.slots
      → IsKept s
      → IsKept t
  same_atoms s t n m e h = record {
    n_atom = n ∙ h.n_atom;
    numbered = λ k i x. h.numbered k i (sym (ap (λ u. u k) m) ∙ x);
    roomy = λ i lt. subst (λ u. IsRoomy pad (a.slots i) (u i)) (sym e) (h.roomy i lt);
  }

  pub each_slot :
      (body : ℕ → State P D S → State P D S) (s : State P D S)
      → ((i : ℕ) (s : State P D S) → i < a.n_atom → IsKept s → IsKept (body i s))
      → IsKept s
      → IsKept (for_range s.n_atom 0 body s)
  each_slot body s keep h =
      for_range_inv (λ _ t. IsKept t) body s.n_atom 0 s.n_atom s
        (λ i t _ lt k. let n = h.n_atom in keep i t (omega (arith, n, lt)) k) (omega arith) h

  pub rehead_atom_inputs-IsKept : (s : State P D S) → IsKept s → IsKept (rehead_atom_inputs s)
  unfolding rehead_atom_inputs
  rehead_atom_inputs-IsKept s h =
      let t = for_range s.n_atom 0 rehead_input s in
      same_atoms t (record t { midi_bad = false }) refl refl refl
        (each_slot rehead_input s rehead_input-IsKept h)

  module _ ⦃f : Doubles D⦄ where
    -- The slot of a port that is an atom input.
    abbrev IsInput : State P D S → ℕ → Type 0
    IsInput s i = (i < a.n_atom) × ((s.slots i).is_input ≡ true)

    check_midi_port-IsInput :
        (port : D) (s : State P D S) → IsKept s → Accepted (IsInput s) (check_midi_port port s)
    unfolding check_midi_port
    check_midi_port-IsInput port s h = if_all (Accepted (IsInput s)) (not (f.is_finite port)) tt (
        option_all (Accepted (IsInput s)) (index_below (f.to_long (f.add port f.half)) s.n_ports) tt
          (λ k.
            option_known (Accepted (IsInput s)) (s.atom_slot k) (λ _. tt)
              (λ i at.
                if_known (Accepted (IsInput s)) (not (s.slots i).is_input) (λ _. tt)
                  (λ is.
                    if_all (Accepted (IsInput s)) (not (s.slots i).midi) tt
                      (h.numbered k i at, ground (arith, is))))))

    place_event-IsPlaced :
        (port frame : D) (bytes : List D) (s : State P D S)
        → IsPad pad
        → IsKept s
        → Accepted (IsPlaced pad a) (place_event pad port frame bytes s)
    unfolding place_event
    place_event-IsPlaced port frame bytes s p h =
        checked_all (IsInput s) (IsPlaced pad a) (check_midi_port port s) _
          (check_midi_port-IsInput port s h)
          (λ i is. checked_any (IsPlaced pad a) (check_frame frame (s.slots i) s) _ (λ n.
            checked_any (IsPlaced pad a) (read_message 0 false bytes []) _ (λ got.
              checked_any (IsPlaced pad a) (check_message got) _ (λ msg.
                checked_all (IsRoomy pad (a.slots i)) (IsPlaced pad a)
                  (append_event pad s.u_midievent n msg (s.slots i)) _
                  (append_event-IsRoomy pad (a.slots i) s.u_midievent n msg (s.slots i) p
                    (h.roomy i is.0) is.1)
                  (λ slot r. (is.0, r))))))

    abbrev pub AnswerIsKept : D × State P D S → Type 0
    AnswerIsKept r = IsKept r.1

    pub lv2_in_midi-IsKept :
        (dep port frame b0 b1 b2 : D) (s : State P D S)
        → IsPad pad
        → IsKept s
        → IsKept (lv2_in_midi pad dep port frame b0 b1 b2 s).1
    unfolding lv2_in_midi
    lv2_in_midi-IsKept dep port frame b0 b1 b2 s p h =
        if_all AnswerIsKept (not s.is_open)
          (same_atoms s (set_error plugin_closed s) refl refl refl h)
          (if_all AnswerIsKept (not (is_armed dep s))
            (same_atoms s (set_error no_armed_block s) refl refl refl h)
            (settled (place_event pad port frame (b0 ∷ b1 ∷ b2 ∷ []) s)
              (place_event-IsPlaced port frame (b0 ∷ b1 ∷ b2 ∷ []) s p h)))
      where
        settled :
            (c : Checked (ℕ × Slot))
            → Accepted (IsPlaced pad a) c
            → AnswerIsKept (elim c [
              | refused why ↦ midi_refused why s
              | accepted placed ↦ (dep, record s { slots = update s.slots placed.0 placed.1 })
            ])
        settled (refused why) _ = same_atoms s (midi_refused why s).1 refl refl refl h
        settled (accepted (i, slot)) r = with_slot s i slot h r.1
