-- ===== src/Live/Events/Admissible.antt =====
-- Which events a block may carry, told apart from the checks of `ap_live_try_write`.
mod Midi
pub use Midi.{IsMessage, check_midi_iff}
use native.Mathlib.Decide.{ℕ_discrete}
use audio_plugins_jl.Base.{
  subst, sym, ℕ, zero, suc, ◌+◌, ◌-◌, ◌≤◌, ◌<◌, ◌≡◌, refl, ◌↔◌, ◌⊎◌, inl, inr, Bool, true, false,
  Option, some, none, arith, leb, ltb, ◌==◌, ◌||◌, ◌&&◌, not, Bool-cases, Option-cases,
}
use audio_plugins_jl.Live.Types.{ok, EventType, param, midi, other, DoubleOps, LiveEvent, ParamInfo}
use audio_plugins_jl.Live.Session.{Setup}
use audio_plugins_jl.Live.Events.{
  param_is_stepped, param_is_readonly, has_flag, param_info, value_fits, check_param, check_midi,
  check_body, check_event, check_events,
}

module _ {D : Type 0} ⦃f : DoubleOps D⦄ where
  -- A value that a parameter of the plugin takes.
  pub record Takes (p : ParamInfo D) (v : D) : Type 0 where
    pub writable : has_flag p.flags param_is_readonly ≡ false
    pub finite : f.is_finite v ≡ true
    pub above : f.less v p.min_value ≡ false
    pub below : f.less p.max_value v ≡ false
    pub stepped : (has_flag p.flags param_is_stepped ≡ false) ⊎ (f.same (f.truncated v) v ≡ true)

  abbrev pub Body : Setup D → LiveEvent D → EventType → Type 0
  Body s e param =
      ((s.block_parameters ≡ false) ⊎ (e.frame ≡ 0))
      × (p : ParamInfo D) × (param_info s.params e.param_id ≡ some p)
      × Takes p e.value
  Body s e midi =
      IsMessage (e.bytes 0) (e.bytes 1) (e.bytes 2)
      × (s.midi_input ≡ true)
      × ((s.notes_only ≡ false) ⊎ (e.bytes 0 < 0xa0))
  Body s e other = ⊥

  -- The event at `i` lies in the block, not before its predecessor, and the plugin takes it.
  pub record IsAdmissible (s : Setup D) (events : ℕ → LiveEvent D) (i : ℕ) : Type 0 where
    pub inside : (events i).frame < s.config.block_size
    pub ordered : (i ≡ 0) ⊎ ((events (i - 1)).frame ≤ (events i).frame)
    pub body : Body s (events i) (events i).type

  param_to : (s : Setup D) (e : LiveEvent D) → check_param s e ≡ ok → Body s e param
  unfolding check_param
  param_to s e h = elim (Option-cases (param_info s.params e.param_id)) [
    | inl missing ↦ absurd (ground (arith, missing))
    | inr (p, found) ↦ (
      ground arith,
      p,
      found,
      record {
        writable = ground (arith, found);
        finite = ground (arith, found);
        above = ground (arith, found);
        below = ground (arith, found);
        stepped = ground (arith, found);
      },
    )
  ]

  param_from : (s : Setup D) (e : LiveEvent D) → Body s e param → check_param s e ≡ ok
  unfolding check_param
  param_from s e (frame, p, found, v) =
      ground (arith, found, v.writable, v.finite, v.above, v.below, v.stepped)

  body_iff :
      (s : Setup D) (e : LiveEvent D) (t : EventType)
      → e.bytes 0 < 256
      → (check_body s e t ≡ ok) ↔ Body s e t
  unfolding check_body
  body_iff s e param byte = (param_to s e, param_from s e)
  body_iff s e midi byte = check_midi_iff s e byte
  body_iff s e other byte = (λ h. cc, λ h. absurd h)

  -- One event passes its checks exactly if it is admissible.
  pub check_event_iff :
      (s : Setup D) (events : ℕ → LiveEvent D) (i : ℕ)
      → (events i).bytes 0 < 256
      → (check_event s events i ≡ ok) ↔ IsAdmissible s events i
  unfolding check_event
  check_event_iff s events i byte = (
    λ h. record {
      inside = ground arith;
      ordered = ground arith;
      body = (body_iff s (events i) (events i).type byte).0 (ground arith);
    },
    λ v. ground (arith, v.inside, v.ordered, (body_iff s (events i) (events i).type byte).1 v.body),
  )

  -- The events from `i` on, `n` of them, are accepted exactly if each is admissible.
  pub check_events_iff :
      (s : Setup D) (events : ℕ → LiveEvent D) (n i : ℕ)
      → ((k : ℕ) → (events k).bytes 0 < 256)
      → (check_events s events n i ≡ ok) ↔ ((k : ℕ) → i ≤ k → k < i + n → IsAdmissible s events k)
  unfolding check_events
  check_events_iff s events zero i byte = (λ _ k lo hi. absurd (omega arith), λ _. refl)
  check_events_iff s events (suc n) i byte = (
    λ h k lo hi. elim (ℕ_discrete k i) [
      | yes first ↦
          subst (IsAdmissible s events) (sym first)
            ((check_event_iff s events i (byte i)).0 (ground arith))
      | no later ↦
          (check_events_iff s events n (suc i) byte).0 (ground arith) k (omega arith) (omega arith)
    ],
    λ all.
        let first = (check_event_iff s events i (byte i)).1 (all i (omega arith) (omega arith)) in
        let rest =
          (check_events_iff s events n (suc i) byte).1
            (λ k lo hi. all k (omega arith) (omega arith)) in
        ground (arith, first, rest),
  )
