-- ===== src/Export/Params.antt =====
-- The parameters of csrc/clap_plugin_template.c: how a value is set, and clap.params.
use audio_plugins_jl.Base.{
  ℕ, Bool, not, List, [], ◌∷◌, Option, none, some, length, get_elem?, if◌then◌else◌,
}
use audio_plugins_jl.Base.Loops.{for_range, update}
use audio_plugins_jl.Host.Types.{Doubles}
use audio_plugins_jl.Host.Input.{of_ℤ}
use audio_plugins_jl.Host.Params.{not_negative}
use audio_plugins_jl.Export.Program.{ParamInfo, Program, Inst, param_index}

-- An event as a host sends it; `core` and `param_value` are the tests of its space and its type.
pub record Event (D : Type 0) : Type 0 where
  pub time : ℕ
  pub core : Bool
  pub param_value : Bool
  pub param_id : ℕ
  pub value : D

module _ {D : Type 0} ⦃f : Doubles D⦄ where
  unfoldable pub round_half_away : D → D
  round_half_away v = of_ℤ (f.to_long (f.add v (if not_negative v then f.half else f.neg f.half)))

  -- The value that `set_param` stores.
  unfoldable pub fitted : ParamInfo D → D → D
  unfolding round_half_away
  fitted p v =
      let low = if f.less v p.min then p.min else v in
      let high = if f.less p.max low then p.max else low in
      if p.stepped then round_half_away high else high

module _ {Pars Mem Out D : Type 0} ⦃f : Doubles D⦄ (prog : Program Pars Mem Out D) where
  -- `set_param` is called on rows of the table; on others this changes nothing.
  unfoldable pub set_param : ℕ → D → Inst Pars Mem D → Inst Pars Mem D
  set_param k v s = elim (get_elem? prog.info k) [
    | none ↦ s
    | some p ↦ record s {
      values = update s.values k (fitted p v);
      pars = prog.apply k (fitted p v) s.pars;
    }
  ]

  -- Where an id is unknown, nothing changes.
  unfoldable pub set_id : ℕ → D → Inst Pars Mem D → Inst Pars Mem D
  set_id id v s = elim (param_index id prog.info 0) [ none ↦ s | some k ↦ set_param k v s ]

  unfoldable pub apply_event : Option (Event D) → Inst Pars Mem D → Inst Pars Mem D
  apply_event none s = s
  apply_event (some e) s =
      if not e.core then s else if not e.param_value then s else set_id e.param_id e.value s

  unfoldable pub apply_events : List (Option (Event D)) → Inst Pars Mem D → Inst Pars Mem D
  unfolding apply_event
  apply_events [] s = s
  apply_events (e ∷ es) s = apply_events es (apply_event e s)

  -- `params_flush`, on the events of its list; a null list has none.
  unfoldable pub params_flush : List (Option (Event D)) → Inst Pars Mem D → Inst Pars Mem D
  unfolding apply_events
  params_flush es s = apply_events es s

  unfoldable pub params_count : ℕ
  params_count = length prog.info

  unfoldable pub params_get_info : ℕ → Option (ParamInfo D)
  params_get_info k = get_elem? prog.info k

  unfoldable pub params_get_value : ℕ → Inst Pars Mem D → Option D
  params_get_value id s = elim (param_index id prog.info 0) [
    | none ↦ none
    | some k ↦ some (s.values k)
  ]

  -- `reset_state`
  unfoldable pub reset_state : Inst Pars Mem D → Inst Pars Mem D
  reset_state s = record s {
    mem = for_range prog.channels 0 (λ c m. update m c (prog.reset (m c))) s.mem;
    held = λ c. f.of_ℕ 0;
  }
