-- ===== src/Lv2/Query.antt =====
-- The calls of csrc/lv2_host.c that only read, the counter, and closing.
use audio_plugins_jl.Base.{ℕ, Bool, not, ◌||◌, Option, none, some, [], get_elem?, if◌then◌else◌}
use audio_plugins_jl.Host.Types.{ℤ, pos, negsuc, index_below, Bytes, Doubles, Floats}
use audio_plugins_jl.Lv2.State.{State, Slot, ControlInput}

module _ {P D S : Type 0} ⦃f : Doubles D⦄ where
  -- The parameter at `i`, and what is read of it.
  abbrev pub of_param : {A : Type 0} → A → (ControlInput D → A) → ℤ → State P D S → A
  of_param missing read (negsuc i) s = missing
  of_param missing read (pos i) s = elim (get_elem? s.params i) [ none ↦ missing | some p ↦ read p ]

  abbrev pub lv2_host_param_id : ℤ → State P D S → D
  lv2_host_param_id i s = of_param (f.neg (f.of_ℕ 1)) (λ p. f.of_ℕ p.port) i s

  abbrev pub lv2_host_param_min : ℤ → State P D S → D
  lv2_host_param_min i s = of_param f.nan (λ p. p.min) i s

  abbrev pub lv2_host_param_max : ℤ → State P D S → D
  lv2_host_param_max i s = of_param f.nan (λ p. p.max) i s

  abbrev pub lv2_host_param_default : ℤ → State P D S → D
  lv2_host_param_default i s = of_param f.nan (λ p. p.default) i s

  abbrev pub lv2_host_param_name : ℤ → State P D S → Bytes
  lv2_host_param_name i s = of_param [] (λ p. p.name) i s

  abbrev pub lv2_host_param_symbol : ℤ → State P D S → Bytes
  lv2_host_param_symbol i s = of_param [] (λ p. p.symbol) i s

  -- `aslot`: the slot of a number.
  unfoldable pub aslot : D → State P D S → Option Slot
  aslot i s =
      if not s.is_open || not (f.is_finite i)
      then none
      else elim (index_below (f.to_long (f.add i f.half)) s.n_atom) [
        | none ↦ none
        | some k ↦ some (s.slots k)
      ]

  abbrev pub of_slot : (Slot → ℕ) → D → State P D S → D
  of_slot read i s = elim (aslot i s) [ none ↦ f.nan | some slot ↦ f.of_ℕ (read slot) ]

  abbrev pub lv2_host_atom_port_index : D → State P D S → D
  lv2_host_atom_port_index i s = of_slot (λ slot. slot.port) i s

  abbrev pub lv2_host_atom_port_is_input : D → State P D S → D
  lv2_host_atom_port_is_input i s = of_slot (λ slot. if slot.is_input then 1 else 0) i s

  abbrev pub lv2_host_atom_port_midi : D → State P D S → D
  lv2_host_atom_port_midi i s = of_slot (λ slot. if slot.midi then 1 else 0) i s

  abbrev pub lv2_host_atom_port_size : D → State P D S → D
  lv2_host_atom_port_size i s = of_slot (λ slot. slot.cap) i s

  -- A number of the open plugin, and 0 with none open.
  abbrev pub if_plugin_open : D → State P D S → D
  if_plugin_open v s = if s.is_open then v else f.of_ℕ 0

  abbrev pub lv2_host_reset_counters : State P D S → State P D S
  lv2_host_reset_counters s = record s { n_process = 0 }

module _ {P D S : Type 0} ⦃f : Doubles D⦄ ⦃g : Floats D S⦄ where
  -- The value of the port, where `test` takes its number.
  unfoldable pub control_value : (ℕ → Bool) → D → State P D S → D
  control_value test port s =
      if not s.is_open || not (f.is_finite port)
      then f.nan
      else elim (index_below (f.to_long (f.add port f.half)) s.n_ports) [
        | none ↦ f.nan
        | some k ↦ if test k then g.of_float (s.ctrl k) else f.nan
      ]

  abbrev pub lv2_host_param_value : D → State P D S → D
  lv2_host_param_value port s = control_value s.is_ctrl_in port s

  abbrev pub lv2_host_port_value : D → State P D S → D
  lv2_host_port_value port s = control_value (λ k. s.is_ctrl_in k || s.is_ctrl_out k) port s

  abbrev pub lv2_host_latency : State P D S → D
  lv2_host_latency s = elim s.latency_port [
    | none ↦ f.of_ℕ 0
    | some k ↦ if s.is_open then g.of_float (s.ctrl k) else f.of_ℕ 0
  ]
