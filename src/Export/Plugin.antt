-- ===== src/Export/Plugin.antt =====
-- The life of an instance of csrc/clap_plugin_template.c, its ports, and the factory that makes it.
use audio_plugins_jl.Base.{
  ℕ, Bool, true, false, not, Option, none, some, get_elem?, length, ◌==◌, if◌then◌else◌,
}
use audio_plugins_jl.Base.Loops.{for_range}
use audio_plugins_jl.Host.Types.{Bytes, Doubles, PortInfo}
use audio_plugins_jl.Host.Open.{same_bytes}
use audio_plugins_jl.Export.Program.{Program, Inst}
use audio_plugins_jl.Export.Params.{set_param, reset_state}

module _ {Pars Mem Out D : Type 0} ⦃f : Doubles D⦄ (prog : Program Pars Mem Out D) where
  abbrev pub plug_activate : D → Inst Pars Mem D → Bool × Inst Pars Mem D
  plug_activate rate s = if not (f.less (f.of_ℕ 0) rate) then (false, s) else (
    true,
    record (reset_state prog (record s { pars = prog.on_activate rate s.pars })) {
      activated = true;
    },
  )

  abbrev pub plug_deactivate : Inst Pars Mem D → Inst Pars Mem D
  plug_deactivate s = record s { activated = false }

  abbrev pub plug_start : Inst Pars Mem D → Bool × Inst Pars Mem D
  plug_start s = (true, record s { processing = true })

  abbrev pub plug_stop : Inst Pars Mem D → Inst Pars Mem D
  plug_stop s = record s { processing = false }

  abbrev pub plug_reset : Inst Pars Mem D → Inst Pars Mem D
  plug_reset s = reset_state prog s

  -- One main port each way.
  abbrev pub ports_get : ℕ → Option PortInfo
  ports_get i =
      if i == 0 then some (record { is_main = true; channel_count = prog.channels }) else none

  abbrev pub latency_get : ℕ
  latency_get = prog.latency

  -- Each parameter of the table is set to its default.
  unfoldable pub set_defaults : Inst Pars Mem D → Inst Pars Mem D
  unfolding set_param
  set_defaults s =
      for_range (length prog.info) 0
        (λ k t. elim (get_elem? prog.info k) [ none ↦ t | some p ↦ set_param prog k p.default t ]) s

  -- `make`, from `calloc`'s zeros; `memory` says that it gives an instance.
  unfoldable pub make : Bool → Option (Inst Pars Mem D)
  unfolding set_defaults
  make memory =
      if memory
      then some (
          reset_state prog (
            set_defaults (record {
              pars = prog.constants prog.no_pars;
              mem = λ c. prog.no_mem;
              values = λ k. f.of_ℕ 0;
              held = λ c. f.of_ℕ 0;
              activated = false;
              processing = false;
            })))
      else none

  unfoldable pub factory_create : Bool → Option Bytes → Option (Inst Pars Mem D)
  unfolding make
  factory_create memory none = none
  factory_create memory (some id) = if same_bytes id prog.plugin_id then make memory else none
