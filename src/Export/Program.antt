-- ===== src/Export/Program.antt =====
-- What csrc/clap_plugin_template.c is rendered with, and the instance that it keeps.
use audio_plugins_jl.Base.{ℕ, suc, Bool, List, [], ◌∷◌, Option, none, some, ◌==◌, if◌then◌else◌}
use audio_plugins_jl.Host.Types.{Bytes}

-- `ap_param_info_t`; `stepped` is CLAP_PARAM_IS_STEPPED of its flags.
pub record ParamInfo (D : Type 0) : Type 0 where
  pub id : ℕ
  pub name : Bytes
  pub min : D
  pub max : D
  pub default : D
  pub stepped : Bool

-- The rendered parts: the tables, the step function and its reset, which are another party's code,
-- and the assignments that stand for PARAM_APPLY, ON_ACTIVATE, CONSTANTS and OUTPUT_READ. The last
-- gives the output sample, and what is held of it.
pub record Program (Pars Mem Out D : Type 0) : Type 0 where
  pub plugin_id : Bytes
  pub channels : ℕ
  pub latency : ℕ
  pub info : List (ParamInfo D)
  pub no_pars : Pars
  pub no_mem : Mem
  pub constants : Pars → Pars
  pub apply : ℕ → D → Pars → Pars
  pub on_activate : D → Pars → Pars
  pub reset : Mem → Mem
  pub step : D → Pars → Mem → Out × Pars × Mem
  pub read_output : Out → D → D × D

-- `inst_t`
pub record Inst (Pars Mem D : Type 0) : Type 0 where
  pub pars : Pars
  pub mem : ℕ → Mem
  pub values : ℕ → D
  pub held : ℕ → D
  pub activated : Bool
  pub processing : Bool

-- `param_index`, from row `i` on.
unfoldable pub param_index : {D : Type 0} → ℕ → List (ParamInfo D) → ℕ → Option ℕ
param_index id [] i = none
param_index id (p ∷ ps) i =
    let rest = param_index id ps (suc i) in if p.id == id then some i else rest
