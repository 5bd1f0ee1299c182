-- ===== src/Host/State.antt =====
-- `state_t` of csrc/clap_host.c and the callbacks that change it.
use audio_plugins_jl.Base.{ℕ, ◌+◌, Bool, List, [], ◌∷◌, Option, some}
use audio_plugins_jl.Host.Types.{
  Bytes, HostError, Desc, Param, Layout, Requests, HostRequest, request_restart, request_process,
  request_callback, try_push,
}

-- `state_t`; `is_open` is its `open`, and the descriptor cache is its first `n_desc` rows.
pub record State (P D S : Type 0) : Type 0 where
  pub requests : Requests
  pub dl : Option ℕ
  pub entry : Option ℕ
  pub factory : Bool
  pub plugin : Option P
  pub params : Bool
  pub latency : Bool
  pub is_open : Bool
  pub entry_inited : Bool
  pub sample_rate : D
  pub block : ℕ
  pub chan : ℕ
  pub desc : List Desc
  pub cap_desc : ℕ
  pub plugin_name : Bytes
  pub cache : List (Param D)
  pub slot_id : ℕ → D
  pub slot_val : ℕ → D
  pub sent_val : ℕ → D
  pub open_index : Option ℕ
  pub input : ℕ → ℕ → S
  pub output : ℕ → ℕ → S
  pub sink : ℕ → S
  pub aux_in : ℕ → S
  pub layout : Layout
  pub in_token : D
  pub out_token : D
  pub in_n : ℕ
  pub out_n : ℕ
  pub n_process : ℕ
  pub steady : ℕ
  pub ev : List (ℕ × D)

-- `module_ref_t`
pub record Module : Type 0 where
  pub entry : ℕ
  pub refs : ℕ

-- A state with the globals that every function shares: ERR, NEXT_TOKEN and MODULES. `legacy` says
-- that the state is DEFAULT_STATE.
pub record Ctx (P D S : Type 0) : Type 0 where
  pub legacy : Bool
  pub err : Option HostError
  pub next_token : ℕ
  pub modules : List Module
  pub st : State P D S

abbrev pub set_err : {P D S : Type 0} → HostError → Ctx P D S → Ctx P D S
set_err e c = record c { err = some e }

-- One callback of the plugin.
unfoldable pub host_request : HostRequest → Requests → Requests
host_request request_restart r = record r { restart_reqs = r.restart_reqs + 1 }
host_request request_process r = record r { process_reqs = r.process_reqs + 1 }
host_request request_callback r = record r { callback_reqs = r.callback_reqs + 1 }
host_request try_push r = record r { out_ev_dropped = r.out_ev_dropped + 1 }

-- What a plugin calls back during one call.
unfoldable pub host_requests : List HostRequest → Requests → Requests
unfolding host_request
host_requests [] r = r
host_requests (q ∷ qs) r = host_requests qs (host_request q r)
