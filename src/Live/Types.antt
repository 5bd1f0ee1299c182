-- ===== src/Live/Types.antt =====
-- The types of csrc/clap_live.h, and what a session asks of C's doubles and of a plugin.
use audio_plugins_jl.Base.{ℕ, Bool, Option, List}

-- The result codes; `wrong_thread`, `wrong_state`, `plugin_error` and `priority_denied` are
-- AP_LIVE_THREAD, AP_LIVE_STATE, AP_LIVE_PLUGIN and AP_LIVE_PRIORITY.
pub data Status : Type 0 where
  ok again stopped invalid wrong_thread wrong_state plugin_error priority_denied unsupported :
      Status

-- AP_LIVE_PREPARED, AP_LIVE_RUNNING and AP_LIVE_FINISHED.
pub data Phase : Type 0 where
  prepared running finished : Phase

-- AP_LIVE_PARAM, AP_LIVE_MIDI, and any other value of the `type` field.
pub data EventType : Type 0 where
  param midi other : EventType

abbrev pub max_events : ℕ
max_events = 64

-- AP_LIVE_TIMER, AP_LIVE_DEVICE and AP_LIVE_HARDWARE.
abbrev pub driver_timer : ℕ
driver_timer = 0

abbrev pub driver_device : ℕ
driver_device = 1

abbrev pub driver_hardware : ℕ
driver_hardware = 2

-- What the source uses of `double`; its arithmetic is not looked into.
pub record DoubleOps (D : Type 0) : Type 0 where
  pub is_finite : D → Bool
  pub less : D → D → Bool
  pub same : D → D → Bool
  pub truncated : D → D
  pub of_ℕ : ℕ → D
  pub mul : D → D → D
  pub div : D → D → D
  pub to_u64 : D → ℕ

pub record Config (D : Type 0) : Type 0 where
  pub sample_rate : D
  pub block_size : ℕ
  pub channels : ℕ
  pub queue_blocks : ℕ
  pub driver : ℕ
  pub priority : ℕ

-- `ap_live_event`; `bytes` is its `midi` array.
pub record LiveEvent (D : Type 0) : Type 0 where
  pub type : EventType
  pub frame : ℕ
  pub param_id : ℕ
  pub bytes : ℕ → ℕ
  pub value : D

-- What the session keeps of a `clap_param_info_t`.
pub record ParamInfo (D : Type 0) : Type 0 where
  pub id : ℕ
  pub flags : ℕ
  pub min_value : D
  pub max_value : D

-- `block`, a slot of a queue.
pub record Block (D S : Type 0) : Type 0 where
  pub samples : ℕ → S
  pub events : ℕ → LiveEvent D
  pub n : ℕ
  pub tick : ℕ
  pub input_sequence : ℕ

-- `event_storage` as the plugin reads it: CLAP's parameter and MIDI events.
pub data HostEvent (D : Type 0) : Type 0 where
  param_value : ℕ → ℕ → D → HostEvent D
  midi_data : ℕ → ℕ → ℕ → ℕ → HostEvent D

-- What a plugin may call back during a call of the session.
pub data HostCall : Type 0 where
  request_restart request_callback request_process event_push : HostCall

-- `clap_process_t`, with the event list as the functions behind it.
pub record ProcessArgs (D S : Type 0) : Type 0 where
  pub steady_time : ℕ
  pub frames_count : ℕ
  pub audio_inputs : ℕ → ℕ → S
  pub audio_outputs : ℕ → ℕ → S
  pub event_count : ℕ
  pub event_get : ℕ → Option (HostEvent D)

-- CLAP_PROCESS_ERROR against every other status.
pub data ProcessStatus : Type 0 where
  process_error process_done : ProcessStatus

pub record ProcessReply (P S : Type 0) : Type 0 where
  pub status : ProcessStatus
  pub outputs : ℕ → ℕ → S
  pub calls : List HostCall
  pub next : P

-- A plugin of another party, as far as a running session calls it: what a call returns, what it
-- calls back, and the plugin afterwards. `latency` is the answer of its latency extension, 0
-- without one; `audio_latency` that of the LV2 adapter's own extension.
pub record PluginOps (P D S : Type 0) : Type 0 where
  pub activate : P → D → ℕ → ℕ → Bool × List HostCall × P
  pub start_processing : P → Bool × List HostCall × P
  pub process : P → ProcessArgs D S → ProcessReply P S
  pub stop_processing : P → List HostCall × P
  pub deactivate : P → List HostCall × P
  pub on_main_thread : P → List HostCall × P
  pub latency : P → ℕ
  pub audio_latency : P → Option ℕ
