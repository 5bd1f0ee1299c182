-- ===== src/Live/Session.antt =====
-- `struct ap_live` and the host callbacks that change it. The pointers to the plugin's module and
-- to the audio buffers are the plugin and the buffers themselves; a lock-free atomic is its value.
use audio_plugins_jl.Base.{
  ℕ, Bool, true, List, [], ◌∷◌, Option, none, some, ◌==◌, ltb, if◌then◌else◌,
}
use audio_plugins_jl.Base.Words.{add32}
use audio_plugins_jl.Ring.{Ring}
use audio_plugins_jl.Live.Types.{
  Status, Phase, Config, ParamInfo, Block, HostEvent, HostCall, request_restart, request_callback,
  request_process, event_push,
}

-- The atomic counters, which wrap at 2^32.
pub record Counters : Type 0 where
  pub blocks : ℕ
  pub underruns : ℕ
  pub overruns : ℕ
  pub deadline_misses : ℕ
  pub process_errors : ℕ
  pub output_events_dropped : ℕ

-- What `ap_live_open_adapter` settles for good.
pub record Setup (D : Type 0) : Type 0 where
  pub config : Config D
  pub control : ℕ
  pub period_ns : ℕ
  pub params : List (ParamInfo D)
  pub midi_input : Bool
  pub block_parameters : Bool
  pub notes_only : Bool

-- `zero` is the sample of silence. `device` says whether a hardware device is configured, and
-- `device_closing` is the `closing` flag of that device.
pub record Session (P D S : Type 0) : Type 0 where
  pub setup : Setup D
  pub open setup use *
  pub plugin : P
  pub device : Bool
  pub joinable : Bool
  pub activated : Bool
  pub device_started : Bool
  pub device_thread : ℕ
  pub priority_changed : Bool
  pub priority_granted : Bool
  pub latency : ℕ
  pub input : Ring (Block D S)
  pub output : Ring (Block D S)
  pub zero : S
  pub in_ptr : ℕ → ℕ → S
  pub out_ptr : ℕ → ℕ → S
  pub events : ℕ → HostEvent D
  pub nevents : ℕ
  pub tick : ℕ
  pub steady : ℕ
  pub phase : Phase
  pub ready : Bool
  pub stop : Bool
  pub restart : Bool
  pub callback : Bool
  pub counters : Counters
  pub error : Status
  pub device_guard : Bool
  pub device_closing : Bool

module _ {P D S : Type 0} where
  -- `control(s)`, for the calling thread `self`.
  unfoldable pub is_control : Session P D S → ℕ → Bool
  is_control s self = s.control == self

  -- `event_get`
  unfoldable pub event_get : Session P D S → ℕ → Option (HostEvent D)
  event_get s i = if ltb i s.nevents then some (s.events i) else none

  -- `request_restart`, `request_callback`, `request_process` and `event_push`
  unfoldable pub host_call : HostCall → Session P D S → Session P D S
  host_call request_restart s = record s { restart = true; stop = true }
  host_call request_callback s = record s { callback = true }
  host_call request_process s = s
  host_call event_push s = record s {
    counters = record (s.counters) {
      output_events_dropped = add32 s.counters.output_events_dropped 1;
    };
  }

  -- What a plugin calls back during one call, in order.
  unfoldable pub host_calls : List HostCall → Session P D S → Session P D S
  unfolding host_call
  host_calls [] s = s
  host_calls (c ∷ cs) s = host_calls cs (host_call c s)
