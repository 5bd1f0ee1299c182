-- ===== src/Host/Types.antt =====
-- The state of csrc/clap_host.c and what it asks of C's doubles, of bundles and of plugins. A C
-- string is the list of its bytes; a `long` that may be negative is an integer.
use audio_plugins_jl.Base.{ℕ, ◌+◌, Bool, List, Option, none, some, ltb, if◌then◌else◌}

abbrev pub Bytes : Type 0
Bytes = List ℕ

-- A signed integer: `negsuc n` is `-(n + 1)`.
pub data ℤ : Type 0 where
  pos : ℕ → ℤ
  negsuc : ℕ → ℤ

-- `i >= 0 && i < n`, with the index that it is then.
unfoldable pub index_below : ℤ → ℕ → Option ℕ
index_below (pos i) n = if ltb i n then some i else none
index_below (negsuc i) n = none

-- CLAP_HOST_MAX_BLOCK and its companions in csrc/clap_host.h.
abbrev pub max_block : ℕ
max_block = 8192

abbrev pub max_chan : ℕ
max_chan = 2

abbrev pub max_params : ℕ
max_params = 64

abbrev pub max_ports : ℕ
max_ports = 16

abbrev pub max_port_chan : ℕ
max_port_chan = 32

abbrev pub param_slots : ℕ
param_slots = 4

abbrev pub desc_str : ℕ
desc_str = 256

abbrev pub max_features : ℕ
max_features = 12

abbrev pub feature_str : ℕ
feature_str = 48

abbrev pub name_size : ℕ
name_size = 256

abbrev pub scan_sanity : ℕ
scan_sanity = 65536

-- EV_MAX
abbrev pub ev_max : ℕ
ev_max = max_params + param_slots

-- What the source uses of `double`.
pub record Doubles (D : Type 0) : Type 0 where
  pub nan : D
  pub of_ℕ : ℕ → D
  pub half : D
  pub pi : D
  pub add : D → D → D
  pub sub : D → D → D
  pub mul : D → D → D
  pub div : D → D → D
  pub neg : D → D
  pub trunc : D → D
  pub floor : D → D
  pub sin : D → D
  pub fmod : D → D → D
  pub sqrt : D → D
  pub fabs : D → D
  pub less : D → D → Bool
  pub same : D → D → Bool
  pub is_finite : D → Bool
  pub to_long : D → ℤ
  pub to_u32 : D → ℕ

-- `(float)x` and `(double)x`.
pub record Floats (D S : Type 0) : Type 0 where
  pub to_float : D → S
  pub of_float : S → D

-- What `set_err` has reported last: one constructor for each message of the source.
pub data HostError : Type 0 where
  invalid_handle token_space out_of_memory init_failed no_path open_failed no_entry incompatible
        no_factory too_many_plugins no_descriptors bad_block bad_channels bad_rate no_such_plugin
        create_failed plugin_init_failed too_many_ports bad_port misplaced_main empty_port
        too_many_channels narrow_input activate_failed start_failed nothing_open no_samples
        no_parameter queue_full wrong_plugin process_failed bad_instance handle_space
        chain_mismatch :
      HostError

-- `desc_t`, and a descriptor of a factory, whose strings may be null.
pub record Desc : Type 0 where
  pub id : Bytes
  pub name : Bytes
  pub vendor : Bytes
  pub version : Bytes
  pub description : Bytes
  pub features : List Bytes

pub record RawDesc : Type 0 where
  pub id : Option Bytes
  pub name : Option Bytes
  pub vendor : Option Bytes
  pub version : Option Bytes
  pub description : Option Bytes
  pub features : List Bytes

-- A row of the parameter cache, or what a plugin reports for one.
pub record Param (D : Type 0) : Type 0 where
  pub id : ℕ
  pub min : D
  pub max : D
  pub default : D
  pub name : Bytes

-- `clap_audio_port_info_t`, as far as it is read.
pub record PortInfo : Type 0 where
  pub is_main : Bool
  pub channel_count : ℕ

-- Where a channel pointer leads: a row of `in` or of `out`, the shared silence, or the sink.
pub data Target : Type 0 where
  in_row out_row : ℕ → Target
  aux sink : Target

-- One `clap_audio_buffer_t`: its channels start at `first` in the pointer array.
pub record Buffer : Type 0 where
  pub first : ℕ
  pub channel_count : ℕ

-- The port layout; the counts and both pointer arrays.
pub record Layout : Type 0 where
  pub n_in_ports : ℕ
  pub n_out_ports : ℕ
  pub n_in_chan : ℕ
  pub n_out_chan : ℕ
  pub n_in_main : ℕ
  pub n_out_main : ℕ
  pub n_in_aux : ℕ
  pub in_bufs : ℕ → Buffer
  pub out_bufs : ℕ → Buffer
  pub in_ptr : ℕ → Target
  pub out_ptr : ℕ → Target

-- The counters of what a plugin has asked for.
pub record Requests : Type 0 where
  pub restart_reqs : ℕ
  pub process_reqs : ℕ
  pub callback_reqs : ℕ
  pub out_ev_dropped : ℕ

-- What a plugin may call back.
pub data HostRequest : Type 0 where
  request_restart request_process request_callback try_push : HostRequest

-- `clap_process_t`: the layout's buffers, and the queued parameter values.
pub record ProcessArgs (D S : Type 0) : Type 0 where
  pub steady_time : ℕ
  pub frames_count : ℕ
  pub audio_inputs_count : ℕ
  pub audio_outputs_count : ℕ
  pub audio_inputs : ℕ → ℕ → S
  pub events : List (ℕ × D)

pub record ProcessReply (P S : Type 0) : Type 0 where
  pub failed : Bool
  pub outputs : ℕ → ℕ → S
  pub calls : List HostRequest
  pub next : P

-- A plugin of another party: what a call returns, what it calls back, and the plugin afterwards.
pub record PluginOps (P D S : Type 0) : Type 0 where
  pub init : P → Bool × List HostRequest × P
  pub desc_name : P → Option Bytes
  pub has_ports : P → Bool
  pub port_count : P → Bool → ℕ
  pub port_get : P → ℕ → Bool → Option PortInfo
  pub activate : P → D → ℕ → ℕ → Bool × List HostRequest × P
  pub start_processing : P → Bool × List HostRequest × P
  pub process : P → ProcessArgs D S → ProcessReply P S
  pub stop_processing : P → List HostRequest × P
  pub deactivate : P → List HostRequest × P
  pub has_params : P → Bool
  pub param_count : P → ℕ
  pub param_info : P → ℕ → Option (Param D)
  pub param_value : P → ℕ → Option D
  pub has_latency : P → Bool
  pub latency : P → ℕ

-- What one attempt to open a bundle meets with: the answers of the loader, of the bundle's entry
-- and factory, and of the allocator. A library and an entry are numbers, as pointers are.
pub record Bundle (P : Type 0) : Type 0 where
  pub library : Option ℕ
  pub entry : Option ℕ
  pub compatible : Bool
  pub module_memory : Bool
  pub entry_init : Option Bool
  pub has_factory : Bool
  pub plugin_count : ℕ
  pub desc_memory : Bool
  pub descriptor : ℕ → Option RawDesc
  pub create : Bytes → Option P
