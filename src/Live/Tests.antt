-- ===== src/Live/Tests.antt =====
-- A stereo session of two-sample blocks and two queue slots, with a plugin that doubles its input.
use audio_plugins_jl.Base.{
  ℕ, ◌+◌, ◌*◌, ◌/◌, ◌<◌, ◌≡◌, ◌≢◌, refl, ◌↔◌, ◌⊎◌, true, false, none, some, [], ◌∷◌, ◌++◌, arith,
  ltb, ◌==◌, if◌then◌else◌,
}
use audio_plugins_jl.Base.Words.{add32}
use audio_plugins_jl.Ring.{Ring, is_full, back_slot}
use audio_plugins_jl.Ring.Fifo.{Holds}
use audio_plugins_jl.Ring.Capacity.{IsCapacity}
use audio_plugins_jl.Live.Types.{
  ok, wrong_thread, running, param, midi, DoubleOps, Config, LiveEvent, midi_data, ParamInfo, Block,
  ProcessArgs, process_done, PluginOps, request_callback,
}
use audio_plugins_jl.Live.Session.{Setup, Session, is_control}
use audio_plugins_jl.Live.Open.{config_valid}
use audio_plugins_jl.Live.Open.Valid.{IsValid, config_valid-IsValid}
use audio_plugins_jl.Live.Interleave.{deinterleave, interleave, interleave-deinterleave}
use audio_plugins_jl.Live.Events.{check_midi, check_event, check_events}
use audio_plugins_jl.Live.Events.Admissible.{
  IsAdmissible, check_event_iff, IsMessage, check_midi_iff,
}
use audio_plugins_jl.Live.Queue.{Reading, enqueue, try_write, try_read, no_sequence}
use audio_plugins_jl.Live.Queue.Write.{
  Accepts, IsWritten, try_write_iff, try_write_appends, try_write_refused,
}
use audio_plugins_jl.Live.Queue.Read.{IsReadOf, Gives, try_read_oldest, try_read_iff}
use audio_plugins_jl.Live.Process.{process_args, process_block}
use audio_plugins_jl.Live.Process.Refine.{IsHanded, starved}
use audio_plugins_jl.Live.Process.Result.{planes, outcome, IsResult}
use audio_plugins_jl.Live.Process.Flow.{
  process_block_flow, process_block_underrun, process_block_overrun,
}

-- Doubles that are natural numbers.
instance abbrev pub whole : DoubleOps ℕ
whole = record {
  is_finite = λ d. true;
  less = ltb;
  same = λ a b. a == b;
  truncated = λ d. d;
  of_ℕ = λ n. n;
  mul = ◌*◌;
  div = ◌/◌;
  to_u64 = λ d. d;
}

-- A plugin that counts its blocks, doubles its input and asks for a callback.
abbrev pub doubler : PluginOps ℕ ℕ ℕ
doubler = record {
  activate = λ p rate low high. (true, [], p);
  start_processing = λ p. (true, [], p);
  process = λ p a. record {
    status = process_done;
    outputs = λ ch i. 2 * a.audio_inputs ch i;
    calls = request_callback ∷ [];
    next = p + 1;
  };
  stop_processing = λ p. ([], p);
  deactivate = λ p. ([], p);
  on_main_thread = λ p. ([], p);
  latency = λ p. 0;
  audio_latency = λ p. none;
}

abbrev pub config : Config ℕ
config = record {
  sample_rate = 48000;
  block_size = 2;
  channels = 2;
  queue_blocks = 2;
  driver = 0;
  priority = 0;
}

abbrev gain : ParamInfo ℕ
gain = record { id = 7; flags = 1; min_value = 0; max_value = 10 }

abbrev pub setup : Setup ℕ
setup = record {
  config = config;
  control = 1;
  period_ns = 41666;
  params = gain ∷ [];
  midi_input = true;
  block_parameters = false;
  notes_only = true;
}

-- `gain` set to 3 in frame 0, then a note in frame 1.
abbrev set_gain : LiveEvent ℕ
set_gain = record { type = param; frame = 0; param_id = 7; bytes = λ i. 0; value = 3 }

abbrev note_bytes : ℕ → ℕ
note_bytes i = if i == 0 then 0x90 else 60

abbrev note : LiveEvent ℕ
note = record { type = midi; frame = 1; param_id = 0; bytes = note_bytes; value = 0 }

abbrev list : ℕ → LiveEvent ℕ
list i = if i == 0 then set_gain else note

abbrev samples : ℕ → ℕ
samples j = j + 1

-- A block with both events under the tag 40, and an empty slot.
abbrev tagged : Block ℕ ℕ
tagged = record { samples = samples; events = list; n = 2; tick = 0; input_sequence = 40 }

abbrev pub blank : Block ℕ ℕ
blank = record { samples = λ j. 0; events = list; n = 0; tick = 0; input_sequence = 0 }

abbrev pub ring : ℕ → ℕ → Block ℕ ℕ → Ring (Block ℕ ℕ)
ring r w b = record { read = r; write = w; slots = b ∷ b ∷ [] }

abbrev pub running_session : {P : Type 0} → P → Ring (Block ℕ ℕ) → Ring (Block ℕ ℕ) → Session P ℕ ℕ
running_session plugin input output = record {
  setup = setup;
  plugin = plugin;
  device = false;
  joinable = true;
  activated = true;
  device_started = false;
  device_thread = 0;
  priority_changed = false;
  priority_granted = false;
  latency = 0;
  input = input;
  output = output;
  zero = 0;
  in_ptr = λ ch i. 0;
  out_ptr = λ ch i. 0;
  events = λ i. midi_data 0 0 0 0;
  nevents = 0;
  tick = 9;
  steady = 18;
  phase = running;
  ready = true;
  stop = false;
  restart = false;
  callback = false;
  counters = record {
    blocks = 9;
    underruns = 0xffffffff;
    overruns = 0;
    deadline_misses = 0;
    process_errors = 0;
    output_events_dropped = 0;
  };
  error = ok;
  device_guard = false;
  device_closing = false;
}

two-IsCapacity : IsCapacity 2
two-IsCapacity = record { log = 1; small = omega arith; power = refl }

empty-Holds : Holds 2 (ring 0 0 blank) []
empty-Holds = record {
  capacity = two-IsCapacity;
  storage = refl;
  read_word = omega arith;
  write_at = refl;
  fits = omega arith;
  window = tt;
}

-- One block, its index the last before the wrap.
one-Holds : Holds 2 (ring 0xffffffff 0 tagged) (tagged ∷ [])
one-Holds = record {
  capacity = two-IsCapacity;
  storage = refl;
  read_word = omega arith;
  write_at = refl;
  fits = omega arith;
  window = (refl, tt);
}

full-Holds : Holds 2 (ring 4 6 tagged) (tagged ∷ tagged ∷ [])
full-Holds = record {
  capacity = two-IsCapacity;
  storage = refl;
  read_word = omega arith;
  write_at = refl;
  fits = omega arith;
  window = (refl, (refl, tt));
}

-- Nothing queued; a block queued; a block queued and no room for its result.
abbrev idle : Session ℕ ℕ ℕ
idle = running_session 0 (ring 0 0 blank) (ring 0 0 blank)

abbrev fed : Session ℕ ℕ ℕ
fed = running_session 0 (ring 0xffffffff 0 tagged) (ring 0 0 blank)

abbrev choked : Session ℕ ℕ ℕ
choked = running_session 0 (ring 0xffffffff 0 tagged) (ring 4 6 tagged)

config_valid-IsValid_example : (config_valid config ≡ true) ↔ IsValid config
config_valid-IsValid_example = config_valid-IsValid config

queue_of_three : config_valid (record config { queue_blocks = 3 }) ≡ false
unfolding config_valid
queue_of_three = refl

check_midi_iff_example :
    (check_midi setup note ≡ ok)
    ↔ (IsMessage 0x90 60 60 × (true ≡ true) × ((true ≡ false) ⊎ (0x90 < 0xa0)))
check_midi_iff_example = check_midi_iff setup note (omega arith)

check_event_iff_example : (check_event setup list 1 ≡ ok) ↔ IsAdmissible setup list 1
check_event_iff_example = check_event_iff setup list 1 (omega arith)

interleave-deinterleave_example :
    interleave 2 2 (deinterleave 2 2 samples (λ ch i. 0)) (λ j. 0) 3 ≡ 4
interleave-deinterleave_example =
    interleave-deinterleave 2 2 samples (λ ch i. 0) (λ j. 0) 3 (omega arith)

list-bytes : (k : ℕ) → (list k).bytes 0 < 256
list-bytes k = ground arith

try_write_iff_example :
    ((try_write idle 1 (some samples) (some list) 2 40).0 ≡ ok) ↔ Accepts idle 1 list 2 40 []
try_write_iff_example = try_write_iff idle [] 1 samples list 2 40 empty-Holds list-bytes

idle_accepts : (try_write idle 1 (some samples) (some list) 2 40).0 ≡ ok
unfolding try_write is_control check_events check_event enqueue is_full back_slot
idle_accepts = refl

try_write_appends_example :
    (b : Block ℕ ℕ) × IsWritten idle samples (some list) 2 40 b
    × Holds 2 (try_write idle 1 (some samples) (some list) 2 40).1.input ([] ++ b ∷ [])
    × ((try_write idle 1 (some samples) (some list) 2 40).1
        ≡ record idle { input = (try_write idle 1 (some samples) (some list) 2 40).1.input })
try_write_appends_example =
    try_write_appends idle [] 1 samples (some list) 2 40 empty-Holds idle_accepts

-- The thread 2 is not the control thread.
other_thread : (try_write idle 2 (some samples) (some list) 2 40).0 ≡ wrong_thread
unfolding try_write is_control
other_thread = refl

try_write_refused_example : (try_write idle 2 (some samples) (some list) 2 40).1 ≡ idle
try_write_refused_example =
    try_write_refused idle 2 (some samples) (some list) 2 40 (λ h. ground (arith, other_thread))

try_read_oldest_example :
    (r : Reading ℕ) × IsReadOf choked tagged r
    × ((try_read choked 1 (some samples) true).0 ≡ ok)
    × ((try_read choked 1 (some samples) true).1 ≡ some r)
    × Holds 2 (try_read choked 1 (some samples) true).2.output (tagged ∷ [])
    × ((try_read choked 1 (some samples) true).2
        ≡ record choked { output = (try_read choked 1 (some samples) true).2.output })
try_read_oldest_example = try_read_oldest choked 1 samples tagged (tagged ∷ []) refl full-Holds

try_read_iff_example :
    (((try_read idle 1 (some samples) true).0 ≡ ok) ↔ Gives idle 1 (some samples) true [])
    × ((try_read idle 1 (some samples) true).0 ≢ ok
        → ((try_read idle 1 (some samples) true).1 ≡ none)
          × ((try_read idle 1 (some samples) true).2 ≡ idle))
try_read_iff_example = try_read_iff idle [] 1 (some samples) true empty-Holds

process_block_flow_example :
    (a : ProcessArgs ℕ ℕ) × IsHanded fed tagged a
    × ((process_block doubler fed none none 7).0 ≡ outcome (doubler.process 0 a).status)
    × Holds 2 (process_block doubler fed none none 7).2.input []
    × (r : Block ℕ ℕ) × IsResult setup 9 (planes fed (doubler.process 0 a)) 40 r
    × Holds 2 (process_block doubler fed none none 7).2.output ([] ++ r ∷ [])
process_block_flow_example =
    process_block_flow doubler fed 7 refl [] empty-Holds tagged [] one-Holds (omega arith)

process_block_underrun_example :
    (r : Block ℕ ℕ) × IsResult setup 9
      (planes idle (doubler.process 0 (process_args (starved idle false))))
      no_sequence
      r
    × Holds 2 (process_block doubler idle none none 7).2.output ([] ++ r ∷ [])
    × ((process_block doubler idle none none 7).2.counters.underruns ≡ add32 0xffffffff 1)
    × ((process_block doubler idle none none 7).2.counters.overruns ≡ 0)
process_block_underrun_example =
    process_block_underrun doubler idle 7 refl [] empty-Holds empty-Holds (omega arith)

process_block_overrun_example :
    Holds 2 (process_block doubler choked none none 7).2.input []
    × ((process_block doubler choked none none 7).2.output ≡ choked.output)
    × ((process_block doubler choked none none 7).2.counters.overruns ≡ add32 0 1)
process_block_overrun_example =
    process_block_overrun doubler choked 7 refl (tagged ∷ tagged ∷ []) full-Holds tagged []
      one-Holds refl
