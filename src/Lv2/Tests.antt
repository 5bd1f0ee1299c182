-- ===== src/Lv2/Tests.antt =====
-- The theorems on csrc/lv2_host.c at work on a plugin with one MIDI input.
use audio_plugins_jl.Base.{
  ℕ, suc, ◌+◌, ◌/◌, ◌*◌, ◌≡◌, refl, true, false, ◌||◌, [], ◌∷◌, none, some, ltb, ◌==◌,
  if◌then◌else◌,
}
use audio_plugins_jl.Host.Types.{pos, Doubles, Floats}
use audio_plugins_jl.Lv2.State.{State}
use audio_plugins_jl.Lv2.Atoms.{
  AtomPort, Arena, place_atom, place_atoms, no_slots, slot_of, connect_atoms,
}
use audio_plugins_jl.Lv2.Urid.{urid_map}
use audio_plugins_jl.Lv2.Urid.Ids.{IsMapped, urid_map-IsMapped}
use audio_plugins_jl.Lv2.Input.{is_number, is_armed}
use audio_plugins_jl.Lv2.Midi.{place_event}
use audio_plugins_jl.Lv2.Process.{RunArgs, RunReply}
use audio_plugins_jl.Lv2.Calls.{Call, midi, processing, lv2_calls}
use audio_plugins_jl.Lv2.Calls.Within.{IsWithin, lv2_calls-IsWithin}
use audio_plugins_jl.Lv2.Calls.Once.{was_refused, lv2_process_once}

urid_map-IsMapped_example :
    IsMapped
      (b'c' ∷ [])
      ((b'a' ∷ []) ∷ (b'b' ∷ []) ∷ [])
      (urid_map true (some (b'c' ∷ [])) ((b'a' ∷ []) ∷ (b'b' ∷ []) ∷ []))
urid_map-IsMapped_example = urid_map-IsMapped true (b'c' ∷ []) ((b'a' ∷ []) ∷ (b'b' ∷ []) ∷ [])

-- Whole numbers for doubles.
instance unfoldable counts : Doubles ℕ
counts = record {
  nan = 0;
  of_ℕ = λ n. n;
  half = 0;
  pi = 3;
  add = λ a b. a + b;
  sub = λ a b. a;
  mul = λ a b. a * b;
  div = λ a b. a;
  neg = λ a. a;
  trunc = λ a. a;
  floor = λ a. a;
  sin = λ a. 0;
  fmod = λ a b. a;
  sqrt = λ a. a;
  fabs = λ a. a;
  less = ltb;
  same = λ a b. a == b;
  is_finite = λ a. true;
  to_long = λ a. pos a;
  to_u32 = λ a. a;
}

instance unfoldable same_counts : Floats ℕ ℕ
same_counts = record { to_float = λ a. a; of_float = λ a. a }

abbrev pad : ℕ → ℕ
pad n = (n + 7) / 8 * 8

abbrev keys : AtomPort
keys = record { index = 0; is_input = true; min_size = 9000; midi = true }

abbrev lamps : AtomPort
lamps = record { index = 1; is_input = false; min_size = 0; midi = false }

abbrev arena : Arena
arena = record {
  n_atom = 2;
  bytes = 9000 + 8192;
  slots = λ i.
      if i == 1 then slot_of lamps 9000 else if i == 0 then slot_of keys 0 else (no_slots).slots i;
  atom_slot = λ k. if k == 1 then some 1 else if k == 0 then some 0 else none;
}

abbrev armed : State ℕ ℕ ℕ
armed = record {
  inst = 0;
  is_open = true;
  sample_rate = 48000;
  block = 64;
  chan = 1;
  plugin_name = [];
  plugin_uri = [];
  n_ports = 2;
  n_audio_in = 1;
  n_audio_out = 1;
  latency_port = none;
  params = [];
  ctrl = λ k. 0;
  is_ctrl_in = λ k. false;
  is_ctrl_out = λ k. false;
  n_atom = 0;
  atom_slot = λ k. none;
  slots = (no_slots).slots;
  u_sequence = 1;
  u_frametime = 3;
  u_midievent = 4;
  u_chunk = 2;
  input = λ c i. 0;
  output = λ c i. 0;
  side_in = λ i. 0;
  in_token = 1;
  out_token = 0;
  in_armed = true;
  in_n = 64;
  out_n = 0;
  n_process = 0;
  midi_bad = false;
  err = none;
}

-- The same block, with the buffers headed.
abbrev ready : State ℕ ℕ ℕ
ready = record armed {
  n_atom = 2;
  atom_slot = arena.atom_slot;
  slots = λ i. record (arena.slots i) { size = 8 };
}

abbrev run : ℕ → RunArgs ℕ → RunReply ℕ ℕ
run inst args = record { inst = suc inst; output = args.input; ctrl_out = args.ctrl }

abbrev note : Call ℕ
note = midi 1 0 12 0x90 60 100

abbrev again : Call ℕ
again = processing 1 (λ i. 0) (λ i. 0)

lv2_calls-IsWithin_example :
    IsWithin pad arena (lv2_calls pad run (note ∷ note ∷ again ∷ []) (connect_atoms arena armed))
unfolding place_atoms place_atom
lv2_calls-IsWithin_example =
    lv2_calls-IsWithin pad run (keys ∷ lamps ∷ []) arena (note ∷ note ∷ again ∷ []) armed
      (λ n. refl) refl

lv2_process_once_example :
    (lv2_calls pad run (note ∷ again ∷ again ∷ note ∷ again ∷ []) ready).n_process
    ≡ ready.n_process
      + (if ready.midi_bad || was_refused (place_event pad 0 12 (0x90 ∷ 60 ∷ 100 ∷ []) ready)
          then 0
          else 1)
unfolding is_armed is_number counts
lv2_process_once_example =
    lv2_process_once pad run 1 0 12 0x90 60 100 (λ i. 0) (λ i. 0) (again ∷ note ∷ again ∷ []) ready
      refl refl tt
