-- ===== src/Host/Tests/Rig.antt =====
-- A small arithmetic, a plugin that passes its input on, and states that it is open in.
use audio_plugins_jl.Base.{
  ℕ, zero, suc, ◌+◌, ◌-◌, refl, Bool, true, false, [], ◌∷◌, none, some, ltb, ◌==◌, if◌then◌else◌,
}
use audio_plugins_jl.Host.Types.{ℤ, pos, negsuc, Doubles, Floats, Layout, PluginOps, Bundle, aux}
use audio_plugins_jl.Host.State.{State}
use audio_plugins_jl.Host.Instances.Handles.{IsExact}

-- Whole numbers, and what is no number.
pub data Number : Type 0 where
  whole : ℤ → Number
  undefined : Number

abbrev pub add_whole : ℤ → ℤ → ℤ
add_whole (pos a) (pos b) = pos (a + b)
add_whole (pos a) (negsuc b) = if ltb b a then pos (a - suc b) else negsuc (b - a)
add_whole (negsuc a) (pos b) = if ltb a b then pos (b - suc a) else negsuc (a - b)
add_whole (negsuc a) (negsuc b) = negsuc (suc (a + b))

abbrev pub opposite : ℤ → ℤ
opposite (pos zero) = pos 0
opposite (pos (suc n)) = negsuc n
opposite (negsuc n) = pos (suc n)

abbrev pub less_whole : ℤ → ℤ → Bool
less_whole (pos a) (pos b) = ltb a b
less_whole (pos a) (negsuc b) = false
less_whole (negsuc a) (pos b) = true
less_whole (negsuc a) (negsuc b) = ltb b a

abbrev pub same_whole : ℤ → ℤ → Bool
same_whole (pos a) (pos b) = a == b
same_whole (negsuc a) (negsuc b) = a == b
same_whole _ _ = false

abbrev pub lift : (ℤ → ℤ → ℤ) → Number → Number → Number
lift f (whole a) (whole b) = whole (f a b)
lift f _ _ = undefined

abbrev pub lift_test : (ℤ → ℤ → Bool) → Number → Number → Bool
lift_test f (whole a) (whole b) = f a b
lift_test f _ _ = false

abbrev pub negated : Number → Number
negated (whole a) = whole (opposite a)
negated undefined = undefined

abbrev pub is_whole : Number → Bool
is_whole (whole a) = true
is_whole undefined = false

abbrev pub whole_of : Number → ℤ
whole_of (whole a) = a
whole_of undefined = pos 0

abbrev pub natural_of : ℤ → ℕ
natural_of (pos n) = n
natural_of (negsuc n) = 0

instance unfoldable pub numbers : Doubles Number
numbers = record {
  nan = undefined;
  of_ℕ = λ n. whole (pos n);
  half = whole (pos 0);
  pi = whole (pos 3);
  add = lift add_whole;
  sub = λ a b. lift add_whole a (negated b);
  mul = λ a b. undefined;
  div = λ a b. undefined;
  neg = negated;
  trunc = λ a. a;
  floor = λ a. a;
  sin = λ a. undefined;
  fmod = λ a b. undefined;
  sqrt = λ a. a;
  fabs = λ a. a;
  less = lift_test less_whole;
  same = lift_test same_whole;
  is_finite = is_whole;
  to_long = whole_of;
  to_u32 = λ a. natural_of (whole_of a);
}

instance unfoldable pub samples : Floats Number Number
samples = record { to_float = λ a. a; of_float = λ a. a }

pub exact : IsExact numbers
unfolding numbers
exact = record { same_ℕ = λ m n hm hn. refl }

-- One stereo port each way, one parameter.
abbrev pub rig : PluginOps ℕ Number Number
rig = record {
  init = λ p. (true, [], p);
  desc_name = λ p. none;
  has_ports = λ p. true;
  port_count = λ p is_input. 1;
  port_get = λ p i is_input. some (record { is_main = true; channel_count = 2 });
  activate = λ p rate low high. (true, [], p);
  start_processing = λ p. (true, [], p);
  process = λ p args. record { failed = false; outputs = args.audio_inputs; calls = []; next = p };
  stop_processing = λ p. ([], p);
  deactivate = λ p. ([], p);
  has_params = λ p. true;
  param_count = λ p. 1;
  param_info = λ p i. some (record {
    id = 5;
    min = whole (pos 0);
    max = whole (pos 9);
    default = whole (pos 1);
    name = 65 ∷ [];
  });
  param_value = λ p i. some (whole (pos 1));
  has_latency = λ p. false;
  latency = λ p. 0;
}

abbrev pub bundle : Bundle ℕ
bundle = record {
  library = some 1;
  entry = some 7;
  compatible = true;
  module_memory = true;
  entry_init = some true;
  has_factory = true;
  plugin_count = 1;
  desc_memory = true;
  descriptor = λ i. some (record {
    id = some (97 ∷ []);
    name = none;
    vendor = none;
    version = none;
    description = none;
    features = [];
  });
  create = λ id. some 3;
}

abbrev pub stereo : Layout
stereo = record {
  n_in_ports = 0;
  n_out_ports = 0;
  n_in_chan = 0;
  n_out_chan = 0;
  n_in_main = 0;
  n_out_main = 0;
  n_in_aux = 0;
  in_bufs = λ i. record { first = 0; channel_count = 0 };
  out_bufs = λ i. record { first = 0; channel_count = 0 };
  in_ptr = λ k. aux;
  out_ptr = λ k. aux;
}

-- An open state that uses the entry 7 and has block 3 in hand, and one that is closed.
abbrev pub open_state : State ℕ Number Number
open_state = record {
  requests = record { restart_reqs = 0; process_reqs = 0; callback_reqs = 0; out_ev_dropped = 0 };
  dl = some 1;
  entry = some 7;
  factory = true;
  plugin = some 3;
  params = true;
  latency = false;
  is_open = true;
  entry_inited = true;
  sample_rate = whole (pos 48000);
  block = 4;
  chan = 2;
  desc = [];
  cap_desc = 1;
  plugin_name = 97 ∷ [];
  cache =
      record {
        id = 5;
        min = whole (pos 0);
        max = whole (pos 9);
        default = whole (pos 1);
        name = 65 ∷ [];
      }
      ∷ [];
  slot_id = λ i. whole (negsuc 0);
  slot_val = λ i. undefined;
  sent_val = λ i. undefined;
  open_index = some 0;
  input = λ ch i. whole (pos i);
  output = λ ch i. whole (pos 0);
  sink = λ i. whole (pos 0);
  aux_in = λ i. whole (pos 0);
  layout = stereo;
  in_token = whole (pos 3);
  out_token = whole (pos 0);
  in_n = 4;
  out_n = 0;
  n_process = 0;
  steady = 0;
  ev = [];
}

abbrev pub closed_state : State ℕ Number Number
closed_state = record open_state {
  dl = none;
  entry = none;
  plugin = none;
  is_open = false;
  entry_inited = false;
}
