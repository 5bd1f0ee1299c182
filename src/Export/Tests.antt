-- ===== src/Export/Tests.antt =====
-- The theorems on csrc/clap_plugin_template.c at work on a gate of one parameter.
use mathlib.Core.Option.{some-injective}
use audio_plugins_jl.Base.{
  subst, ℕ, zero, suc, ◌^◌, ◌<◌, ◌≡◌, refl, Bool, true, false, not, ◌&&◌, List, [], ◌∷◌, ◌++◌,
  Option, none, some, get_elem?, ◌==◌, if◌then◌else◌, arith,
}
use audio_plugins_jl.Host.Types.{Bytes, pos, Doubles, Floats}
use audio_plugins_jl.Host.Scan.{take}
use audio_plugins_jl.Export.Program.{ParamInfo, Program, Inst, param_index}
use audio_plugins_jl.Export.Params.{Event, fitted, params_flush}
use audio_plugins_jl.Export.Stream.{Streams, Patterns, drop}
use audio_plugins_jl.Export.Stream.Contract.{IsStream}
use audio_plugins_jl.Export.State.{state_save, state_load}
use audio_plugins_jl.Export.State.RoundTrip.{IsExact}
use audio_plugins_jl.Export.State.Restored.{IsIndexed}
use audio_plugins_jl.Export.State.Session.{state_load-state_save}
use audio_plugins_jl.Export.Process.{Audio, Block, is_refused, plug_process}
use audio_plugins_jl.Export.Process.Applied.{applied, plug_process_applies}
use audio_plugins_jl.Export.Process.Consecutive.{plug_process_in_two, first_block, then_second}

-- Numbers of two values: zero, and one.
instance unfoldable two_valued : Doubles Bool
two_valued = record {
  nan = false;
  of_ℕ = λ n. not (n == 0);
  half = false;
  pi = true;
  add = λ a b. a;
  sub = λ a b. a;
  mul = λ a b. a;
  div = λ a b. a;
  neg = λ a. a;
  trunc = λ a. a;
  floor = λ a. a;
  sin = λ a. a;
  fmod = λ a b. a;
  sqrt = λ a. a;
  fabs = λ a. a;
  less = λ a b. not a && b;
  same = λ a b. if a then b else not b;
  is_finite = λ a. true;
  to_long = λ a. pos (if a then 1 else 0);
  to_u32 = λ a. if a then 1 else 0;
}

instance unfoldable one_bit : Floats Bool Bool
one_bit = record { to_float = λ a. a; of_float = λ a. a }

instance unfoldable bits : Patterns Bool
bits = record { to_bits = λ a. if a then 1 else 0; of_bits = λ n. not (n == 0) }

bits-IsExact : IsExact bits
unfolding bits
bits-IsExact = record { exact = λ a. exact a; bounded = λ a. bounded a }
  where
    exact : (a : Bool) → not ((if a then 1 else 0) == 0) ≡ a
    exact true = refl
    exact false = refl

    bounded : (a : Bool) → (if a then 1 else 0) < 2 ^ 64
    bounded true = omega arith
    bounded false = omega arith

-- Streams that move one byte at a time.
abbrev slow : Streams Bytes Bytes
slow = record { write = λ o bs. (pos 1, o ++ take 1 bs); read = λ i n. (pos 1, take 1 i, drop 1 i) }

take_once : (i : Bytes) → take 1 (take 1 i) ≡ take 1 i
unfolding take
take_once [] = refl
take_once (b ∷ i) = refl

slow-IsStream : IsStream slow
unfolding take
slow-IsStream = record {
  written = λ o. o;
  remaining = λ i. i;
  takes = λ o bs l. record { count = 0; answer = refl; within = l; appended = refl };
  gives = λ i n l m. record {
    count = 0;
    answer = refl;
    within = l;
    bytes = take_once i;
    advanced = refl;
  };
}

abbrev row : ℕ → ParamInfo Bool
row id = record { id = id; name = []; min = false; max = true; default = true; stepped = false }

-- The gate lets samples through while its parameter is one, and counts them.
abbrev gate : Program Bool ℕ Bool Bool
gate = record {
  plugin_id = [];
  channels = 1;
  latency = 0;
  info = row 300 ∷ row 7 ∷ [];
  no_pars = false;
  no_mem = 0;
  constants = λ p. p;
  apply = λ k v p. if k == 0 then v else p;
  on_activate = λ rate p. p;
  reset = λ m. 0;
  step = λ x p m. (x && p, p, suc m);
  read_output = λ o held. (o, o);
}

abbrev shut : Inst Bool ℕ Bool
shut = record {
  pars = false;
  mem = λ c. 0;
  values = λ k. false;
  held = λ c. false;
  activated = true;
  processing = true;
}

abbrev open_gate : Inst Bool ℕ Bool
open_gate = record {
  pars = true;
  mem = λ c. 0;
  values = λ k. k == 0;
  held = λ c. false;
  activated = true;
  processing = true;
}

gate-IsIndexed : IsIndexed (gate.info)
unfolding param_index
gate-IsIndexed zero p e =
    subst (λ q. param_index q.id gate.info 0 ≡ some 0) (some-injective (row 300) p e) refl
gate-IsIndexed (suc zero) p e =
    subst (λ q. param_index q.id gate.info 0 ≡ some 1) (some-injective (row 7) p e) refl
gate-IsIndexed (suc (suc k)) p e = ground (arith, e)

state_load-state_save_example :
    ((state_save slow gate open_gate []).0 ≡ true)
    × ((state_load slow gate shut (state_save slow gate open_gate []).1).0 ≡ true)
    × ((k : ℕ) (row : ParamInfo Bool)
        → get_elem? gate.info k ≡ some row
        → (state_load slow gate shut (state_save slow gate open_gate []).1).1.values k
          ≡ fitted row (open_gate.values k))
unfolding slow-IsStream
state_load-state_save_example =
    state_load-state_save slow slow-IsStream bits-IsExact gate open_gate shut []
      (state_save slow gate open_gate []).1 gate-IsIndexed (omega arith, (omega arith, tt))
      (omega arith) refl refl

abbrev event : ℕ → Bool → Option (Event Bool)
event time value =
    some (record { time = time; core = true; param_value = true; param_id = 300; value = value })

abbrev sound : Audio Bool Bool
sound = record { data32 = some (λ c i. true); data64 = none; channel_count = 1 }

abbrev quiet : Audio Bool Bool
quiet = record { data32 = none; data64 = some (λ c i. false); channel_count = 2 }

-- Three frames; the gate opens in the second, and shuts in the third.
abbrev block : Block Bool Bool
block = record {
  frames_count = 3;
  inputs_count = 1;
  outputs_count = 1;
  input = sound;
  output = quiet;
  events = event 1 true ∷ none ∷ event 2 false ∷ [];
}

-- A program whose parameters are the list of what is applied to them.
abbrev recorder : Program (List (ℕ × Bool)) ℕ Bool Bool
recorder = record {
  plugin_id = [];
  channels = 1;
  latency = 0;
  info = row 300 ∷ row 7 ∷ [];
  no_pars = [];
  no_mem = 0;
  constants = λ p. p;
  apply = λ k v p. p ++ (k, v) ∷ [];
  on_activate = λ rate p. p;
  reset = λ m. 0;
  step = λ x p m. (x, p, suc m);
  read_output = λ o held. (o, o);
}

abbrev blank : Inst (List (ℕ × Bool)) ℕ Bool
blank = record {
  pars = [];
  mem = λ c. 0;
  values = λ k. false;
  held = λ c. false;
  activated = true;
  processing = true;
}

abbrev both : List (ℕ × Bool)
both = (0, true) ∷ (0, false) ∷ []

applied-both : applied recorder block.events ≡ both
unfolding fitted param_index two_valued
applied-both = refl

plug_process_applies_example :
    ((plug_process recorder (some block) blank).1.pars ≡ [] ++ applied recorder block.events)
    × ((plug_process recorder (some block) blank).1.values
        ≡ (params_flush recorder block.events blank).values)
unfolding is_refused
plug_process_applies_example =
    plug_process_applies recorder (λ p. p) (record { notes = λ k v p. refl; steps = λ x p m. refl })
      block blank refl

plug_process_in_two_example :
    plug_process gate (some block) shut
    ≡ then_second gate 2 1
        (event 2 false ∷ [])
        block
        (plug_process gate (some (first_block gate 2 (event 1 true ∷ none ∷ []) block)) shut)
plug_process_in_two_example =
    plug_process_in_two gate 2 1 (event 1 true ∷ none ∷ []) (event 2 false ∷ []) block shut refl
      refl (omega arith, tt) (omega arith)
