-- ===== src/Host/Query.antt =====
-- The calls of csrc/clap_host.c that one instance serves: those that only read, with what an unknown
-- handle answers in their place, and those that change it alone.
pub mod Balance
pub mod Queue
use audio_plugins_jl.Base.{
  ℕ, Bool, true, false, not, ◌||◌, ◌&&◌, Option, none, some, [], length, get_elem?, if◌then◌else◌,
}
use audio_plugins_jl.Host.Types.{
  Bytes, ℤ, pos, negsuc, index_below, Doubles, Floats, Param, PluginOps,
}
use audio_plugins_jl.Host.State.{State, Ctx}
use audio_plugins_jl.Host.Input.{in_fill, in_tone, in_sample}
use audio_plugins_jl.Host.Params.{set_param, expect}
use audio_plugins_jl.Host.Process.{process}
use audio_plugins_jl.Host.Output.{out_sample, out_rms, out_peak, out_count, out_valid}

pub data Answer (D : Type 0) : Type 0 where
  text : Bytes → Answer D
  count : ℤ → Answer D
  number : D → Answer D
  nothing : Answer D

-- One constructor for each reading entry point.
pub data Query (D : Type 0) : Type 0 where
  plugin_name open_index n_params latency sample_rate block_size channels is_open n_audio_in
        n_audio_out n_process :
      Query D
  param_id param_min param_max param_default param_name : ℤ → Query D
  param_value out_rms_of out_peak_of out_count_of out_valid_of : D → Query D
  in_sample_of out_sample_of : D → D → D → Query D

-- One constructor for each entry point that changes the one instance it names. `clap_in_copy_for`,
-- which names two and changes the first, is `in_copy` of Host/Instances.
pub data Command (D : Type 0) : Type 0 where
  fill : Option (ℕ → D) → ℤ → ℤ → Command D
  tone : D → D → D → D → Command D
  run : D → (ℕ → D) → (ℕ → D) → Command D
  set : D → D → D → Command D
  expecting : D → D → Command D
  reset_counters : Command D

-- The row of the parameter cache, if there is one.
unfoldable pub row_of : {P D S : Type 0} → State P D S → ℤ → Option (Param D)
row_of s i = elim (index_below i (length s.cache)) [ none ↦ none | some k ↦ get_elem? s.cache k ]

module _ {P D S : Type 0} ⦃f : Doubles D⦄ where
  abbrev pub if_open : State P D S → D → D → D
  if_open s v w = if s.is_open then v else w

  abbrev pub of_row : (Param D → D) → D → State P D S → ℤ → D
  of_row field missing s i = elim (row_of s i) [ none ↦ missing | some p ↦ field p ]

  unfoldable pub get_param_value : PluginOps P D S → D → State P D S → D
  get_param_value ops id s = if not s.is_open || not s.params then f.nan else elim s.plugin [
    | none ↦ f.nan
    | some p ↦ elim (ops.param_value p (f.to_u32 id)) [ none ↦ f.nan | some v ↦ v ]
  ]

  unfoldable pub get_latency : PluginOps P D S → State P D S → D
  get_latency ops s =
      if not s.is_open || not s.latency
      then f.of_ℕ 0
      else elim s.plugin [ none ↦ f.of_ℕ 0 | some p ↦ f.of_ℕ (ops.latency p) ]

  unfoldable pub reset_counters_of : Ctx P D S → Ctx P D S
  reset_counters_of c = record c {
    st = record (c.st) {
      n_process = 0;
      steady = 0;
      requests = record {
        restart_reqs = 0;
        process_reqs = 0;
        callback_reqs = 0;
        out_ev_dropped = 0;
      };
    };
  }

module _ {P D S : Type 0} ⦃f : Doubles D⦄ ⦃g : Floats D S⦄ (ops : PluginOps P D S) where
  unfoldable pub query : Query D → Ctx P D S → Answer D
  unfolding row_of get_param_value get_latency
  query plugin_name c = text c.st.plugin_name
  query open_index c =
      count (
        if c.st.is_open
        then elim c.st.open_index [ none ↦ negsuc 0 | some k ↦ pos k ]
        else negsuc 0)
  query n_params c = count (pos (length c.st.cache))
  query latency c = number (get_latency ops c.st)
  query sample_rate c = number (if_open c.st c.st.sample_rate (f.of_ℕ 0))
  query block_size c = number (if_open c.st (f.of_ℕ c.st.block) (f.of_ℕ 0))
  query channels c = number (if_open c.st (f.of_ℕ c.st.chan) (f.of_ℕ 0))
  query is_open c = number (if_open c.st (f.of_ℕ 1) (f.of_ℕ 0))
  query n_audio_in c = number (if_open c.st (f.of_ℕ c.st.layout.n_in_chan) (f.of_ℕ 0))
  query n_audio_out c = number (if_open c.st (f.of_ℕ c.st.layout.n_out_chan) (f.of_ℕ 0))
  query n_process c = count (pos c.st.n_process)
  query (param_id i) c = number (of_row (λ p. f.of_ℕ p.id) (f.neg (f.of_ℕ 1)) c.st i)
  query (param_min i) c = number (of_row (λ p. p.min) f.nan c.st i)
  query (param_max i) c = number (of_row (λ p. p.max) f.nan c.st i)
  query (param_default i) c = number (of_row (λ p. p.default) f.nan c.st i)
  query (param_name i) c = text (elim (row_of c.st i) [ none ↦ [] | some p ↦ p.name ])
  query (param_value id) c = number (get_param_value ops id c.st)
  query (out_rms_of dep) c = number (out_rms dep c)
  query (out_peak_of dep) c = number (out_peak dep c)
  query (out_count_of dep) c = number (out_count dep c)
  query (out_valid_of dep) c = number (out_valid dep c)
  query (in_sample_of dep i ch) c = number (in_sample dep i ch c)
  query (out_sample_of dep i ch) c = number (out_sample dep i ch c)

  unfoldable pub command : Command D → Ctx P D S → Answer D × Ctx P D S
  unfolding reset_counters_of
  command (fill samples n chans) c = let (r, t) = in_fill samples n chans c in (number r, t)
  command (tone t w freq amp) c = let (r, u) = in_tone t w freq amp c in (number r, u)
  command (run dep ids vals) c = let (r, t) = process ops dep ids vals c in (number r, t)
  command (set dep id value) c = let (r, t) = set_param dep id value c in (number r, t)
  command (expecting dep index) c = let (r, t) = expect dep index c in (number r, t)
  command reset_counters c = (nothing, reset_counters_of c)

module _ {D : Type 0} ⦃f : Doubles D⦄ where
  -- What each reading call answers for a handle that names no instance.
  unfoldable pub refusal : Query D → Answer D
  refusal plugin_name = text []
  refusal open_index = count (negsuc 0)
  refusal n_params = count (negsuc 0)
  refusal is_open = number (f.of_ℕ 0)
  refusal n_process = count (negsuc 0)
  refusal (param_name i) = text []
  refusal (out_valid_of dep) = number (f.of_ℕ 0)
  refusal _ = number f.nan

  unfoldable pub refused_command : Command D → Answer D
  refused_command reset_counters = nothing
  refused_command _ = number f.nan
