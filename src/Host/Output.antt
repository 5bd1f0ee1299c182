-- ===== src/Host/Output.antt =====
-- The output block of csrc/clap_host.c.
use audio_plugins_jl.Base.{◌*◌, Bool, not, ◌&&◌, ◌==◌, if◌then◌else◌}
use audio_plugins_jl.Base.Loops.{for_grid}
use audio_plugins_jl.Host.Types.{Doubles, Floats}
use audio_plugins_jl.Host.State.{Ctx}
use audio_plugins_jl.Host.Tokens.{token_matches}
use audio_plugins_jl.Host.Input.{sample_at}

module _ {P D S : Type 0} ⦃f : Doubles D⦄ where
  unfoldable pub out_ok : D → Ctx P D S → Bool
  out_ok dep c =
      c.st.is_open
      && not (f.same c.st.out_token (f.of_ℕ 0))
      && token_matches c.legacy dep c.st.out_token

  unfoldable pub out_count : D → Ctx P D S → D
  out_count dep c = if out_ok dep c then f.of_ℕ c.st.out_n else f.nan

  unfoldable pub out_valid : D → Ctx P D S → D
  out_valid dep c = if out_ok dep c then f.of_ℕ 1 else f.of_ℕ 0

module _ {P D S : Type 0} ⦃f : Doubles D⦄ ⦃g : Floats D S⦄ where
  unfoldable pub out_sample : D → D → D → Ctx P D S → D
  out_sample dep i ch c =
      if out_ok dep c then sample_at c.st.output c.st.out_n c.st.chan i ch else f.nan

  unfoldable pub out_rms : D → Ctx P D S → D
  out_rms dep c =
      if not (out_ok dep c)
      then f.nan
      else if c.st.out_n == 0
      then f.of_ℕ 0
      else let sum =
          for_grid c.st.chan c.st.out_n
            (λ ch i acc.
              f.add acc (f.mul (g.of_float (c.st.output ch i)) (g.of_float (c.st.output ch i))))
            (f.of_ℕ 0) in
        f.sqrt (f.div sum (f.of_ℕ (c.st.out_n * c.st.chan)))

  unfoldable pub out_peak : D → Ctx P D S → D
  out_peak dep c =
      if not (out_ok dep c)
      then f.nan
      else for_grid c.st.chan c.st.out_n
          (λ ch i m. let a = f.fabs (g.of_float (c.st.output ch i)) in if f.less m a then a else m)
          (f.of_ℕ 0)
