-- ===== src/Lv2/Input.antt =====
-- The input block of csrc/lv2_host.c. `wave_at`, the loops that fill the rows and the tests of a sample's
-- place read as they do in csrc/clap_host.c, and are those of Host/Input.
use audio_plugins_jl.Base.{
  ℕ, suc, Bool, true, false, not, ◌&&◌, ◌||◌, Option, none, some, ltb, ◌==◌, if◌then◌else◌,
}
use audio_plugins_jl.Base.Loops.{for_grid, update_at}
use audio_plugins_jl.Host.Types.{ℤ, pos, negsuc, Doubles, Floats}
use audio_plugins_jl.Host.Input.{
  count_of, clamp_channels, add_ℕ, sub_ℕ, wave_at, fill_rows, sample_at,
}
use audio_plugins_jl.Lv2.State.{
  State, set_error, rehead_atom_inputs, plugin_closed, samples_missing, tone_not_finite,
}

-- `i == n` of a signed integer and a count.
unfoldable pub is_number : ℤ → ℕ → Bool
is_number (pos i) n = i == n
is_number (negsuc i) n = false

module _ {P D S : Type 0} ⦃f : Doubles D⦄ where
  -- The block `rows` is armed, under the next token.
  unfoldable pub arm : ℕ → (ℕ → ℕ → S) → State P D S → D × State P D S
  unfolding rehead_atom_inputs
  arm n rows s =
      let t = rehead_atom_inputs (record s { input = rows }) in
      (f.of_ℕ (suc t.in_token), record t { in_n = n; in_armed = true; in_token = suc t.in_token })

  -- `dep` is the token of the armed block.
  unfoldable pub is_armed : D → State P D S → Bool
  unfolding is_number
  is_armed dep s =
      f.is_finite dep && s.in_armed && is_number (f.to_long (f.add dep f.half)) s.in_token

module _ {P D S : Type 0} ⦃f : Doubles D⦄ ⦃g : Floats D S⦄ where
  unfoldable pub lv2_in_fill : Option (ℕ → D) → ℤ → ℤ → State P D S → D × State P D S
  unfolding arm
  lv2_in_fill samples n channels s =
      if not s.is_open then (f.nan, set_error plugin_closed s) else elim samples [
        | none ↦ (f.nan, set_error samples_missing s)
        | some given ↦ elim (count_of n) [
          | none ↦ (f.nan, set_error samples_missing s)
          | some m ↦
              let taken = if ltb s.block m then s.block else m in
              arm taken
                (fill_rows s.chan s.block (clamp_channels channels s.chan) taken given s.input) s
        ]
      ]

  -- The block that ends at `t`.
  unfoldable pub lv2_in_tone : D → D → D → D → State P D S → D × State P D S
  unfolding arm
  lv2_in_tone t waveform freq amp s =
      let end = f.mul t s.sample_rate in
      let first = sub_ℕ (f.to_long (f.add end f.half)) s.block in
      let w = f.to_long (f.add waveform f.half) in
      if not s.is_open
      then (f.nan, set_error plugin_closed s)
      else if not (f.is_finite end) || not (f.is_finite waveform)
      then (f.nan, set_error tone_not_finite s)
      else arm s.block
          (for_grid s.chan s.block
            (λ ch i d.
              update_at d ch i (g.to_float (wave_at s.sample_rate (add_ℕ first i) w freq amp)))
            s.input)
          s

  unfoldable pub lv2_in_sample : D → D → D → State P D S → D
  unfolding is_armed
  lv2_in_sample dep i ch s =
      if not s.is_open || not (f.is_finite i) || not (f.is_finite ch) || not (is_armed dep s)
      then f.nan
      else sample_at s.input s.in_n s.chan i ch
