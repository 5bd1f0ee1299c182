-- ===== src/Host/Input.antt =====
-- The input block of csrc/clap_host.c.
use audio_plugins_jl.Base.{
  ℕ, suc, ◌+◌, ◌-◌, ◌*◌, not, ◌||◌, Option, none, some, [], ltb, leb, ◌==◌, if◌then◌else◌,
}
use audio_plugins_jl.Base.Loops.{for_grid, update_at}
use audio_plugins_jl.Host.Types.{
  ℤ, pos, negsuc, index_below, Doubles, Floats, nothing_open, no_samples,
}
use audio_plugins_jl.Host.State.{Ctx, set_err}
use audio_plugins_jl.Host.Tokens.{next_token, token_matches}

-- The samples taken: at most a block of them, and none of a negative count.
abbrev pub count_of : ℤ → Option ℕ
count_of (pos n) = some n
count_of (negsuc n) = none

-- `channels` of the source, clamped to 1 .. `chan`.
unfoldable pub clamp_channels : ℤ → ℕ → ℕ
clamp_channels (negsuc n) chan = 1
clamp_channels (pos n) chan = if n == 0 then 1 else if ltb chan n then chan else n

-- `a + b`, `a - b` and `(double)a` of signed integers whose second operand is not negative.
unfoldable pub add_ℕ : ℤ → ℕ → ℤ
add_ℕ (pos a) b = pos (a + b)
add_ℕ (negsuc a) b = if leb b a then negsuc (a - b) else pos (b - suc a)

unfoldable pub sub_ℕ : ℤ → ℕ → ℤ
sub_ℕ (pos a) b = if leb b a then pos (a - b) else negsuc (b - suc a)
sub_ℕ (negsuc a) b = negsuc (a + b)

unfoldable pub of_ℤ : {D : Type 0} ⦃f : Doubles D⦄ → ℤ → D
of_ℤ ⦃f⦄ (pos n) = f.of_ℕ n
of_ℤ ⦃f⦄ (negsuc n) = f.neg (f.of_ℕ (suc n))

module _ {P D S : Type 0} ⦃f : Doubles D⦄ where
  -- The end of every new block: `n` frames of it, no pending events, and its token.
  unfoldable pub new_block : ℕ → (ℕ → ℕ → S) → Ctx P D S → D × Ctx P D S
  new_block n rows c =
      let (token, t) = next_token c c.st.in_token in
      (token, record t { st = record (t.st) { input = rows; in_n = n; ev = []; in_token = token } })

module _ {D : Type 0} ⦃f : Doubles D⦄ where
  -- `wave_at`, on the codes CLAP_WAVE_SINE to CLAP_WAVE_IMPULSE.
  unfoldable pub wave_at : D → ℤ → ℤ → D → D → D
  unfolding of_ℤ
  wave_at rate k (pos w) freq amp =
      let t = f.div (of_ℤ k) rate in
      let phase = f.mul (f.mul (f.mul (f.of_ℕ 2) f.pi) freq) t in
      if w == 1
      then f.mul amp (f.sin phase)
      else if w == 2
      then f.mul amp (
          if f.less (f.sin phase) (f.of_ℕ 0) || not (f.same (f.sin phase) (f.sin phase))
          then f.neg (f.of_ℕ 1)
          else f.of_ℕ 1)
      else if w == 3
      then f.mul amp (f.sub (f.mul (f.of_ℕ 2) (f.fmod (f.mul freq t) (f.of_ℕ 1))) (f.of_ℕ 1))
      else if w == 4
      then elim k [ pos n ↦ if n == 0 then amp else f.of_ℕ 0 | negsuc n ↦ f.of_ℕ 0 ]
      else f.of_ℕ 0
  wave_at rate k (negsuc w) freq amp = f.of_ℕ 0

module _ {D S : Type 0} ⦃f : Doubles D⦄ ⦃g : Floats D S⦄ where
  -- Both loops of `clap_in_fill`, of `chan` channels over a block: a channel past `ch` repeats the
  -- first one, and a frame past `n` is silent.
  unfoldable pub fill_rows : ℕ → ℕ → ℕ → ℕ → (ℕ → D) → (ℕ → ℕ → S) → ℕ → ℕ → S
  fill_rows chan block ch n samples rows =
      for_grid chan block
        (λ c i d. update_at d c i (
          if ltb i n
          then g.to_float (samples (if ltb c ch then i * ch + c else i * ch))
          else g.to_float (f.of_ℕ 0)))
        rows

  -- A sample of a block of `n` frames on `chan` rows; NaN outside.
  unfoldable pub sample_at : (ℕ → ℕ → S) → ℕ → ℕ → D → D → D
  sample_at rows n chan i ch = elim (index_below (f.to_long (f.add i f.half)) n) [
    | none ↦ f.nan
    | some k ↦ elim (index_below (f.to_long (f.add ch f.half)) chan) [
      | none ↦ f.nan
      | some c ↦ g.of_float (rows c k)
    ]
  ]

module _ {P D S : Type 0} ⦃f : Doubles D⦄ ⦃g : Floats D S⦄ where
  unfoldable pub in_fill : Option (ℕ → D) → ℤ → ℤ → Ctx P D S → D × Ctx P D S
  in_fill samples n channels c =
      if not c.st.is_open then (f.nan, set_err nothing_open c) else elim samples [
        | none ↦ (f.nan, set_err no_samples c)
        | some given ↦ elim (count_of n) [
          | none ↦ (f.nan, set_err no_samples c)
          | some m ↦
              let taken = if ltb c.st.block m then c.st.block else m in
              new_block taken
                (fill_rows c.st.chan c.st.block (clamp_channels channels c.st.chan) taken given
                  c.st.input)
                c
        ]
      ]

  -- The block that ends at `t`.
  unfoldable pub in_tone : D → D → D → D → Ctx P D S → D × Ctx P D S
  in_tone t waveform freq amp c =
      if not c.st.is_open
      then (f.nan, set_err nothing_open c)
      else let first = sub_ℕ (f.to_long (f.add (f.mul t c.st.sample_rate) f.half)) c.st.block in
        let w = f.to_long (f.add waveform f.half) in
        new_block c.st.block
          (for_grid c.st.chan c.st.block
            (λ ch i d.
              update_at d ch i (g.to_float (wave_at c.st.sample_rate (add_ℕ first i) w freq amp)))
            c.st.input)
          c

  unfoldable pub in_sample : D → D → D → Ctx P D S → D
  in_sample dep i ch c =
      if not c.st.is_open
      then f.nan
      else if not (token_matches c.legacy dep c.st.in_token)
      then f.nan
      else sample_at c.st.input c.st.in_n c.st.chan i ch
