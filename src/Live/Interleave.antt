-- ===== src/Live/Interleave.antt =====
-- The sample copies of `process_block` in csrc/clap_live.c: interleaved queue and device blocks
-- against the planar buffers that a plugin reads and writes.
use native.Mathlib.Nat.{
  mul-add-mod_self_right, mul-add-div_right, div-eq_of_lt, mod-eq_of_lt, mod-lt,
}
use native.Mathlib.Nat.{div-add-mod', mul-le-mul_left}
use native.Mathlib.Decide.{dec_lt}
use audio_plugins_jl.Base.{ℕ, zero, suc, subst, ◌+◌, ◌*◌, ◌/◌, ◌%◌, ◌<◌, ◌≡◌, sym, ap, ◌∙◌, arith}
use audio_plugins_jl.Base.Loops.{for_grid, for_grid_all, update, update_at}

module _ {S : Type 0} (channels frames : ℕ) where
  -- `for ch, for i: in_ptr[ch][i] = src[i * channels + ch]`
  unfoldable pub deinterleave : (ℕ → S) → (ℕ → ℕ → S) → ℕ → ℕ → S
  deinterleave src dst =
      for_grid channels frames (λ ch i d. update_at d ch i (src (i * channels + ch))) dst

  -- `for ch, for i: dst[i * channels + ch] = out_ptr[ch][i]`
  unfoldable pub interleave : (ℕ → ℕ → S) → (ℕ → S) → ℕ → S
  interleave src dst =
      for_grid channels frames (λ ch i d. update d (i * channels + ch) (src ch i)) dst

-- Two places of an interleaved block are one only if channel and frame are.
place_injective : (m c d i j : ℕ) → c < m → d < m → i * m + c ≡ j * m + d → (c ≡ d) × (i ≡ j)
place_injective m c d i j hc hd e = (
  sym (remainder c i hc) ∙ ap (λ (t : ℕ). t % m) e ∙ remainder d j hd,
  sym (quotient c i hc) ∙ ap (λ (t : ℕ). t / m) e ∙ quotient d j hd,
)
  where
    remainder : (c i : ℕ) → c < m → (i * m + c) % m ≡ c
    remainder c i h = mul-add-mod_self_right i m c ∙ mod-eq_of_lt h

    quotient : (c i : ℕ) → c < m → (i * m + c) / m ≡ i
    quotient c i h = omega (arith, mul-add-div_right {m = m} (omega arith) i c, div-eq_of_lt h)

positive : (m n j : ℕ) → j < n * m → 0 < m
positive zero n j h = absurd (omega arith)
positive (suc m) n j h = omega arith

row_lt : (m n j : ℕ) → j < n * m → j / m < n
row_lt m n j h = elim (dec_lt (j / m) n) [
  | yes p ↦ p
  | no p ↦
      absurd (omega (arith, div-add-mod' j m, mul-le-mul_left {m = n} {n = j / m} m (omega arith)))
]

module _ {S : Type 0} (channels frames : ℕ) where
  -- Each frame of each channel comes from its place in the interleaved block.
  pub deinterleave_lem :
      (src : ℕ → S) (dst : ℕ → ℕ → S) (ch i : ℕ)
      → ch < channels
      → i < frames
      → deinterleave channels frames src dst ch i ≡ src (i * channels + ch)
  unfolding deinterleave
  deinterleave_lem src dst ch i hc hi =
      for_grid_all channels frames _ (λ c k d. d c k ≡ src (k * channels + c))
        (λ c k d _ _. ground arith) (λ c k c' k' d _ _ _ _ ne h. ground arith) dst ch i hc hi

  -- Each place of the interleaved block gets its frame of its channel.
  pub interleave_lem :
      (src : ℕ → ℕ → S) (dst : ℕ → S) (ch i : ℕ)
      → ch < channels
      → i < frames
      → interleave channels frames src dst (i * channels + ch) ≡ src ch i
  unfolding interleave
  interleave_lem src dst ch i hc hi =
      for_grid_all channels frames _ (λ c k d. d (k * channels + c) ≡ src c k)
        (λ c k d _ _. ground arith)
        (λ c k c' k' d hc _ hc' _ ne h. ground (arith, place_injective channels c' c k' k hc' hc))
        dst ch i hc hi

  -- Splitting a block into channels and joining them gives the block back, in each of its places.
  pub interleave-deinterleave :
      (src : ℕ → S) (planes : ℕ → ℕ → S) (dst : ℕ → S) (j : ℕ)
      → j < frames * channels
      → interleave channels frames (deinterleave channels frames src planes) dst j ≡ src j
  interleave-deinterleave src planes dst j h =
      let pos : 0 < channels = positive channels frames j h in
      let place : j / channels * channels + j % channels ≡ j = div-add-mod' j channels in
      let row : j / channels < frames = row_lt channels frames j h in
      subst
        (λ k. interleave channels frames (deinterleave channels frames src planes) dst k ≡ src k)
        place
        (interleave_lem _ dst (j % channels) (j / channels) (mod-lt j pos) row
          ∙ deinterleave_lem src planes (j % channels) (j / channels) (mod-lt j pos) row)
