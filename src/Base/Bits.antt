-- ===== src/Base/Bits.antt =====
-- `a & (2^k - 1)` as a remainder, and the sizes that the test `n & (n - 1)` admits.
use Prim.Native.Nat.{
  ℕ, zero, suc, ◌+◌, ◌-◌, ◌*◌, ◌/◌, ◌%◌, ◌^◌, ◌≤◌, ◌<◌, min, bit_and, digits, bit_and-bitwise,
}
use mathlib.Core.Path.{◌≡◌, refl, ap, sym, ◌∙◌}
use mathlib.Core.Bool.{Bool, true, ◌&&◌}
use native.Mathlib.Nat.{
  pow-suc, one-le-pow, div-add-mod, mod-lt, mod-eq_of_lt, mul-add-mod_self_left,
}
use native.Mathlib.Omega.{arith}
use audio_plugins_jl.Base.Tests.{◌==◌, ==_iff}

-- A check of every number below `n`.
abbrev pub all_below : ℕ → (ℕ → Bool) → Bool
all_below zero p = true
all_below (suc n) p = p n && all_below n p

pub all_below_sound : (n : ℕ) (p : ℕ → Bool) (x : ℕ) → all_below n p ≡ true → x < n → p x ≡ true
all_below_sound zero p x h lt = absurd (omega arith)
all_below_sound (suc n) p x h lt = ground (arith, all_below_sound n p x)

-- The remainder by `p + p`, one binary digit at a time.
mod_double : (a p : ℕ) → 0 < p → a % (p + p) ≡ (a / 2) % p * 2 + a % 2
mod_double a p h =
    ap (λ (t : ℕ). t % (p + p)) split
    ∙ mul-add-mod_self_left (p + p) (a / 2 / p) (a / 2 % p * 2 + a % 2)
    ∙ mod-eq_of_lt (omega (arith, mod-lt (a / 2) h))
  where
    split : a ≡ (p + p) * (a / 2 / p) + (a / 2 % p * 2 + a % 2)
    split = omega (arith, div-add-mod (a / 2) p)

mask_halves : (k : ℕ) → (2 ^ suc k - 1) / 2 ≡ 2 ^ k - 1
mask_halves k = omega (arith, pow-suc 2 k, one-le-pow k 2)

min_digit : (a k : ℕ) → min (a % 2) ((2 ^ suc k - 1) % 2) ≡ a % 2
min_digit a k = omega (arith, pow-suc 2 k, one-le-pow k 2)

-- The digits of `a` under a mask of `k` ones, on enough rounds.
digits_mask : (n k a : ℕ) → a ≤ n → digits (λ b. zero) min n a (2 ^ k - 1) ≡ a % 2 ^ k
digits_mask zero k zero h = omega arith
digits_mask (suc n) k zero h = omega arith
digits_mask zero k (suc a) h = absurd (omega arith)
digits_mask (suc n) zero (suc a) h = omega (arith, digits_mask n zero (suc a / 2) (omega arith))
digits_mask (suc n) (suc k) (suc a) h =
    rw (mask_halves k, min_digit (suc a) k, digits_mask n k (suc a / 2) (omega arith))
      (sym (mod_double (suc a) (2 ^ k) (one-le-pow k 2 (omega arith)))
        ∙ ap (λ (t : ℕ). suc a % t) (omega (arith, pow-suc 2 k)))

-- `a & (2^k - 1)` is the remainder of `a` by `2^k`.
pub bit_and_mask : (k a : ℕ) → bit_and a (2 ^ k - 1) ≡ a % 2 ^ k
bit_and_mask k a = bit_and-bitwise a (2 ^ k - 1) ∙ digits_mask a k a (omega arith)

-- Every power of two up to 2^32 divides 2^32.
pub pow-dvd_word : (k : ℕ) → k < 33 → 2 ^ 32 % 2 ^ k ≡ 0
pow-dvd_word k h = (==_iff _ 0).0 (all_below_sound 33 (λ j. 2 ^ 32 % 2 ^ j == 0) k refl h)
