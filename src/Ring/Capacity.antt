-- ===== src/Ring/Capacity.antt =====
-- The capacities that a ring is made with, and the slot index as a remainder.
use native.Mathlib.Nat.{one-le-pow, dvd_of_mod-eq-zero, mod-mod_of_dvd, mod-add-mod}
use native.Mathlib.Nat.{mod-lt, mod-eq_of_lt, mod-eq-sub-mod}
use native.Mathlib.Decide.{dec_lt}
use audio_plugins_jl.Base.{
  ℕ, ◌+◌, ◌-◌, ◌%◌, ◌^◌, ◌<◌, ◌≡◌, ◌≢◌, refl, sym, ap, ◌∙◌, bit_and, arith, ltb, ltb→lt,
}
use audio_plugins_jl.Base.Bits.{bit_and_mask, pow-dvd_word, all_below_sound}
use audio_plugins_jl.Base.Words.{u32}
use audio_plugins_jl.Ring.{slot_index}

-- A power of two below 2^32, which is how many slots a ring has.
pub record IsCapacity (n : ℕ) : Type 0 where
  pub log : ℕ
  pub small : log < 32
  pub power : n ≡ 2 ^ log

pub IsCapacity-pos : {n : ℕ} → IsCapacity n → 0 < n
IsCapacity-pos c = omega (arith, c.power, one-le-pow c.log 2 (omega arith))

pub IsCapacity-lt_word : {n : ℕ} → IsCapacity n → n < u32
IsCapacity-lt_word c =
    omega (
      arith,
      c.power,
      ltb→lt _ _ (all_below_sound 32 (λ j. ltb (2 ^ j) (2 ^ 32)) c.log refl c.small),
    )

-- The index mask is a remainder.
pub slot_index-mod : {n : ℕ} → IsCapacity n → (i : ℕ) → slot_index n i ≡ i % n
unfolding slot_index
slot_index-mod {n} c i =
    ap (λ (t : ℕ). bit_and i (t - 1)) c.power
    ∙ bit_and_mask c.log i
    ∙ ap (λ (t : ℕ). i % t) (sym c.power)

pub slot_index-lt : {n : ℕ} → IsCapacity n → (i : ℕ) → slot_index n i < n
slot_index-lt {n} c i = omega (arith, slot_index-mod c i, mod-lt i (IsCapacity-pos c))

-- The 32-bit wrap of an index does not move its slot.
pub wrap-mod : {n : ℕ} → IsCapacity n → (i : ℕ) → i % u32 % n ≡ i % n
wrap-mod {n} c i = mod-mod_of_dvd n {b = u32} i (
    dvd_of_mod-eq-zero n
      (ap (λ (t : ℕ). u32 % t) c.power ∙ pow-dvd_word c.log (omega (arith, c.small))))

-- Fewer than `n` steps forward never come back to the same slot.
pub step-mod-ne : {n : ℕ} (i d : ℕ) → 0 < d → d < n → (i + d) % n ≢ i % n
step-mod-ne {n} i d pos lt = elim (dec_lt (i % n + d) n) [
  | yes p ↦ omega (arith, mod-add-mod i n d, mod-eq_of_lt p)
  | no p ↦ omega (
    arith,
    mod-add-mod i n d,
    mod-lt i {m = n} (omega arith),
    mod-eq-sub-mod {n = i % n + d} {m = n} (omega arith),
    mod-eq_of_lt {n = i % n + d - n} {m = n} (omega (arith, mod-lt i {m = n} (omega arith))),
  )
]
