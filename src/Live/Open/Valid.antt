-- ===== src/Live/Open/Valid.antt =====
-- What `ap_live_open_adapter` accepts, told apart from its test.
use audio_plugins_jl.Base.{
  ℕ, zero, suc, ◌-◌, ◌/◌, ◌^◌, ◌≤◌, ◌<◌, ◌≡◌, refl, Bool, true, false, not, ◌&&◌, ◌||◌, bit_and,
  ltb, leb, ◌==◌, if◌then◌else◌, arith, ◌↔◌,
}
use audio_plugins_jl.Base.Bits.{all_below, all_below_sound}
use audio_plugins_jl.Live.Types.{DoubleOps, Config}
use audio_plugins_jl.Live.Open.{config_valid}

-- The binary logarithm of a size, on `n` rounds.
abbrev log_of : ℕ → ℕ → ℕ
log_of zero size = 0
log_of (suc n) size = if ltb size 2 then 0 else suc (log_of n (size / 2))

power_test : ℕ → Bool
power_test n =
    not (bit_and n (n - 1) == 0) || n == 0 || (n == 2 ^ log_of 11 n && ltb (log_of 11 n) 11)

power_table : all_below 1025 power_test ≡ true
unfolding power_test
power_table = refl

-- `n & (n - 1)` is 0 for the powers of two alone.
pub power_of_two :
    (n : ℕ) → (bit_and n (n - 1) == 0) ≡ true → 0 < n → n ≤ 1024 → (k : ℕ) × (k < 11) × (n ≡ 2 ^ k)
unfolding power_test
power_of_two n h pos small =
    let row : power_test n ≡ true = all_below_sound 1025 power_test n power_table (omega arith) in
    (log_of 11 n, ground arith, ground arith)

-- The shapes that the live engine is made for: a power of two of queue slots among them.
pub record IsValid {D : Type 0} ⦃f : DoubleOps D⦄ (c : Config D) : Type 0 where
  pub rate_finite : f.is_finite c.sample_rate ≡ true
  pub rate_above : f.less c.sample_rate (f.of_ℕ 1000) ≡ false
  pub rate_below : f.less (f.of_ℕ 768000) c.sample_rate ≡ false
  pub block_range : (1 ≤ c.block_size) × (c.block_size ≤ 8192)
  pub channel_range : (1 ≤ c.channels) × (c.channels ≤ 2)
  pub queue_log : (k : ℕ) × (1 ≤ k) × (k ≤ 10) × (c.queue_blocks ≡ 2 ^ k)
  pub driver_range : c.driver ≤ 2
  pub priority_range : c.priority ≤ 2

-- The converse test, for the ten sizes.
size_test : ℕ → Bool
size_test k = k == 0 || ((bit_and (2 ^ k) (2 ^ k - 1) == 0) && leb 2 (2 ^ k) && leb (2 ^ k) 1024)

size_table : all_below 11 size_test ≡ true
unfolding size_test
size_table = refl

size_of_log :
    (n k : ℕ)
    → 1 ≤ k
    → k ≤ 10
    → n ≡ 2 ^ k
    → ((bit_and n (n - 1) == 0) ≡ true) × (2 ≤ n) × (n ≤ 1024)
unfolding size_test
size_of_log n k lo hi e =
    let row : size_test k ≡ true = all_below_sound 11 size_test k size_table (omega arith) in
    rw e (ground arith, ground arith, ground arith)

log_pos : (n k : ℕ) → 2 ≤ n → n ≡ 2 ^ k → 1 ≤ k
log_pos n zero h e = absurd (omega arith)
log_pos n (suc k) h e = omega arith

module _ {D : Type 0} ⦃f : DoubleOps D⦄ where
  sizes :
      (c : Config D)
      → config_valid c ≡ true
      → ((bit_and c.queue_blocks (c.queue_blocks - 1) == 0) ≡ true)
        × (2 ≤ c.queue_blocks)
        × (c.queue_blocks ≤ 1024)
  unfolding config_valid
  sizes c h = ground arith

  valid : (c : Config D) → config_valid c ≡ true → IsValid c
  unfolding config_valid
  valid c h = record {
    rate_finite = ground arith;
    rate_above = ground arith;
    rate_below = ground arith;
    block_range = ground arith;
    channel_range = ground arith;
    queue_log =
        let (mask, lo, hi) = sizes c h in
        let (k, lt, e) = power_of_two c.queue_blocks mask (omega arith) hi in
        (k, log_pos c.queue_blocks k lo e, omega arith, e);
    driver_range = ground arith;
    priority_range = ground arith;
  }

  accepted : (c : Config D) → IsValid c → config_valid c ≡ true
  unfolding config_valid
  accepted c v =
      let (k, lo, hi, e) = v.queue_log in ground (arith, size_of_log c.queue_blocks k lo hi e)

  -- Exactly the configurations of those shapes are accepted.
  pub config_valid-IsValid : (c : Config D) → (config_valid c ≡ true) ↔ IsValid c
  config_valid-IsValid c = (valid c, accepted c)
