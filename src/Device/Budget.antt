-- ===== src/Device/Budget.antt =====
-- The sizes that `configure_transport` settles are enough for a whole hardware burst.
use native.Mathlib.Nat.{
  pow-le-pow_right, pow-suc, mod-eq_of_lt, mul-le-mul, lt-div-mul-add, div-le_self,
}
use native.Mathlib.Decide.{ℕ_discrete}
use mathlib.Core.Path.{subst₂}
use audio_plugins_jl.Base.{
  ℕ, zero, suc, ◌+◌, ◌-◌, ◌*◌, ◌/◌, ◌%◌, ◌^◌, ◌<◌, ◌≤◌, ◌≡◌, refl, sym, ap, ◌∙◌, subst, some, arith,
  ltb, Bool-cases, ltb→lt, ◌⊎◌, inl, inr, ◌↔◌,
}
use audio_plugins_jl.Base.Words.{u32, u64}
use audio_plugins_jl.Ring.Capacity.{IsCapacity}
use audio_plugins_jl.Device.Transport.{
  Negotiated, Sizes, grow, grow_fuel, native_frames, burst_frames, burst_blocks,
  configure_transport,
}

-- Words of 32 bits, with a queue of a power of two from 2 to 1024 slots.
pub record IsNegotiated (d : Negotiated) : Type 0 where
  pub period_word : d.device_period < u32
  pub periods_word : d.periods < u32
  pub device_rate_word : d.device_rate < u32
  pub rate_word : d.rate < u32
  pub block_word : d.block < u32
  pub log : ℕ
  pub log_range : (1 ≤ log) × (log ≤ 10)
  pub power : d.queue_blocks ≡ 2 ^ log

-- The loop's end: a capacity that is wanted, reached by doubling.
pub record IsGrown (wanted capacity found : ℕ) : Type 0 where
  pub log : ℕ
  pub small : log ≤ 10
  pub power : found ≡ 2 ^ log
  pub enough : wanted ≤ found
  pub least : (found ≡ capacity) ⊎ (found < 2 * wanted)

-- Division that rounds up.
ceil_lem : (a b : ℕ) → 0 < b → (a ≤ (a + b - 1) / b * b) × ((a + b - 1) / b ≤ a + b - 1)
ceil_lem a b pos =
    (omega (arith, lt-div-mul-add {a = a + b - 1} {b = b} pos), div-le_self (a + b - 1) b)

-- A size below the largest one can still be doubled.
log_lt : (k : ℕ) → k ≤ 10 → 2 ^ k < 1024 → k < 10
log_lt k small h = elim (ℕ_discrete k 10) [
  | yes top ↦ absurd (omega (arith, subst (λ (j : ℕ). 2 ^ j < 1024) top h))
  | no other ↦ omega arith
]

-- The loop ends in its fuel.
grow_lem :
    (n k wanted : ℕ)
    → k ≤ 10
    → 11 ≤ n + k
    → wanted ≤ 1024
    → (c : ℕ) × (grow n wanted (2 ^ k) ≡ some c) × IsGrown wanted (2 ^ k) c
unfolding grow
grow_lem zero k wanted small fuel few = absurd (omega arith)
grow_lem (suc n) k wanted small fuel few = elim (Bool-cases (ltb (2 ^ k) wanted)) [
  | inl more ↦
      let below : 2 ^ k < wanted = ltb→lt (2 ^ k) wanted more in
      let double : 2 ^ k * 2 % u32 ≡ 2 ^ suc k = omega (arith, pow-suc 2 k) in
      let (c, e, v) = grow_lem n (suc k) wanted (log_lt k small (omega arith)) (omega arith) few in
      (
        c,
        simp (more, double, e),
        record {
          log = v.log;
          small = v.small;
          power = v.power;
          enough = v.enough;
          least = ground (arith, v.least, pow-suc 2 k);
        },
      )
  | inr done ↦ (
    2 ^ k,
    ground (arith, done),
    record {
      log = k;
      small = small;
      power = refl;
      enough = ground (arith, done);
      least = inl refl;
    },
  )
]

-- The conditions under which a device is opened.
record IsOpened (d : Negotiated) : Type 0 where
  native_word : (0 < d.device_period * d.periods) × (d.device_period * d.periods < u32)
  native : native_frames d ≡ d.device_period * d.periods
  rates : (0 < d.device_rate) × (0 < d.block)
  few : burst_blocks d < 512
  fits : burst_blocks d * d.block < u32

-- Likewise for a capacity that is a power of two.
grow_power :
    (n k wanted capacity : ℕ)
    → capacity ≡ 2 ^ k
    → k ≤ 10
    → 11 ≤ n + k
    → wanted ≤ 1024
    → (c : ℕ) × (grow n wanted capacity ≡ some c) × IsGrown wanted capacity c
grow_power n k wanted capacity e small fuel few =
    subst (λ x. (c : ℕ) × (grow n wanted x ≡ some c) × IsGrown wanted x c) (sym e)
      (grow_lem n k wanted small fuel few)

product : (a b m n : ℕ) → a ≤ m → b ≤ n → a * b ≤ m * n
product a b m n = mul-le-mul

-- Fewer than 512 blocks of a 32-bit size do not wrap in 64 bits.
blocks_word :
    (d : Negotiated)
    → IsNegotiated d
    → burst_blocks d < 512
    → burst_blocks d * d.block % u64 ≡ burst_blocks d * d.block
blocks_word d v few =
    let most =
      product (burst_blocks d) d.block 511 (u32 - 1) (omega (arith, few))
        (omega (arith, v.block_word)) in
    mod-eq_of_lt (omega (arith, most))

-- No product or sum of the computation wraps.
opened : (d : Negotiated) (t : Sizes) → IsNegotiated d → configure_transport d ≡ some t → IsOpened d
unfolding configure_transport native_frames
opened d t v h =
    let below_period : d.device_period ≤ u32 - 1 = omega (arith, v.period_word) in
    let below_periods : d.periods ≤ u32 - 1 = omega (arith, v.periods_word) in
    let small : d.device_period * d.periods < u64 =
      omega
        (arith, product d.device_period d.periods (u32 - 1) (u32 - 1) below_period below_periods) in
    let same : native_frames d ≡ d.device_period * d.periods = mod-eq_of_lt small in
    let few : burst_blocks d < 512 = ground (arith, h) in
    let whole = blocks_word d v few in
    record {
      native_word = ground (arith, same, h);
      native = same;
      rates = ground (arith, h);
      few = few;
      fits = ground (arith, h, whole);
    }

-- What the sizes promise: the queues hold the pipeline twice, and a callback may bring the device's
-- whole buffer, converted to the session's rate in `frames` frames, with a block to spare.
pub record IsBudget (d : Negotiated) (t : Sizes) : Type 0 where
  pub capacity : IsCapacity t.queue_blocks
  pub room : 2 * t.pipeline_blocks ≤ t.queue_blocks
  pub bounded : t.queue_blocks ≤ 1024
  pub frames : ℕ
  pub converted : d.device_period * d.periods * d.rate ≤ frames * d.device_rate
  pub burst : frames + d.block ≤ t.max_callback_frames
  pub delay : t.max_callback_frames + d.block ≡ t.pipeline_blocks * d.block
  pub word : t.max_callback_frames < u32

-- What the device and the session must have for their transport to be settled.
pub record IsFeasible (d : Negotiated) : Type 0 where
  pub buffer : (0 < d.device_period * d.periods) × (d.device_period * d.periods < u32)
  pub device_rate : 0 < d.device_rate
  pub rate : 0 < d.rate
  pub block : 0 < d.block
  pub few : burst_blocks d < 512
  pub fits : burst_blocks d * d.block < u32

-- The burst in frames, without a wrap.
frames_lem :
    (d : Negotiated)
    → IsNegotiated d
    → IsOpened d
    → (d.device_period * d.periods * d.rate ≤ burst_frames d * d.device_rate)
      × (burst_frames d ≤ (u32 - 1) * (u32 - 1) + u32)
unfolding burst_frames
frames_lem d v o =
    let n = d.device_period * d.periods in
    let large : n * d.rate ≤ (u32 - 1) * (u32 - 1) =
      product n d.rate (u32 - 1) (u32 - 1) (omega (arith, o.native_word))
        (omega (arith, v.rate_word)) in
    let x_word : (n * d.rate + d.device_rate - 1) % u64 ≡ n * d.rate + d.device_rate - 1 =
      mod-eq_of_lt (omega (arith, v.device_rate_word)) in
    let (up, down) = ceil_lem (n * d.rate) d.device_rate o.rates.0 in
    rw (o.native, x_word) (up, omega (arith, v.device_rate_word))

-- The burst in blocks, likewise.
blocks_lem :
    (d : Negotiated)
    → IsNegotiated d
    → IsOpened d
    → burst_frames d ≤ (u32 - 1) * (u32 - 1) + u32
    → burst_frames d + d.block ≤ burst_blocks d * d.block
unfolding burst_blocks
blocks_lem d v o bound =
    let y_word : (burst_frames d + d.block - 1) % u64 ≡ burst_frames d + d.block - 1 =
      mod-eq_of_lt (omega (arith, v.block_word)) in
    let (up, _) = ceil_lem (burst_frames d) d.block o.rates.1 in rw y_word (omega (arith, up))

-- The sizes settled, in numbers that do not wrap.
settled :
    (d : Negotiated) (t : Sizes)
    → IsNegotiated d
    → configure_transport d ≡ some t
    → (t.pipeline_blocks ≡ burst_blocks d + 1)
      × (t.max_callback_frames ≡ burst_blocks d * d.block)
      × IsGrown (2 * t.pipeline_blocks) d.queue_blocks t.queue_blocks
unfolding configure_transport
settled d t v h =
    let o = opened d t v h in
    let few = o.few in
    let small = o.fits in
    let pipeline : (burst_blocks d + 1) % u32 ≡ burst_blocks d + 1 = omega arith in
    let wanted : 2 * ((burst_blocks d + 1) % u32) % u32 ≡ 2 * (burst_blocks d + 1) = omega arith in
    let frames : burst_blocks d * d.block % u32 ≡ burst_blocks d * d.block = omega arith in
    let (c, e, grown) =
      grow_power grow_fuel v.log (2 * (burst_blocks d + 1)) d.queue_blocks v.power
        (omega (arith, v.log_range)) (omega arith) (omega arith) in
    let e' : grow grow_fuel (2 * ((burst_blocks d + 1) % u32) % u32) d.queue_blocks ≡ some c =
      ap (λ w. grow grow_fuel w d.queue_blocks) wanted ∙ e in
    let first : t.pipeline_blocks ≡ burst_blocks d + 1 = ground (arith, h, e', pipeline) in
    let last : t.queue_blocks ≡ c = ground (arith, h, e') in
    (
      first,
      ground (arith, h, e', frames),
      subst₂ (λ w x. IsGrown (2 * w) d.queue_blocks x) (sym first) (sym last) grown,
    )

-- For 32-bit words and a queue of a power of two from 2 to 1024 slots, whenever the transport is
-- settled: the queues are a power of two of slots, at most 1024, and hold the pipeline twice; the
-- device's whole buffer, converted to the session's rate and rounded up, and one block more fit in
-- the largest callback, one block short of the pipeline; no number of it exceeds 32 bits.
pub configure_transport-IsBudget :
    (d : Negotiated) (t : Sizes) → IsNegotiated d → configure_transport d ≡ some t → IsBudget d t
configure_transport-IsBudget d t v h =
    let o = opened d t v h in
    let (up, bound) = frames_lem d v o in
    let room = blocks_lem d v o bound in
    let (pipeline, frames, grown) = settled d t v h in
    record {
      capacity = record {
        log = grown.log;
        small = omega (arith, grown.small);
        power = grown.power;
      };
      room = grown.enough;
      bounded = omega (arith, grown.power, pow-le-pow_right {n = 2} (omega arith) grown.small);
      frames = burst_frames d;
      converted = up;
      burst = rw frames room;
      delay = omega (arith, frames, ap (λ (x : ℕ). x * d.block) pipeline);
      word = rw frames o.fits;
    }

-- For 32-bit words and a queue of a power of two from 2 to 1024 slots, the transport is settled, its
-- loop included, exactly if the device has a buffer of at least one and less than 2^32 frames, its
-- rate, the session's rate and the block size are not 0, and the burst is less than 512 blocks and
-- less than 2^32 frames.
pub configure_transport_settles :
    (d : Negotiated)
    → IsNegotiated d
    → ((t : Sizes) × (configure_transport d ≡ some t)) ↔ IsFeasible d
unfolding configure_transport native_frames
configure_transport_settles d v = (
  λ (t, h).
      let o = opened d t v h in
      record {
        buffer = o.native_word;
        device_rate = o.rates.0;
        rate = ground (arith, h);
        block = o.rates.1;
        few = o.few;
        fits = o.fits;
      },
  λ x.
      let few = x.few in
      let same : d.device_period * d.periods % u64 ≡ d.device_period * d.periods =
        mod-eq_of_lt (omega (arith, x.buffer)) in
      let wanted : 2 * ((burst_blocks d + 1) % u32) % u32 ≡ 2 * (burst_blocks d + 1) =
        omega arith in
      let (c, e, _) =
        grow_power grow_fuel v.log (2 * (burst_blocks d + 1)) d.queue_blocks v.power
          (omega (arith, v.log_range)) (omega arith) (omega arith) in
      let e' : grow grow_fuel (2 * ((burst_blocks d + 1) % u32) % u32) d.queue_blocks ≡ some c =
        ap (λ w. grow grow_fuel w d.queue_blocks) wanted ∙ e in
      let whole = blocks_word d v few in
      (
        record {
          pipeline_blocks = (burst_blocks d + 1) % u32;
          max_callback_frames = burst_blocks d * d.block % u32;
          queue_blocks = c;
        },
        ground (arith, same, whole, e', x.buffer, x.device_rate, x.rate, x.block, x.fits),
      ),
)
