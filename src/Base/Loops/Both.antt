-- ===== src/Base/Loops/Both.antt =====
-- Loops side by side, and one after the other.
use Prim.Native.Nat.{ℕ, zero, suc, ◌+◌, ◌<◌}
use mathlib.Core.Path.{◌≡◌, refl}
use native.Mathlib.Omega.{arith}
use audio_plugins_jl.Base.Loops.{for_range}

-- Two loops whose rounds keep a relation, one `d` rounds ahead.
pub for_range_both {ℓ κ μ} :
    {A : Type ℓ} {B : Type κ} (R : A → B → Type μ) (f : ℕ → A → A) (g : ℕ → B → B) (d n i j : ℕ)
    (s : A) (t : B)
    → ((k : ℕ) (s : A) (t : B) → k < i + n → R s t → R (f (d + k) s) (g k t))
    → j ≡ d + i
    → R s t
    → R (for_range n j f s) (for_range n i g t)
unfolding for_range
for_range_both R f g d zero i j s t keep e h = h
for_range_both R f g d (suc n) i j s t keep e h =
    for_range_both R f g d n (suc i) (suc j) (f j s) (g i t) (λ k x y h. keep k x y (omega arith))
      (omega arith) (rw (e) (keep i s t (omega arith) h))

-- A loop of `n + m` rounds is one of `n` and one of `m`.
pub for_range_split {ℓ} :
    {A : Type ℓ} (f : ℕ → A → A) (n m i j : ℕ) (s : A)
    → j ≡ i + n
    → for_range (n + m) i f s ≡ for_range m j f (for_range n i f s)
unfolding for_range
for_range_split f zero m i j s e =
    let no : zero + m ≡ m = omega arith in let at : j ≡ i = omega arith in rw (no, at) refl
for_range_split f (suc n) m i j s e =
    let more : suc n + m ≡ suc (n + m) = omega arith in
    rw (more) (for_range_split f n m (suc i) j (f i s) (omega arith))

pub for_range_none {ℓ} : {A : Type ℓ} (f : ℕ → A → A) (i : ℕ) (s : A) → for_range 0 i f s ≡ s
unfolding for_range
for_range_none f i s = refl

pub for_range-suc {ℓ} :
    {A : Type ℓ} (f : ℕ → A → A) (n i : ℕ) (s : A)
    → for_range (suc n) i f s ≡ for_range n (suc i) f (f i s)
unfolding for_range
for_range-suc f n i s = refl
