-- ===== src/Base/Loops.antt =====
-- Counted loops over arrays that are functions of their index.
pub mod Both
use Prim.Native.Nat.{ℕ, zero, suc, ◌+◌, ◌<◌, ◌≤◌}
use mathlib.Core.Path.{◌≡◌, sym, subst}
use mathlib.Core.Logic.{◌⊎◌, inl, inr}
use mathlib.Core.Bool.{◌&&◌}
use native.Mathlib.Decide.{dec_lt, ℕ_discrete}
use native.Mathlib.Omega.{arith}
use audio_plugins_jl.Base.Tests.{◌==◌, ltb, if◌then◌else◌}

-- `for (k = i; k < i + n; k++) s = body k s`
pub for_range {ℓ} : {A : Type ℓ} → ℕ → ℕ → (ℕ → A → A) → A → A
for_range zero i body s = s
for_range (suc n) i body s = for_range n (suc i) body (body i s)

abbrev pub update {ℓ} : {A : Type ℓ} → (ℕ → A) → ℕ → A → ℕ → A
update f i v j = if j == i then v else f j

-- `f[c][i] = v`
abbrev pub update_at {ℓ} : {A : Type ℓ} → (ℕ → ℕ → A) → ℕ → ℕ → A → ℕ → ℕ → A
update_at f c i v d j = if d == c && j == i then v else f d j

-- `memcpy(dst, src, n * sizeof *src)`
abbrev pub copy {ℓ} : {A : Type ℓ} → ℕ → (ℕ → A) → (ℕ → A) → ℕ → A
copy n src dst j = if ltb j n then src j else dst j

module _ {ℓ κ} {S : Type ℓ} where
  -- What holds before the loop and is kept by each round holds after it.
  pub for_range_inv :
      (P : ℕ → S → Type κ) (body : ℕ → S → S) (n i j : ℕ) (s : S)
      → ((k : ℕ) (s : S) → i ≤ k → k < j → P k s → P (suc k) (body k s))
      → i + n ≡ j
      → P i s
      → P j (for_range n i body s)
  unfolding for_range
  for_range_inv P body zero i j s keep e h = let e' : i ≡ j = omega arith in rw (← e') h
  for_range_inv P body (suc n) i j s keep e h =
      for_range_inv P body n (suc i) j (body i s) (λ k t lo hi. keep k t (omega arith) hi)
        (omega arith) (keep i s (omega arith) (omega arith) h)

-- `for (ch = 0; ch < m; ch++) for (i = 0; i < n; i++) s = body ch i s`
abbrev pub for_grid {ℓ} : {A : Type ℓ} → ℕ → ℕ → (ℕ → ℕ → A → A) → A → A
for_grid m n body s = for_range m 0 (λ ch t. for_range n 0 (body ch) t) s

-- If each round sets up its own cell and leaves the others alone, the loop sets up every cell.
module _ {ℓ κ} {A : Type ℓ} (m n : ℕ) (body : ℕ → ℕ → A → A) (T : ℕ → ℕ → A → Type κ)
    (sets : (ch i : ℕ) (s : A) → ch < m → i < n → T ch i (body ch i s))
    (keeps : (ch i c k : ℕ) (s : A)
      → ch < m
      → i < n
      → c < m
      → k < n
      → ((c ≡ ch) → (k ≡ i) → ⊥)
      → T c k s
      → T c k (body ch i s)) where
  -- The cells before column `b`, row `a`.
  abbrev Done : ℕ → ℕ → A → Type κ
  Done b a s = (c k : ℕ) → c < m → k < n → (c < b) ⊎ ((c ≡ b) × (k < a)) → T c k s

  round : (b a : ℕ) (s : A) → b < m → a < n → Done b a s → Done b (suc a) (body b a s)
  round b a s hb ha done c k hc hk before = elim (ℕ_discrete c b) [
    | yes same ↦ elim (ℕ_discrete k a) [
      | yes here ↦
          subst (λ x. T x k (body b a s)) (sym same)
            (subst (λ x. T b x (body b a s)) (sym here) (sets b a s hb ha))
      | no other ↦
          keeps b a c k s hb ha hc hk (λ _ e. other e) (done c k hc hk (inr (same, omega arith)))
    ]
    | no other ↦ keeps b a c k s hb ha hc hk (λ e _. other e) (done c k hc hk (inl (omega arith)))
  ]

  column : (b : ℕ) (s : A) → b < m → Done b 0 s → Done (suc b) 0 (for_range n 0 (body b) s)
  column b s hb done c k hc hk before =
      for_range_inv (λ a t. Done b a t) (body b) n 0 n s (λ a t _ ha d. round b a t hb ha d)
        (omega arith) done c k hc hk
        (elim (dec_lt c b) [ yes p ↦ inl p | no p ↦ inr (omega arith, hk) ])

  pub for_grid_all : (s : A) (c k : ℕ) → c < m → k < n → T c k (for_grid m n body s)
  for_grid_all s c k hc hk =
      for_range_inv (λ b t. Done b 0 t) (λ ch t. for_range n 0 (body ch) t) m 0 m s
        (λ b t _ hb d. column b t hb d) (omega arith) (λ x y _ _ none_yet. absurd (omega arith)) c k
        hc hk (inl hc)
