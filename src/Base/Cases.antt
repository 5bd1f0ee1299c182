-- ===== src/Base/Cases.antt =====
-- What holds of every branch holds of the test.
use mathlib.Core.Option.{Option, none, some}
use mathlib.Core.Path.{◌≡◌, refl}
use mathlib.Core.Bool.{Bool, true, false}
use audio_plugins_jl.Base.Tests.{if◌then◌else◌}

module _ {ℓ κ} {B : Type ℓ} (T : B → Type κ) where
  pub if_all : (b : Bool) {x y : B} → T x → T y → T (if b then x else y)
  if_all true hx hy = hx
  if_all false hx hy = hy

  pub if_known :
      (b : Bool) {x y : B} → (b ≡ true → T x) → (b ≡ false → T y) → T (if b then x else y)
  if_known true hx hy = hx refl
  if_known false hx hy = hy refl

  pub option_all {μ} :
      {A : Type μ} (o : Option A) {x : B} {y : A → B}
      → T x
      → ((a : A) → T (y a))
      → T (elim o [ none ↦ x | some a ↦ y a ])
  option_all none hx hy = hx
  option_all (some a) hx hy = hy a

  pub option_known {μ} :
      {A : Type μ} (o : Option A) {x : B} {y : A → B}
      → (o ≡ none → T x)
      → ((a : A) → o ≡ some a → T (y a))
      → T (elim o [ none ↦ x | some a ↦ y a ])
  option_known none hx hy = hx refl
  option_known (some a) hx hy = hy a refl
