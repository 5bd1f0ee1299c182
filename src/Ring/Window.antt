-- ===== src/Ring/Window.antt =====
-- The slots from an index on, read as a queue, oldest first.
use native.Mathlib.Nat.{mod-add-mod, mod-lt, add-zero}
use audio_plugins_jl.Base.{
  ℕ, suc, ◌+◌, ◌%◌, ◌<◌, ◌≡◌, ap, ◌∙◌, sym, List, [], ◌∷◌, ◌++◌, some, arith, length, get_elem?,
  set, get_elem?-set_self, get_elem?-set_ne,
}
use audio_plugins_jl.Ring.Capacity.{step-mod-ne}

module _ {ℓ} {B : Type ℓ} where
  -- `q` stands in the slots from number `i` on, counted round at `n`.
  abbrev pub Window : ℕ → List B → ℕ → List B → Type ℓ
  Window n slots i [] = Unit {ℓ}
  Window n slots i (x ∷ q) = (get_elem? slots (i % n) ≡ some x) × Window n slots (i + 1) q

  -- A window depends on the start's remainder alone.
  pub Window-start :
      (n : ℕ) (slots : List B) (i j : ℕ) (q : List B)
      → i % n ≡ j % n
      → Window n slots i q
      → Window n slots j q
  Window-start n slots i j [] e w = tt
  Window-start n slots i j (x ∷ q) e w =
      (rw (← e) w.0, Window-start n slots (i + 1) (j + 1) q (shift e) w.1)
    where
      shift : i % n ≡ j % n → (i + 1) % n ≡ (j + 1) % n
      shift h = sym (mod-add-mod i n 1) ∙ ap (λ (t : ℕ). (t + 1) % n) h ∙ mod-add-mod j n 1

  -- Writing the slot after a window that leaves one free extends the window.
  pub Window-set :
      (n : ℕ) (slots : List B) (i : ℕ) (q : List B) (b : B)
      → length slots ≡ n
      → length q < n
      → Window n slots i q
      → Window n (set slots ((i + length q) % n) b) i (q ++ b ∷ [])
  Window-set n slots i [] b l h w =
      (rw add-zero (get_elem?-set_self slots (i % n) b (rw l (mod-lt i h))), tt)
  Window-set n slots i (x ∷ q) b l h w =
      let kept =
        get_elem?-set_ne slots _ (i % n) b (step-mod-ne i (suc (length q)) (omega arith) h) in
      let shift : i + 1 + length q ≡ i + suc (length q) = omega arith in
      let rest = Window-set n slots (i + 1) q b l (omega arith) w.1 in
      (kept ∙ w.0, rw shift at rest)

  -- The front of a window is a window.
  pub Window-append_left :
      (n : ℕ) (slots : List B) (i : ℕ) (q p : List B)
      → Window n slots i (q ++ p)
      → Window n slots i q
  Window-append_left n slots i [] p w = tt
  Window-append_left n slots i (x ∷ q) p w = (w.0, Window-append_left n slots (i + 1) q p w.1)
