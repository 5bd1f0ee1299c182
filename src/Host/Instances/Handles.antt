-- ===== src/Host/Instances/Handles.antt =====
-- The list of instances by handle: each handle names at most one, and handles only grow.
use audio_plugins_jl.Base.{
  ℕ, ◌+◌, ◌≤◌, ◌<◌, ◌≡◌, ◌≢◌, refl, some, none, List, [], ◌∷◌, arith, ◌==◌, Bool-cases, inl, inr,
  ==_iff, subst,
}
use audio_plugins_jl.Host.Types.{Doubles}
use audio_plugins_jl.Host.State.{State}
use audio_plugins_jl.Host.Tokens.{exact_max}
use audio_plugins_jl.Host.Instances.{find_instance, unlink, put_instance}

-- Whole numbers up to 2^53 - 1 are told apart as doubles.
pub record IsExact {D : Type 0} (f : Doubles D) : Type 0 where
  pub same_ℕ : (m n : ℕ) → m ≤ exact_max → n ≤ exact_max → f.same (f.of_ℕ m) (f.of_ℕ n) ≡ (m == n)

module _ {P D S : Type 0} where
  -- The handles stand in falling order, below `n`.
  abbrev pub Below : ℕ → List (ℕ × State P D S) → Type 0
  Below n [] = Unit
  Below n ((k, s) ∷ l) = (k < n) × Below k l

  -- The handle `a` is not there.
  abbrev pub Gone : ℕ → List (ℕ × State P D S) → Type 0
  Gone a [] = Unit
  Gone a ((k, s) ∷ l) = (k ≢ a) × Gone a l

  Below-weaken : (m n : ℕ) (l : List (ℕ × State P D S)) → m ≤ n → Below m l → Below n l
  Below-weaken m n [] le v = tt
  Below-weaken m n ((k, s) ∷ l) le v = (omega (arith, v.0), v.1)

  Gone-above : (a n : ℕ) (l : List (ℕ × State P D S)) → n ≤ a → Below n l → Gone a l
  Gone-above a n [] le v = tt
  Gone-above a n ((k, s) ∷ l) le v = (omega (arith, v.0), Gone-above a k l (omega (arith, v.0)) v.1)

  pub put_instance-Below :
      (n k : ℕ) (s : State P D S) (l : List (ℕ × State P D S))
      → Below n l
      → Below n (put_instance k s l)
  unfolding put_instance
  put_instance-Below n k s [] v = tt
  put_instance-Below n k s ((j, t) ∷ l) v = elim (Bool-cases (j == k)) [
    | inl here ↦
        let e : j ≡ k = (==_iff j k).0 here in simp here (subst (λ i. (i < n) × Below i l) e v)
    | inr there ↦ simp there (v.0, put_instance-Below j k s l v.1)
  ]

  pub put_instance-Gone :
      (a k : ℕ) (s : State P D S) (l : List (ℕ × State P D S))
      → Gone a l
      → Gone a (put_instance k s l)
  unfolding put_instance
  put_instance-Gone a k s [] v = tt
  put_instance-Gone a k s ((j, t) ∷ l) v = elim (Bool-cases (j == k)) [
    | inl here ↦ let e : j ≡ k = (==_iff j k).0 here in simp here (subst (λ i. i ≢ a) e v.0, v.1)
    | inr there ↦ simp there (v.0, put_instance-Gone a k s l v.1)
  ]

  module _ ⦃f : Doubles D⦄ where
    pub find_instance-Below :
        (n : ℕ) (handle : D) (l : List (ℕ × State P D S)) (x : ℕ × State P D S)
        → Below n l
        → find_instance handle l ≡ some x
        → x.0 < n
    unfolding find_instance
    find_instance-Below n handle [] x v e = ground (arith, e)
    find_instance-Below n handle ((k, s) ∷ l) x v e = elim (Bool-cases (f.same (f.of_ℕ k) handle)) [
      | inl hit ↦ let same : (k, s) ≡ x = ground (arith, hit, e) in subst (λ y. y.0 < n) same v.0
      | inr miss ↦
          let lt = find_instance-Below k handle l x v.1 (ground (arith, miss, e)) in
          omega (arith, lt, v.0)
    ]

  module _ ⦃f : Doubles D⦄ (exact : IsExact f) where
    pub unlink-Below :
        (n : ℕ) (handle : D) (l : List (ℕ × State P D S)) → Below n l → Below n (unlink handle l)
    unfolding unlink
    unlink-Below n handle [] v = tt
    unlink-Below n handle ((k, s) ∷ l) v = elim (Bool-cases (f.same (f.of_ℕ k) handle)) [
      | inl here ↦ simp here (Below-weaken k n l (omega (arith, v.0)) v.1)
      | inr there ↦ simp there (v.0, unlink-Below k handle l v.1)
    ]

    pub unlink-Gone :
        (n a : ℕ) (l : List (ℕ × State P D S))
        → n ≤ exact_max + 1
        → a ≤ exact_max
        → Below n l
        → Gone a (unlink (f.of_ℕ a) l)
    unfolding unlink
    unlink-Gone n a [] le ha v = tt
    unlink-Gone n a ((k, s) ∷ l) le ha v =
        let e = exact.same_ℕ k a (omega (arith, v.0)) ha in
        elim (Bool-cases (k == a)) [
          | inl here ↦
              let same : k ≡ a = (==_iff k a).0 here in
              simp (e, here) (Gone-above a k l (omega arith) v.1)
          | inr there ↦
              simp (e, there) (ground (arith, there), unlink-Gone k a l (omega (arith, v.0)) ha v.1)
        ]

    -- Another handle stays gone.
    pub unlink_keeps-Gone :
        (handle : D) (a : ℕ) (l : List (ℕ × State P D S)) → Gone a l → Gone a (unlink handle l)
    unfolding unlink
    unlink_keeps-Gone handle a [] v = tt
    unlink_keeps-Gone handle a ((k, s) ∷ l) v = elim (Bool-cases (f.same (f.of_ℕ k) handle)) [
      | inl here ↦ simp here v.1
      | inr there ↦ simp there (v.0, unlink_keeps-Gone handle a l v.1)
    ]

    pub find_instance-Gone :
        (n a : ℕ) (l : List (ℕ × State P D S))
        → n ≤ exact_max + 1
        → a ≤ exact_max
        → Below n l
        → Gone a l
        → find_instance (f.of_ℕ a) l ≡ none
    unfolding find_instance
    find_instance-Gone n a [] le ha v gone = refl
    find_instance-Gone n a ((k, s) ∷ l) le ha v gone =
        let e = exact.same_ℕ k a (omega (arith, v.0)) ha in
        let rest = find_instance-Gone k a l (omega (arith, v.0)) ha v.1 gone.1 in
        ground (arith, e, rest, gone.0)

    -- A change of one instance is found under its own handle and no other.
    pub find_instance-put_instance :
        (n a k : ℕ) (t : State P D S) (l : List (ℕ × State P D S))
        → n ≤ exact_max + 1
        → a ≤ exact_max
        → k ≢ a
        → Below n l
        → find_instance (f.of_ℕ a) (put_instance k t l) ≡ find_instance (f.of_ℕ a) l
    unfolding find_instance put_instance
    find_instance-put_instance n a k t [] le ha ne v = refl
    find_instance-put_instance n a k t ((j, s) ∷ l) le ha ne v =
        let e = exact.same_ℕ j a (omega (arith, v.0)) ha in
        let rest = find_instance-put_instance j a k t l (omega (arith, v.0)) ha ne v.1 in
        elim (Bool-cases (j == k)) [
          | inl here ↦
              let same : j ≡ k = (==_iff j k).0 here in
              ground (arith, e, here, ne, exact.same_ℕ k a (omega (arith, v.0)) ha)
          | inr there ↦ simp there (ground (arith, rest, e))
        ]
