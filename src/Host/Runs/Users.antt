-- ===== src/Host/Runs/Users.antt =====
-- The reference counts of csrc/clap_host.c count the states that use each module.
use audio_plugins_jl.Base.{
  ℕ, ◌+◌, ◌≤◌, ◌≡◌, refl, subst, Bool, true, false, some, List, [], ◌∷◌, arith, ◌==◌, Bool-cases,
  inl, inr, ==_iff,
}
use audio_plugins_jl.Base.Words.{u32}
use audio_plugins_jl.Host.Types.{Doubles}
use audio_plugins_jl.Host.State.{State, Ctx}
use audio_plugins_jl.Host.Modules.Counts.{uses, IsLive}
use audio_plugins_jl.Host.Modules.Balance.{held, IsOwn, Balance, HasRoom}
use audio_plugins_jl.Host.Instances.{Host, find_instance, unlink, put_instance, ctx}
use audio_plugins_jl.Host.Instances.Handles.{Below, find_instance-Below}

module _ {P D S : Type 0} where
  -- The uses of the entry `e` that the instances hold, and all states.
  unfoldable pub instances_held : ℕ → List (ℕ × State P D S) → ℕ
  instances_held e [] = 0
  instances_held e ((k, s) ∷ l) = held e s + instances_held e l

  abbrev pub users : ℕ → Host P D S → ℕ
  users e h = held e h.default + instances_held e h.instances

  -- Each module stands once, used, and its count is the number of states that use it.
  pub record IsTracked (h : Host P D S) : Type 0 where
    pub live : IsLive h.modules
    pub counted : (e : ℕ) → uses e h.modules ≡ users e h

  pub instances_held_cons :
      (e k : ℕ) (s : State P D S) (l : List (ℕ × State P D S))
      → instances_held e ((k, s) ∷ l) ≡ held e s + instances_held e l
  unfolding instances_held
  instances_held_cons e k s l = refl

  held_one : (e : ℕ) (s : State P D S) → held e s ≤ 1
  held_one e s = ground arith

  instances_held_bound : (e n : ℕ) (l : List (ℕ × State P D S)) → Below n l → instances_held e l ≤ n
  unfolding instances_held
  instances_held_bound e n [] v = omega arith
  instances_held_bound e n ((k, s) ∷ l) v =
      omega (arith, held_one e s, instances_held_bound e k l v.1, v.0)

  module _ ⦃f : Doubles D⦄ where
    unlink-held :
        (e : ℕ) (handle : D) (l : List (ℕ × State P D S)) (x : ℕ × State P D S)
        → find_instance handle l ≡ some x
        → instances_held e (unlink handle l) + held e x.1 ≡ instances_held e l
    unfolding find_instance unlink instances_held
    unlink-held e handle [] x eq = ground (arith, eq)
    unlink-held e handle ((k, s) ∷ l) x eq = elim (Bool-cases (f.same (f.of_ℕ k) handle)) [
      | inl hit ↦
          let same : (k, s) ≡ x = ground (arith, hit, eq) in
          subst
            (λ y.
              instances_held e (unlink handle ((k, s) ∷ l)) + held e y.1
              ≡ held e s + instances_held e l)
            same (simp hit (omega arith))
      | inr miss ↦
          let rest = unlink-held e handle l x (ground (arith, miss, eq)) in
          simp miss (omega (arith, rest))
    ]

    put_instance-held :
        (e n : ℕ) (handle : D) (l : List (ℕ × State P D S)) (x : ℕ × State P D S) (t : State P D S)
        → Below n l
        → find_instance handle l ≡ some x
        → instances_held e (put_instance x.0 t l) + held e x.1 ≡ instances_held e l + held e t
    unfolding find_instance put_instance instances_held
    put_instance-held e n handle [] x t v eq = ground (arith, eq)
    put_instance-held e n handle ((k, s) ∷ l) x t v eq =
        elim (Bool-cases (f.same (f.of_ℕ k) handle)) [
          | inl hit ↦
              let same : (k, s) ≡ x = ground (arith, hit, eq) in
              subst
                (λ y.
                  instances_held e (put_instance y.0 t ((k, s) ∷ l)) + held e y.1
                  ≡ held e s + instances_held e l + held e t)
                same (simp ((==_iff k k).1 refl) (omega arith))
          | inr miss ↦
              let found : find_instance handle l ≡ some x = ground (arith, miss, eq) in
              let lt = find_instance-Below k handle l x v.1 found in
              let other : (k == x.0) ≡ false = ground (arith, lt) in
              let rest = put_instance-held e k handle l x t v.1 found in
              simp other (omega (arith, rest))
        ]

module _ {P D S : Type 0} where
  -- A state among the globals, and the host once it has become `c.st` there.
  pub default-IsOwn : (h : Host P D S) → IsTracked h → IsOwn (ctx true h.default h)
  default-IsOwn h v = record { live = v.live; counted = λ e. omega (arith, v.counted e) }

  pub default-IsTracked :
      (h t : Host P D S) (c : Ctx P D S)
      → Balance (ctx true h.default h) c
      → IsTracked h
      → t.modules ≡ c.modules
      → t.default ≡ c.st
      → t.instances ≡ h.instances
      → IsTracked t
  default-IsTracked h t c x v m d l = record {
    live = rw m (x.lives v.live);
    counted = λ e. rw (m, d, l) (omega (arith, x.sum e, v.counted e));
  }

  pub room :
      (h : Host P D S) (b : Bool) (s : State P D S)
      → IsTracked h
      → Below (h.next_handle + 1) h.instances
      → h.next_handle + 4 ≤ u32
      → HasRoom (ctx b s h)
  room h b s v below few e = omega (
    arith,
    v.counted e,
    held_one e h.default,
    instances_held_bound e (h.next_handle + 1) h.instances below,
    few,
  )

  module _ ⦃f : Doubles D⦄ where
    pub found-IsOwn :
        (h : Host P D S) (handle : D) (x : ℕ × State P D S)
        → IsTracked h
        → find_instance handle h.instances ≡ some x
        → IsOwn (ctx false x.1 h)
    found-IsOwn h handle x v e = record {
      live = v.live;
      counted = λ d. omega (arith, v.counted d, unlink-held d handle h.instances x e);
    }

    pub put-IsTracked :
        (h t : Host P D S) (n : ℕ) (handle : D) (x : ℕ × State P D S) (c : Ctx P D S)
        → Below n h.instances
        → find_instance handle h.instances ≡ some x
        → Balance (ctx false x.1 h) c
        → IsTracked h
        → t.modules ≡ c.modules
        → t.default ≡ h.default
        → t.instances ≡ put_instance x.0 c.st h.instances
        → IsTracked t
    put-IsTracked h t n handle x c below e b v m d l = record {
      live = rw m (b.lives v.live);
      counted = λ k.
          rw (m, d, l)
            (omega (
              arith,
              b.sum k,
              v.counted k,
              put_instance-held k n handle h.instances x c.st below e,
            ));
    }

    pub unlink-IsTracked :
        (h t : Host P D S) (handle : D) (x : ℕ × State P D S) (c : Ctx P D S)
        → find_instance handle h.instances ≡ some x
        → Balance (ctx false x.1 h) c
        → ((e : ℕ) → held e c.st ≡ 0)
        → IsTracked h
        → t.modules ≡ c.modules
        → t.default ≡ h.default
        → t.instances ≡ unlink handle h.instances
        → IsTracked t
    unlink-IsTracked h t handle x c e b idle v m d l = record {
      live = rw m (b.lives v.live);
      counted = λ k.
          rw (m, d, l)
            (omega (arith, b.sum k, v.counted k, idle k, unlink-held k handle h.instances x e));
    }

pub same-IsTracked :
    {P D S : Type 0} (h t : Host P D S)
    → IsTracked h
    → t.modules ≡ h.modules
    → t.default ≡ h.default
    → t.instances ≡ h.instances
    → IsTracked t
same-IsTracked h t v m d l = record {
  live = rw m v.live;
  counted = λ e. rw (m, d, l) (v.counted e);
}
