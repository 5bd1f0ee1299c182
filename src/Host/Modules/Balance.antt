-- ===== src/Host/Modules/Balance.antt =====
-- What each function of csrc/clap_host.c on one state does to the reference counts.
use audio_plugins_jl.Base.{
  ℕ, ◌+◌, ◌≤◌, ◌<◌, ◌≡◌, refl, ap, ◌∙◌, subst, true, false, List, ◌∷◌, none, some, ◌==◌,
  if◌then◌else◌, arith, Bool-cases, Option-cases, inl, inr, ==_iff,
}
use audio_plugins_jl.Base.Words.{u32}
use audio_plugins_jl.Base.Cases.{if_all, option_all}
use audio_plugins_jl.Host.Types.{HostError, init_failed, out_of_memory, Bundle}
use audio_plugins_jl.Host.State.{State, Module, Ctx}
use audio_plugins_jl.Host.Modules.{
  find_entry, release_entry, Acquired, taken, refused, acquire, unload,
}
use audio_plugins_jl.Host.Modules.Counts.{
  uses, IsLive, Counted, missing_uses, uses_hit, uses_miss, find_entry-Counted,
  release_entry-Counted,
}

module _ {P D S : Type 0} where
  -- The use of the entry `e` that a state holds.
  abbrev pub held : ℕ → State P D S → ℕ
  held e s =
      if s.entry_inited then elim s.entry [ none ↦ 0 | some k ↦ if k == e then 1 else 0 ] else 0

  -- The use of this state is counted, with those of others.
  pub record IsOwn (c : Ctx P D S) : Type 0 where
    pub live : IsLive c.modules
    pub counted : (e : ℕ) → held e c.st ≤ uses e c.modules

  pub record Balance (c t : Ctx P D S) : Type 0 where
    pub lives : IsLive c.modules → IsLive t.modules
    pub sum : (e : ℕ) → uses e t.modules + held e c.st ≡ uses e c.modules + held e t.st

  pub Balance-refl : (c : Ctx P D S) → Balance c c
  Balance-refl c = record { lives = λ v. v; sum = λ e. refl }

  pub Balance-trans : {c t u : Ctx P D S} → Balance c t → Balance t u → Balance c u
  Balance-trans x y = record {
    lives = λ v. y.lives (x.lives v);
    sum = λ e. omega (arith, x.sum e, y.sum e);
  }

  pub Balance-IsOwn : {c t : Ctx P D S} → Balance c t → IsOwn c → IsOwn t
  Balance-IsOwn x v = record {
    live = x.lives v.live;
    counted = λ e. omega (arith, x.sum e, v.counted e);
  }

  -- A change of neither the modules nor the state's entry.
  pub same_entry :
      (c t : Ctx P D S)
      → t.modules ≡ c.modules
      → t.st.entry ≡ c.st.entry
      → t.st.entry_inited ≡ c.st.entry_inited
      → Balance c t
  same_entry c t m e i = record { lives = λ v. rw m v; sum = λ k. rw (m, e, i) refl }

  pub held_own :
      (k e : ℕ) (s : State P D S)
      → s.entry_inited ≡ true
      → s.entry ≡ some k
      → held e s ≡ (if k == e then 1 else 0)
  held_own k e s i x = ground (arith, i, x)

  held_idle : (e : ℕ) (s : State P D S) → s.entry_inited ≡ false → held e s ≡ 0
  held_idle e s i = ground (arith, i)

  held_missing : (e : ℕ) (s : State P D S) → s.entry ≡ none → held e s ≡ 0
  held_missing e s x = ground (arith, x)

  unload_modules :
      (c : Ctx P D S) (k : ℕ)
      → c.st.entry_inited ≡ true
      → c.st.entry ≡ some k
      → (unload c).modules ≡ release_entry k c.modules
  unfolding unload
  unload_modules c k i x = ground (arith, i, x)

  unload_idle : (c : Ctx P D S) → c.st.entry_inited ≡ false → (unload c).modules ≡ c.modules
  unfolding unload
  unload_idle c i = ground (arith, i)

  unload_missing : (c : Ctx P D S) → c.st.entry ≡ none → (unload c).modules ≡ c.modules
  unfolding unload
  unload_missing c x = ground (arith, x)

  pub unload_empty : (e : ℕ) (c : Ctx P D S) → held e (unload c).st ≡ 0
  unfolding unload
  unload_empty e c = refl

  pub unload-Balance : (c : Ctx P D S) → IsOwn c → Balance c (unload c)
  unload-Balance c v = elim (Bool-cases c.st.entry_inited) [
    | inr idle ↦ record {
      lives = λ w. rw (unload_idle c idle) w;
      sum = λ e.
          omega (arith, ap (uses e) (unload_idle c idle), held_idle e c.st idle, unload_empty e c);
    }
    | inl used ↦ elim (Option-cases c.st.entry) [
      | inl missing ↦ record {
        lives = λ w. rw (unload_missing c missing) w;
        sum = λ e. omega (
          arith,
          ap (uses e) (unload_missing c missing),
          held_missing e c.st missing,
          unload_empty e c,
        );
      }
      | inr (k, there) ↦
          let own : (if k == k then 1 else 0) ≤ uses k c.modules =
            rw (← held_own k k c.st used there) (v.counted k) in
          let less = release_entry-Counted k c.modules v.live (ground (arith, own)) in
          record {
            lives = λ w. rw (unload_modules c k used there) less.2;
            sum = λ e.
                rw (unload_modules c k used there, unload_empty e c, held_own k e c.st used there)
                  (elim (Bool-cases (k == e)) [
                    | inl same ↦ simp same (
                        subst (λ i. uses i (release_entry k c.modules) + 1 ≡ uses i c.modules + 0)
                          ((==_iff k e).0 same) (omega (arith, less.0)))
                    | inr other ↦ simp other (omega (arith, less.1 e (ground (arith, other))))
                  ]);
          }
    ]
  ]

  -- The counts of every module leave room for one use more.
  abbrev pub HasRoom : Ctx P D S → Type 0
  HasRoom c = (e : ℕ) → uses e c.modules + 1 < u32

new_module-Counted :
    (e : ℕ) (ms : List Module)
    → find_entry e ms ≡ none
    → Counted e (record { entry = e; refs = 1 } ∷ ms) ms
new_module-Counted e ms missing =
    let m : Module = record { entry = e; refs = 1 } in
    let unused = missing_uses e ms missing in
    record {
      one_more = uses_hit e m ms (ground arith) ∙ omega (arith, unused);
      others = λ d ne. uses_miss d m ms (ground (arith, ne));
      live = λ v. (omega arith, omega arith, unused, v);
    }

module _ {P : Type 0} (b : Bundle P) (e : ℕ) (ms : List Module) where
  acquire_again : (ms' : List Module) → find_entry e ms ≡ some ms' → acquire b e ms ≡ taken ms'
  unfolding acquire
  acquire_again ms' there = ground (arith, there)

  acquire_first :
      find_entry e ms ≡ none
      → acquire b e ms ≡ (
          if b.module_memory
          then elim b.entry_init [
            | none ↦ taken (record { entry = e; refs = 1 } ∷ ms)
            | some ok ↦
                if ok then taken (record { entry = e; refs = 1 } ∷ ms) else refused init_failed
          ]
          else refused out_of_memory)
  unfolding acquire
  acquire_first missing = ground (arith, missing)

  -- Where an entry is acquired, its use is counted.
  pub acquire_all {κ} :
      (T : Acquired → Type κ)
      → uses e ms + 1 < u32
      → ((why : HostError) → T (refused why))
      → ((ms' : List Module) → Counted e ms' ms → T (taken ms'))
      → T (acquire b e ms)
  acquire_all T room bad good = elim (Option-cases (find_entry e ms)) [
    | inr (ms', there) ↦
        rw (acquire_again ms' there) (good ms' (find_entry-Counted e ms ms' room there))
    | inl missing ↦
        let first = good (record { entry = e; refs = 1 } ∷ ms) (new_module-Counted e ms missing) in
        rw (acquire_first missing) (
          if_all T b.module_memory
            (option_all T b.entry_init first (λ ok. if_all T ok first (bad init_failed)))
            (bad out_of_memory))
  ]
