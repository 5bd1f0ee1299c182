-- ===== src/Host/Open/Balance.antt =====
-- Scanning, opening and closing in csrc/clap_host.c keep every use of a module counted.
use audio_plugins_jl.Base.{
  ℕ, ◌+◌, ◌≡◌, refl, subst, ==_iff, Bool-cases, inl, inr, Bool, true, false, Option, none, some,
  arith, ltb, ◌&&◌, not, length, ◌==◌,
}
use audio_plugins_jl.Base.Cases.{if_all, if_known, option_all}
use audio_plugins_jl.Host.Types.{
  Bytes, Doubles, scan_sanity, max_block, max_chan, bad_block, bad_channels, bad_rate,
  no_such_plugin, HostError, PluginOps, Bundle,
}
use audio_plugins_jl.Host.State.{Ctx, set_err}
use audio_plugins_jl.Host.Modules.{acquire}
use audio_plugins_jl.Host.Modules.Counts.{uses, Counted}
use audio_plugins_jl.Host.Modules.Balance.{
  held, held_own, IsOwn, Balance, Balance-refl, Balance-trans, Balance-IsOwn, same_entry,
  unload-Balance, HasRoom, acquire_all, unload_empty,
}
use audio_plugins_jl.Host.Scan.{
  is_empty, give_up, copy_all, scan_factory, scan_acquired, scan_closed,
}
use audio_plugins_jl.Host.Ports.{read_audio_ports}
use audio_plugins_jl.Host.Open.{
  reset_state, close_plugin, close, fail, fail_destroyed, settle, start_plugin, create_plugin, scan,
  open_scanned, open_bundle, between, find_desc, wanted,
}

module _ {P D S : Type 0} where
  -- What a step of scanning or opening does, from the state `c`.
  pub record Kept (c : Ctx P D S) (r : Bool × Ctx P D S) : Type 0 where
    pub kept : Balance c r.1
    pub freed : r.0 ≡ false → (e : ℕ) → held e r.1.st ≡ 0

  done : (c t : Ctx P D S) → Balance c t → Kept c (true, t)
  done c t x = record { kept = x; freed = λ no e. ground (arith, no) }

  refused_as : (c t : Ctx P D S) → Balance c t → ((e : ℕ) → held e t.st ≡ 0) → Kept c (false, t)
  refused_as c t x idle = record { kept = x; freed = λ no. idle }

  give_up-Kept : (c t : Ctx P D S) (e : HostError) → IsOwn c → Balance c t → Kept c (give_up e t)
  unfolding give_up
  give_up-Kept c t e v x =
      let y = Balance-trans x (same_entry t (set_err e t) refl refl refl) in
      record {
        kept = Balance-trans y (unload-Balance (set_err e t) (Balance-IsOwn y v));
        freed = λ no d. unload_empty d (set_err e t);
      }

  scan_factory-Kept : (b : Bundle P) (c : Ctx P D S) → IsOwn c → Kept c (scan_factory b c)
  unfolding scan_factory
  scan_factory-Kept b c v =
      let T : (Bool × Ctx P D S) → Type 0 = λ r. Kept c r in
      if_all T b.has_factory
        (if_all T (ltb scan_sanity b.plugin_count)
          (give_up-Kept c _ _ v (same_entry c _ refl refl refl))
          (if_all T (ltb c.st.cap_desc b.plugin_count && not b.desc_memory)
            (give_up-Kept c _ _ v (same_entry c _ refl refl refl))
            (if_all T (length (copy_all b.descriptor b.plugin_count 0) == 0)
              (give_up-Kept c _ _ v (same_entry c _ refl refl refl))
              (done c _ (same_entry c _ refl refl refl)))))
        (give_up-Kept c _ _ v (Balance-refl c))

  after-Kept : (c t : Ctx P D S) (r : Bool × Ctx P D S) → Balance c t → Kept t r → Kept c r
  after-Kept c t r x y = record { kept = Balance-trans x y.kept; freed = y.freed }

  -- The state takes the use of an entry that has been acquired for it.
  after_acquire :
      (c t : Ctx P D S) (e : ℕ)
      → ((d : ℕ) → held d c.st ≡ 0)
      → Counted e t.modules c.modules
      → t.st.entry ≡ some e
      → t.st.entry_inited ≡ true
      → Balance c t
  after_acquire c t e idle x at_e used = record {
    lives = x.live;
    sum = λ d.
        rw (idle d, held_own e d t.st used at_e)
          (elim (Bool-cases (e == d)) [
            | inl same ↦ simp same (
                subst (λ i. uses i t.modules + 0 ≡ uses i c.modules + 1) ((==_iff e d).0 same)
                  (omega (arith, x.one_more)))
            | inr other ↦ simp other (omega (arith, x.others d (ground (arith, other))))
          ]);
  }

  scan_acquired-Kept :
      (b : Bundle P) (e : ℕ) (c u : Ctx P D S)
      → IsOwn c
      → HasRoom c
      → ((d : ℕ) → held d c.st ≡ 0)
      → u.modules ≡ c.modules
      → u.st.entry ≡ c.st.entry
      → u.st.entry_inited ≡ c.st.entry_inited
      → Kept c (scan_acquired b e (acquire b e u.modules) u)
  unfolding scan_acquired
  scan_acquired-Kept b e c u v room idle m x i =
      acquire_all b e u.modules (λ a. Kept c (scan_acquired b e a u)) (rw m (room e))
        (λ why. give_up-Kept c u why v (same_entry c u m x i))
        (λ ms counted.
          let t : Ctx P D S = record u {
            modules = ms;
            st = record (u.st) { entry = some e; entry_inited = true };
          } in
          let y = after_acquire c t e idle (subst (λ l. Counted e ms l) m counted) refl refl in
          after-Kept c t _ y (scan_factory-Kept b t (Balance-IsOwn y v)))

  scan_closed-Kept :
      (b : Bundle P) (path : Bytes) (c : Ctx P D S)
      → IsOwn c
      → HasRoom c
      → ((d : ℕ) → held d c.st ≡ 0)
      → Kept c (scan_closed b path c)
  unfolding scan_closed
  scan_closed-Kept b path c v room idle =
      let T : (Bool × Ctx P D S) → Type 0 = λ r. Kept c r in
      if_all T (is_empty path) (refused_as c _ (same_entry c _ refl refl refl) idle) (
        option_all T b.library (refused_as c _ (same_entry c _ refl refl refl) idle) (λ lib.
          option_all T b.entry (give_up-Kept c _ _ v (same_entry c _ refl refl refl)) (λ e.
            if_all T (not b.compatible) (give_up-Kept c _ _ v (same_entry c _ refl refl refl))
              (scan_acquired-Kept b e _ _ v room idle refl refl refl))))

module _ {P D S : Type 0} ⦃f : Doubles D⦄ (ops : PluginOps P D S) where
  close_plugin-Balance : (p : P) (c : Ctx P D S) → Balance c (close_plugin ops p c)
  unfolding close_plugin
  close_plugin-Balance p c = same_entry c _ (ground arith) (ground arith) (ground arith)

  pub close-Balance : (c : Ctx P D S) → IsOwn c → Balance c (close ops c)
  unfolding close reset_state
  close-Balance c v =
      let t : Ctx P D S = elim c.st.plugin [ none ↦ c | some p ↦ close_plugin ops p c ] in
      let x : Balance c t =
        option_all (λ t. Balance c t) c.st.plugin (Balance-refl c)
          (λ p. close_plugin-Balance p c) in
      let y = Balance-trans x (same_entry t (record t { st = reset_state t.st }) refl refl refl) in
      Balance-trans y (unload-Balance _ (Balance-IsOwn y v))

  pub close_empty : (e : ℕ) (c : Ctx P D S) → held e (close ops c).st ≡ 0
  unfolding close
  close_empty e c = unload_empty e _

  fail-Kept : (c t : Ctx P D S) (e : HostError) → IsOwn c → Balance c t → Kept c (fail ops e t)
  unfolding fail
  fail-Kept c t e v x =
      let y = Balance-trans x (same_entry t (set_err e t) refl refl refl) in
      record {
        kept = Balance-trans y (close-Balance (set_err e t) (Balance-IsOwn y v));
        freed = λ no d. close_empty d (set_err e t);
      }

  fail_destroyed-Kept :
      (c t : Ctx P D S) (e : HostError) → IsOwn c → Balance c t → Kept c (fail_destroyed ops e t)
  unfolding fail_destroyed
  fail_destroyed-Kept c t e v x = fail-Kept c _ e v (
      Balance-trans x
        (same_entry t (record t { st = record (t.st) { plugin = none } }) refl refl refl))

  start_plugin-Kept :
      (p : P) (rate : D) (blk ch which : ℕ) (c : Ctx P D S)
      → IsOwn c
      → Kept c (start_plugin ops p rate blk ch which c)
  unfolding start_plugin settle
  start_plugin-Kept p rate blk ch which c v =
      let T : (Bool × Ctx P D S) → Type 0 = λ r. Kept c r in
      let (active, calls, p1) = ops.activate p rate blk blk in
      if_all T (not active) (fail_destroyed-Kept c _ _ v (same_entry c _ refl refl refl)) (
        let (started, calls', p2) = ops.start_processing p1 in
        if_all T (not started) (fail_destroyed-Kept c _ _ v (same_entry c _ refl refl refl))
          (done c _ (same_entry c _ refl refl refl)))

  start_after :
      (p : P) (rate : D) (blk ch which : ℕ) (c t : Ctx P D S)
      → IsOwn c
      → Balance c t
      → Kept c (start_plugin ops p rate blk ch which t)
  start_after p rate blk ch which c t v x =
      after-Kept c t _ x (start_plugin-Kept p rate blk ch which t (Balance-IsOwn x v))

  create_plugin-Kept :
      (b : Bundle P) (want : Bytes) (rate : D) (blk ch which : ℕ) (c : Ctx P D S)
      → IsOwn c
      → Kept c (create_plugin ops b want rate blk ch which c)
  unfolding create_plugin
  create_plugin-Kept b want rate blk ch which c v =
      let T : (Bool × Ctx P D S) → Type 0 = λ r. Kept c r in
      option_all T (b.create want) (fail-Kept c _ _ v (Balance-refl c)) (λ p.
        let (ready, calls, p1) = ops.init p in
        if_all T (not ready) (fail-Kept c _ _ v (same_entry c _ refl refl refl)) (
          option_all T (read_audio_ports ops p1 ch c.st.layout).0
            (start_after p1 rate blk ch which c _ v (same_entry c _ refl refl refl))
            (λ why. fail_destroyed-Kept c _ why v (same_entry c _ refl refl refl))))

  open_scanned-Kept :
      (b : Bundle P) (id : Option Bytes) (rate size chans : D) (c : Ctx P D S)
      → IsOwn c
      → Kept c (open_scanned ops b id rate size chans c)
  unfolding open_scanned
  open_scanned-Kept b id rate size chans c v =
      let T : (Bool × Ctx P D S) → Type 0 = λ r. Kept c r in
      let failed : (e : HostError) → Kept c (fail ops e c) =
        λ e. fail-Kept c c e v (Balance-refl c) in
      option_all T (between (f.to_long (f.add size f.half)) max_block) (failed bad_block) (λ blk.
        option_all T (between (f.to_long (f.add chans f.half)) max_chan) (failed bad_channels)
          (λ ch. if_all T (not (f.less (f.of_ℕ 0) rate)) (failed bad_rate) (
            option_all T (find_desc (wanted id c.st.desc) c.st.desc 0) (failed no_such_plugin)
              (λ which. create_plugin-Kept b (wanted id c.st.desc) rate blk ch which c v))))

  pub scan-Kept :
      (b : Bundle P) (path : Bytes) (c : Ctx P D S)
      → IsOwn c
      → HasRoom c
      → Kept c (scan ops b path c)
  unfolding scan
  scan-Kept b path c v room =
      let start : Ctx P D S = record c { err = none } in
      let x =
        Balance-trans (same_entry c start refl refl refl)
          (close-Balance start (record { live = v.live; counted = v.counted })) in
      let t = close ops start in
      let idle : (e : ℕ) → held e t.st ≡ 0 = λ e. close_empty e start in
      let room' : HasRoom t = λ e. omega (arith, room e, x.sum e, idle e) in
      after-Kept c t _ x (scan_closed-Kept b path t (Balance-IsOwn x v) room' idle)

  pub open_bundle-Kept :
      (b : Bundle P) (path : Bytes) (id : Option Bytes) (rate size chans : D) (c : Ctx P D S)
      → IsOwn c
      → HasRoom c
      → Kept c (open_bundle ops b path id rate size chans c)
  unfolding open_bundle
  open_bundle-Kept b path id rate size chans c v room =
      let x = scan-Kept b path c v room in
      if_known (λ r. Kept c r) (scan ops b path c).0
        (λ found.
          after-Kept c (scan ops b path c).1 _ x.kept
            (open_scanned-Kept b id rate size chans (scan ops b path c).1 (Balance-IsOwn x.kept v)))
        (λ missing. refused_as c _ x.kept (x.freed missing))
