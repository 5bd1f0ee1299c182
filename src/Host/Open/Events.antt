-- ===== src/Host/Open/Events.antt =====
-- Scanning, opening and closing in csrc/clap_host.c leave no event in a state.
use audio_plugins_jl.Base.{ℕ, ◌≡◌, refl, Bool, not, ◌&&◌, Option, [], length, ltb, ◌==◌}
use audio_plugins_jl.Base.Cases.{if_all, option_all}
use audio_plugins_jl.Host.Types.{
  Bytes, max_block, max_chan, scan_sanity, Doubles, HostError, PluginOps, Bundle,
}
use audio_plugins_jl.Host.State.{Ctx, set_err}
use audio_plugins_jl.Host.Modules.{Acquired, taken, refused, acquire, unload}
use audio_plugins_jl.Host.Ports.{read_audio_ports}
use audio_plugins_jl.Host.Scan.{
  is_empty, copy_all, give_up, scan_factory, scan_acquired, scan_closed,
}
use audio_plugins_jl.Host.Open.{
  between, find_desc, wanted, reset_state, close, fail, fail_destroyed, settle, start_plugin,
  create_plugin, scan, open_scanned, open_bundle,
}

module _ {P D S : Type 0} where
  -- An answer, and a state with an empty event array.
  pub record Empty (r : Bool × Ctx P D S) : Type 0 where
    pub empty : r.1.st.ev ≡ []

  give_up-Empty : (e : HostError) (c : Ctx P D S) → c.st.ev ≡ [] → Empty (give_up e c)
  unfolding give_up unload
  give_up-Empty e c v = record { empty = v }

  scan_factory-Empty : (b : Bundle P) (c : Ctx P D S) → c.st.ev ≡ [] → Empty (scan_factory b c)
  unfolding scan_factory
  scan_factory-Empty b c v =
      if_all Empty b.has_factory
        (if_all Empty (ltb scan_sanity b.plugin_count) (give_up-Empty _ _ v) (
          if_all Empty (ltb c.st.cap_desc b.plugin_count && not b.desc_memory) (give_up-Empty _ _ v)
            (if_all Empty (length (copy_all b.descriptor b.plugin_count 0) == 0)
              (give_up-Empty _ _ v) (record { empty = v }))))
        (give_up-Empty _ _ v)

  scan_acquired-Empty :
      (b : Bundle P) (e : ℕ) (a : Acquired) (c : Ctx P D S)
      → c.st.ev ≡ []
      → Empty (scan_acquired b e a c)
  unfolding scan_acquired
  scan_acquired-Empty b e (taken ms) c v = scan_factory-Empty b _ v
  scan_acquired-Empty b e (refused why) c v = give_up-Empty why c v

  scan_closed-Empty :
      (b : Bundle P) (path : Bytes) (c : Ctx P D S) → c.st.ev ≡ [] → Empty (scan_closed b path c)
  unfolding scan_closed
  scan_closed-Empty b path c v =
      if_all Empty (is_empty path) (record { empty = v })
        (option_all Empty b.library (record { empty = v })
          (λ lib. option_all Empty b.entry (give_up-Empty _ _ v) (λ e.
            if_all Empty (not b.compatible) (give_up-Empty _ _ v)
              (scan_acquired-Empty b e (acquire b e c.modules) _ v))))

module _ {P D S : Type 0} ⦃f : Doubles D⦄ (ops : PluginOps P D S) where
  pub close_empty_ev : (c : Ctx P D S) → (close ops c).st.ev ≡ []
  unfolding close reset_state unload
  close_empty_ev c = refl

  fail-Empty : (e : HostError) (c : Ctx P D S) → Empty (fail ops e c)
  unfolding fail
  fail-Empty e c = record { empty = close_empty_ev (set_err e c) }

  fail_destroyed-Empty : (e : HostError) (c : Ctx P D S) → Empty (fail_destroyed ops e c)
  unfolding fail_destroyed
  fail_destroyed-Empty e c = fail-Empty e _

  start_plugin-Empty :
      (p : P) (rate : D) (blk ch which : ℕ) (c : Ctx P D S)
      → c.st.ev ≡ []
      → Empty (start_plugin ops p rate blk ch which c)
  unfolding start_plugin settle
  start_plugin-Empty p rate blk ch which c v =
      let (active, calls, p1) = ops.activate p rate blk blk in
      let (started, calls', p2) = ops.start_processing p1 in
      if_all Empty (not active) (fail_destroyed-Empty _ _)
        (if_all Empty (not started) (fail_destroyed-Empty _ _) (record { empty = v }))

  create_plugin-Empty :
      (b : Bundle P) (want : Bytes) (rate : D) (blk ch which : ℕ) (c : Ctx P D S)
      → c.st.ev ≡ []
      → Empty (create_plugin ops b want rate blk ch which c)
  unfolding create_plugin
  create_plugin-Empty b want rate blk ch which c v =
      option_all Empty (b.create want) (fail-Empty _ _) (λ p.
        let (ready, calls, p1) = ops.init p in
        if_all Empty (not ready) (fail-Empty _ _) (
          option_all Empty (read_audio_ports ops p1 ch c.st.layout).0
            (start_plugin-Empty p1 rate blk ch which _ v) (λ why. fail_destroyed-Empty why _)))

  pub scan-Empty : (b : Bundle P) (path : Bytes) (c : Ctx P D S) → Empty (scan ops b path c)
  unfolding scan
  scan-Empty b path c = scan_closed-Empty b path _ (close_empty_ev _)

  open_scanned-Empty :
      (b : Bundle P) (id : Option Bytes) (rate block_size channels : D) (c : Ctx P D S)
      → c.st.ev ≡ []
      → Empty (open_scanned ops b id rate block_size channels c)
  unfolding open_scanned
  open_scanned-Empty b id rate block_size channels c v =
      option_all Empty (between (f.to_long (f.add block_size f.half)) max_block) (fail-Empty _ _)
        (λ blk.
          option_all Empty (between (f.to_long (f.add channels f.half)) max_chan) (fail-Empty _ _)
            (λ ch. if_all Empty (not (f.less (f.of_ℕ 0) rate)) (fail-Empty _ _) (
              option_all Empty (find_desc (wanted id c.st.desc) c.st.desc 0) (fail-Empty _ _)
                (λ which. create_plugin-Empty b (wanted id c.st.desc) rate blk ch which c v))))

  pub open_bundle-Empty :
      (b : Bundle P) (path : Bytes) (id : Option Bytes) (rate block_size channels : D)
      (c : Ctx P D S)
      → Empty (open_bundle ops b path id rate block_size channels c)
  unfolding open_bundle
  open_bundle-Empty b path id rate block_size channels c =
      let v = (scan-Empty b path c).empty in
      if_all Empty (scan ops b path c).0
        (open_scanned-Empty b id rate block_size channels (scan ops b path c).1 v)
        (record { empty = v })
