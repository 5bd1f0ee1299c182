-- ===== src/Host/Open/Ready.antt =====
-- The state that `clap_host_open` of csrc/clap_host.c leaves, whether it succeeds or fails.
use audio_plugins_jl.Base.{
  ℕ, zero, suc, ◌≤◌, ◌≡◌, refl, Bool, true, false, not, ◌&&◌, List, Option, none, some, arith, ltb,
  length, ◌==◌, Bool-cases, ◌⊎◌, inl, inr,
}
use audio_plugins_jl.Base.Cases.{if_all, if_known, option_all, option_known}
use audio_plugins_jl.Host.Types.{
  Bytes, ℤ, pos, negsuc, max_block, max_chan, max_params, scan_sanity, Doubles, HostError,
  PluginOps, Bundle, Param, Desc,
}
use audio_plugins_jl.Host.State.{State, Ctx, set_err}
use audio_plugins_jl.Host.Modules.{Acquired, taken, refused, unload}
use audio_plugins_jl.Host.Ports.{read_audio_ports}
use audio_plugins_jl.Host.Ports.Bounds.{IsServed, read_audio_ports-IsServed}
use audio_plugins_jl.Host.Scan.{
  is_empty, copy_all, give_up, scan_factory, scan_acquired, scan_closed,
}
use audio_plugins_jl.Host.Open.{
  is_some, between, find_desc, wanted, read_rows, read_params, reset_state, close, fail,
  fail_destroyed, settle, start_plugin, create_plugin, scan, open_scanned, open_bundle,
}

-- `between` gives a number of its range.
between_range : (x : ℤ) (hi n : ℕ) → between x hi ≡ some n → (1 ≤ n) × (n ≤ hi)
unfolding between
between_range (pos m) hi n e = (ground (arith, e), ground (arith, e))
between_range (negsuc m) hi n e = ground (arith, e)

module _ {P D S : Type 0} where
  -- An open state: what later calls rely on.
  pub record IsReady (s : State P D S) : Type 0 where
    pub opened : s.is_open ≡ true
    pub plugin : is_some s.plugin ≡ true
    pub block_low : 1 ≤ s.block
    pub block_high : s.block ≤ max_block
    pub chan_low : 1 ≤ s.chan
    pub chan_high : s.chan ≤ max_chan
    pub rows : length s.cache ≤ max_params
    pub served : IsServed s.chan s.layout

  -- A state that holds nothing of a bundle.
  pub record IsShut (s : State P D S) : Type 0 where
    pub closed : s.is_open ≡ false
    pub no_plugin : s.plugin ≡ none
    pub no_library : s.dl ≡ none
    pub no_entry : s.entry ≡ none
    pub not_inited : s.entry_inited ≡ false

  record Ends (r : Bool × Ctx P D S) : Type 0 where
    ready : r.0 ≡ true → IsReady r.1.st
    shut : r.0 ≡ false → IsShut r.1.st

  ready_end : (t : Ctx P D S) → IsReady t.st → Ends (true, t)
  ready_end t v = record { ready = λ e. v; shut = λ e. ground (arith, e) }

  shut_end : (t : Ctx P D S) → IsShut t.st → Ends (false, t)
  shut_end t v = record { ready = λ e. ground (arith, e); shut = λ e. v }

  -- A scan of a closed state leaves it closed where it fails.
  record Scans (r : Bool × Ctx P D S) : Type 0 where
    left : r.0 ≡ false → IsShut r.1.st

  give_up-Scans :
      (e : HostError) (c : Ctx P D S)
      → c.st.is_open ≡ false
      → c.st.plugin ≡ none
      → Scans (give_up e c)
  unfolding give_up unload
  give_up-Scans e c o p = record {
    left = λ no. record {
      closed = o;
      no_plugin = p;
      no_library = refl;
      no_entry = refl;
      not_inited = refl;
    };
  }

  shut_scan : (t : Ctx P D S) → IsShut t.st → Scans (false, t)
  shut_scan t v = record { left = λ no. v }

  found_scan : (t : Ctx P D S) → Scans (true, t)
  found_scan t = record { left = λ no. ground (arith, no) }

  scan_factory-Scans :
      (b : Bundle P) (c : Ctx P D S)
      → c.st.is_open ≡ false
      → c.st.plugin ≡ none
      → Scans (scan_factory b c)
  unfolding scan_factory
  scan_factory-Scans b c o p =
      if_all Scans b.has_factory
        (if_all Scans (ltb scan_sanity b.plugin_count) (give_up-Scans _ _ o p) (
          if_all Scans (ltb c.st.cap_desc b.plugin_count && not b.desc_memory)
            (give_up-Scans _ _ o p)
            (if_all Scans (length (copy_all b.descriptor b.plugin_count 0) == 0)
              (give_up-Scans _ _ o p) (found_scan _))))
        (give_up-Scans _ _ o p)

  scan_acquired-Scans :
      (b : Bundle P) (e : ℕ) (a : Acquired) (c : Ctx P D S)
      → c.st.is_open ≡ false
      → c.st.plugin ≡ none
      → Scans (scan_acquired b e a c)
  unfolding scan_acquired
  scan_acquired-Scans b e (taken ms) c o p = scan_factory-Scans b _ o p
  scan_acquired-Scans b e (refused why) c o p = give_up-Scans why c o p

  same-IsShut : {s : State P D S} {d : List Desc} → IsShut s → IsShut (record s { desc = d })
  same-IsShut v = record {
    closed = v.closed;
    no_plugin = v.no_plugin;
    no_library = v.no_library;
    no_entry = v.no_entry;
    not_inited = v.not_inited;
  }

  scan_closed-Scans :
      (b : Bundle P) (path : Bytes) (c : Ctx P D S) → IsShut c.st → Scans (scan_closed b path c)
  unfolding scan_closed
  scan_closed-Scans b path c v = if_all Scans (is_empty path) (shut_scan _ (same-IsShut v)) (
      option_all Scans b.library (shut_scan _ (same-IsShut v)) (λ lib.
        option_all Scans b.entry (give_up-Scans _ _ v.closed v.no_plugin) (λ e.
          if_all Scans (not b.compatible) (give_up-Scans _ _ v.closed v.no_plugin)
            (scan_acquired-Scans b e _ _ v.closed v.no_plugin))))

  read_rows_bound :
      (ops : PluginOps P D S) (p : P) (n i room : ℕ) → length (read_rows ops p n i room) ≤ room
  unfolding read_rows
  read_rows_bound ops p zero i room = omega arith
  read_rows_bound ops p (suc n) i zero = omega arith
  read_rows_bound ops p (suc n) i (suc room) =
      let T : List (Param D) → Type 0 = λ l. length l ≤ suc room in
      option_all T (ops.param_info p i) (read_rows_bound ops p n (suc i) (suc room))
        (λ info. omega (arith, read_rows_bound ops p n (suc i) room))

  read_params_bound : (ops : PluginOps P D S) (p : P) → length (read_params ops p) ≤ max_params
  unfolding read_params
  read_params_bound ops p =
      let T : List (Param D) → Type 0 = λ l. length l ≤ max_params in
      if_all T (ops.has_params p) (read_rows_bound ops p (ops.param_count p) 0 max_params)
        (omega arith)

module _ {P D S : Type 0} ⦃f : Doubles D⦄ (ops : PluginOps P D S) where
  close-IsShut : (c : Ctx P D S) → IsShut (close ops c).st
  unfolding close unload reset_state
  close-IsShut c = record {
    closed = refl;
    no_plugin = refl;
    no_library = refl;
    no_entry = refl;
    not_inited = refl;
  }

  fail-Ends : (e : HostError) (c : Ctx P D S) → Ends (fail ops e c)
  unfolding fail
  fail-Ends e c = shut_end _ (close-IsShut (set_err e c))

  fail_destroyed-Ends : (e : HostError) (c : Ctx P D S) → Ends (fail_destroyed ops e c)
  unfolding fail_destroyed
  fail_destroyed-Ends e c = fail-Ends e _

  -- What the checks before the creation of the plugin have settled.
  record IsAsked (blk ch : ℕ) : Type 0 where
    block_low : 1 ≤ blk
    block_high : blk ≤ max_block
    chan_low : 1 ≤ ch
    chan_high : ch ≤ max_chan

  start_plugin-Ends :
      (p : P) (rate : D) (blk ch which : ℕ) (c : Ctx P D S)
      → IsAsked blk ch
      → IsServed ch c.st.layout
      → Ends (start_plugin ops p rate blk ch which c)
  unfolding start_plugin settle
  start_plugin-Ends p rate blk ch which c v l =
      let (active, calls, p1) = ops.activate p rate blk blk in
      let (started, calls', p2) = ops.start_processing p1 in
      if_all Ends (not active) (fail_destroyed-Ends _ _) (
        if_all Ends (not started) (fail_destroyed-Ends _ _) (
          ready_end _ (record {
            opened = refl;
            plugin = refl;
            block_low = v.block_low;
            block_high = v.block_high;
            chan_low = v.chan_low;
            chan_high = v.chan_high;
            rows = read_params_bound ops p2;
            served = l;
          })))

  create_plugin-Ends :
      (b : Bundle P) (want : Bytes) (rate : D) (blk ch which : ℕ) (c : Ctx P D S)
      → IsAsked blk ch
      → Ends (create_plugin ops b want rate blk ch which c)
  unfolding create_plugin
  create_plugin-Ends b want rate blk ch which c v =
      option_all Ends (b.create want) (fail-Ends _ _) (λ p.
        let (ready, calls, p1) = ops.init p in
        if_all Ends (not ready) (fail-Ends _ _) (
          option_known Ends (read_audio_ports ops p1 ch c.st.layout).0
            (λ good.
              start_plugin-Ends p1 rate blk ch which _ v
                (read_audio_ports-IsServed ops p1 ch v.chan_low c.st.layout good))
            (λ why e. fail_destroyed-Ends why _)))

  open_scanned-Ends :
      (b : Bundle P) (id : Option Bytes) (rate size chans : D) (c : Ctx P D S)
      → Ends (open_scanned ops b id rate size chans c)
  unfolding open_scanned
  open_scanned-Ends b id rate size chans c =
      option_known Ends (between (f.to_long (f.add size f.half)) max_block) (λ e. fail-Ends _ _)
        (λ blk e.
          let in_block = between_range (f.to_long (f.add size f.half)) max_block blk e in
          option_known Ends (between (f.to_long (f.add chans f.half)) max_chan)
            (λ e'. fail-Ends _ _)
            (λ ch e'.
              let in_chan = between_range (f.to_long (f.add chans f.half)) max_chan ch e' in
              let asked : IsAsked blk ch = record {
                block_low = in_block.0;
                block_high = in_block.1;
                chan_low = in_chan.0;
                chan_high = in_chan.1;
              } in
              if_all Ends (not (f.less (f.of_ℕ 0) rate)) (fail-Ends _ _) (
                option_all Ends (find_desc (wanted id c.st.desc) c.st.desc 0) (fail-Ends _ _)
                  (λ which. create_plugin-Ends b (wanted id c.st.desc) rate blk ch which c asked))))

  scan-Scans : (b : Bundle P) (path : Bytes) (c : Ctx P D S) → Scans (scan ops b path c)
  unfolding scan
  scan-Scans b path c = scan_closed-Scans b path _ (close-IsShut (record c { err = none }))

  open_bundle-Ends :
      (b : Bundle P) (path : Bytes) (id : Option Bytes) (rate size chans : D) (c : Ctx P D S)
      → Ends (open_bundle ops b path id rate size chans c)
  unfolding open_bundle
  open_bundle-Ends b path id rate size chans c =
      if_known Ends (scan ops b path c).0
        (λ found. open_scanned-Ends b id rate size chans (scan ops b path c).1)
        (λ missing. shut_end _ ((scan-Scans b path c).left missing))

  -- `clap_host_open` leaves a state that is ready for blocks where it succeeds: a plugin, a block of 1
  -- to 8192 frames, 1 or 2 channels, at most 64 parameters, and a port layout that stays in its
  -- arrays and in the host's rows. Where it fails the state holds no plugin, library or module.
  pub open_bundle_outcome :
      (b : Bundle P) (path : Bytes) (id : Option Bytes) (rate size chans : D) (c : Ctx P D S)
      → let (opened, t) = open_bundle ops b path id rate size chans c in
        ((opened ≡ true) × IsReady t.st) ⊎ ((opened ≡ false) × IsShut t.st)
  open_bundle_outcome b path id rate size chans c =
      let v = open_bundle-Ends b path id rate size chans c in
      elim (Bool-cases (open_bundle ops b path id rate size chans c).0) [
        | inl yes_open ↦ inl (yes_open, v.ready yes_open)
        | inr not_open ↦ inr (not_open, v.shut not_open)
      ]
