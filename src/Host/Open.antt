-- ===== src/Host/Open.antt =====
-- `clap_host_open` and `clap_host_close` of csrc/clap_host.c.
pub mod Balance
pub mod Ready
pub mod Events
use audio_plugins_jl.Base.{
  ℕ, zero, suc, ◌+◌, Bool, true, false, not, ◌&&◌, ◌||◌, List, [], ◌∷◌, Option, none, some, length,
  ltb, leb, ◌==◌, if◌then◌else◌,
}
use audio_plugins_jl.Host.Types.{
  Bytes, ℤ, pos, negsuc, max_block, max_chan, max_params, name_size, param_slots, Doubles,
  HostError, bad_block, bad_channels, bad_rate, no_such_plugin, create_failed, plugin_init_failed,
  activate_failed, start_failed, Desc, Param, PluginOps, Bundle, HostRequest,
}
use audio_plugins_jl.Host.State.{State, Ctx, set_err, host_requests}
use audio_plugins_jl.Host.Modules.{unload}
use audio_plugins_jl.Host.Scan.{truncated, scan_closed}
use audio_plugins_jl.Host.Ports.{no_ports, read_audio_ports}

abbrev pub is_some {ℓ} : {A : Type ℓ} → Option A → Bool
is_some none = false
is_some (some a) = true

-- `lo <= i <= hi`, with the number that it is then; `lo` is 1.
unfoldable pub between : ℤ → ℕ → Option ℕ
between (pos n) hi = if n == 0 || ltb hi n then none else some n
between (negsuc n) hi = none

-- `strcmp(a, b) == 0`
unfoldable pub same_bytes : Bytes → Bytes → Bool
same_bytes [] [] = true
same_bytes (a ∷ x) (b ∷ y) = a == b && same_bytes x y
same_bytes _ _ = false

-- The position from `i` on of the first descriptor of that id.
unfoldable pub find_desc : Bytes → List Desc → ℕ → Option ℕ
unfolding same_bytes
find_desc want [] i = none
find_desc want (d ∷ ds) i =
    let rest = find_desc want ds (suc i) in if same_bytes d.id want then some i else rest

abbrev pub first_id : List Desc → Bytes
first_id [] = []
first_id (d ∷ ds) = d.id

-- The id asked for, or the first one of the bundle.
unfoldable pub wanted : Option Bytes → List Desc → Bytes
wanted none ds = first_id ds
wanted (some []) ds = first_id ds
wanted (some (b ∷ bs)) ds = b ∷ bs

module _ {P D S : Type 0} (ops : PluginOps P D S) where
  -- The loop of `read_params`, with room for `room` more rows.
  unfoldable pub read_rows : P → ℕ → ℕ → ℕ → List (Param D)
  read_rows p zero i room = []
  read_rows p (suc n) i zero = []
  read_rows p (suc n) i (suc room) =
      let skipped = read_rows p n (suc i) (suc room) in
      let rest = read_rows p n (suc i) room in
      elim (ops.param_info p i) [
        | none ↦ skipped
        | some info ↦ record info { name = truncated name_size info.name } ∷ rest
      ]

  unfoldable pub read_params : P → List (Param D)
  unfolding read_rows
  read_params p = if ops.has_params p then read_rows p (ops.param_count p) 0 max_params else []

module _ {P D S : Type 0} ⦃f : Doubles D⦄ where
  -- The reset of `clap_host_close`, field by field; the descriptors stay.
  unfoldable pub reset_state : State P D S → State P D S
  reset_state s = record s {
    plugin = none;
    params = false;
    latency = false;
    is_open = false;
    cache = [];
    layout = no_ports s.layout;
    open_index = none;
    in_token = f.of_ℕ 0;
    out_token = f.of_ℕ 0;
    in_n = 0;
    out_n = 0;
    n_process = 0;
    steady = 0;
    ev = [];
    plugin_name = [];
  }

  abbrev pub called : List HostRequest → P → Ctx P D S → Ctx P D S
  called calls p c = record c {
    st = record (c.st) { plugin = some p; requests = host_requests calls c.st.requests };
  }

  module _ (ops : PluginOps P D S) where
    -- The plugin's end; `destroy` leaves nothing.
    unfoldable pub close_plugin : P → Ctx P D S → Ctx P D S
    close_plugin p c =
        let (stop_calls, p1) = ops.stop_processing p in
        let t = if c.st.is_open then called stop_calls p1 c else c in
        let q = if c.st.is_open then p1 else p in
        let (calls, p2) = ops.deactivate q in called calls p2 t

    unfoldable pub close : Ctx P D S → Ctx P D S
    close c =
        let t : Ctx P D S = elim c.st.plugin [ none ↦ c | some p ↦ close_plugin p c ] in
        unload (record t { st = reset_state t.st })

    -- A failed open gives everything back; its answer is not 0.
    unfoldable pub fail : HostError → Ctx P D S → Bool × Ctx P D S
    fail e c = (false, close (set_err e c))

    -- A plugin that is destroyed before the open fails.
    unfoldable pub fail_destroyed : HostError → Ctx P D S → Bool × Ctx P D S
    fail_destroyed e c = fail e (record c { st = record (c.st) { plugin = none } })

    -- The end of a successful open.
    unfoldable pub settle : P → D → ℕ → ℕ → ℕ → Ctx P D S → Ctx P D S
    settle p rate blk ch which c = record c {
      st = record (c.st) {
        params = ops.has_params p;
        latency = ops.has_latency p;
        cache = read_params ops p;
        sample_rate = rate;
        block = blk;
        chan = ch;
        slot_id = λ i. f.neg (f.of_ℕ 1);
        slot_val = λ i. f.nan;
        sent_val = λ i. f.nan;
        open_index = some which;
        in_token = f.of_ℕ 0;
        out_token = f.of_ℕ 0;
        in_n = 0;
        out_n = 0;
        n_process = 0;
        steady = 0;
        is_open = true;
      };
    }

    -- From the activation on.
    unfoldable pub start_plugin : P → D → ℕ → ℕ → ℕ → Ctx P D S → Bool × Ctx P D S
    start_plugin p rate blk ch which c =
        let (active, calls, p1) = ops.activate p rate blk blk in
        let t = called calls p1 c in
        if not active
        then fail_destroyed activate_failed t
        else let (started, calls', p2) = ops.start_processing p1 in
          let u = called calls' p2 t in
          if not started
          then (let (calls'', p3) = ops.deactivate p2 in
              fail_destroyed start_failed (called calls'' p3 u))
          else (true, settle p2 rate blk ch which u)

    -- From the plugin's creation on.
    unfoldable pub create_plugin : Bundle P → Bytes → D → ℕ → ℕ → ℕ → Ctx P D S → Bool × Ctx P D S
    create_plugin b want rate blk ch which c = elim (b.create want) [
      | none ↦ fail create_failed c
      | some p ↦
          let (ready, calls, p1) = ops.init p in
          let t = record c {
            st = record (c.st) { requests = host_requests calls c.st.requests };
          } in
          if not ready
          then fail plugin_init_failed t
          else let name : Bytes = elim (ops.desc_name p1) [ none ↦ want | some n ↦ n ] in
            let (e, l) = read_audio_ports ops p1 ch t.st.layout in
            let u = record t {
              st = record (t.st) { plugin = some p1; plugin_name = truncated 256 name; layout = l };
            } in
            elim e [ some why ↦ fail_destroyed why u | none ↦ start_plugin p1 rate blk ch which u ]
    ]

    -- `clap_host_scan`.
    unfoldable pub scan : Bundle P → Bytes → Ctx P D S → Bool × Ctx P D S
    scan b path c = scan_closed b path (close (record c { err = none }))

    -- The checks between the scan and the creation.
    unfoldable pub open_scanned : Bundle P → Option Bytes → D → D → D → Ctx P D S → Bool × Ctx P D S
    open_scanned b id rate block_size channels c =
        elim (between (f.to_long (f.add block_size f.half)) max_block) [
          | none ↦ fail bad_block c
          | some blk ↦ elim (between (f.to_long (f.add channels f.half)) max_chan) [
            | none ↦ fail bad_channels c
            | some ch ↦
                if not (f.less (f.of_ℕ 0) rate)
                then fail bad_rate c
                else let want = wanted id c.st.desc in
                  elim (find_desc want c.st.desc 0) [
                    | none ↦ fail no_such_plugin c
                    | some which ↦ create_plugin b want rate blk ch which c
                  ]
          ]
        ]

    -- `clap_host_open`; true is its answer 0.
    unfoldable pub open_bundle :
        Bundle P → Bytes → Option Bytes → D → D → D → Ctx P D S → Bool × Ctx P D S
    open_bundle b path id rate block_size channels c =
        let (found, t) = scan b path c in
        if found then open_scanned b id rate block_size channels t else (false, t)
