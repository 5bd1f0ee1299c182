-- ===== src/Host/Instances.antt =====
-- The instances of csrc/clap_host.c: DEFAULT_STATE and the list behind handles. A handle is a whole
-- number in a double; the number is kept here and compared as a double.
pub mod Chain
pub mod Handles
use audio_plugins_jl.Base.{
  ℕ, ◌+◌, Bool, true, false, not, ◌&&◌, ◌||◌, Option, none, some, List, [], ◌∷◌, leb, ltb, ◌==◌,
  if◌then◌else◌,
}
use audio_plugins_jl.Base.Loops.{copy}
use audio_plugins_jl.Host.Types.{
  Bytes, max_block, max_chan, Doubles, Floats, HostError, invalid_handle, bad_instance,
  handle_space, out_of_memory, chain_mismatch, aux, PluginOps, Bundle,
}
use audio_plugins_jl.Host.State.{State, Module, Ctx, set_err}
use audio_plugins_jl.Host.Tokens.{exact_max}
use audio_plugins_jl.Host.Open.{scan, open_bundle, close}
use audio_plugins_jl.Host.Input.{new_block}
use audio_plugins_jl.Host.Output.{out_ok}
use audio_plugins_jl.Host.Query.{Answer, Query, Command, query, command, refusal, refused_command}

pub record Host (P D S : Type 0) : Type 0 where
  pub default : State P D S
  pub instances : List (ℕ × State P D S)
  pub next_handle : ℕ
  pub next_token : ℕ
  pub err : Option HostError
  pub modules : List Module

module _ {P D S : Type 0} where
  -- A state as its functions see it, among the globals.
  abbrev pub ctx : Bool → State P D S → Host P D S → Ctx P D S
  ctx legacy s h = record {
    legacy = legacy;
    err = h.err;
    next_token = h.next_token;
    modules = h.modules;
    st = s;
  }

  -- The globals after a function.
  abbrev pub globals : Ctx P D S → Host P D S → Host P D S
  globals c h = record h { err = c.err; next_token = c.next_token; modules = c.modules }

  -- Instance `k` becomes `s`.
  unfoldable pub put_instance : ℕ → State P D S → List (ℕ × State P D S) → List (ℕ × State P D S)
  put_instance k s [] = []
  put_instance k s ((j, t) ∷ l) =
      let rest = put_instance k s l in if j == k then (k, s) ∷ l else (j, t) ∷ rest

module _ {P D S : Type 0} ⦃f : Doubles D⦄ where
  -- `instance`, without its message.
  unfoldable pub find_instance : D → List (ℕ × State P D S) → Option (ℕ × State P D S)
  find_instance handle [] = none
  find_instance handle ((k, s) ∷ l) =
      let rest = find_instance handle l in if f.same (f.of_ℕ k) handle then some (k, s) else rest

  -- The list without the first instance of that handle.
  unfoldable pub unlink : D → List (ℕ × State P D S) → List (ℕ × State P D S)
  unlink handle [] = []
  unlink handle ((k, s) ∷ l) =
      let rest = unlink handle l in if f.same (f.of_ℕ k) handle then l else (k, s) ∷ rest

  unfoldable pub instance_of : D → Host P D S → Option (ℕ × State P D S) × Host P D S
  instance_of handle h = elim (find_instance handle h.instances) [
    | none ↦ (none, record h { err = some invalid_handle })
    | some found ↦ (some found, h)
  ]

module _ {P D S : Type 0} ⦃f : Doubles D⦄ ⦃g : Floats D S⦄ (ops : PluginOps P D S) where
  -- The reading entry points of an instance.
  unfoldable pub query_for : D → Query D → Host P D S → Answer D × Host P D S
  query_for handle q h =
      let (found, t) = instance_of handle h in
      elim found [ none ↦ (refusal q, t) | some (k, s) ↦ (query ops q (ctx false s t), t) ]

  -- Those that change one.
  unfoldable pub command_for : D → Command D → Host P D S → Answer D × Host P D S
  command_for handle q h =
      let (found, t) = instance_of handle h in
      elim found [
        | none ↦ (refused_command q, t)
        | some (k, s) ↦
            let (r, c) = command ops q (ctx false s t) in
            (r, record (globals c t) { instances = put_instance k c.st t.instances })
      ]

  -- The same on the default instance.
  unfoldable pub query_default : Query D → Host P D S → Answer D
  query_default q h = query ops q (ctx true h.default h)

  unfoldable pub command_default : Command D → Host P D S → Answer D × Host P D S
  command_default q h =
      let (r, c) = command ops q (ctx true h.default h) in
      (r, record (globals c h) { default = c.st })

  -- `calloc`'s zeros.
  unfoldable pub fresh : State P D S
  fresh = record {
    requests = record { restart_reqs = 0; process_reqs = 0; callback_reqs = 0; out_ev_dropped = 0 };
    dl = none;
    entry = none;
    factory = false;
    plugin = none;
    params = false;
    latency = false;
    is_open = false;
    entry_inited = false;
    sample_rate = f.of_ℕ 0;
    block = 0;
    chan = 0;
    desc = [];
    cap_desc = 0;
    plugin_name = [];
    cache = [];
    slot_id = λ i. f.of_ℕ 0;
    slot_val = λ i. f.of_ℕ 0;
    sent_val = λ i. f.of_ℕ 0;
    open_index = some 0;
    input = λ ch i. g.to_float (f.of_ℕ 0);
    output = λ ch i. g.to_float (f.of_ℕ 0);
    sink = λ i. g.to_float (f.of_ℕ 0);
    aux_in = λ i. g.to_float (f.of_ℕ 0);
    layout = record {
      n_in_ports = 0;
      n_out_ports = 0;
      n_in_chan = 0;
      n_out_chan = 0;
      n_in_main = 0;
      n_out_main = 0;
      n_in_aux = 0;
      in_bufs = λ i. record { first = 0; channel_count = 0 };
      out_bufs = λ i. record { first = 0; channel_count = 0 };
      in_ptr = λ k. aux;
      out_ptr = λ k. aux;
    };
    in_token = f.of_ℕ 0;
    out_token = f.of_ℕ 0;
    in_n = 0;
    out_n = 0;
    n_process = 0;
    steady = 0;
    ev = [];
  }

  -- The first test of `clap_host_open_instance`.
  unfoldable pub instance_args : D → D → D → Bool
  instance_args rate block_size channels = not (
      not (f.is_finite rate)
      || f.less rate (f.of_ℕ 0)
      || f.same rate (f.of_ℕ 0)
      || not (f.is_finite block_size)
      || f.less block_size (f.of_ℕ 1)
      || f.less (f.of_ℕ max_block) block_size
      || not (f.same (f.floor block_size) block_size)
      || not (f.is_finite channels)
      || f.less channels (f.of_ℕ 1)
      || f.less (f.of_ℕ max_chan) channels
      || not (f.same (f.floor channels) channels))

  -- `memory` says that `calloc` gives a state.
  unfoldable pub open_instance :
      Bundle P → Bool → Bytes → Option Bytes → D → D → D → Host P D S → D × Host P D S
  unfolding fresh instance_args
  open_instance b memory path id rate block_size channels h =
      if not (instance_args rate block_size channels)
      then (f.nan, record h { err = some bad_instance })
      else if leb exact_max h.next_handle
      then (f.nan, record h { err = some handle_space })
      else if not memory
      then (f.nan, record h { err = some out_of_memory })
      else let (opened, c) =
          open_bundle ops b path id rate block_size channels (ctx false fresh h) in
        if not opened then (f.nan, globals c h) else (
          f.of_ℕ (h.next_handle + 1),
          record (globals c h) {
            instances = (h.next_handle + 1, c.st) ∷ h.instances;
            next_handle = h.next_handle + 1;
          },
        )

  unfoldable pub close_instance : D → Host P D S → Host P D S
  close_instance handle h = elim (find_instance handle h.instances) [
    | none ↦ h
    | some (k, s) ↦
        globals (close ops (ctx false s h)) (record h { instances = unlink handle h.instances })
  ]

  -- `clap_host_scan`, `clap_host_open` and `clap_host_close`, on the default instance.
  unfoldable pub scan_default : Bundle P → Bytes → Host P D S → Bool × Host P D S
  scan_default b path h =
      let (r, c) = scan ops b path (ctx true h.default h) in
      (r, record (globals c h) { default = c.st })

  unfoldable pub open_default :
      Bundle P → Bytes → Option Bytes → D → D → D → Host P D S → Bool × Host P D S
  open_default b path id rate block_size channels h =
      let (r, c) = open_bundle ops b path id rate block_size channels (ctx true h.default h) in
      (r, record (globals c h) { default = c.st })

  unfoldable pub close_default : Host P D S → Host P D S
  close_default h =
      let c = close ops (ctx true h.default h) in record (globals c h) { default = c.st }

  -- The rows of a copied block: the source's output in the frames of a block.
  abbrev pub copied_rows : State P D S → State P D S → ℕ → ℕ → S
  copied_rows dst src ch =
      if ltb ch dst.chan then copy dst.block (src.output ch) (dst.input ch) else dst.input ch

  -- The copy from `s` to instance `k`, whose state is `d`.
  unfoldable pub copy_block : ℕ → State P D S → State P D S → D → Host P D S → D × Host P D S
  copy_block k d s dep h =
      if not (out_ok dep (ctx false s h))
      then (f.nan, h)
      else if not (d.block == s.block)
          || not (d.chan == s.chan)
          || not (f.same d.sample_rate s.sample_rate)
      then (f.nan, record h { err = some chain_mismatch })
      else let (token, c) = new_block d.block (copied_rows d s) (ctx false d h) in
        (token, record (globals c h) { instances = put_instance k c.st h.instances })

  unfoldable pub in_copy : D → D → D → Host P D S → D × Host P D S
  unfolding copy_block
  in_copy destination source dep h =
      let (dst, h1) = instance_of destination h in
      let (src, h2) = instance_of source h1 in
      elim dst [
        | none ↦ (f.nan, h2)
        | some (k, d) ↦ elim src [ none ↦ (f.nan, h2) | some (j, s) ↦ copy_block k d s dep h2 ]
      ]
