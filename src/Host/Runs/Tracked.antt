-- ===== src/Host/Runs/Tracked.antt =====
-- Every call of csrc/clap_host.c keeps the reference counts of the modules true.
use audio_plugins_jl.Base.{
  ℕ, ◌+◌, ◌≤◌, ◌≡◌, refl, Bool, true, false, not, ◌||◌, Option, none, some, arith, Option-cases,
  ◌⊎◌, inl, inr, leb, ◌==◌,
}
use audio_plugins_jl.Base.Words.{u32}
use audio_plugins_jl.Base.Cases.{if_all, if_known}
use audio_plugins_jl.Host.Types.{Doubles, Floats, PluginOps, Bundle, Bytes}
use audio_plugins_jl.Host.State.{State}
use audio_plugins_jl.Host.Tokens.{exact_max}
use audio_plugins_jl.Host.Modules.Balance.{held, IsOwn}
use audio_plugins_jl.Host.Open.{open_bundle, close, scan}
use audio_plugins_jl.Host.Open.Balance.{scan-Kept, open_bundle-Kept, close-Balance, close_empty}
use audio_plugins_jl.Host.Input.{new_block}
use audio_plugins_jl.Host.Output.{out_ok}
use audio_plugins_jl.Host.Query.{Query, Command, command}
use audio_plugins_jl.Host.Query.Balance.{new_block-Balance, command-Balance}
use audio_plugins_jl.Host.Instances.{
  Host, fresh, instance_args, find_instance, instance_of, query_for, command_for, command_default,
  open_instance, close_instance, scan_default, open_default, close_default, in_copy, ctx,
  copied_rows, copy_block,
}
use audio_plugins_jl.Host.Instances.Handles.{IsExact}
use audio_plugins_jl.Host.Runs.{
  Step, asks, commands, commands_default, opens, closes, scans, opens_default, closes_default,
  copies, Reach, here, next,
}
use audio_plugins_jl.Host.Runs.Handles.{IsNumbered, Reach-Keeps, Step-Keeps}
use audio_plugins_jl.Host.Runs.Users.{
  IsTracked, instances_held_cons, default-IsOwn, default-IsTracked, room, found-IsOwn,
  put-IsTracked, unlink-IsTracked, same-IsTracked,
}
use audio_plugins_jl.Host.Runs.Calls.{
  command_for_missing, command_for_found, close_instance_missing, close_instance_found,
  in_copy_found,
}

module _ {P D S : Type 0} ⦃f : Doubles D⦄ ⦃g : Floats D S⦄ (ops : PluginOps P D S) where
  -- The answer of a call, and the host after it.
  record Tracks (r : D × Host P D S) : Type 0 where
    tracked : IsTracked r.1

  tracks : (x : D) (t : Host P D S) → IsTracked t → Tracks (x, t)
  tracks x t v = record { tracked = v }

  query_for-IsTracked :
      (handle : D) (q : Query D) (h : Host P D S)
      → IsTracked h
      → IsTracked (query_for ops handle q h).1
  unfolding query_for instance_of
  query_for-IsTracked handle q h v =
      same-IsTracked h _ v (ground arith) (ground arith) (ground arith)

  command_for-IsTracked :
      (handle : D) (q : Command D) (h : Host P D S)
      → IsNumbered h
      → IsTracked h
      → IsTracked (command_for ops handle q h).1
  command_for-IsTracked handle q h n v = elim (Option-cases (find_instance handle h.instances)) [
    | inl missing ↦
        rw (command_for_missing ops handle q h missing) (same-IsTracked h _ v refl refl refl)
    | inr (x, e) ↦ rw (command_for_found ops handle q h x.0 x.1 e) (
        put-IsTracked h _ (h.next_handle + 1) handle x (command ops q (ctx false x.1 h)).1 n.below e
          (command-Balance ops q (ctx false x.1 h)) v refl refl refl)
  ]

  close_instance-IsTracked :
      (handle : D) (h : Host P D S) → IsTracked h → IsTracked (close_instance ops handle h)
  close_instance-IsTracked handle h v = elim (Option-cases (find_instance handle h.instances)) [
    | inl missing ↦ rw (close_instance_missing ops handle h missing) v
    | inr (x, e) ↦
        let c = ctx false x.1 h in
        rw (close_instance_found ops handle h x.0 x.1 e) (
          unlink-IsTracked h _ handle x (close ops c) e
            (close-Balance ops c (found-IsOwn h handle x v e)) (λ d. close_empty ops d c) v refl
            refl refl)
  ]

  fresh_idle : (e : ℕ) → held e (fresh ops) ≡ 0
  unfolding fresh
  fresh_idle e = refl

  open_instance-IsTracked :
      (b : Bundle P) (memory : Bool) (path : Bytes) (id : Option Bytes) (rate size chans : D)
      (h : Host P D S)
      → IsNumbered h
      → h.next_handle + 4 ≤ u32
      → IsTracked h
      → Tracks (open_instance ops b memory path id rate size chans h)
  unfolding open_instance
  open_instance-IsTracked b memory path id rate size chans h n few v =
      let start = ctx false (fresh ops) h in
      let own : IsOwn start = record {
        live = v.live;
        counted = λ e. omega (arith, fresh_idle e);
      } in
      let r = open_bundle ops b path id rate size chans start in
      let x =
        open_bundle-Kept ops b path id rate size chans start own
          (room h false (fresh ops) v n.below few) in
      if_all Tracks (not (instance_args ops rate size chans))
        (tracks _ _ (same-IsTracked h _ v refl refl refl))
        (if_all Tracks (leb exact_max h.next_handle)
          (tracks _ _ (same-IsTracked h _ v refl refl refl))
          (if_all Tracks (not memory) (tracks _ _ (same-IsTracked h _ v refl refl refl)) (
            if_known Tracks (not r.0)
              (λ failed. tracks _ _ (record {
                live = x.kept.lives v.live;
                counted = λ e. omega (
                  arith,
                  x.kept.sum e,
                  v.counted e,
                  fresh_idle e,
                  x.freed (ground (arith, failed)) e,
                );
              }))
              (λ opened. tracks _ _ (record {
                live = x.kept.lives v.live;
                counted = λ e. omega (
                  arith,
                  x.kept.sum e,
                  v.counted e,
                  fresh_idle e,
                  instances_held_cons e (h.next_handle + 1) r.1.st h.instances,
                );
              })))))

  copy_block-IsTracked :
      (k : ℕ) (d s : State P D S) (dst dep : D) (h : Host P D S)
      → IsNumbered h
      → find_instance dst h.instances ≡ some (k, d)
      → IsTracked h
      → Tracks (copy_block ops k d s dep h)
  unfolding copy_block
  copy_block-IsTracked k d s dst dep h n e v =
      let c = new_block d.block (copied_rows ops d s) (ctx false d h) in
      if_all Tracks (not (out_ok dep (ctx false s h))) (tracks _ _ v) (
        if_all Tracks
          (not (d.block == s.block)
            || not (d.chan == s.chan)
            || not (f.same d.sample_rate s.sample_rate))
          (tracks _ _ (same-IsTracked h _ v refl refl refl))
          (tracks _ _ (
            put-IsTracked h _ (h.next_handle + 1) dst (k, d) c.1 n.below e
              (new_block-Balance d.block (copied_rows ops d s) (ctx false d h)) v refl refl refl)))

  in_copy_unknown :
      (dst src dep : D) (h : Host P D S)
      → (find_instance dst h.instances ≡ none) ⊎ (find_instance src h.instances ≡ none)
      → IsTracked h
      → IsTracked (in_copy ops dst src dep h).1
  unfolding in_copy instance_of
  in_copy_unknown dst src dep h (inl e) v =
      same-IsTracked h _ v (ground (arith, e)) (ground (arith, e)) (ground (arith, e))
  in_copy_unknown dst src dep h (inr e) v =
      same-IsTracked h _ v (ground (arith, e)) (ground (arith, e)) (ground (arith, e))

  in_copy-IsTracked :
      (dst src dep : D) (h : Host P D S)
      → IsNumbered h
      → IsTracked h
      → IsTracked (in_copy ops dst src dep h).1
  in_copy-IsTracked dst src dep h n v = elim (Option-cases (find_instance dst h.instances)) [
    | inl e ↦ in_copy_unknown dst src dep h (inl e) v
    | inr (x, e) ↦ elim (Option-cases (find_instance src h.instances)) [
      | inl e' ↦ in_copy_unknown dst src dep h (inr e') v
      | inr (y, e') ↦
          rw (in_copy_found ops dst src dep h x y e e')
            (copy_block-IsTracked x.0 x.1 y.1 dst dep h n e v).tracked
    ]
  ]

  Step-IsTracked :
      {h t : Host P D S}
      → IsNumbered h
      → h.next_handle + 4 ≤ u32
      → IsTracked h
      → Step ops h t
      → IsTracked t
  unfolding command_default scan_default open_default close_default
  Step-IsTracked {h} n few v (asks handle q) = query_for-IsTracked handle q h v
  Step-IsTracked {h} n few v (commands handle q) = command_for-IsTracked handle q h n v
  Step-IsTracked {h} n few v (commands_default q) =
      default-IsTracked h _ (command ops q (ctx true h.default h)).1
        (command-Balance ops q (ctx true h.default h)) v refl refl refl
  Step-IsTracked {h} n few v (opens b memory path id rate size chans) =
      (open_instance-IsTracked b memory path id rate size chans h n few v).tracked
  Step-IsTracked {h} n few v (closes handle) = close_instance-IsTracked handle h v
  Step-IsTracked {h} n few v (scans b path) =
      let c = ctx true h.default h in
      default-IsTracked h _ (scan ops b path c).1
        (scan-Kept ops b path c (default-IsOwn h v) (room h true h.default v n.below few)).kept v
        refl refl refl
  Step-IsTracked {h} n few v (opens_default b path id rate size chans) =
      let c = ctx true h.default h in
      default-IsTracked h _ (open_bundle ops b path id rate size chans c).1
        (open_bundle-Kept ops b path id rate size chans c (default-IsOwn h v)
          (room h true h.default v n.below few)).kept
        v refl refl refl
  Step-IsTracked {h} n few v closes_default =
      let c = ctx true h.default h in
      default-IsTracked h _ (close ops c) (close-Balance ops c (default-IsOwn h v)) v refl refl refl
  Step-IsTracked {h} n few v (copies dst src dep) = in_copy-IsTracked dst src dep h n v

  -- Where whole numbers are exact as doubles and at most 2^32 - 4 handles have been given: if at
  -- first the handles are numbered, every module stands once, and its count is the number of states
  -- that use its entry, then so it is after any sequence of calls, failed opens and scans included.
  pub Reach-IsTracked :
      {h t : Host P D S}
      → IsExact f
      → Reach ops h t
      → IsNumbered h
      → t.next_handle + 4 ≤ u32
      → IsTracked h
      → IsTracked t
  Reach-IsTracked exact here n few v = v
  Reach-IsTracked exact (next {t} m step) n few v =
      let before = Reach-Keeps ops exact m in
      let now = Step-Keeps ops exact step in
      let less : t.next_handle + 4 ≤ u32 = omega (arith, few, now.grows) in
      Step-IsTracked (before.numbered n) less (Reach-IsTracked exact m n less v) step
