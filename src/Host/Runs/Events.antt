-- ===== src/Host/Runs/Events.antt =====
-- Every call of csrc/clap_host.c keeps the event array of each instance within EV_MAX.
use audio_plugins_jl.Base.{
  ℕ, ◌≤◌, ◌≡◌, subst, Bool, false, true, not, ◌||◌, Option, some, List, [], ◌∷◌, length, Bool-cases,
  Option-cases, inl, inr, arith, leb, ◌==◌,
}
use audio_plugins_jl.Base.Cases.{if_all}
use audio_plugins_jl.Base.Loops.{for_range}
use audio_plugins_jl.Host.Types.{
  ev_max, param_slots, Doubles, Floats, PluginOps, Bundle, Bytes, invalid_handle,
}
use audio_plugins_jl.Host.State.{State}
use audio_plugins_jl.Host.Tokens.{exact_max}
use audio_plugins_jl.Host.Process.{drive_slot, clear_aux, process_args}
use audio_plugins_jl.Host.Open.{open_bundle, close, scan}
use audio_plugins_jl.Host.Open.Events.{open_bundle-Empty, scan-Empty, close_empty_ev}
use audio_plugins_jl.Host.Input.{new_block}
use audio_plugins_jl.Host.Output.{out_ok}
use audio_plugins_jl.Host.Query.{Query, Command}
use audio_plugins_jl.Host.Query.Queue.{Fits, command-Fits, new_block_empty, process_args-bound}
use audio_plugins_jl.Host.Instances.{
  Host, fresh, instance_args, find_instance, put_instance, unlink, query_for, command_for,
  command_default, open_instance, close_instance, scan_default, open_default, close_default,
  in_copy, ctx, copied_rows, copy_block,
}
use audio_plugins_jl.Host.Runs.{
  Step, asks, commands, commands_default, opens, closes, scans, opens_default, closes_default,
  copies, Reach, here, next,
}
use audio_plugins_jl.Host.Runs.Calls.{
  query_for_missing, query_for_found, command_for_missing, command_for_found,
  close_instance_missing, close_instance_found, in_copy_found, in_copy_source, in_copy_destination,
}

module _ {P D S : Type 0} where
  abbrev pub AllFit : List (ℕ × State P D S) → Type 0
  AllFit [] = Unit
  AllFit ((k, s) ∷ l) = Fits s × AllFit l

  -- The event array of every instance, the default one among them, holds at most EV_MAX events.
  pub record HasFits (h : Host P D S) : Type 0 where
    pub default_fits : Fits h.default
    pub all_fit : AllFit h.instances

  empty-Fits : (s : State P D S) → s.ev ≡ [] → Fits s
  empty-Fits s e = rw e (omega arith)

  put_instance-AllFit :
      (k : ℕ) (s : State P D S) (l : List (ℕ × State P D S))
      → Fits s
      → AllFit l
      → AllFit (put_instance k s l)
  unfolding put_instance
  put_instance-AllFit k s [] v w = tt
  put_instance-AllFit k s ((j, t) ∷ l) v w =
      if_all AllFit (j == k) (v, w.1) (w.0, put_instance-AllFit k s l v w.1)

  module _ ⦃f : Doubles D⦄ where
    unlink-AllFit : (handle : D) (l : List (ℕ × State P D S)) → AllFit l → AllFit (unlink handle l)
    unfolding unlink
    unlink-AllFit handle [] w = tt
    unlink-AllFit handle ((k, s) ∷ l) w =
        if_all AllFit (f.same (f.of_ℕ k) handle) w.1 (w.0, unlink-AllFit handle l w.1)

    found-Fits :
        (handle : D) (l : List (ℕ × State P D S)) (x : ℕ × State P D S)
        → AllFit l
        → find_instance handle l ≡ some x
        → Fits x.1
    unfolding find_instance
    found-Fits handle [] x w e = ground (arith, e)
    found-Fits handle ((k, s) ∷ l) x w e = elim (Bool-cases (f.same (f.of_ℕ k) handle)) [
      | inl hit ↦
          let same : (k, s) ≡ x = ground (arith, hit, e) in
          subst (λ (y : ℕ × State P D S). Fits y.1) same w.0
      | inr miss ↦ found-Fits handle l x w.1 (ground (arith, miss, e))
    ]

  -- The host after a call that answers.
  record FitsAfter {A : Type 0} (r : A × Host P D S) : Type 0 where
    fits : HasFits r.1

module _ {P D S : Type 0} ⦃f : Doubles D⦄ ⦃g : Floats D S⦄ (ops : PluginOps P D S) where
  query_for-HasFits :
      (handle : D) (q : Query D) (h : Host P D S) → HasFits h → HasFits (query_for ops handle q h).1
  query_for-HasFits handle q h v = elim (Option-cases (find_instance handle h.instances)) [
    | inl e ↦
        rw (query_for_missing ops handle q h e)
          (record { default_fits = v.default_fits; all_fit = v.all_fit })
    | inr (x, e) ↦ rw (query_for_found ops handle q h x e) v
  ]

  command_for-HasFits :
      (handle : D) (q : Command D) (h : Host P D S)
      → HasFits h
      → HasFits (command_for ops handle q h).1
  command_for-HasFits handle q h v = elim (Option-cases (find_instance handle h.instances)) [
    | inl e ↦
        rw (command_for_missing ops handle q h e)
          (record { default_fits = v.default_fits; all_fit = v.all_fit })
    | inr (x, e) ↦ rw (command_for_found ops handle q h x.0 x.1 e) (record {
      default_fits = v.default_fits;
      all_fit =
          put_instance-AllFit x.0 _ h.instances
            (command-Fits ops q (ctx false x.1 h) (found-Fits handle h.instances x v.all_fit e))
            v.all_fit;
    })
  ]

  close_instance-HasFits :
      (handle : D) (h : Host P D S) → HasFits h → HasFits (close_instance ops handle h)
  close_instance-HasFits handle h v = elim (Option-cases (find_instance handle h.instances)) [
    | inl e ↦ rw (close_instance_missing ops handle h e) v
    | inr (x, e) ↦ rw (close_instance_found ops handle h x.0 x.1 e) (record {
      default_fits = v.default_fits;
      all_fit = unlink-AllFit handle h.instances v.all_fit;
    })
  ]

  open_instance-HasFits :
      (b : Bundle P) (memory : Bool) (path : Bytes) (id : Option Bytes) (rate size chans : D)
      (h : Host P D S)
      → HasFits h
      → FitsAfter (open_instance ops b memory path id rate size chans h)
  unfolding open_instance
  open_instance-HasFits b memory path id rate size chans h v =
      let r = open_bundle ops b path id rate size chans (ctx false (fresh ops) h) in
      let opened =
        empty-Fits r.1.st
          (open_bundle-Empty ops b path id rate size chans (ctx false (fresh ops) h)).empty in
      if_all FitsAfter (not (instance_args ops rate size chans))
        (record { fits = record { default_fits = v.default_fits; all_fit = v.all_fit } })
        (if_all FitsAfter (leb exact_max h.next_handle)
          (record { fits = record { default_fits = v.default_fits; all_fit = v.all_fit } })
          (if_all FitsAfter (not memory)
            (record { fits = record { default_fits = v.default_fits; all_fit = v.all_fit } })
            (if_all FitsAfter (not r.0)
              (record { fits = record { default_fits = v.default_fits; all_fit = v.all_fit } })
              (record {
                fits = record { default_fits = v.default_fits; all_fit = (opened, v.all_fit) };
              }))))

  copy_block-HasFits :
      (k : ℕ) (d s : State P D S) (dep : D) (h : Host P D S)
      → HasFits h
      → FitsAfter (copy_block ops k d s dep h)
  unfolding copy_block
  copy_block-HasFits k d s dep h v =
      let c = new_block d.block (copied_rows ops d s) (ctx false d h) in
      if_all FitsAfter (not (out_ok dep (ctx false s h))) (record { fits = v })
        (if_all FitsAfter
          (not (d.block == s.block)
            || not (d.chan == s.chan)
            || not (f.same d.sample_rate s.sample_rate))
          (record { fits = record { default_fits = v.default_fits; all_fit = v.all_fit } })
          (record {
            fits = record {
              default_fits = v.default_fits;
              all_fit =
                  put_instance-AllFit k c.1.st h.instances
                    (empty-Fits c.1.st
                      (new_block_empty d.block (copied_rows ops d s) (ctx false d h)))
                    v.all_fit;
            };
          }))

  in_copy-HasFits :
      (dst src dep : D) (h : Host P D S) → HasFits h → HasFits (in_copy ops dst src dep h).1
  in_copy-HasFits dst src dep h v =
      let told : HasFits (record h { err = some invalid_handle }) = record {
        default_fits = v.default_fits;
        all_fit = v.all_fit;
      } in
      elim (Option-cases (find_instance dst h.instances)) [
        | inl e ↦ rw (in_copy_destination ops dst src dep h e) told
        | inr (x, e) ↦ elim (Option-cases (find_instance src h.instances)) [
          | inl e' ↦ rw (in_copy_source ops dst src dep h e') told
          | inr (y, e') ↦
              rw (in_copy_found ops dst src dep h x y e e')
                (copy_block-HasFits x.0 x.1 y.1 dep h v).fits
        ]
      ]

  Step-HasFits : {h t : Host P D S} → HasFits h → Step ops h t → HasFits t
  unfolding command_default scan_default open_default close_default
  Step-HasFits {h} v (asks handle q) = query_for-HasFits handle q h v
  Step-HasFits {h} v (commands handle q) = command_for-HasFits handle q h v
  Step-HasFits {h} v (commands_default q) = record {
    default_fits = command-Fits ops q (ctx true h.default h) v.default_fits;
    all_fit = v.all_fit;
  }
  Step-HasFits {h} v (opens b memory path id rate size chans) =
      (open_instance-HasFits b memory path id rate size chans h v).fits
  Step-HasFits {h} v (closes handle) = close_instance-HasFits handle h v
  Step-HasFits {h} v (scans b path) = record {
    default_fits =
        empty-Fits (scan ops b path (ctx true h.default h)).1.st
          (scan-Empty ops b path (ctx true h.default h)).empty;
    all_fit = v.all_fit;
  }
  Step-HasFits {h} v (opens_default b path id rate size chans) = record {
    default_fits =
        empty-Fits (open_bundle ops b path id rate size chans (ctx true h.default h)).1.st
          (open_bundle-Empty ops b path id rate size chans (ctx true h.default h)).empty;
    all_fit = v.all_fit;
  }
  Step-HasFits {h} v closes_default = record {
    default_fits =
        empty-Fits (close ops (ctx true h.default h)).st
          (close_empty_ev ops (ctx true h.default h));
    all_fit = v.all_fit;
  }
  Step-HasFits {h} v (copies dst src dep) = in_copy-HasFits dst src dep h v

  Reach-HasFits : {h t : Host P D S} → HasFits h → Reach ops h t → HasFits t
  Reach-HasFits v here = v
  Reach-HasFits v (next m step) = Step-HasFits (Reach-HasFits v m) step

  -- The plugin of the state `s` is handed at most EV_MAX events, whatever the four slots add.
  abbrev pub Hands : (ids vals : ℕ → D) → State P D S → Type 0
  Hands ids vals s =
      length (process_args (clear_aux (for_range param_slots 0 (drive_slot ids vals) s))).events
      ≤ ev_max

  abbrev pub AllHand : (ids vals : ℕ → D) → List (ℕ × State P D S) → Type 0
  AllHand ids vals [] = Unit
  AllHand ids vals ((k, s) ∷ l) = Hands ids vals s × AllHand ids vals l

  AllFit-AllHand : (ids vals : ℕ → D) (l : List (ℕ × State P D S)) → AllFit l → AllHand ids vals l
  AllFit-AllHand ids vals [] w = tt
  AllFit-AllHand ids vals ((k, s) ∷ l) w =
      (process_args-bound ops ids vals s w.0, AllFit-AllHand ids vals l w.1)

  -- From a host where no event array holds more than EV_MAX events, after any sequence of calls,
  -- opens, closes and copies between instances among them, none does; and `clap_process` on the
  -- default instance or any other, whatever its four slots add, hands the plugin at most EV_MAX.
  pub Reach-events :
      {h t : Host P D S}
      → HasFits h
      → Reach ops h t
      → (ids vals : ℕ → D) → HasFits t × Hands ids vals t.default × AllHand ids vals t.instances
  Reach-events {t = t} v m ids vals =
      let w = Reach-HasFits v m in
      (
        w,
        process_args-bound ops ids vals t.default w.default_fits,
        AllFit-AllHand ids vals t.instances w.all_fit,
      )
