-- ===== src/Host/Query/Queue.antt =====
-- The event array of csrc/clap_host.c has EV_MAX places, and no call on one instance fills more.
use audio_plugins_jl.Base.{
  ℕ, ◌≤◌, ◌≡◌, refl, ◌∙◌, Bool, true, false, not, ◌||◌, Option, some, List, [], ◌∷◌, length,
  length-append, arith, Option-cases, inl, inr,
}
use audio_plugins_jl.Base.Loops.{for_range, for_range_inv}
use audio_plugins_jl.Base.Cases.{if_all, option_all}
use audio_plugins_jl.Host.Types.{ev_max, param_slots, ℤ, Doubles, Floats, PluginOps}
use audio_plugins_jl.Host.State.{State, Ctx}
use audio_plugins_jl.Host.Tokens.{next_token, token_matches}
use audio_plugins_jl.Host.Input.{new_block, in_fill, in_tone}
use audio_plugins_jl.Host.Params.{queue_param, set_param, send_param, param_pos, expect}
use audio_plugins_jl.Host.Process.{
  drive_slot, clear_aux, process_args, call_plugin, finish, fill_channel, fill_outputs, process,
}
use audio_plugins_jl.Host.Query.{Command, fill, tone, run, set, expecting, reset_counters, command}

module _ {P D S : Type 0} where
  abbrev pub Fits : State P D S → Type 0
  Fits s = length s.ev ≤ ev_max

module _ {D : Type 0} ⦃f : Doubles D⦄ where
  queue_param_bound :
      (id val : D) (ev ev' : List (ℕ × D)) → queue_param id val ev ≡ some ev' → length ev' ≤ ev_max
  unfolding queue_param
  queue_param_bound id val ev ev' e = ground (arith, e, length-append ev ((f.to_u32 id, val) ∷ []))

module _ {P D S : Type 0} ⦃f : Doubles D⦄ where
  drive_slot-Fits :
      (ids vals : ℕ → D) (i : ℕ) (s : State P D S) → Fits s → Fits (drive_slot ids vals i s)
  unfolding drive_slot
  drive_slot-Fits ids vals i s v = elim (Option-cases (queue_param (ids i) (vals i) s.ev)) [
    | inl full ↦ ground (arith, full, v)
    | inr (ev, room) ↦ ground (arith, room, v, queue_param_bound (ids i) (vals i) s.ev ev room)
  ]

  driven-Fits :
      (ids vals : ℕ → D) (s : State P D S)
      → Fits s
      → Fits (for_range param_slots 0 (drive_slot ids vals) s)
  driven-Fits ids vals s v =
      for_range_inv (λ k t. Fits t) (drive_slot ids vals) param_slots 0 param_slots s
        (λ k t lo hi w. drive_slot-Fits ids vals k t w) refl v

  send_param-Fits :
      (k : ℕ) (dep id value : D) (c : Ctx P D S)
      → Fits c.st
      → Fits (send_param k dep id value c).1.st
  unfolding send_param
  send_param-Fits k dep id value c v = elim (Option-cases (queue_param id value c.st.ev)) [
    | inl full ↦ ground (arith, full, v)
    | inr (ev, room) ↦ ground (arith, room, v, queue_param_bound id value c.st.ev ev room)
  ]

  set_param-Fits :
      (dep id value : D) (c : Ctx P D S) → Fits c.st → Fits (set_param dep id value c).1.st
  unfolding set_param
  set_param-Fits dep id value c v = elim (Option-cases (param_pos id c.st.cache 0)) [
    | inl missing ↦ ground (arith, missing, v)
    | inr (k, there) ↦ ground (arith, there, v, send_param-Fits k dep id value c v)
  ]

  pub new_block_empty :
      (n : ℕ) (rows : ℕ → ℕ → S) (c : Ctx P D S) → (new_block n rows c).1.st.ev ≡ []
  unfolding new_block
  new_block_empty n rows c = refl

  expect-Fits : (dep index : D) (c : Ctx P D S) → Fits c.st → Fits (expect dep index c).1.st
  unfolding expect
  expect-Fits dep index c v = ground (arith, v)

module _ {P D S : Type 0} ⦃f : Doubles D⦄ ⦃g : Floats D S⦄ (ops : PluginOps P D S) where
  fill_outputs_ev : (s : State P D S) → (fill_outputs s).ev ≡ s.ev
  unfolding fill_outputs fill_channel
  fill_outputs_ev s =
      for_range_inv (λ k t. t.ev ≡ s.ev) fill_channel _ _ _ s
        (λ k t lo hi e. let same : (fill_channel k t).ev ≡ t.ev = ground arith in same ∙ e) refl
        refl

  clear_aux_ev : (s : State P D S) → (clear_aux s).ev ≡ s.ev
  unfolding clear_aux
  clear_aux_ev s = ground arith

  finish_ev : (b : Bool) (c : Ctx P D S) → c.st.ev ≡ [] → (finish b c).1.st.ev ≡ []
  unfolding finish next_token
  finish_ev true c e = e
  finish_ev false c e = ground (arith, fill_outputs_ev c.st, e)

  call_plugin_ev : (p : P) (s : State P D S) → (call_plugin ops p s).1.ev ≡ []
  unfolding call_plugin
  call_plugin_ev p s = refl

  record FitsAfter (r : D × Ctx P D S) : Type 0 where
    fits : Fits r.1.st

  process-Fits :
      (dep : D) (ids vals : ℕ → D) (c : Ctx P D S)
      → Fits c.st
      → FitsAfter (process ops dep ids vals c)
  unfolding process
  process-Fits dep ids vals c v =
      if_all FitsAfter (not c.st.is_open) (record { fits = v })
        (if_all FitsAfter
          (not (token_matches c.legacy dep c.st.in_token) || f.same c.st.in_token (f.of_ℕ 0))
          (record { fits = v })
          (option_all FitsAfter c.st.plugin (record { fits = v })
            (λ p.
              let after =
                call_plugin ops p
                  (clear_aux (for_range param_slots 0 (drive_slot ids vals) c.st)) in
              let e = finish_ev after.0 (record c { st = after.1 }) (call_plugin_ev p _) in
              record { fits = rw e (omega arith) })))

  in_fill-Fits :
      (samples : Option (ℕ → D)) (n chans : ℤ) (c : Ctx P D S)
      → Fits c.st
      → Fits (in_fill samples n chans c).1.st
  unfolding in_fill new_block
  in_fill-Fits samples n chans c v = ground (arith, v)

  in_tone-Fits : (t w freq amp : D) (c : Ctx P D S) → Fits c.st → Fits (in_tone t w freq amp c).1.st
  unfolding in_tone new_block
  in_tone-Fits t w freq amp c v = ground (arith, v)

  pub command-Fits : (q : Command D) (c : Ctx P D S) → Fits c.st → Fits (command ops q c).1.st
  unfolding command
  command-Fits (fill samples n chans) c v = in_fill-Fits samples n chans c v
  command-Fits (tone t w freq amp) c v = in_tone-Fits t w freq amp c v
  command-Fits (run dep ids vals) c v = (process-Fits dep ids vals c v).fits
  command-Fits (set dep id value) c v = set_param-Fits dep id value c v
  command-Fits (expecting dep index) c v = expect-Fits dep index c v
  command-Fits reset_counters c v = v

  -- Whatever the four slots of `clap_process` add, the plugin is handed at most EV_MAX events.
  pub process_args-bound :
      (ids vals : ℕ → D) (s : State P D S)
      → Fits s
      → length (process_args (clear_aux (for_range param_slots 0 (drive_slot ids vals) s))).events
        ≤ ev_max
  unfolding process_args
  process_args-bound ids vals s v =
      let t = for_range param_slots 0 (drive_slot ids vals) s in
      rw (clear_aux_ev t) (driven-Fits ids vals s v)
