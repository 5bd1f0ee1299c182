-- ===== src/Host/Query/Balance.antt =====
-- The calls on one instance of csrc/clap_host.c leave the modules and the state's entry alone.
use audio_plugins_jl.Base.{ℕ, ◌+◌, ◌≡◌, refl, ◌∙◌, Bool, true, false, not, ◌||◌, Option, arith}
use audio_plugins_jl.Base.Loops.{for_range, for_range_inv}
use audio_plugins_jl.Base.Cases.{if_all, option_all}
use audio_plugins_jl.Host.Types.{
  param_slots, ℤ, Doubles, Floats, Target, in_row, out_row, aux, sink, PluginOps,
}
use audio_plugins_jl.Host.State.{State, Ctx}
use audio_plugins_jl.Host.Tokens.{next_token, token_matches}
use audio_plugins_jl.Host.Modules.Balance.{Balance, Balance-refl, Balance-trans, same_entry}
use audio_plugins_jl.Host.Input.{new_block, in_fill, in_tone}
use audio_plugins_jl.Host.Params.{set_param, send_param, expect}
use audio_plugins_jl.Host.Process.{
  drive_slot, write_target, write_outputs, clear_aux, fill_channel, fill_outputs, call_plugin,
  finish, process,
}
use audio_plugins_jl.Host.Query.{Command, fill, tone, run, set, expecting, reset_counters, command}

module _ {P D S : Type 0} where
  abbrev Alike : State P D S → State P D S → Type 0
  Alike s t = (t.entry ≡ s.entry) × (t.entry_inited ≡ s.entry_inited)

  loop-Alike :
      (body : ℕ → State P D S → State P D S) (n i : ℕ) (s : State P D S)
      → ((k : ℕ) (t : State P D S) → Alike t (body k t))
      → Alike s (for_range n i body s)
  loop-Alike body n i s each =
      for_range_inv (λ k t. Alike s t) body n i (i + n) s
        (λ k t lo hi x. ((each k t).0 ∙ x.0, (each k t).1 ∙ x.1)) refl (refl, refl)

module _ {P D S : Type 0} ⦃f : Doubles D⦄ where
  drive_slot-Alike :
      (ids vals : ℕ → D) (i : ℕ) (s : State P D S) → Alike s (drive_slot ids vals i s)
  unfolding drive_slot
  drive_slot-Alike ids vals i s = (ground arith, ground arith)

  write_target-Alike :
      (block : ℕ) (v : ℕ → S) (p : Target) (s : State P D S) → Alike s (write_target block v p s)
  unfolding write_target
  write_target-Alike block v (in_row c) s = (refl, refl)
  write_target-Alike block v (out_row c) s = (refl, refl)
  write_target-Alike block v aux s = (refl, refl)
  write_target-Alike block v sink s = (refl, refl)

  write_outputs-Alike : (v : ℕ → ℕ → S) (s : State P D S) → Alike s (write_outputs v s)
  unfolding write_outputs
  write_outputs-Alike v s =
      loop-Alike (λ k t. write_target s.block (v k) (s.layout.out_ptr k) t) s.layout.n_out_chan 0 s
        (λ k t. write_target-Alike s.block (v k) (s.layout.out_ptr k) t)

  pub new_block-Balance :
      (n : ℕ) (rows : ℕ → ℕ → S) (c : Ctx P D S) → Balance c (new_block n rows c).1
  unfolding new_block next_token
  new_block-Balance n rows c = same_entry c _ (ground arith) (ground arith) (ground arith)

  set_param-Balance : (dep id value : D) (c : Ctx P D S) → Balance c (set_param dep id value c).1
  unfolding set_param send_param
  set_param-Balance dep id value c = same_entry c _ (ground arith) (ground arith) (ground arith)

  expect-Balance : (dep index : D) (c : Ctx P D S) → Balance c (expect dep index c).1
  unfolding expect
  expect-Balance dep index c = same_entry c _ (ground arith) (ground arith) (ground arith)

module _ {P D S : Type 0} ⦃f : Doubles D⦄ ⦃g : Floats D S⦄ (ops : PluginOps P D S) where
  in_fill-Balance :
      (samples : Option (ℕ → D)) (n chans : ℤ) (c : Ctx P D S)
      → Balance c (in_fill samples n chans c).1
  unfolding in_fill new_block next_token
  in_fill-Balance samples n chans c = same_entry c _ (ground arith) (ground arith) (ground arith)

  in_tone-Balance : (t w freq amp : D) (c : Ctx P D S) → Balance c (in_tone t w freq amp c).1
  unfolding in_tone new_block next_token
  in_tone-Balance t w freq amp c = same_entry c _ (ground arith) (ground arith) (ground arith)

  fill_outputs-Alike : (s : State P D S) → Alike s (fill_outputs s)
  unfolding fill_outputs fill_channel
  fill_outputs-Alike s = loop-Alike fill_channel _ _ s (λ k t. (ground arith, ground arith))

  call_plugin-Alike : (p : P) (s : State P D S) → Alike s (call_plugin ops p s).1
  unfolding call_plugin
  call_plugin-Alike p s = write_outputs-Alike _ s

  finish-Balance : (b : Bool) (c : Ctx P D S) → Balance c (finish b c).1
  unfolding finish next_token
  finish-Balance true c = same_entry c _ refl refl refl
  finish-Balance false c =
      let x = fill_outputs-Alike c.st in
      same_entry c _ (ground arith) (ground (arith, x.0)) (ground (arith, x.1))

  clear_aux-Alike : (s : State P D S) → Alike s (clear_aux s)
  unfolding clear_aux
  clear_aux-Alike s = (ground arith, ground arith)

  -- What a call on the state `c` answers and leaves.
  record Serves (c : Ctx P D S) (r : D × Ctx P D S) : Type 0 where
    balance : Balance c r.1

  serves : (c t : Ctx P D S) (x : D) → Balance c t → Serves c (x, t)
  serves c t x b = record { balance = b }

  finish-Serves : (c : Ctx P D S) (b : Bool) (t : Ctx P D S) → Balance c t → Serves c (finish b t)
  finish-Serves c b t x = record { balance = Balance-trans x (finish-Balance b t) }

  -- The state after the plugin's call, from the slots on.
  driven-Alike :
      (ids vals : ℕ → D) (p : P) (s : State P D S)
      → Alike s (call_plugin ops p (clear_aux (for_range param_slots 0 (drive_slot ids vals) s))).1
  driven-Alike ids vals p s =
      let a =
        loop-Alike (drive_slot ids vals) param_slots 0 s (λ k t. drive_slot-Alike ids vals k t) in
      let b = clear_aux-Alike (for_range param_slots 0 (drive_slot ids vals) s) in
      let c = call_plugin-Alike p (clear_aux (for_range param_slots 0 (drive_slot ids vals) s)) in
      (c.0 ∙ b.0 ∙ a.0, c.1 ∙ b.1 ∙ a.1)

  process-Balance :
      (dep : D) (ids vals : ℕ → D) (c : Ctx P D S) → Balance c (process ops dep ids vals c).1
  unfolding process
  process-Balance dep ids vals c =
      let T : (D × Ctx P D S) → Type 0 = λ r. Serves c r in
      (if_all T (not c.st.is_open) (serves c _ _ (same_entry c _ refl refl refl)) (
        if_all T (not (token_matches c.legacy dep c.st.in_token) || f.same c.st.in_token (f.of_ℕ 0))
          (serves c _ _ (Balance-refl c))
          (option_all T c.st.plugin (serves c _ _ (Balance-refl c)) (λ p.
            let x = driven-Alike ids vals p c.st in
            let after =
              call_plugin ops p (clear_aux (for_range param_slots 0 (drive_slot ids vals) c.st)) in
            finish-Serves c after.0 (record c { st = after.1 })
              (same_entry c (record c { st = after.1 }) refl x.0 x.1))))).balance

  pub command-Balance : (q : Command D) (c : Ctx P D S) → Balance c (command ops q c).1
  unfolding command
  command-Balance (fill samples n chans) c = in_fill-Balance samples n chans c
  command-Balance (tone t w freq amp) c = in_tone-Balance t w freq amp c
  command-Balance (run dep ids vals) c = process-Balance dep ids vals c
  command-Balance (set dep id value) c = set_param-Balance dep id value c
  command-Balance (expecting dep index) c = expect-Balance dep index c
  command-Balance reset_counters c = same_entry c _ refl refl refl
