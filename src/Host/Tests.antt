-- ===== src/Host/Tests.antt =====
-- The theorems on csrc/clap_host.c at work on two instances of a small plugin.
mod Rig
use audio_plugins_jl.Base.{
  ℕ, ◌≤◌, length, suc, ◌+◌, ◌≡◌, refl, Bool, true, false, List, [], ◌∷◌, Option, none, some, arith,
  ◌⊎◌, ◌==◌, if◌then◌else◌,
}
use audio_plugins_jl.Base.Loops.{for_range}
use audio_plugins_jl.Host.Types.{negsuc, ev_max, param_slots, pos, Doubles, invalid_handle, Layout}
use audio_plugins_jl.Host.State.{State, Module, Ctx}
use audio_plugins_jl.Host.Tokens.{next_token, token_matches}
use audio_plugins_jl.Host.Modules.Counts.{uses}
use audio_plugins_jl.Host.Ports.{
  read_audio_ports, read_direction, read_side, check_port, lay_out, route,
}
use audio_plugins_jl.Host.Ports.Bounds.{IsServed, read_audio_ports-IsServed}
use audio_plugins_jl.Host.Input.{new_block}
use audio_plugins_jl.Host.Params.{set_param, send_param, queue_param, param_pos}
use audio_plugins_jl.Host.Params.Chain.{IsCurrent, set_param_withheld}
use audio_plugins_jl.Host.Open.{open_bundle}
use audio_plugins_jl.Host.Open.Ready.{IsReady, IsShut, open_bundle_outcome}
use audio_plugins_jl.Host.Output.{out_ok}
use audio_plugins_jl.Host.Process.{drive_slot, clear_aux, process_args}
use audio_plugins_jl.Host.Runs.Events.{HasFits, Hands, AllHand, Reach-events}
use audio_plugins_jl.Host.Runs.Copied.{in_copy_hands_on}
use audio_plugins_jl.Host.Query.{
  command, in_sample_of, out_sample_of, Query, Command, reset_counters, refused_command, refusal,
  n_process,
}
use audio_plugins_jl.Host.Instances.{
  in_copy, copy_block, instance_of, Host, find_instance, open_instance, close_instance, query_for,
  command_for,
}
use audio_plugins_jl.Host.Runs.{Reach, here, next, opens, closes, commands}
use audio_plugins_jl.Host.Runs.Handles.{IsNumbered}
use audio_plugins_jl.Host.Runs.Stale.{stale_handle, isolated_handle}
use audio_plugins_jl.Host.Runs.Tracked.{Reach-IsTracked}
use audio_plugins_jl.Host.Runs.Users.{IsTracked, instances_held}
use Rig.{Number, whole, numbers, samples, exact, rig, bundle, stereo, open_state, closed_state}

-- Two instances and the default state share the entry 7; the default state is closed.
abbrev host : Host ℕ Number Number
host = record {
  default = closed_state;
  instances = (2, open_state) ∷ (1, open_state) ∷ [];
  next_handle = 2;
  next_token = 8;
  err = none;
  modules = record { entry = 7; refs = 2 } ∷ [];
}

host-IsNumbered : IsNumbered host
host-IsNumbered = record { exact_handle = omega arith; below = (omega arith, (omega arith, tt)) }

host-IsTracked : IsTracked host
unfolding uses instances_held
host-IsTracked = record { live = (omega arith, omega arith, refl, tt); counted = λ e. ground arith }

-- Handle 1 is closed, a new instance is opened, and handle 1 is asked for again.
abbrev later : Host ℕ Number Number
later =
    (open_instance rig bundle true (47 ∷ []) none (whole (pos 48000)) (whole (pos 4))
      (whole (pos 2)) (close_instance rig (whole (pos 1)) host)).1

stale_handle_example :
    (command_for rig (numbers.of_ℕ 1) reset_counters later
      ≡ (refused_command reset_counters, record later { err = some invalid_handle }))
    × (query_for rig (numbers.of_ℕ 1) n_process later
        ≡ (refusal n_process, record later { err = some invalid_handle }))
    × (in_copy rig (numbers.of_ℕ 1) (whole (pos 2)) (whole (pos 5)) later
        ≡ (numbers.nan, record later { err = some invalid_handle }))
    × (in_copy rig (whole (pos 2)) (numbers.of_ℕ 1) (whole (pos 5)) later
        ≡ (numbers.nan, record later { err = some invalid_handle }))
    × (close_instance rig (numbers.of_ℕ 1) later ≡ later)
unfolding numbers
stale_handle_example =
    stale_handle rig exact host later 1 host-IsNumbered (omega arith)
      (next here
        (opens bundle true (47 ∷ []) none (whole (pos 48000)) (whole (pos 4)) (whole (pos 2))))
      reset_counters n_process (whole (pos 2)) (whole (pos 5))

isolated_handle_example :
    (query_for rig
      (numbers.of_ℕ 1)
      n_process
      (command_for rig (numbers.of_ℕ 2) reset_counters host).1).0
    ≡ (query_for rig (numbers.of_ℕ 1) n_process host).0
isolated_handle_example =
    isolated_handle rig exact host 1 2 reset_counters n_process host-IsNumbered (omega arith)
      (omega arith) (omega arith)

Reach-IsTracked_example : IsTracked (close_instance rig (whole (pos 1)) host)
unfolding close_instance find_instance numbers
Reach-IsTracked_example =
    Reach-IsTracked rig exact (next here (closes (whole (pos 1)))) host-IsNumbered (omega arith)
      host-IsTracked

abbrev closed_block : Ctx ℕ Number Number
closed_block = record { legacy = true; err = none; next_token = 0; modules = []; st = closed_state }

open_bundle_outcome_example :
    let (opened, t) =
      open_bundle rig bundle
        (47 ∷ [])
        none
        (whole (pos 48000))
        (whole (pos 4))
        (whole (pos 2))
        closed_block in
    ((opened ≡ true) × IsReady t.st) ⊎ ((opened ≡ false) × IsShut t.st)
open_bundle_outcome_example =
    open_bundle_outcome rig bundle (47 ∷ []) none (whole (pos 48000)) (whole (pos 4))
      (whole (pos 2)) closed_block

read_audio_ports-IsServed_example : IsServed 2 (read_audio_ports rig 3 2 stereo).1
unfolding read_audio_ports read_direction read_side check_port lay_out route
read_audio_ports-IsServed_example = read_audio_ports-IsServed rig 3 2 (omega arith) stereo refl

abbrev held_block : Ctx ℕ Number Number
held_block = record { legacy = true; err = none; next_token = 0; modules = []; st = open_state }

-- The block in hand is replaced before it is processed.
abbrev replaced : Ctx ℕ Number Number
replaced =
    (new_block 4 (λ ch i. whole (pos 0))
      (set_param (whole (pos 3)) (whole (pos 5)) (whole (pos 2)) held_block).1).1

set_param_withheld_example :
    (set_param (whole (pos 4)) (whole (pos 5)) (whole (pos 2)) replaced ≡ (whole (pos 4), replaced))
    × (replaced.st.ev ≡ [])
unfolding new_block next_token set_param send_param queue_param param_pos token_matches numbers
set_param_withheld_example =
    set_param_withheld held_block (whole (pos 3)) (whole (pos 4)) (whole (pos 5)) (whole (pos 2)) 0
      4 (λ ch i. whole (pos 0)) ((5, whole (pos 2)) ∷ [])
      (record { opened = refl; matches = refl; filled = refl }) refl refl refl replaced refl
      (record { opened = refl; matches = refl; filled = refl })

host-HasFits : HasFits host
host-HasFits = record { default_fits = omega arith; all_fit = (omega arith, (omega arith, tt)) }

Reach-events_example :
    HasFits later
    × Hands rig (λ k. whole (pos k)) (λ k. whole (pos 0)) later.default
    × AllHand rig (λ k. whole (pos k)) (λ k. whole (pos 0)) later.instances
Reach-events_example =
    Reach-events rig host-HasFits
      (next (next here (closes (whole (pos 1))))
        (opens bundle true (47 ∷ []) none (whole (pos 48000)) (whole (pos 4)) (whole (pos 2))))
      (λ k. whole (pos k)) (λ k. whole (pos 0))

-- Instance 2 has put out a block, which goes on to instance 1.
abbrev source_state : State ℕ Number Number
source_state = record open_state {
  out_token = whole (negsuc 4);
  out_n = 4;
  output = λ ch i. whole (pos (ch + i));
}

abbrev linked : Host ℕ Number Number
linked = record host { instances = (2, source_state) ∷ (1, open_state) ∷ [] }

abbrev chained : Number × Host ℕ Number Number
chained = in_copy rig (whole (pos 1)) (whole (pos 2)) (whole (negsuc 4)) linked

in_copy_hands_on_example :
    (query_for rig
      (whole (pos 1))
      (in_sample_of chained.0 (whole (pos 2)) (whole (pos 1)))
      chained.1).0
    ≡ (query_for rig
        (whole (pos 2))
        (out_sample_of (whole (negsuc 4)) (whole (pos 2)) (whole (pos 1)))
        linked).0
unfolding in_copy copy_block new_block next_token instance_of find_instance out_ok token_matches
    numbers
in_copy_hands_on_example =
    in_copy_hands_on rig linked (whole (pos 1)) (whole (pos 2)) (whole (negsuc 4)) (whole (pos 2))
      (whole (pos 1)) (1, open_state) (2, source_state) chained
      (record { exact_handle = omega arith; below = (omega arith, (omega arith, tt)) }) refl refl
      refl (record { opened = refl; block = refl; chan = refl; rate = refl }) refl refl refl
