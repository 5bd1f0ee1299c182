-- ===== src/Live/System/Tests.antt =====
-- A session that is started, plays one block, is stopped and closed.
use audio_plugins_jl.Base.{ℕ, ◌<◌, true, false, none, ◌≡◌, ◌≢◌, refl, arith, ◌⊎◌, inl}
use audio_plugins_jl.Ring.{is_full, is_empty, back_slot}
use audio_plugins_jl.Live.Types.{ok, prepared}
use audio_plugins_jl.Live.Session.{Session, is_control, host_calls}
use audio_plugins_jl.Live.Process.{
  process_block, fetch, overlay, run_plugin, judge, deliver, finish,
}
use audio_plugins_jl.Live.Lifecycle.{
  EntryAnswers, StartAnswers, start_arm, may_start, activate, launch, stop_begin, close, deactivate,
  audio_begin, audio_end, restore_priority, set_priority, enter_device, begin_plugin, settle_begin,
  stop_finish, reset_queues,
}
use audio_plugins_jl.Live.Tests.{whole, doubler, blank, ring, running_session}
use audio_plugins_jl.Live.System.{
  idle, joining, closed, absent, looping, leaving, System, joined, start_spawns, start_succeeds,
  stop_waits, stop_joins, closes, enters, sees_stop, ticks, leaves, Reach, here, next, timer_round,
}
use audio_plugins_jl.Live.System.Monitor.{PluginState, inactive, broken, monitored}
use audio_plugins_jl.Live.System.Safety.{plugin_in_turn, closed_alone}
use audio_plugins_jl.Live.System.Progress.{steps_left, stop_lowers}

abbrev opened : Session (ℕ × PluginState) ℕ ℕ
opened = record (running_session (0, inactive) (ring 0 0 blank) (ring 0 0 blank)) {
  joinable = false;
  activated = false;
  phase = prepared;
  ready = false;
}

abbrev at_first : System (ℕ × PluginState) ℕ ℕ
at_first = record { session = opened; control = idle; worker = absent }

abbrev answers : StartAnswers
answers = record { prepare_failed = false; thread_failed = false }

abbrev entry : EntryAnswers
entry = record { priority_refused = false; device_refused = false; leave_failed = false }

-- The session after its start, its worker's entry, a block, the stop, and the worker's end.
abbrev armed : Session (ℕ × PluginState) ℕ ℕ
armed = (start_arm (monitored doubler) opened 1 answers).1

abbrev entered : Session (ℕ × PluginState) ℕ ℕ
entered = record ((audio_begin (monitored doubler) armed entry).1) { ready = true }

abbrev played : Session (ℕ × PluginState) ℕ ℕ
played = (timer_round (monitored doubler) entered 7 false).1

abbrev told : Session (ℕ × PluginState) ℕ ℕ
told = (stop_begin played 1).1

abbrev ended : Session (ℕ × PluginState) ℕ ℕ
ended = audio_end (monitored doubler) told false

run_answers :
    ((start_arm (monitored doubler) opened 1 answers).0 ≡ none)
    × ((audio_begin (monitored doubler) armed entry).0 ≡ ok)
    × ((timer_round (monitored doubler) entered 7 false).0 ≡ ok)
    × ((stop_begin played 1).0 ≡ none)
    × (close (joined (monitored doubler) ended false) 1 ≡ ok)
unfolding start_arm may_start is_control launch activate host_calls audio_begin settle_begin
    begin_plugin enter_device set_priority timer_round process_block run_plugin judge stop_begin
    finish deliver fetch overlay is_full is_empty back_slot joined stop_finish deactivate
    reset_queues audio_end restore_priority close
run_answers = (refl, refl, refl, refl, refl)

abbrev joining_system : System (ℕ × PluginState) ℕ ℕ
joining_system = record { session = told; control = joining false; worker = looping }

abbrev shut_system : System (ℕ × PluginState) ℕ ℕ
shut_system = record {
  session = joined (monitored doubler) ended false;
  control = closed;
  worker = absent;
}

told_to_stop : told.stop ≡ true
unfolding start_arm may_start is_control launch activate host_calls audio_begin settle_begin
    begin_plugin enter_device set_priority timer_round process_block run_plugin judge stop_begin
    finish deliver fetch overlay is_full is_empty back_slot joined stop_finish deactivate
    reset_queues audio_end restore_priority close
told_to_stop = refl

joining-Reach : Reach (monitored doubler) at_first joining_system
unfolding start_arm may_start is_control launch activate host_calls audio_begin settle_begin
    begin_plugin enter_device set_priority timer_round process_block run_plugin judge stop_begin
    finish deliver fetch overlay is_full is_empty back_slot joined stop_finish deactivate
    reset_queues audio_end restore_priority close
joining-Reach =
    next
      (next
        (next (next (next here (start_spawns answers armed refl refl)) (enters entry refl))
          (start_succeeds refl refl refl))
        (ticks 7 false refl refl))
      (stop_waits told false refl (inl refl) refl)

shut-Reach : Reach (monitored doubler) at_first shut_system
unfolding start_arm may_start is_control launch activate host_calls audio_begin settle_begin
    begin_plugin enter_device set_priority timer_round process_block run_plugin judge stop_begin
    finish deliver fetch overlay is_full is_empty back_slot joined stop_finish deactivate
    reset_queues audio_end restore_priority close
shut-Reach =
    next
      (next (next (next joining-Reach (sees_stop refl refl)) (leaves false refl))
        (stop_joins false refl refl))
      (closes refl refl)

plugin_in_turn_example : shut_system.session.plugin.1 ≢ broken
plugin_in_turn_example = plugin_in_turn doubler refl refl refl (λ h. ground (arith, h)) shut-Reach

closed_alone_example :
    (absent ≡ absent)
    × (shut_system.session.plugin.1 ≡ inactive)
    × (shut_system.session.joinable ≡ false)
closed_alone_example = closed_alone doubler refl refl refl (λ h. ground (arith, h)) shut-Reach refl

-- The worker leaves its loop.
stop_lowers_example :
    ((joining false ≡ joining false) × (steps_left leaving < steps_left looping))
    ⊎ ((joining false ≡ idle) × (leaving ≡ absent))
stop_lowers_example =
    stop_lowers doubler refl refl refl (λ h. ground (arith, h)) joining-Reach refl
      (sees_stop refl told_to_stop)
