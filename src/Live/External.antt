-- ===== src/Live/External.antt =====
-- The calls of an external device owner, `ap_live_device_begin`, `ap_live_device_process` and
-- `ap_live_device_end` of csrc/clap_live.c, each as one step, and `ap_live_get_latency`. `self` is
-- the calling thread.
pub mod Owner
pub mod Tests
use audio_plugins_jl.Base.{
  ℕ, Bool, true, false, not, ◌&&◌, ◌||◌, ◌≡◌, ◌≢◌, refl, sym, ap, ◌∙◌, Option, none, some, List, [],
  ◌∷◌, ◌==◌, if◌then◌else◌, arith,
}
use audio_plugins_jl.Live.Types.{
  Status, ok, again, invalid, wrong_thread, wrong_state, PluginOps, driver_device,
}
use audio_plugins_jl.Live.Session.{Session, Setup, is_control}
use audio_plugins_jl.Live.Process.{process_block}
use audio_plugins_jl.Live.Process.Calls.{host_calls_lem}
use audio_plugins_jl.Live.Lifecycle.{
  EntryAnswers, is_ok, is_running, audio_begin, audio_end, set_priority, enter_device, begin_plugin,
  settle_begin, restore_priority, stop_begin,
}

module _ {P D S : Type 0} where
  unfoldable pub get_latency : Session P D S → ℕ → Status × Option ℕ
  get_latency s self =
      if not (is_control s self)
      then (wrong_thread, none)
      else if not s.activated
      then (wrong_state, none)
      else (ok, some s.latency)

module _ {P D S : Type 0} (ops : PluginOps P D S) where
  -- The part that the guard encloses.
  unfoldable pub begin_guarded : Session P D S → ℕ → EntryAnswers → Status × Session P D S
  begin_guarded s self a =
      if not s.device_started && is_running s.phase && not s.stop
      then (let (r, t) = audio_begin ops s a in
          (r, if is_ok r then record t { device_started = true; device_thread = self } else t))
      else (wrong_state, s)

  unfoldable pub device_begin : Session P D S → ℕ → EntryAnswers → Status × Session P D S
  device_begin s self a =
      if not (s.config.driver == driver_device)
      then (invalid, s)
      else if is_control s self
      then (wrong_thread, s)
      else if s.device_guard
      then (again, s)
      else let (r, t) = begin_guarded (record s { device_guard = true }) self a in
        (r, record t { device_guard = false })

  unfoldable pub device_process :
      Session P D S → ℕ → Option (ℕ → S) → ℕ → Status × Option (ℕ → S) × Session P D S
  device_process s self output spent =
      if not (s.config.driver == driver_device)
      then (invalid, output, s)
      else if s.device_guard
      then (again, output, s)
      else if not s.device_started
      then (wrong_state, output, s)
      else if not (s.device_thread == self)
      then (wrong_thread, output, s)
      else let (r, out, t) =
          process_block ops (record s { device_guard = true }) output none spent in
        (r, out, record t { device_guard = false })

  unfoldable pub device_end : Session P D S → ℕ → Bool → Status × Session P D S
  device_end s self leave_failed =
      if not (s.config.driver == driver_device)
      then (invalid, s)
      else if s.device_guard
      then (again, s)
      else if not s.device_started
      then (wrong_state, s)
      else if not (s.device_thread == self)
      then (wrong_thread, s)
      else (
        ok,
        record (audio_end ops (record s { device_guard = true }) leave_failed) {
          device_started = false;
          device_guard = false;
        },
      )

-- A call of one of the three, by the thread that makes it and what it is answered.
pub data DeviceCall (S : Type 0) : Type 0 where
  begins : ℕ → EntryAnswers → DeviceCall S
  processes : ℕ → Option (ℕ → S) → ℕ → DeviceCall S
  ends : ℕ → Bool → DeviceCall S

module _ {P D S : Type 0} (ops : PluginOps P D S) where
  unfoldable pub device_call : DeviceCall S → Session P D S → Session P D S
  device_call (begins self a) s = (device_begin ops s self a).1
  device_call (processes self output spent) s = (device_process ops s self output spent).2
  device_call (ends self failed) s = (device_end ops s self failed).1

  -- Such calls, one after another.
  abbrev pub device_calls : List (DeviceCall S) → Session P D S → Session P D S
  device_calls [] s = s
  device_calls (c ∷ cs) s = device_calls cs (device_call c s)
