-- ===== src/Live/Lifecycle.antt =====
-- Starting, stopping, closing and polling a session of csrc/clap_live.c. What the operating system
-- and the hardware driver answer is an argument of each function; a hardware device is one that
-- csrc/live_device.c drives, known here by its answers alone.
use audio_plugins_jl.Base.{
  ℕ, Bool, true, false, not, ◌&&◌, ◌||◌, Option, none, some, ◌==◌, if◌then◌else◌,
}
use audio_plugins_jl.Ring.{reset}
use audio_plugins_jl.Live.Types.{
  Status, ok, again, wrong_thread, wrong_state, plugin_error, priority_denied, Phase, prepared,
  running, finished, PluginOps, driver_device, driver_hardware,
}
use audio_plugins_jl.Live.Session.{Session, is_control, host_calls}
use audio_plugins_jl.Live.Queue.{is_finished}

abbrev pub is_prepared : Phase → Bool
is_prepared prepared = true
is_prepared running = false
is_prepared finished = false

abbrev pub is_running : Phase → Bool
is_running prepared = false
is_running running = true
is_running finished = false

abbrev pub is_ok : Status → Bool
is_ok s = elim s [ ok ↦ true | _ ↦ false ]

-- The answers to `ap_priority_enter`, `ap_audio_enter` and `ap_priority_leave`: true is a failure.
pub record EntryAnswers : Type 0 where
  pub priority_refused : Bool
  pub device_refused : Bool
  pub leave_failed : Bool

-- The answers to `ap_audio_prepare` and `ap_thread_create`: true is a failure.
pub record StartAnswers : Type 0 where
  pub prepare_failed : Bool
  pub thread_failed : Bool

module _ {P D S : Type 0} where
  unfoldable pub set_priority : Session P D S → Bool → Status × Session P D S
  set_priority s refused =
      let t = record s { priority_granted = false } in
      if s.config.priority == 0
      then (ok, t)
      else if refused
      then (if s.config.priority == 2 then priority_denied else ok, t)
      else (ok, record t { priority_changed = true; priority_granted = true })

  unfoldable pub restore_priority : Session P D S → Bool → Session P D S
  restore_priority s failed =
      if s.priority_changed
      then record s {
        error = if failed then priority_denied else s.error;
        priority_changed = false;
      }
      else s

  -- The hardware device's part of `audio_begin`.
  unfoldable pub enter_device : Status × Session P D S → Bool → Status × Session P D S
  enter_device (result, s) refused =
      if is_ok result && s.device && refused
      then (
        if s.config.priority == 2 then priority_denied else result,
        record s { priority_granted = false },
      )
      else (result, s)

  -- Both queues as `ap_live_stop` leaves them.
  unfoldable pub reset_queues : Session P D S → Session P D S
  reset_queues s = record s { input = reset s.input; output = reset s.output }

  -- The tests of `ap_live_start` before it changes anything.
  unfoldable pub may_start : Session P D S → ℕ → StartAnswers → Status
  may_start s self a =
      if not (is_control s self)
      then wrong_thread
      else if s.joinable || s.activated || not (is_prepared s.phase) || s.restart
      then wrong_state
      else if s.config.driver == driver_hardware && not s.device
      then wrong_state
      else if s.device && a.prepare_failed
      then wrong_state
      else ok

  -- The flags that `ap_live_start` clears, that of a hardware device in `ap_audio_prepare`.
  abbrev pub clear_flags : Session P D S → Session P D S
  clear_flags s = record s {
    device_closing = s.device_closing && not s.device;
    stop = false;
    ready = false;
    error = ok;
  }

  -- `ap_live_stop` up to its wait for the worker: `none` says that control waits. A hardware device
  -- is told to close, upon which `ap_audio_wait` answers the worker with AP_LIVE_STOPPED.
  unfoldable pub stop_begin : Session P D S → ℕ → Option Status × Session P D S
  stop_begin s self =
      if not (is_control s self)
      then (some wrong_thread, s)
      else if not s.activated
      then (some ok, reset_queues s)
      else let t = record s { stop = true; device_closing = s.device_closing || s.device } in
        if s.config.driver == driver_device && (s.device_guard || s.device_started)
        then (some again, t)
        else (none, t)

  -- `ap_live_close`: whether the session may be disposed of.
  unfoldable pub close : Session P D S → ℕ → Status
  close s self =
      if not (is_control s self)
      then wrong_thread
      else if s.activated || s.joinable
      then wrong_state
      else ok

  -- Whether `ap_live_poll` is to stop the session.
  unfoldable pub poll_stops : Session P D S → Bool
  poll_stops s = s.restart || (s.activated && is_finished s.phase)

module _ {P D S : Type 0} (ops : PluginOps P D S) where
  -- `start_processing`, if nothing has failed before.
  unfoldable pub begin_plugin : Status × Session P D S → Status × Session P D S
  begin_plugin (result, s) =
      if is_ok result
      then (let (started, calls, p) = ops.start_processing s.plugin in
          (if started then ok else plugin_error, host_calls calls (record s { plugin = p })))
      else (result, s)

  -- The end of `audio_begin`: after a failure the session is finished.
  unfoldable pub settle_begin : Status × Session P D S → Bool → Status × Session P D S
  settle_begin (result, s) leave_failed =
      if is_ok result
      then (result, s)
      else (result, record (restore_priority s leave_failed) { error = result; phase = finished })

  unfoldable pub audio_begin : Session P D S → EntryAnswers → Status × Session P D S
  audio_begin s a =
      settle_begin
        (begin_plugin (enter_device (set_priority s a.priority_refused) a.device_refused))
        a.leave_failed

  unfoldable pub audio_end : Session P D S → Bool → Session P D S
  audio_end s leave_failed =
      let (calls, p) = ops.stop_processing s.plugin in
      record (restore_priority (host_calls calls (record s { plugin = p })) leave_failed) {
        phase = finished;
      }

  -- `plugin->deactivate` with `activated = 0`.
  unfoldable pub deactivate : Session P D S → Session P D S
  deactivate s =
      let (calls, p) = ops.deactivate s.plugin in
      record (host_calls calls (record s { plugin = p })) { activated = false }

  -- The activation, with the latency read after it and the session running.
  unfoldable pub activate : Session P D S → Bool × Session P D S
  activate s =
      let (active, calls, p) =
        ops.activate s.plugin s.config.sample_rate s.config.block_size s.config.block_size in
      let t = host_calls calls (record s { plugin = p }) in
      if active
      then (true, record t { activated = true; latency = ops.latency t.plugin; phase = running })
      else (false, t)

  -- What `ap_live_start` does with the answer of the activation.
  unfoldable pub launch : Bool × Session P D S → StartAnswers → Option Status × Session P D S
  launch (active, t) a =
      if not active
      then (some plugin_error, t)
      else if t.config.driver == driver_device
      then (some ok, t)
      else if a.thread_failed
      then (some wrong_state, record (deactivate t) { phase = prepared })
      else (none, record t { joinable = true })

  -- `ap_live_start` up to its wait for the worker: `none` says that the worker is under way and
  -- control waits for `ready`, and a status is what the call returns.
  unfoldable pub start_arm : Session P D S → ℕ → StartAnswers → Option Status × Session P D S
  start_arm s self a = elim (may_start s self a) [
    | ok ↦ launch (activate (clear_flags s)) a
    | bad ↦ (some bad, s)
  ]

  -- The rest of `ap_live_stop`, once the worker or the device is done.
  unfoldable pub stop_finish : Session P D S → Session P D S
  stop_finish s =
      record (reset_queues
        (deactivate (record s { joinable = s.config.driver == driver_device && s.joinable }))) {
          phase = prepared;
          stop = false;
        }

  -- One coalesced callback on the main thread.
  unfoldable pub serve_callback : Session P D S → Session P D S
  serve_callback s =
      if s.callback
      then (let (calls, p) = ops.on_main_thread s.plugin in
          host_calls calls (record s { callback = false; plugin = p }))
      else s
