-- ===== src/Live/External/Owner.antt =====
-- The thread that has begun a device of csrc/clap_live.c owns it until it ends.
use audio_plugins_jl.Base.{
  ℕ, Bool, true, false, Option, none, List, [], ◌∷◌, ◌≡◌, ◌≢◌, refl, ap, ◌∙◌, Bool-cases, inl, inr,
  arith,
}
use audio_plugins_jl.Live.Types.{
  Status, ok, ProcessStatus, process_error, process_done, wrong_thread, PluginOps, driver_device,
}
use audio_plugins_jl.Live.Session.{Session, Setup}
use audio_plugins_jl.Live.Process.{
  process_args, process_block, fetch, overlay, run_plugin, judge, deliver, finish,
}
use audio_plugins_jl.Live.Process.Calls.{host_calls_lem}
use audio_plugins_jl.Live.Lifecycle.{
  EntryAnswers, audio_begin, set_priority, enter_device, begin_plugin, settle_begin,
  restore_priority,
}
use audio_plugins_jl.Live.External.{
  begin_guarded, device_begin, device_process, device_end, DeviceCall, begins, processes, ends,
  device_call, device_calls,
}

-- The call is not the end of what the thread `self` has begun.
abbrev pub IsNotEnd : {S : Type 0} → ℕ → DeviceCall S → Type 0
IsNotEnd self (begins _ _) = Unit
IsNotEnd self (processes _ _ _) = Unit
IsNotEnd self (ends other _) = self ≢ other

abbrev pub AreNotEnds : {S : Type 0} → ℕ → List (DeviceCall S) → Type 0
AreNotEnds self [] = Unit
AreNotEnds self (c ∷ cs) = IsNotEnd self c × AreNotEnds self cs

module _ {P D S : Type 0} where
  -- The thread `self` has begun, and no call is under way.
  record IsOwned (self : ℕ) (s : Session P D S) : Type 0 where
    started : s.device_started ≡ true
    thread : s.device_thread ≡ self
    free : s.device_guard ≡ false
    driver : s.config.driver ≡ driver_device

  -- The call leaves the owner and what opening settled.
  record SameOwner (s t : Session P D S) : Type 0 where
    started_is : t.device_started ≡ s.device_started
    thread_is : t.device_thread ≡ s.device_thread
    setup_is : t.setup ≡ s.setup

  SameOwner-trans : {s t u : Session P D S} → SameOwner s t → SameOwner t u → SameOwner s u
  SameOwner-trans a b = record {
    started_is = b.started_is ∙ a.started_is;
    thread_is = b.thread_is ∙ a.thread_is;
    setup_is = b.setup_is ∙ a.setup_is;
  }

  fetch-SameOwner : (s : Session P D S) (captures : Bool) → SameOwner s (fetch s captures).0
  unfolding fetch
  fetch-SameOwner s captures = record {
    started_is = ground arith;
    thread_is = ground arith;
    setup_is = ground arith;
  }

  judge-SameOwner : (st : ProcessStatus) (s : Session P D S) → SameOwner s (judge st s).1
  unfolding judge
  judge-SameOwner process_error s = record { started_is = refl; thread_is = refl; setup_is = refl }
  judge-SameOwner process_done s = record { started_is = refl; thread_is = refl; setup_is = refl }

  deliver-SameOwner : (s : Session P D S) (sequence : ℕ) → SameOwner s (deliver s sequence)
  unfolding deliver
  deliver-SameOwner s sequence = record {
    started_is = ground arith;
    thread_is = ground arith;
    setup_is = ground arith;
  }

  finish-SameOwner : (s : Session P D S) (spent : ℕ) → SameOwner s (finish s spent)
  unfolding finish
  finish-SameOwner s spent = record { started_is = refl; thread_is = refl; setup_is = refl }

module _ {P D S : Type 0} (ops : PluginOps P D S) where
  plugin_setup : (r : Status) (s : Session P D S) → (begin_plugin ops (r, s)).1.setup ≡ s.setup
  unfolding begin_plugin
  plugin_setup r s =
      let (q, e) =
        host_calls_lem (ops.start_processing s.plugin).1
          (record s { plugin = (ops.start_processing s.plugin).2 }) in
      ground (arith, ap (λ (t : Session P D S). t.setup) e)

  settle_setup :
      (r : Status) (s : Session P D S) (failed : Bool)
      → (settle_begin ops (r, s) failed).1.setup ≡ s.setup
  unfolding settle_begin restore_priority
  settle_setup r s failed = ground arith

  enter_setup :
      (s : Session P D S) (refused refused' : Bool)
      → (enter_device (set_priority s refused) refused').1.setup ≡ s.setup
  unfolding set_priority enter_device
  enter_setup s refused refused' = ground arith

  begin_setup : (s : Session P D S) (a : EntryAnswers) → (audio_begin ops s a).1.setup ≡ s.setup
  unfolding audio_begin
  begin_setup s a =
      let x = enter_device (set_priority s a.priority_refused) a.device_refused in
      let y = begin_plugin ops x in
      settle_setup y.0 y.1 a.leave_failed
      ∙ plugin_setup x.0 x.1
      ∙ enter_setup s a.priority_refused a.device_refused

  begun :
      (s : Session P D S) (self : ℕ) (a : EntryAnswers)
      → (begin_guarded ops s self a).0 ≡ ok
      → ((begin_guarded ops s self a).1.device_started ≡ true)
        × ((begin_guarded ops s self a).1.device_thread ≡ self)
        × ((begin_guarded ops s self a).1.setup ≡ s.setup)
  unfolding begin_guarded
  begun s self a h = (ground (arith, h), ground (arith, h), ground (arith, h, begin_setup s a))

  run_plugin-SameOwner : (s : Session P D S) → SameOwner s (run_plugin ops s).1
  unfolding run_plugin
  run_plugin-SameOwner s =
      let reply = ops.process s.plugin (process_args s) in
      let (q, e) =
        host_calls_lem reply.calls (record s { plugin = reply.next; out_ptr = reply.outputs }) in
      SameOwner-trans (rw e (record { started_is = refl; thread_is = refl; setup_is = refl }))
        (judge-SameOwner reply.status _)

  process_block-SameOwner :
      (s : Session P D S) (output : Option (ℕ → S)) (spent : ℕ)
      → SameOwner s (process_block ops s output none spent).2
  unfolding process_block overlay
  process_block-SameOwner s output spent = elim (Bool-cases s.stop) [
    | inl stopping ↦ rw stopping (record { started_is = refl; thread_is = refl; setup_is = refl })
    | inr going ↦
        let (t, sequence) = fetch s false in
        let u = (run_plugin ops t).1 in
        let there = SameOwner-trans (fetch-SameOwner s false) (run_plugin-SameOwner t) in
        let done =
          SameOwner-trans (deliver-SameOwner u sequence)
            (finish-SameOwner (deliver u sequence) spent) in
        simp going (SameOwner-trans there done)
  ]

  device_begin-IsOwned :
      (s : Session P D S) (self : ℕ) (a : EntryAnswers)
      → (device_begin ops s self a).0 ≡ ok
      → IsOwned self (device_begin ops s self a).1
  unfolding device_begin
  device_begin-IsOwned s self a h =
      let guarded : (begin_guarded ops (record s { device_guard = true }) self a).0 ≡ ok =
        ground (arith, h) in
      let (started, thread, same) = begun (record s { device_guard = true }) self a guarded in
      let driver : s.config.driver ≡ driver_device = ground (arith, h) in
      record {
        started = ground (arith, h, started);
        thread = ground (arith, h, thread);
        free = ground (arith, h);
        driver = ground (arith, h, driver, ap (λ (c : Setup D). c.config.driver) same);
      }

  -- No call but its own end takes the device from its owner.
  device_call-IsOwned :
      (c : DeviceCall S) (self : ℕ) (s : Session P D S)
      → IsNotEnd self c
      → IsOwned self s
      → IsOwned self (device_call ops c s)
  unfolding device_call device_begin begin_guarded device_process device_end
  device_call-IsOwned (begins other a) self s n v = record {
    started = ground (arith, v.started, v.free);
    thread = ground (arith, v.started, v.thread, v.free);
    free = ground (arith, v.started, v.free);
    driver = ground (arith, v.started, v.free, v.driver);
  }
  device_call-IsOwned (processes other output spent) self s n v =
      let same = process_block-SameOwner (record s { device_guard = true }) output spent in
      record {
        started = ground (arith, v.started, v.free, same.started_is);
        thread = ground (arith, v.thread, v.free, same.thread_is);
        free = ground (arith, v.free);
        driver =
            ground (arith, v.driver, v.free, ap (λ (c : Setup D). c.config.driver) same.setup_is);
      }
  device_call-IsOwned (ends other failed) self s n v = record {
    started = ground (arith, v.started, v.free, v.thread);
    thread = ground (arith, v.started, v.thread, v.free);
    free = ground (arith, v.started, v.free, v.thread);
    driver = ground (arith, v.started, v.free, v.driver, v.thread);
  }

  device_calls-IsOwned :
      (cs : List (DeviceCall S)) (self : ℕ) (s : Session P D S)
      → AreNotEnds self cs
      → IsOwned self s
      → IsOwned self (device_calls ops cs s)
  device_calls-IsOwned [] self s n v = v
  device_calls-IsOwned (c ∷ cs) self s n v =
      device_calls-IsOwned cs self (device_call ops c s) n.1 (device_call-IsOwned c self s n.0 v)

  refused :
      (self other : ℕ) (t : Session P D S) (output : Option (ℕ → S)) (spent : ℕ) (failed : Bool)
      → IsOwned self t
      → self ≢ other
      → (device_process ops t other output spent ≡ (wrong_thread, output, t))
        × (device_end ops t other failed ≡ (wrong_thread, t))
  unfolding device_process device_end
  refused self other t output spent failed v ne = (
    ground (arith, v.started, v.thread, v.free, v.driver),
    ground (arith, v.started, v.thread, v.free, v.driver),
  )

  -- Once a device owner has begun on the thread `self`, and after any calls to begin, process and
  -- end, one after another, of which none is an end on that thread: a call to process or to end on
  -- any other thread is refused as on the wrong thread, and changes nothing.
  pub device_begin_owns :
      (s : Session P D S) (self other : ℕ) (a : EntryAnswers) (calls : List (DeviceCall S))
      (output : Option (ℕ → S)) (spent : ℕ) (failed : Bool)
      → (device_begin ops s self a).0 ≡ ok
      → AreNotEnds self calls
      → self ≢ other
      → let t = device_calls ops calls (device_begin ops s self a).1 in
        (device_process ops t other output spent ≡ (wrong_thread, output, t))
        × (device_end ops t other failed ≡ (wrong_thread, t))
  device_begin_owns s self other a calls output spent failed h n ne =
      let start = (device_begin ops s self a).1 in
      refused self other (device_calls ops calls start) output spent failed
        (device_calls-IsOwned calls self start n (device_begin-IsOwned s self a h)) ne
