-- ===== src/Live/External/Tests.antt =====
-- A device owner on the thread 5, beside the control thread 1.
use audio_plugins_jl.Base.{ℕ, false, some, List, [], ◌∷◌, ◌≡◌, refl, arith}
use audio_plugins_jl.Live.Types.{ok, wrong_thread, driver_device}
use audio_plugins_jl.Live.Session.{Session, is_control}
use audio_plugins_jl.Live.Lifecycle.{
  EntryAnswers, audio_begin, set_priority, enter_device, begin_plugin, settle_begin,
}
use audio_plugins_jl.Live.Tests.{doubler, blank, ring, running_session, setup, config}
use audio_plugins_jl.Live.External.{
  begin_guarded, device_begin, device_process, device_end, DeviceCall, begins, processes, ends,
  device_calls,
}
use audio_plugins_jl.Live.External.Owner.{device_begin_owns}

abbrev device_session : Session ℕ ℕ ℕ
device_session = record (running_session 0 (ring 0 0 blank) (ring 0 0 blank)) {
  setup = record setup { config = record config { driver = driver_device } };
}

abbrev entry : EntryAnswers
entry = record { priority_refused = false; device_refused = false; leave_failed = false }

device_begin-started : (device_begin doubler device_session 5 entry).0 ≡ ok
unfolding device_begin begin_guarded is_control audio_begin set_priority enter_device begin_plugin
    settle_begin
device_begin-started = refl

-- The control thread is not the device's.
device_begin-control : (device_begin doubler device_session 1 entry).0 ≡ wrong_thread
unfolding device_begin is_control
device_begin-control = refl

-- The owner processes a block, and the thread 6 tries to begin and to end.
abbrev calls : List (DeviceCall ℕ)
calls = processes 5 (some (λ j. 0)) 3 ∷ begins 6 entry ∷ ends 6 false ∷ []

device_begin_owns_example :
    let t = device_calls doubler calls (device_begin doubler device_session 5 entry).1 in
    (device_process doubler t 6 (some (λ j. 0)) 7 ≡ (wrong_thread, some (λ j. 0), t))
    × (device_end doubler t 6 false ≡ (wrong_thread, t))
device_begin_owns_example =
    device_begin_owns doubler device_session 5 6 entry calls (some (λ j. 0)) 7 false
      device_begin-started (tt, (tt, ((λ h. omega arith), tt))) (λ h. omega arith)
