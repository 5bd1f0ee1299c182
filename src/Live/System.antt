-- ===== src/Live/System.antt =====
-- A session with its worker: the calls on the control thread interleaved with `timer_main` and
-- `hardware_main` of csrc/clap_live.c. Each side's queue and plugin calls are single steps here;
-- Ring/Spsc has their loads and stores. The DEVICE driver, whose audio thread belongs to the caller,
-- is not part of this system.
pub mod Monitor
pub mod Effects
pub mod WorkerEffects
pub mod ControlEffects
pub mod Standing
pub mod Invariant
pub mod Safety
pub mod Progress
pub mod Tests
use audio_plugins_jl.Base.{
  ℕ, Bool, true, false, Option, none, some, List, ◌≡◌, ◌≢◌, ◌==◌, if◌then◌else◌, ◌&&◌, ◌⊎◌,
}
use audio_plugins_jl.Base.Words.{add32}
use audio_plugins_jl.Live.Types.{Status, ok, stopped, DoubleOps, LiveEvent, PluginOps}
use audio_plugins_jl.Live.Session.{Session}
use audio_plugins_jl.Live.Queue.{try_write, try_read}
use audio_plugins_jl.Live.Process.{process_block}
use audio_plugins_jl.Live.Lifecycle.{
  EntryAnswers, StartAnswers, is_ok, audio_begin, audio_end, start_arm, stop_begin, stop_finish,
  close, serve_callback, poll_stops,
}

-- Where the control thread stands: between calls, in `ap_live_start` waiting for the worker, in
-- `ap_live_stop` joining it, for a poll or not, or past `ap_live_close`.
pub data Control : Type 0 where
  idle : Control
  awaiting : Control
  joining : Bool → Control
  closed : Control

-- Where the worker stands: not there, before `audio_begin`, in its loop, before `audio_end`, gone.
pub data Worker : Type 0 where
  absent entering looping leaving exited : Worker

pub record System (P D S : Type 0) : Type 0 where
  pub session : Session P D S
  pub control : Control
  pub worker : Worker

-- Where a result takes the worker.
abbrev pub after_begin : Status → Worker
after_begin r = if is_ok r then looping else exited

abbrev pub after_block : Status → Worker
after_block r = if is_ok r then looping else leaving

module _ {P D S : Type 0} (ops : PluginOps P D S) where
  -- Control after the join, with the callback that a poll then serves.
  unfoldable pub joined : Session P D S → Bool → Session P D S
  joined s polling = let t = stop_finish ops s in if polling then serve_callback ops t else t

  -- A round of `timer_main`; `late` says that the wait for the next one was overslept by a period.
  unfoldable pub timer_round : Session P D S → ℕ → Bool → Status × Session P D S
  timer_round s spent late =
      let (r, _, t) = process_block ops s none none spent in
      (
        r,
        if is_ok r && late
            then record t {
              counters = record (t.counters) {
                deadline_misses = add32 t.counters.deadline_misses 1;
              };
            }
            else t,
      )

  -- A round of `hardware_main` once the device has handed over a block, under its own sequence.
  unfoldable pub hardware_round :
      Session P D S → (ℕ → S) → Option (ℕ → S) → ℕ → ℕ → Status × Session P D S
  hardware_round s output capture sequence spent =
      let (r, _, t) =
        process_block ops (record s { tick = sequence }) (some output) capture spent in
      (r, t)

module _ {P D S : Type 0} ⦃f : DoubleOps D⦄ (ops : PluginOps P D S) where
  pub data Step (s : System P D S) : System P D S → Type 0 where
    writes :
        (samples : Option (ℕ → S)) (events : Option (ℕ → LiveEvent D)) (n sequence : ℕ)
        → s.control ≡ idle
        → Step s (record s {
          session = (try_write s.session s.session.control samples events n sequence).1;
        })
    reads :
        (samples : Option (ℕ → S)) (places : Bool)
        → s.control ≡ idle
        → Step s (record s { session = (try_read s.session s.session.control samples places).2 })
    start_returns :
        (a : StartAnswers) (r : Status) (t : Session P D S)
        → s.control ≡ idle
        → start_arm ops s.session s.session.control a ≡ (some r, t)
        → Step s (record s { session = t })
    start_spawns :
        (a : StartAnswers) (t : Session P D S)
        → s.control ≡ idle
        → start_arm ops s.session s.session.control a ≡ (none, t)
        → Step s (record { session = t; control = awaiting; worker = entering })
    start_succeeds :
        s.control ≡ awaiting
        → s.session.ready ≡ true
        → s.session.error ≡ ok
        → Step s (record s { control = idle })
    start_fails :
        (t : Session P D S)
        → s.control ≡ awaiting
        → s.session.ready ≡ true
        → (s.session.error ≢ ok) ⊎ (s.session.device ≡ true)
        → stop_begin s.session s.session.control ≡ (none, t)
        → Step s (record s { session = t; control = joining false })
    stop_returns :
        (r : Status) (t : Session P D S)
        → s.control ≡ idle
        → stop_begin s.session s.session.control ≡ (some r, t)
        → Step s (record s { session = t })
    stop_waits :
        (t : Session P D S) (polling : Bool)
        → s.control ≡ idle
        → (polling ≡ false) ⊎ (poll_stops s.session ≡ true)
        → stop_begin s.session s.session.control ≡ (none, t)
        → Step s (record s { session = t; control = joining polling })
    stop_joins :
        (polling : Bool)
        → s.control ≡ joining polling
        → s.worker ≡ exited
        → Step s
            (record { session = joined ops s.session polling; control = idle; worker = absent })
    serves : s.control ≡ idle → Step s (record s { session = serve_callback ops s.session })
    closes :
        s.control ≡ idle
        → close s.session s.session.control ≡ ok
        → Step s (record s { control = closed })
    enters :
        (a : EntryAnswers)
        → s.worker ≡ entering
        → Step s (record s {
          session = record ((audio_begin ops s.session a).1) { ready = true };
          worker = after_begin (audio_begin ops s.session a).0;
        })
    sees_stop : s.worker ≡ looping → s.session.stop ≡ true → Step s (record s { worker = leaving })
    ticks :
        (spent : ℕ) (late : Bool)
        → s.worker ≡ looping
        → s.session.device ≡ false
        → Step s (record s {
          session = (timer_round ops s.session spent late).1;
          worker = after_block (timer_round ops s.session spent late).0;
        })
    streams :
        (output : ℕ → S) (capture : Option (ℕ → S)) (sequence spent : ℕ)
        → s.worker ≡ looping
        → s.session.device ≡ true
        → Step s (record s {
          session = (hardware_round ops s.session output capture sequence spent).1;
          worker = after_block (hardware_round ops s.session output capture sequence spent).0;
        })
    waits_in_vain :
        (r : Status)
        → s.worker ≡ looping
        → s.session.device ≡ true
        → r ≢ ok
        → r ≢ stopped
        → Step s (record s {
          session = record (s.session) { error = r; restart = true; stop = true };
          worker = leaving;
        })
    leaves :
        (leave_failed : Bool)
        → s.worker ≡ leaving
        → Step s (record s { session = audio_end ops s.session leave_failed; worker = exited })

  pub data Reach (s : System P D S) : System P D S → Type 0 where
    here : Reach s s
    next : {t u : System P D S} → Reach s t → Step t u → Reach s u
