-- ===== src/Live/System/Effects.antt =====
-- What each call leaves of the facts that a session's life turns on, for a watched plugin.
use audio_plugins_jl.Base.{ℕ, Bool, true, false, Option, none, some, List, ◌≡◌, refl, ◌∙◌, arith}
use audio_plugins_jl.Live.Types.{Phase, finished, DoubleOps, LiveEvent, PluginOps, HostCall}
use audio_plugins_jl.Live.Session.{Session, host_calls}
use audio_plugins_jl.Live.Queue.{try_write, enqueue, try_read}
use audio_plugins_jl.Live.Process.Calls.{host_calls_lem, host_calls-stop, host_calls_requests}
use audio_plugins_jl.Live.Lifecycle.{restore_priority, audio_end, deactivate, serve_callback}
use audio_plugins_jl.Live.System.Monitor.{PluginState, on_stop, on_deactivate, monitored}

-- The facts: how far the session has come, and its plugin.
pub record Life : Type 0 where
  pub joinable : Bool
  pub activated : Bool
  pub phase : Phase
  pub ready : Bool
  pub plugin : PluginState

module _ {P D S : Type 0} where
  abbrev pub life : Session (P × PluginState) D S → Life
  life s = record {
    joinable = s.joinable;
    activated = s.activated;
    phase = s.phase;
    ready = s.ready;
    plugin = s.plugin.1;
  }

  -- The call takes `s` to `t` with the facts `l`, keeps what opening settled, and takes back no stop.
  pub record Leads (s t : Session (P × PluginState) D S) (l : Life) : Type 0 where
    pub life_is : life t ≡ l
    pub setup_is : t.setup ≡ s.setup
    pub stop_stays : s.stop ≡ true → t.stop ≡ true

  -- Calls that keep the life follow one another.
  pub Leads-trans :
      {s t u : Session (P × PluginState) D S} {l : Life}
      → Leads s t (life s)
      → Leads t u l
      → (life t ≡ life s → l ≡ life s)
      → Leads s u (life s)
  Leads-trans a b same = record {
    life_is = b.life_is ∙ same a.life_is;
    setup_is = b.setup_is ∙ a.setup_is;
    stop_stays = λ h. b.stop_stays (a.stop_stays h);
  }

  pub Leads-host_calls :
      (cs : List HostCall) (s : Session (P × PluginState) D S) → Leads s (host_calls cs s) (life s)
  Leads-host_calls cs s =
      let (r, e) = host_calls_lem cs s in
      record { life_is = rw e; setup_is = rw e; stop_stays = host_calls-stop cs s }

  pub Leads-try_read :
      (s : Session (P × PluginState) D S) (self : ℕ) (samples : Option (ℕ → S)) (places : Bool)
      → Leads s (try_read s self samples places).2 (life s)
  unfolding try_read
  Leads-try_read s self none places = record {
    life_is = refl;
    setup_is = refl;
    stop_stays = λ h. h;
  }
  Leads-try_read s self (some x) places = record {
    life_is = ground arith;
    setup_is = ground arith;
    stop_stays = λ h. ground arith;
  }

  pub Leads-try_write :
      ⦃f : DoubleOps D⦄ (s : Session (P × PluginState) D S) (self : ℕ) (samples : Option (ℕ → S))
      (events : Option (ℕ → LiveEvent D)) (n sequence : ℕ)
      → Leads s (try_write s self samples events n sequence).1 (life s)
  unfolding try_write enqueue
  Leads-try_write s self none events n sequence = record {
    life_is = refl;
    setup_is = refl;
    stop_stays = λ h. h;
  }
  Leads-try_write s self (some x) events n sequence = record {
    life_is = ground arith;
    setup_is = ground arith;
    stop_stays = λ h. ground arith;
  }

  pub Leads-restore_priority :
      (s : Session (P × PluginState) D S) (failed : Bool)
      → Leads s (restore_priority s failed) (life s)
  unfolding restore_priority
  Leads-restore_priority s failed = record {
    life_is = ground arith;
    setup_is = ground arith;
    stop_stays = λ h. ground arith;
  }

  module _ (ops : PluginOps P D S) where
    pub Leads-serve_callback :
        (s : Session (P × PluginState) D S) → Leads s (serve_callback (monitored ops) s) (life s)
    unfolding serve_callback
    Leads-serve_callback s =
        let (r, e, h) = host_calls_requests (ops.on_main_thread s.plugin.0).0 (record s {
          callback = false;
          plugin = ((ops.on_main_thread s.plugin.0).1, s.plugin.1);
        }) in
        rw e (record {
          life_is = ground arith;
          setup_is = ground arith;
          stop_stays = λ k. ground (arith, h k);
        })

    pub Leads-deactivate :
        (s : Session (P × PluginState) D S)
        → Leads s
            (deactivate (monitored ops) s)
            (record (life s) { activated = false; plugin = on_deactivate s.plugin.1 })
    unfolding deactivate
    Leads-deactivate s =
        let (r, e, h) =
          host_calls_requests (ops.deactivate s.plugin.0).0
            (record s { plugin = ((ops.deactivate s.plugin.0).1, on_deactivate s.plugin.1) }) in
        rw e (record { life_is = refl; setup_is = refl; stop_stays = h })

    pub Leads-audio_end :
        (s : Session (P × PluginState) D S) (failed : Bool)
        → Leads s
            (audio_end (monitored ops) s failed)
            (record (life s) { phase = finished; plugin = on_stop s.plugin.1 })
    unfolding audio_end restore_priority
    Leads-audio_end s failed =
        let (r, e, h) =
          host_calls_requests (ops.stop_processing s.plugin.0).0
            (record s { plugin = ((ops.stop_processing s.plugin.0).1, on_stop s.plugin.1) }) in
        rw e (record {
          life_is = ground arith;
          setup_is = ground arith;
          stop_stays = λ k. ground (arith, h k);
        })
