-- ===== src/Live/System/Invariant.antt =====
-- What holds of a session and its worker at each step of either thread.
use audio_plugins_jl.Base.{
  ℕ, Bool, true, false, Option, none, some, ◌≡◌, ◌≢◌, refl, sym, ap, subst, ◌∙◌, arith, Bool-cases,
  ◌⊎◌, inl, inr,
}
use audio_plugins_jl.Live.Types.{Status, ok, DoubleOps, finished, PluginOps, driver_device}
use audio_plugins_jl.Live.Session.{Session, Setup}
use audio_plugins_jl.Live.Lifecycle.{
  StartAnswers, is_ok, audio_begin, start_arm, stop_finish, close,
}
use audio_plugins_jl.Live.System.{
  idle, Worker, absent, leaving, exited, System, joined, Step, writes, reads, start_returns,
  start_spawns, start_succeeds, start_fails, stop_returns, stop_waits, stop_joins, serves, closes,
  enters, sees_stop, ticks, streams, timer_round, hardware_round, waits_in_vain, leaves,
  after_begin, after_block,
}
use audio_plugins_jl.Live.System.Monitor.{PluginState, active, on_stop, monitored}
use audio_plugins_jl.Live.System.Effects.{
  Life, life, Leads-try_read, Leads-try_write, Leads-serve_callback, Leads-audio_end,
}
use audio_plugins_jl.Live.System.Standing.{
  is_absent, is_entering, Place, Stand, activated_of, entering_of, absent_of, Stand-worker,
  begin_places, block_places,
}
use audio_plugins_jl.Live.System.WorkerEffects.{
  Leads-process_block, Leads-timer_round, Leads-audio_begin, entered,
}
use audio_plugins_jl.Live.System.ControlEffects.{
  Arms, still_resting, resting, start_arm-Arms, start_arm-unchanged, stop_begin-waits,
  stop_begin-returns, stop_finish-resting,
}

pub record Inv {P D S : Type 0} (s : System (P × PluginState) D S) : Type 0 where
  pub driver : s.session.config.driver ≢ driver_device
  pub place : Place s.worker (life s.session)
  pub stand : Stand s.control s.worker s.session.stop

same_driver :
    {D : Type 0} {c d : Setup D}
    → d ≡ c
    → c.config.driver ≢ driver_device
    → d.config.driver ≢ driver_device
same_driver {D} e = subst (λ (c : Setup D). c.config.driver ≢ driver_device) (sym e)

module _ {P D S : Type 0} where
  close_free :
      (s : Session (P × PluginState) D S) (self : ℕ) → close s self ≡ ok → s.activated ≡ false
  unfolding close
  close_free s self h = ground (arith, h)

  -- A call between steps of the worker, on a control thread that is otherwise idle.
  idle_call :
      (s : System (P × PluginState) D S) (t : Session (P × PluginState) D S)
      → Inv s
      → s.control ≡ idle
      → t.setup ≡ s.session.setup
      → Place s.worker (life t)
      → Inv (record s { session = t })
  idle_call s t v e same place = record {
    driver = same_driver same v.driver;
    place = place;
    stand =
        subst (λ c. Stand c s.worker t.stop) (sym e)
          (subst (λ c. Stand c s.worker s.session.stop) e v.stand);
  }

  idle_keeps :
      (s : System (P × PluginState) D S) (t : Session (P × PluginState) D S)
      → Inv s
      → s.control ≡ idle
      → (life t ≡ life s.session) × (t.setup ≡ s.session.setup)
      → Inv (record s { session = t })
  idle_keeps s t v e (same_life, same) =
      idle_call s t v e same (subst (Place s.worker) (sym same_life) v.place)

  -- A step of a worker that is there and stays so.
  worker_step :
      (s : System (P × PluginState) D S) (t : Session (P × PluginState) D S) (w : Worker)
      → Inv s
      → is_absent s.worker ≡ false
      → is_absent w ≡ false
      → is_entering w ≡ false
      → t.setup ≡ s.session.setup
      → (s.session.stop ≡ true → t.stop ≡ true)
      → Place w (life t)
      → Inv (record s { session = t; worker = w })
  worker_step s t w v there there' past same keep place = record {
    driver = same_driver same v.driver;
    place = place;
    stand = Stand-worker s.control s.worker w s.session.stop t.stop there there' past keep v.stand;
  }

  module _ ⦃f : DoubleOps D⦄ (ops : PluginOps P D S) where
    joined-resting :
        (s : Session (P × PluginState) D S) (polling : Bool)
        → s.plugin.1 ≡ active
        → s.config.driver ≢ driver_device
        → (life (joined (monitored ops) s polling) ≡ resting s.ready)
          × ((joined (monitored ops) s polling).setup ≡ s.setup)
    unfolding joined
    joined-resting s false turn driver = stop_finish-resting ops s turn driver
    joined-resting s true turn driver =
        let (rest, same) = stop_finish-resting ops s turn driver in
        let l = Leads-serve_callback ops (stop_finish (monitored ops) s) in
        (l.life_is ∙ rest, l.setup_is ∙ same)

    -- A start that goes ahead finds no worker, and spawns one or leaves the session at rest.
    started :
        (s : System (P × PluginState) D S) (a : StartAnswers)
        (x : Option Status × Session (P × PluginState) D S)
        → Inv s
        → start_arm (monitored ops) s.session s.session.control a ≡ x
        → ((s.worker ≡ absent) × Arms x.0 x.1 × (x.1.setup ≡ s.session.setup))
          ⊎ ((r : Status) × (x ≡ (some r, s.session)))
    started s a x v armed = elim (Bool-cases s.session.activated) [
      | inl busy ↦
          let (r, e) = start_arm-unchanged ops s.session s.session.control a busy in
          inr (r, sym armed ∙ e)
      | inr free ↦
          let gone : s.worker ≡ absent =
            absent_of s.worker
              (ground (arith, activated_of s.worker (life s.session) v.place, free)) in
          let (arms, same) =
            start_arm-Arms ops s.session s.session.control a
              (subst (λ w. Place w (life s.session)) gone v.place) v.driver in
          inl (
            gone,
            subst (λ (y : Option Status × Session (P × PluginState) D S). Arms y.0 y.1) armed arms,
            ap (λ (y : Option Status × Session (P × PluginState) D S). y.1.setup) (sym armed)
                ∙ same,
          )
    ]

    -- Each step keeps it.
    pub Step-Inv : {s t : System (P × PluginState) D S} → Inv s → Step (monitored ops) s t → Inv t
    unfolding hardware_round
    Step-Inv {s} v (writes samples events n sequence e) =
        let l = Leads-try_write s.session s.session.control samples events n sequence in
        idle_keeps s _ v e (l.life_is, l.setup_is)
    Step-Inv {s} v (reads samples places e) =
        let l = Leads-try_read s.session s.session.control samples places in
        idle_keeps s _ v e (l.life_is, l.setup_is)
    Step-Inv {s} v (start_returns a r t e armed) = elim (started s a (some r, t) v armed) [
      | inl (gone, rest, same) ↦
          idle_call s t v e same (subst (λ w. Place w (life t)) (sym gone) rest)
      | inr (r', kept) ↦ idle_keeps s t v e (
        ap (λ (y : Option Status × Session (P × PluginState) D S). life y.1) kept,
        ap (λ (y : Option Status × Session (P × PluginState) D S). y.1.setup) kept,
      )
    ]
    Step-Inv {s} v (start_spawns a t e armed) = elim (started s a (none, t) v armed) [
      | inl (gone, up, same) ↦ record {
        driver = same_driver same v.driver;
        place = up;
        stand = refl;
      }
      | inr (r, kept) ↦
          absurd
            (ground (arith, ap (λ (y : Option Status × Session (P × PluginState) D S). y.0) kept))
    ]
    Step-Inv {s} v (start_succeeds e ready fine) = record {
      driver = v.driver;
      place = v.place;
      stand = entering_of s.worker (life s.session) v.place ready;
    }
    Step-Inv {s} v (start_fails t e ready _ h) =
        let (busy, same_life, same, told) = stop_begin-waits s.session t s.session.control h in
        record {
          driver = same_driver same v.driver;
          place = subst (Place s.worker) (sym same_life) v.place;
          stand = (
            subst (λ c. Stand c s.worker s.session.stop) e v.stand,
            entering_of s.worker (life s.session) v.place ready,
            told,
          );
        }
    Step-Inv {s} v (stop_returns r t e h) =
        idle_keeps s t v e (stop_begin-returns s.session t s.session.control r h)
    Step-Inv {s} v (stop_waits t polling e _ h) =
        let (busy, same_life, same, told) = stop_begin-waits s.session t s.session.control h in
        record {
          driver = same_driver same v.driver;
          place = subst (Place s.worker) (sym same_life) v.place;
          stand = (
            ground (arith, activated_of s.worker (life s.session) v.place, busy),
            subst (λ c. Stand c s.worker s.session.stop) e v.stand,
            told,
          );
        }
    Step-Inv {s} v (stop_joins polling e gone) =
        let there = subst (λ w. Place w (life s.session)) gone v.place in
        let (rest, same) =
          joined-resting s.session polling (ap (λ (l : Life). l.plugin) there) v.driver in
        record {
          driver = same_driver same v.driver;
          place = still_resting (joined (monitored ops) s.session polling) s.session.ready rest;
          stand = refl;
        }
    Step-Inv {s} v (serves e) =
        let l = Leads-serve_callback ops s.session in idle_keeps s _ v e (l.life_is, l.setup_is)
    Step-Inv {s} v (closes e h) =
        let free : s.session.activated ≡ false = close_free s.session s.session.control h in
        record {
          driver = v.driver;
          place = v.place;
          stand =
              absent_of s.worker
                (ground (arith, activated_of s.worker (life s.session) v.place, free));
        }
    Step-Inv {s} v (enters a e) =
        let there = subst (λ w. Place w (life s.session)) e v.place in
        let l = Leads-audio_begin ops s.session a (ap (λ (x : Life). x.plugin) there) in
        let r = (audio_begin (monitored ops) s.session a).0 in
        let (there', past, place) = begin_places (is_ok r) in
        worker_step s _ (after_begin r) v (ap is_absent e) there' past l.setup_is l.stop_stays (
          subst (Place (after_begin r))
            (sym (ap (λ (x : Life). record x { ready = true }) (l.life_is ∙ ap (entered r) there)))
            place)
    Step-Inv {s} v (sees_stop e told) =
        worker_step s s.session leaving v (ap is_absent e) refl refl refl (λ h. h)
          (subst (λ w. Place w (life s.session)) e v.place)
    Step-Inv {s} v (ticks spent late e _) =
        let there = subst (λ w. Place w (life s.session)) e v.place in
        let l = Leads-timer_round ops s.session spent late (ap (λ (x : Life). x.plugin) there) in
        let r = (timer_round (monitored ops) s.session spent late).0 in
        let (there', past, place) = block_places (is_ok r) _ (l.life_is ∙ there) in
        worker_step s _ (after_block r) v (ap is_absent e) there' past l.setup_is l.stop_stays place
    Step-Inv {s} v (streams output capture sequence spent e _) =
        let there = subst (λ w. Place w (life s.session)) e v.place in
        let l =
          Leads-process_block ops (record (s.session) { tick = sequence }) (some output) capture
            spent (ap (λ (x : Life). x.plugin) there) in
        let r = (hardware_round (monitored ops) s.session output capture sequence spent).0 in
        let (there', past, place) = block_places (is_ok r) _ (l.life_is ∙ there) in
        worker_step s _ (after_block r) v (ap is_absent e) there' past l.setup_is l.stop_stays place
    Step-Inv {s} v (waits_in_vain r e _ _ _) =
        worker_step s _ leaving v (ap is_absent e) refl refl refl (λ h. refl)
          (subst (λ w. Place w (life s.session)) e v.place)
    Step-Inv {s} v (leaves failed e) =
        let l = Leads-audio_end ops s.session failed in
        worker_step s _ exited v (ap is_absent e) refl refl l.setup_is l.stop_stays (
          l.life_is
          ∙ ap (λ (x : Life). record x { phase = finished; plugin = on_stop x.plugin })
              (subst (λ w. Place w (life s.session)) e v.place))
