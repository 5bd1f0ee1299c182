-- ===== src/Live/System/Progress.antt =====
-- A worker of csrc/clap_live.c on its way out, while a stop waits for it.
use audio_plugins_jl.Base.{
  ℕ, ◌<◌, Bool, true, false, Option, ◌≡◌, ◌≢◌, refl, sym, ap, ◌∙◌, arith, ◌⊎◌, inl, inr,
}
use audio_plugins_jl.Live.Types.{DoubleOps, PluginOps, driver_device}
use audio_plugins_jl.Live.Session.{Session}
use audio_plugins_jl.Live.Process.{process_block}
use audio_plugins_jl.Live.System.{
  Control, idle, awaiting, joining, Worker, absent, entering, looping, leaving, exited, System,
  Step, writes, reads, start_returns, start_spawns, start_succeeds, start_fails, stop_returns,
  stop_waits, stop_joins, serves, closes, enters, sees_stop, ticks, streams, waits_in_vain, leaves,
  Reach, timer_round, hardware_round, after_block,
}
use audio_plugins_jl.Live.System.Monitor.{PluginState, monitored}
use audio_plugins_jl.Live.System.Effects.{life}
use audio_plugins_jl.Live.System.ControlEffects.{resting}
use audio_plugins_jl.Live.System.Standing.{is_entering}
use audio_plugins_jl.Live.System.Safety.{standing}

-- How many steps a worker that is told to stop has left.
abbrev pub steps_left : Worker → ℕ
steps_left absent = 0
steps_left entering = 3
steps_left looping = 2
steps_left leaving = 1
steps_left exited = 0

apart_idle : (c : Control) (p : Bool) → c ≡ joining p → c ≢ idle
apart_idle c p e f = ground (arith, sym f ∙ e)

apart_awaiting : (c : Control) (p : Bool) → c ≡ joining p → c ≢ awaiting
apart_awaiting c p e f = ground (arith, sym f ∙ e)

one_less : (w w' : Worker) → w ≡ looping → w' ≡ leaving → steps_left w' < steps_left w
one_less w w' e f = rw (e, f) (omega arith)

module _ {P D S : Type 0} (ops : PluginOps P D S) where
  timer_stops :
      (s : Session P D S) (spent : ℕ) (late : Bool)
      → s.stop ≡ true
      → after_block (timer_round ops s spent late).0 ≡ leaving
  unfolding timer_round process_block
  timer_stops s spent late h = simp h

  hardware_stops :
      (s : Session P D S) (output : ℕ → S) (capture : Option (ℕ → S)) (sequence spent : ℕ)
      → s.stop ≡ true
      → after_block (hardware_round ops s output capture sequence spent).0 ≡ leaving
  unfolding hardware_round process_block
  hardware_stops s output capture sequence spent h = simp h

module _ {P D S : Type 0} ⦃f : DoubleOps D⦄ (ops : PluginOps P D S) where
  lowers :
      {t u : System P D S} (p : Bool)
      → t.control ≡ joining p
      → is_entering t.worker ≡ false
      → t.session.stop ≡ true
      → Step ops t u
      → ((u.control ≡ joining p) × (steps_left u.worker < steps_left t.worker))
        ⊎ ((u.control ≡ idle) × (u.worker ≡ absent))
  lowers {t} p e past told (writes _ _ _ _ h) = absurd (apart_idle t.control p e h)
  lowers {t} p e past told (reads _ _ h) = absurd (apart_idle t.control p e h)
  lowers {t} p e past told (start_returns _ _ _ h _) = absurd (apart_idle t.control p e h)
  lowers {t} p e past told (start_spawns _ _ h _) = absurd (apart_idle t.control p e h)
  lowers {t} p e past told (start_succeeds h _ _) = absurd (apart_awaiting t.control p e h)
  lowers {t} p e past told (start_fails _ h _ _ _) = absurd (apart_awaiting t.control p e h)
  lowers {t} p e past told (stop_returns _ _ h _) = absurd (apart_idle t.control p e h)
  lowers {t} p e past told (stop_waits _ _ h _ _) = absurd (apart_idle t.control p e h)
  lowers {t} p e past told (stop_joins _ _ _) = inr (refl, refl)
  lowers {t} p e past told (serves h) = absurd (apart_idle t.control p e h)
  lowers {t} p e past told (closes h _) = absurd (apart_idle t.control p e h)
  lowers {t} p e past told (enters a h) = absurd (ground (arith, sym past ∙ ap is_entering h))
  lowers {t} p e past told (sees_stop h _) = inl (e, one_less t.worker leaving h refl)
  lowers {t} p e past told (ticks spent late h _) =
      inl (e, one_less t.worker _ h (timer_stops ops t.session spent late told))
  lowers {t} p e past told (streams output capture sequence spent h _) =
      inl
        (e, one_less t.worker _ h (hardware_stops ops t.session output capture sequence spent told))
  lowers {t} p e past told (waits_in_vain _ h _ _ _) = inl (e, one_less t.worker leaving h refl)
  lowers {t} p e past told (leaves _ h) = inl (e, rw h (omega arith))

module _ {P D S : Type 0} ⦃f : DoubleOps D⦄ (ops : PluginOps P D S) where
  -- From a session at rest that a worker of its own is to drive: while the control thread joins,
  -- each step of either thread takes the worker nearer to its end, or ends the join.
  pub stop_lowers :
      {s t u : System (P × PluginState) D S} {p : Bool}
      → s.control ≡ idle
      → s.worker ≡ absent
      → life s.session ≡ resting s.session.ready
      → s.session.config.driver ≢ driver_device
      → Reach (monitored ops) s t
      → t.control ≡ joining p
      → Step (monitored ops) t u
      → ((u.control ≡ joining p) × (steps_left u.worker < steps_left t.worker))
        ⊎ ((u.control ≡ idle) × (u.worker ≡ absent))
  stop_lowers {s} {t} {u} {p} e gone rest driver m waiting step =
      let (there, past, told) = standing ops e gone rest driver m waiting in
      lowers (monitored ops) p waiting past told step
