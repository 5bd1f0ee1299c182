-- ===== src/Live/System/Safety.antt =====
-- Whatever the control thread and the worker do, the plugin is called in turn and a session closes
-- only when its worker is gone.
use audio_plugins_jl.Base.{Bool, true, false, ◌≡◌, ◌≢◌, sym, ap, subst}
use audio_plugins_jl.Live.Types.{DoubleOps, PluginOps, driver_device}
use audio_plugins_jl.Live.System.{idle, joining, closed, absent, System, Reach, here, next}
use audio_plugins_jl.Live.System.Monitor.{PluginState, inactive, broken, monitored}
use audio_plugins_jl.Live.System.Effects.{Life, life}
use audio_plugins_jl.Live.System.Standing.{is_absent, is_entering, Place, Stand, unbroken}
use audio_plugins_jl.Live.System.ControlEffects.{resting}
use audio_plugins_jl.Live.System.Invariant.{Inv, Step-Inv}

module _ {P D S : Type 0} where
  at_rest :
      {s : System (P × PluginState) D S}
      → s.control ≡ idle
      → s.worker ≡ absent
      → life s.session ≡ resting s.session.ready
      → s.session.config.driver ≢ driver_device
      → Inv s
  at_rest {s} e gone rest driver = record {
    driver = driver;
    place = subst (λ w. Place w (life s.session)) (sym gone) rest;
    stand = subst (λ c. Stand c s.worker s.session.stop) (sym e) (ap is_entering gone);
  }

  module _ ⦃f : DoubleOps D⦄ (ops : PluginOps P D S) where
    Reach-Inv : {s t : System (P × PluginState) D S} → Inv s → Reach (monitored ops) s t → Inv t
    Reach-Inv v here = v
    Reach-Inv v (next m st) = Step-Inv ops (Reach-Inv v m) st

    -- From a session at rest that a worker of its own is to drive, whatever both threads do: no call
    -- of the plugin is out of turn.
    pub plugin_in_turn :
        {s t : System (P × PluginState) D S}
        → s.control ≡ idle
        → s.worker ≡ absent
        → life s.session ≡ resting s.session.ready
        → s.session.config.driver ≢ driver_device
        → Reach (monitored ops) s t
        → t.session.plugin.1 ≢ broken
    plugin_in_turn {s} {t} e gone rest driver m =
        let v = Reach-Inv (at_rest e gone rest driver) m in
        unbroken t.worker (life t.session) v.place

    -- From a session at rest that a worker of its own is to drive, whatever both threads do: a
    -- session that has closed has no worker left to join, and its plugin is inactive.
    pub closed_alone :
        {s t : System (P × PluginState) D S}
        → s.control ≡ idle
        → s.worker ≡ absent
        → life s.session ≡ resting s.session.ready
        → s.session.config.driver ≢ driver_device
        → Reach (monitored ops) s t
        → t.control ≡ closed
        → (t.worker ≡ absent) × (t.session.plugin.1 ≡ inactive) × (t.session.joinable ≡ false)
    closed_alone {s} {t} e gone rest driver m shut =
        let v = Reach-Inv (at_rest e gone rest driver) m in
        let alone : t.worker ≡ absent = subst (λ c. Stand c t.worker t.session.stop) shut v.stand in
        let still : life t.session ≡ resting t.session.ready =
          subst (λ w. Place w (life t.session)) alone v.place in
        (alone, ap (λ (l : Life). l.plugin) still, ap (λ (l : Life). l.joinable) still)

    -- From such a session, while the control thread joins: the worker has come in, and it is told to
    -- stop.
    pub standing :
        {s t : System (P × PluginState) D S} {p : Bool}
        → s.control ≡ idle
        → s.worker ≡ absent
        → life s.session ≡ resting s.session.ready
        → s.session.config.driver ≢ driver_device
        → Reach (monitored ops) s t
        → t.control ≡ joining p
        → (is_absent t.worker ≡ false) × (is_entering t.worker ≡ false) × (t.session.stop ≡ true)
    standing {s} {t} e gone rest driver m waiting =
        let v = Reach-Inv (at_rest e gone rest driver) m in
        subst (λ c. Stand c t.worker t.session.stop) waiting v.stand
