-- ===== src/Live/System/ControlEffects.antt =====
-- What the control thread's starting and stopping calls do to the facts that a session's life
-- turns on.
use audio_plugins_jl.Base.{
  ℕ, Bool, true, false, Option, none, some, ◌≡◌, ◌≢◌, refl, sym, ap, subst, ◌∙◌, ◌==◌,
  if◌then◌else◌, arith, ◌&&◌, Bool-cases, inl, inr,
}
use audio_plugins_jl.Live.Types.{
  Status, ok, wrong_thread, wrong_state, prepared, running, PluginOps, driver_device,
}
use audio_plugins_jl.Live.Session.{Session, Setup, host_calls, is_control}
use audio_plugins_jl.Live.Process.Calls.{host_calls_requests}
use audio_plugins_jl.Live.Lifecycle.{
  StartAnswers, may_start, activate, deactivate, launch, clear_flags, start_arm, reset_queues,
  stop_begin, stop_finish,
}
use audio_plugins_jl.Live.System.Monitor.{
  PluginState, inactive, active, on_activate, on_deactivate, monitored,
}
use audio_plugins_jl.Live.System.Effects.{Life, life, Leads, Leads-deactivate}

-- A session between runs, and one whose worker has yet to come in; `b` is whether `ready` is set.
abbrev pub resting : Bool → Life
resting b = record {
  joinable = false;
  activated = false;
  phase = prepared;
  ready = b;
  plugin = inactive;
}

abbrev pub spawned : Life
spawned = record {
  joinable = true;
  activated = true;
  phase = running;
  ready = false;
  plugin = active;
}

abbrev activated_turn : Bool → Life → Life
activated_turn b l =
    if b then record l { activated = true; phase = running; plugin = active } else l

kept_turn : (l : Life) → l.plugin ≡ inactive → record l { plugin = on_activate l.plugin false } ≡ l
kept_turn l e =
    ap (λ x. record l { plugin = on_activate x false }) e
    ∙ sym (ap (λ x. record l { plugin = x }) e)

not_device : (n : ℕ) → n ≢ driver_device → (n == driver_device) ≡ false
not_device n h = ground arith

module _ {P D S : Type 0} where
  -- What `start_arm` may leave.
  abbrev pub Arms : Option Status → Session (P × PluginState) D S → Type 0
  Arms none t = life t ≡ spawned
  Arms (some r) t = life t ≡ resting t.ready

  pub still_resting :
      (t : Session (P × PluginState) D S) (b : Bool) → life t ≡ resting b → life t ≡ resting t.ready
  still_resting t b e = e ∙ ap resting (sym (ap (λ (l : Life). l.ready) e))

  settled_activation :
      (b : Bool) (s t : Session (P × PluginState) D S) (frames : ℕ)
      → Leads s t (record (life s) { plugin = on_activate s.plugin.1 b })
      → s.plugin.1 ≡ inactive
      → let r : Bool × Session (P × PluginState) D S =
          if b
          then (true, record t { activated = true; latency = frames; phase = running })
          else (false, t) in
        Leads s r.1 (activated_turn r.0 (life s))
  settled_activation true s t frames v turn = record {
    life_is =
        ap (λ (l : Life). record l { activated = true; phase = running }) v.life_is
        ∙ ap
            (λ x. record (life s) {
              activated = true;
              phase = running;
              plugin = on_activate x true;
            })
            turn;
    setup_is = v.setup_is;
    stop_stays = v.stop_stays;
  }
  settled_activation false s t frames v turn = record {
    life_is = v.life_is ∙ kept_turn (life s) turn;
    setup_is = v.setup_is;
    stop_stays = v.stop_stays;
  }

  -- A stop that waits has found the plugin active and has told the worker.
  pub stop_begin-waits :
      (s t : Session (P × PluginState) D S) (self : ℕ)
      → stop_begin s self ≡ (none, t)
      → (s.activated ≡ true) × (life t ≡ life s) × (t.setup ≡ s.setup) × (t.stop ≡ true)
  unfolding stop_begin
  stop_begin-waits s t self e = (
    ground (arith, e),
    ap (λ (x : Option Status × Session (P × PluginState) D S). life x.1) (sym e) ∙ ground arith,
    ap (λ (x : Option Status × Session (P × PluginState) D S). x.1.setup) (sym e) ∙ ground arith,
    ground (arith, e),
  )

  pub stop_begin-returns :
      (s t : Session (P × PluginState) D S) (self : ℕ) (r : Status)
      → stop_begin s self ≡ (some r, t)
      → (life t ≡ life s) × (t.setup ≡ s.setup)
  unfolding stop_begin reset_queues
  stop_begin-returns s t self r e = (
    ap (λ (x : Option Status × Session (P × PluginState) D S). life x.1) (sym e) ∙ ground arith,
    ap (λ (x : Option Status × Session (P × PluginState) D S). x.1.setup) (sym e) ∙ ground arith,
  )

module _ {P D S : Type 0} (ops : PluginOps P D S) where
  Leads-activate :
      (s : Session (P × PluginState) D S)
      → s.plugin.1 ≡ inactive
      → Leads s
          (activate (monitored ops) s).1
          (activated_turn (activate (monitored ops) s).0 (life s))
  unfolding activate
  Leads-activate s turn =
      let reply =
        ops.activate s.plugin.0 s.config.sample_rate s.config.block_size s.config.block_size in
      let (q, e, h) =
        host_calls_requests reply.1
          (record s { plugin = (reply.2, on_activate s.plugin.1 reply.0) }) in
      let t =
        host_calls reply.1 (record s { plugin = (reply.2, on_activate s.plugin.1 reply.0) }) in
      settled_activation reply.0 s t (ops.latency t.plugin.0)
        (rw e (record { life_is = refl; setup_is = refl; stop_stays = h })) turn

  -- What the launch leaves of a session that was at rest until its plugin's activation.
  launch-Arms :
      (b : Bool) (t : Session (P × PluginState) D S) (a : StartAnswers)
      → life t ≡ activated_turn b (resting false)
      → t.config.driver ≢ driver_device
      → Arms (launch (monitored ops) (b, t) a).0 (launch (monitored ops) (b, t) a).1
        × ((launch (monitored ops) (b, t) a).1.setup ≡ t.setup)
  unfolding launch
  launch-Arms false t a e driver = (still_resting t false e, refl)
  launch-Arms true t a e driver =
      let test = not_device t.config.driver driver in
      let down = Leads-deactivate ops t in
      elim (Bool-cases a.thread_failed) [
        | inl failed ↦
            simp (test, failed)
              (
                still_resting (record (deactivate (monitored ops) t) { phase = prepared }) false
                    (ap (λ (l : Life). record l { phase = prepared }) down.life_is
                      ∙ ap
                          (λ (l : Life). record l {
                            activated = false;
                            phase = prepared;
                            plugin = on_deactivate l.plugin;
                          })
                          e),
                down.setup_is,
              )
        | inr made ↦ simp (test, made) (ap (λ (l : Life). record l { joinable = true }) e, refl)
      ]

  -- A start of a session at rest spawns the worker, or leaves the session at rest.
  pub start_arm-Arms :
      (s : Session (P × PluginState) D S) (self : ℕ) (a : StartAnswers)
      → life s ≡ resting s.ready
      → s.config.driver ≢ driver_device
      → Arms (start_arm (monitored ops) s self a).0 (start_arm (monitored ops) s self a).1
        × ((start_arm (monitored ops) s self a).1.setup ≡ s.setup)
  unfolding start_arm
  start_arm-Arms s self a rest driver =
      let t = clear_flags s in
      let clear : life t ≡ resting false = ap (λ (l : Life). record l { ready = false }) rest in
      let up = Leads-activate t (ap (λ (l : Life). l.plugin) rest) in
      go t clear up refl (may_start s self a)
    where
      go :
          (t : Session (P × PluginState) D S)
          → life t ≡ resting false
          → Leads t
              (activate (monitored ops) t).1
              (activated_turn (activate (monitored ops) t).0 (life t))
          → t.setup ≡ s.setup
          → (r : Status)
          → let x : Option Status × Session (P × PluginState) D S = elim r [
            | ok ↦ launch (monitored ops) (activate (monitored ops) t) a
            | bad ↦ (some bad, s)
          ] in
            Arms x.0 x.1 × (x.1.setup ≡ s.setup)
      go t clear up same ok =
          let (arms, kept) =
            launch-Arms (activate (monitored ops) t).0 (activate (monitored ops) t).1 a
              (up.life_is ∙ ap (activated_turn (activate (monitored ops) t).0) clear)
              (subst (λ (c : Setup D). c.config.driver ≢ driver_device) (sym (up.setup_is ∙ same))
                driver) in
          (arms, kept ∙ up.setup_is ∙ same)
      go t clear up same _ = (rest, refl)

  -- A session that is not at rest does not start.
  pub start_arm-unchanged :
      (s : Session (P × PluginState) D S) (self : ℕ) (a : StartAnswers)
      → s.activated ≡ true
      → (r : Status) × (start_arm (monitored ops) s self a ≡ (some r, s))
  unfolding start_arm may_start
  start_arm-unchanged s self a busy =
      (if is_control s self then wrong_state else wrong_thread, ground (arith, busy))

  pub stop_finish-resting :
      (s : Session (P × PluginState) D S)
      → s.plugin.1 ≡ active
      → s.config.driver ≢ driver_device
      → (life (stop_finish (monitored ops) s) ≡ resting s.ready)
        × ((stop_finish (monitored ops) s).setup ≡ s.setup)
  unfolding stop_finish reset_queues
  stop_finish-resting s turn driver =
      let test = not_device s.config.driver driver in
      let down =
        Leads-deactivate ops
          (record s { joinable = s.config.driver == driver_device && s.joinable }) in
      (
        ap (λ (l : Life). record l { phase = prepared }) down.life_is
            ∙ ap
                (λ b. record (resting s.ready) {
                  joinable = b && s.joinable;
                  plugin = on_deactivate s.plugin.1;
                })
                test
            ∙ ap (λ x. record (resting s.ready) { plugin = on_deactivate x }) turn,
        down.setup_is,
      )
