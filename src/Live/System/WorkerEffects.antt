-- ===== src/Live/System/WorkerEffects.antt =====
-- What the worker's calls leave of the facts that a session's life turns on.
use audio_plugins_jl.Base.{
  ℕ, Bool, true, false, Option, none, some, ◌≡◌, refl, sym, ap, subst, ◌∙◌, if◌then◌else◌, arith,
  Bool-cases, inl, inr,
}
use audio_plugins_jl.Live.Types.{
  Status, ok, plugin_error, finished, ProcessStatus, process_error, process_done, PluginOps,
}
use audio_plugins_jl.Live.Session.{Session}
use audio_plugins_jl.Live.Process.Calls.{requested, host_calls_requests}
use audio_plugins_jl.Live.Process.{
  process_args, process_block, fetch, overlay, run_plugin, judge, deliver, finish,
}
use audio_plugins_jl.Live.Lifecycle.{
  EntryAnswers, is_ok, set_priority, enter_device, begin_plugin, settle_begin, audio_begin,
}
use audio_plugins_jl.Live.System.{timer_round}
use audio_plugins_jl.Live.System.Monitor.{
  PluginState, active, processing, on_start, on_process, monitored,
}
use audio_plugins_jl.Live.System.Effects.{Life, life, Leads, Leads-trans, Leads-restore_priority}

-- Processing keeps a plugin processing.
same_turn : (l : Life) → l.plugin ≡ processing → record l { plugin = on_process l.plugin } ≡ l
same_turn l e =
    ap (λ x. record l { plugin = on_process x }) e ∙ sym (ap (λ x. record l { plugin = x }) e)

-- A plugin that has started, or has not.
abbrev begun : Status → Life → Life
begun r l = if is_ok r then record l { plugin = processing } else l

-- A session whose worker has come in, or is done for.
abbrev pub entered : Status → Life → Life
entered r l = if is_ok r then record l { plugin = processing } else record l { phase = finished }

started_turn :
    (b : Bool) (l : Life)
    → l.plugin ≡ active
    → record l { plugin = on_start l.plugin b } ≡ begun (if b then ok else plugin_error) l
started_turn true l e = ap (λ x. record l { plugin = on_start x true }) e
started_turn false l e =
    ap (λ x. record l { plugin = on_start x false }) e ∙ sym (ap (λ x. record l { plugin = x }) e)

module _ {P D S : Type 0} where
  Leads-set_priority :
      (s : Session (P × PluginState) D S) (refused : Bool)
      → Leads s (set_priority s refused).1 (life s)
  unfolding set_priority
  Leads-set_priority s refused = record {
    life_is = ground arith;
    setup_is = ground arith;
    stop_stays = λ h. ground arith;
  }

  Leads-enter_device :
      (r : Status) (s : Session (P × PluginState) D S) (refused : Bool)
      → Leads s (enter_device (r, s) refused).1 (life s)
  unfolding enter_device
  Leads-enter_device r s refused = record {
    life_is = ground arith;
    setup_is = ground arith;
    stop_stays = λ h. ground arith;
  }

  Leads-fetch :
      (s : Session (P × PluginState) D S) (captures : Bool) → Leads s (fetch s captures).0 (life s)
  unfolding fetch
  Leads-fetch s captures = record {
    life_is = ground arith;
    setup_is = ground arith;
    stop_stays = λ h. ground arith;
  }

  Leads-overlay :
      (capture : Option (ℕ → S)) (s : Session (P × PluginState) D S) (sequence : ℕ)
      → Leads s (overlay capture (s, sequence)).0 (life s)
  unfolding overlay
  Leads-overlay none s sequence = record { life_is = refl; setup_is = refl; stop_stays = λ h. h }
  Leads-overlay (some c) s sequence = record {
    life_is = refl;
    setup_is = refl;
    stop_stays = λ h. h;
  }

  Leads-deliver :
      (s : Session (P × PluginState) D S) (sequence : ℕ) → Leads s (deliver s sequence) (life s)
  unfolding deliver
  Leads-deliver s sequence = record {
    life_is = ground arith;
    setup_is = ground arith;
    stop_stays = λ h. ground arith;
  }

  Leads-finish : (s : Session (P × PluginState) D S) (spent : ℕ) → Leads s (finish s spent) (life s)
  unfolding finish
  Leads-finish s spent = record { life_is = refl; setup_is = refl; stop_stays = λ h. h }

  Leads-judge :
      (r : ProcessStatus) (s : Session (P × PluginState) D S) → Leads s (judge r s).1 (life s)
  unfolding judge
  Leads-judge process_error s = record { life_is = refl; setup_is = refl; stop_stays = λ h. refl }
  Leads-judge process_done s = record { life_is = refl; setup_is = refl; stop_stays = λ h. h }

  module _ (ops : PluginOps P D S) where
    Leads-run_plugin :
        (s : Session (P × PluginState) D S)
        → s.plugin.1 ≡ processing
        → Leads s (run_plugin (monitored ops) s).1 (life s)
    unfolding run_plugin
    Leads-run_plugin s turn =
        let reply = ops.process s.plugin.0 (process_args s) in
        let (r, e, h) =
          host_calls_requests reply.calls
            (record s { plugin = (reply.next, on_process s.plugin.1); out_ptr = reply.outputs }) in
        let ran =
          record (requested r
            (record s { plugin = (reply.next, on_process s.plugin.1); out_ptr = reply.outputs })) {
              latency = elim (ops.audio_latency reply.next) [ none ↦ s.latency | some l ↦ l ];
            } in
        let first : Leads s ran (life s) = record {
          life_is = same_turn (life s) turn;
          setup_is = refl;
          stop_stays = h;
        } in
        subst
          (λ (t : Session (P × PluginState) D S).
            Leads s
              (judge reply.status (record t {
                latency = elim (ops.audio_latency reply.next) [ none ↦ t.latency | some l ↦ l ];
              })).1
              (life s))
          (sym e) (Leads-trans first (Leads-judge reply.status ran) (λ k. k))

    -- The worker's call of the plugin, in its turn, leaves the session's life as it is.
    pub Leads-process_block :
        (s : Session (P × PluginState) D S) (output capture : Option (ℕ → S)) (spent : ℕ)
        → s.plugin.1 ≡ processing
        → Leads s (process_block (monitored ops) s output capture spent).2 (life s)
    unfolding process_block
    Leads-process_block s output capture spent turn = elim (Bool-cases s.stop) [
      | inl stopping ↦ rw stopping (record { life_is = refl; setup_is = refl; stop_stays = λ h. h })
      | inr going ↦
          let captures : Bool = elim capture [ none ↦ false | some c ↦ true ] in
          let (t, sequence) = overlay capture (fetch s captures) in
          let there : Leads s t (life s) =
            Leads-trans (Leads-fetch s captures)
              (Leads-overlay capture (fetch s captures).0 (fetch s captures).1) (λ k. k) in
          let ran = Leads-run_plugin t (ap (λ (l : Life). l.plugin) there.life_is ∙ turn) in
          let u = (run_plugin (monitored ops) t).1 in
          let emitted =
            Leads-trans (Leads-deliver u sequence) (Leads-finish (deliver u sequence) spent)
              (λ k. k) in
          simp going (Leads-trans (Leads-trans there ran (λ k. k)) emitted (λ k. k))
    ]

    pub Leads-timer_round :
        (s : Session (P × PluginState) D S) (spent : ℕ) (late : Bool)
        → s.plugin.1 ≡ processing
        → Leads s (timer_round (monitored ops) s spent late).1 (life s)
    unfolding timer_round
    Leads-timer_round s spent late turn =
        let l = Leads-process_block s none none spent turn in
        record {
          life_is = ground (arith, l.life_is);
          setup_is = ground (arith, l.setup_is);
          stop_stays = λ h. ground (arith, l.stop_stays h);
        }

    Leads-begin_plugin :
        (r : Status) (s : Session (P × PluginState) D S)
        → s.plugin.1 ≡ active
        → Leads s
            (begin_plugin (monitored ops) (r, s)).1
            (begun (begin_plugin (monitored ops) (r, s)).0 (life s))
    unfolding begin_plugin
    Leads-begin_plugin r s turn = elim (Bool-cases (is_ok r)) [
      | inl fine ↦
          let started = (ops.start_processing s.plugin.0).0 in
          let (q, e, h) = host_calls_requests (ops.start_processing s.plugin.0).1 (record s {
            plugin = ((ops.start_processing s.plugin.0).2, on_start s.plugin.1 started);
          }) in
          simp (fine, e)
            (record {
              life_is = started_turn started (life s) turn;
              setup_is = refl;
              stop_stays = h;
            })
      | inr failed ↦ simp failed (record { life_is = refl; setup_is = refl; stop_stays = λ h. h })
    ]

    Leads-settle_begin :
        (s t : Session (P × PluginState) D S) (r : Status) (failed : Bool)
        → Leads s t (begun r (life s))
        → Leads s
            (settle_begin (monitored ops) (r, t) failed).1
            (entered (settle_begin (monitored ops) (r, t) failed).0 (life s))
    unfolding settle_begin
    Leads-settle_begin s t r failed v = elim (Bool-cases (is_ok r)) [
      | inl fine ↦ let w : Leads s t (begun r (life s)) = v in simp fine (simp fine at w)
      | inr bad ↦
          let w : Leads s t (life s) = simp bad at v in
          let restored = Leads-trans w (Leads-restore_priority t failed) (λ k. k) in
          simp bad (record {
            life_is = ap (λ (l : Life). record l { phase = finished }) restored.life_is;
            setup_is = restored.setup_is;
            stop_stays = restored.stop_stays;
          })
    ]

    -- The worker's entry: it processes, or it has finished without the plugin processing.
    pub Leads-audio_begin :
        (s : Session (P × PluginState) D S) (a : EntryAnswers)
        → s.plugin.1 ≡ active
        → Leads s
            (audio_begin (monitored ops) s a).1
            (entered (audio_begin (monitored ops) s a).0 (life s))
    unfolding audio_begin
    Leads-audio_begin s a turn =
        let (r, t) = enter_device (set_priority s a.priority_refused) a.device_refused in
        let there : Leads s t (life s) =
          Leads-trans (Leads-set_priority s a.priority_refused)
            (Leads-enter_device (set_priority s a.priority_refused).0
              (set_priority s a.priority_refused).1 a.device_refused)
            (λ k. k) in
        let begun_there =
          Leads-begin_plugin r t (ap (λ (l : Life). l.plugin) there.life_is ∙ turn) in
        let (r', t') = begin_plugin (monitored ops) (r, t) in
        Leads-settle_begin s t' r' a.leave_failed (record {
          life_is = begun_there.life_is ∙ ap (begun r') there.life_is;
          setup_is = begun_there.setup_is ∙ there.setup_is;
          stop_stays = λ h. begun_there.stop_stays (there.stop_stays h);
        })
