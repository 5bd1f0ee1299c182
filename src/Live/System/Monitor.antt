-- ===== src/Live/System/Monitor.antt =====
-- The life of a plugin as vendor/clap/plugin.h states it, watched beside any plugin: it is activated
-- while inactive, starts and stops processing while active, processes in between, and is
-- deactivated when it is not processing. A call out of turn breaks it for good.
use audio_plugins_jl.Base.{Bool, true, false}
use audio_plugins_jl.Live.Types.{PluginOps}

pub data PluginState : Type 0 where
  inactive active processing broken : PluginState

abbrev pub on_activate : PluginState → Bool → PluginState
on_activate inactive true = active
on_activate inactive false = inactive
on_activate _ _ = broken

abbrev pub on_start : PluginState → Bool → PluginState
on_start active true = processing
on_start active false = active
on_start _ _ = broken

abbrev pub on_process : PluginState → PluginState
on_process processing = processing
on_process _ = broken

abbrev pub on_stop : PluginState → PluginState
on_stop processing = active
on_stop _ = broken

abbrev pub on_deactivate : PluginState → PluginState
on_deactivate active = inactive
on_deactivate _ = broken

-- The plugin `ops` with its life recorded beside its state.
abbrev pub monitored : {P D S : Type 0} → PluginOps P D S → PluginOps (P × PluginState) D S
monitored ops = record {
  activate = λ p rate low high.
      let r = ops.activate p.0 rate low high in (r.0, r.1, (r.2, on_activate p.1 r.0));
  start_processing = λ p. let r = ops.start_processing p.0 in (r.0, r.1, (r.2, on_start p.1 r.0));
  process = λ p a.
      let r = ops.process p.0 a in
      record {
        status = r.status;
        outputs = r.outputs;
        calls = r.calls;
        next = (r.next, on_process p.1);
      };
  stop_processing = λ p. let r = ops.stop_processing p.0 in (r.0, (r.1, on_stop p.1));
  deactivate = λ p. let r = ops.deactivate p.0 in (r.0, (r.1, on_deactivate p.1));
  on_main_thread = λ p. let r = ops.on_main_thread p.0 in (r.0, (r.1, p.1));
  latency = λ p. ops.latency p.0;
  audio_latency = λ p. ops.audio_latency p.0;
}
