-- ===== src/Live/Process/Calls.antt =====
-- What a plugin can change of the session by calling back: three flags and a count.
use audio_plugins_jl.Base.{ℕ, ◌≡◌, refl, sym, ap, ◌∙◌, Bool, true, List, [], ◌∷◌}
use audio_plugins_jl.Base.Words.{add32}
use audio_plugins_jl.Live.Types.{
  HostCall, request_restart, request_callback, request_process, event_push,
}
use audio_plugins_jl.Live.Session.{Session, host_call, host_calls}

pub record Requests : Type 0 where
  pub restart : Bool
  pub stop : Bool
  pub callback : Bool
  pub dropped : ℕ

module _ {P D S : Type 0} where
  abbrev pub requested : Requests → Session P D S → Session P D S
  requested r s = record s {
    restart = r.restart;
    stop = r.stop;
    callback = r.callback;
    counters = record (s.counters) { output_events_dropped = r.dropped };
  }

  abbrev requests_of : Session P D S → Requests
  requests_of s = record {
    restart = s.restart;
    stop = s.stop;
    callback = s.callback;
    dropped = s.counters.output_events_dropped;
  }

  pub host_call_lem :
      (c : HostCall) (s : Session P D S) → (r : Requests) × (host_call c s ≡ requested r s)
  unfolding host_call
  host_call_lem request_restart s = (record (requests_of s) { restart = true; stop = true }, refl)
  host_call_lem request_callback s = (record (requests_of s) { callback = true }, refl)
  host_call_lem request_process s = (requests_of s, refl)
  host_call_lem event_push s =
      (record (requests_of s) { dropped = add32 s.counters.output_events_dropped 1 }, refl)

  -- Whatever a plugin calls back, nothing but its requests is left in the session.
  pub host_calls_lem :
      (cs : List HostCall) (s : Session P D S) → (r : Requests) × (host_calls cs s ≡ requested r s)
  unfolding host_calls
  host_calls_lem [] s = (requests_of s, refl)
  host_calls_lem (c ∷ cs) s =
      let (r, e) = host_call_lem c s in
      let (r', e') = host_calls_lem cs (requested r s) in (r', rw e e')

  host_call-stop : (c : HostCall) (s : Session P D S) → s.stop ≡ true → (host_call c s).stop ≡ true
  unfolding host_call
  host_call-stop request_restart s h = refl
  host_call-stop request_callback s h = h
  host_call-stop request_process s h = h
  host_call-stop event_push s h = h

  -- A stop that is under way stays so.
  pub host_calls-stop :
      (cs : List HostCall) (s : Session P D S) → s.stop ≡ true → (host_calls cs s).stop ≡ true
  unfolding host_calls
  host_calls-stop [] s h = h
  host_calls-stop (c ∷ cs) s h = host_calls-stop cs (host_call c s) (host_call-stop c s h)

  -- Both at once.
  pub host_calls_requests :
      (cs : List HostCall) (s : Session P D S)
      → (r : Requests) × (host_calls cs s ≡ requested r s) × (s.stop ≡ true → r.stop ≡ true)
  host_calls_requests cs s =
      let (r, e) = host_calls_lem cs s in
      (r, e, λ h. sym (ap (λ (t : Session P D S). t.stop) e) ∙ host_calls-stop cs s h)
