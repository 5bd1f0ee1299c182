-- ===== src/Host/Runs/Stale.antt =====
-- Handles of csrc/clap_host.c after a close, and beside each other.
use audio_plugins_jl.Base.{
  ℕ, ◌≤◌, ◌≡◌, ◌≢◌, refl, sym, ap, ◌∙◌, false, none, some, List, [], ◌∷◌, arith, ◌==◌, ◌+◌,
  Bool-cases, Option-cases, inl, inr, ==_iff,
}
use audio_plugins_jl.Host.Types.{Doubles, Floats, PluginOps, invalid_handle}
use audio_plugins_jl.Host.State.{State}
use audio_plugins_jl.Host.Tokens.{exact_max}
use audio_plugins_jl.Host.Input.{in_sample}
use audio_plugins_jl.Host.Output.{out_sample, out_rms, out_peak, out_count, out_valid, out_ok}
use audio_plugins_jl.Host.Query.{
  plugin_name, open_index, n_params, latency, sample_rate, block_size, channels, is_open,
  n_audio_in, n_audio_out, n_process, param_id, param_min, param_max, param_default, param_name,
  param_value, out_rms_of, out_peak_of, out_count_of, out_valid_of, in_sample_of, out_sample_of,
  Query, Command, command, query, refused_command, refusal,
}
use audio_plugins_jl.Host.Instances.{
  Host, find_instance, query_for, command_for, close_instance, in_copy, ctx,
}
use audio_plugins_jl.Host.Instances.Handles.{
  IsExact, Below, Gone, unlink-Gone, find_instance-Gone, find_instance-put_instance,
}
use audio_plugins_jl.Host.Runs.{Reach}
use audio_plugins_jl.Host.Runs.Handles.{IsNumbered, close_instance-Keeps, Reach-Keeps}
use audio_plugins_jl.Host.Runs.Calls.{
  query_for_missing, query_for_found, command_for_missing, command_for_found,
  close_instance_missing, close_instance_found, in_copy_source, in_copy_destination,
}

module _ {P D S : Type 0} ⦃f : Doubles D⦄ (exact : IsExact f) where
  -- A handle that finds nothing is not there.
  missing-Gone :
      (n a : ℕ) (l : List (ℕ × State P D S))
      → n ≤ exact_max + 1
      → a ≤ exact_max
      → Below n l
      → find_instance (f.of_ℕ a) l ≡ none
      → Gone a l
  unfolding find_instance
  missing-Gone n a [] le ha v e = tt
  missing-Gone n a ((k, s) ∷ l) le ha v e =
      let same = exact.same_ℕ k a (omega (arith, v.0)) ha in
      (
        ground (arith, same, e),
        missing-Gone k a l (omega (arith, v.0)) ha v.1 (ground (arith, same, e)),
      )

  -- What is found stands under the handle asked for.
  find_instance_key :
      (n a : ℕ) (l : List (ℕ × State P D S)) (x : ℕ × State P D S)
      → n ≤ exact_max + 1
      → a ≤ exact_max
      → Below n l
      → find_instance (f.of_ℕ a) l ≡ some x
      → x.0 ≡ a
  unfolding find_instance
  find_instance_key n a [] x le ha v e = ground (arith, e)
  find_instance_key n a ((k, s) ∷ l) x le ha v e =
      let same = exact.same_ℕ k a (omega (arith, v.0)) ha in
      elim (Bool-cases (k == a)) [
        | inl hit ↦ let at_k : k ≡ a = (==_iff k a).0 hit in ground (arith, same, hit, e, at_k)
        | inr miss ↦
            find_instance_key k a l x (omega (arith, v.0)) ha v.1 (ground (arith, same, miss, e))
      ]

module _ {P D S : Type 0} ⦃f : Doubles D⦄ ⦃g : Floats D S⦄ (ops : PluginOps P D S)
    (exact : IsExact f) where
  close_instance-Gone :
      (a : ℕ) (h : Host P D S)
      → IsNumbered h
      → a ≤ h.next_handle
      → Gone a (close_instance ops (f.of_ℕ a) h).instances
  close_instance-Gone a h v le =
      let top : a ≤ exact_max = omega (arith, v.exact_handle) in
      elim (Option-cases (find_instance (f.of_ℕ a) h.instances)) [
        | inl e ↦ rw (close_instance_missing ops (f.of_ℕ a) h e) (
            missing-Gone exact (h.next_handle + 1) a h.instances (omega (arith, v.exact_handle)) top
              v.below e)
        | inr (x, e) ↦ rw (close_instance_found ops (f.of_ℕ a) h x.0 x.1 e) (
            unlink-Gone exact (h.next_handle + 1) a h.instances (omega (arith, v.exact_handle)) top
              v.below)
      ]

  -- After a close and whatever follows it, the handle finds nothing.
  closed_missing :
      (h t : Host P D S) (a : ℕ)
      → IsNumbered h
      → a ≤ h.next_handle
      → Reach ops (close_instance ops (f.of_ℕ a) h) t
      → find_instance (f.of_ℕ a) t.instances ≡ none
  closed_missing h t a v le m =
      let first = close_instance-Keeps ops exact (f.of_ℕ a) h in
      let rest = Reach-Keeps ops exact m in
      let w = rest.numbered (first.numbered v) in
      let gone = rest.stays a (omega (arith, le, first.grows)) (close_instance-Gone a h v le) in
      find_instance-Gone exact (t.next_handle + 1) a t.instances (omega (arith, w.exact_handle))
        (omega (arith, le, v.exact_handle)) w.below gone

  -- Where whole numbers are exact as doubles: from a host whose handles are numbered, once a handle
  -- that it has given is closed, and whatever calls come next: a command, a query, or a copy to or
  -- from that handle answers as for an unknown handle, reports it, and changes nothing else; closing
  -- it again changes nothing.
  pub stale_handle :
      (h t : Host P D S) (a : ℕ)
      → IsNumbered h
      → a ≤ h.next_handle
      → Reach ops (close_instance ops (f.of_ℕ a) h) t
      → (q : Command D) (r : Query D) (other dep : D)
      → (command_for ops (f.of_ℕ a) q t
          ≡ (refused_command q, record t { err = some invalid_handle }))
        × (query_for ops (f.of_ℕ a) r t ≡ (refusal r, record t { err = some invalid_handle }))
        × (in_copy ops (f.of_ℕ a) other dep t ≡ (f.nan, record t { err = some invalid_handle }))
        × (in_copy ops other (f.of_ℕ a) dep t ≡ (f.nan, record t { err = some invalid_handle }))
        × (close_instance ops (f.of_ℕ a) t ≡ t)
  stale_handle h t a v le m q r other dep =
      let e = closed_missing h t a v le m in
      (
        command_for_missing ops (f.of_ℕ a) q t e,
        query_for_missing ops (f.of_ℕ a) r t e,
        in_copy_destination ops (f.of_ℕ a) other dep t e,
        in_copy_source ops other (f.of_ℕ a) dep t e,
        close_instance_missing ops (f.of_ℕ a) t e,
      )

  -- A command on handle `k` leaves what any other handle finds.
  command_for_beside :
      (h : Host P D S) (a k : ℕ) (q : Command D)
      → IsNumbered h
      → a ≤ exact_max
      → k ≤ exact_max
      → k ≢ a
      → find_instance (f.of_ℕ a) (command_for ops (f.of_ℕ k) q h).1.instances
        ≡ find_instance (f.of_ℕ a) h.instances
  command_for_beside h a k q v ha hk ne =
      elim (Option-cases (find_instance (f.of_ℕ k) h.instances)) [
        | inl e ↦ rw (command_for_missing ops (f.of_ℕ k) q h e) refl
        | inr (x, e) ↦
            let key =
              find_instance_key exact (h.next_handle + 1) k h.instances x
                (omega (arith, v.exact_handle)) hk v.below e in
            rw (command_for_found ops (f.of_ℕ k) q h x.0 x.1 e) (
              find_instance-put_instance exact (h.next_handle + 1) a x.0
                (command ops q (ctx false x.1 h)).1.st h.instances (omega (arith, v.exact_handle))
                ha (omega (arith, key, ne)) v.below)
      ]

  -- What a query answers depends on its state alone.
  query_state :
      (q : Query D) (s : State P D S) (h t : Host P D S)
      → query ops q (ctx false s t) ≡ query ops q (ctx false s h)
  unfolding query out_rms out_peak out_count out_valid in_sample out_sample out_ok
  query_state plugin_name s h t = refl
  query_state open_index s h t = refl
  query_state n_params s h t = refl
  query_state latency s h t = refl
  query_state sample_rate s h t = refl
  query_state block_size s h t = refl
  query_state channels s h t = refl
  query_state is_open s h t = refl
  query_state n_audio_in s h t = refl
  query_state n_audio_out s h t = refl
  query_state n_process s h t = refl
  query_state (param_id i) s h t = refl
  query_state (param_min i) s h t = refl
  query_state (param_max i) s h t = refl
  query_state (param_default i) s h t = refl
  query_state (param_name i) s h t = refl
  query_state (param_value d) s h t = refl
  query_state (out_rms_of d) s h t = refl
  query_state (out_peak_of d) s h t = refl
  query_state (out_count_of d) s h t = refl
  query_state (out_valid_of d) s h t = refl
  query_state (in_sample_of d i ch) s h t = refl
  query_state (out_sample_of d i ch) s h t = refl

  -- Where whole numbers are exact as doubles: on a host whose handles are numbered, a command on one
  -- handle changes no answer that a call which only reads gives for another handle.
  pub isolated_handle :
      (h : Host P D S) (a k : ℕ) (q : Command D) (r : Query D)
      → IsNumbered h
      → a ≤ exact_max
      → k ≤ exact_max
      → k ≢ a
      → (query_for ops (f.of_ℕ a) r (command_for ops (f.of_ℕ k) q h).1).0
        ≡ (query_for ops (f.of_ℕ a) r h).0
  isolated_handle h a k q r v ha hk ne =
      let t = (command_for ops (f.of_ℕ k) q h).1 in
      let beside = command_for_beside h a k q v ha hk ne in
      elim (Option-cases (find_instance (f.of_ℕ a) h.instances)) [
        | inl e ↦
            ap (λ u. u.0) (query_for_missing ops (f.of_ℕ a) r t (beside ∙ e))
            ∙ sym (ap (λ u. u.0) (query_for_missing ops (f.of_ℕ a) r h e))
        | inr (x, e) ↦
            ap (λ u. u.0) (query_for_found ops (f.of_ℕ a) r t x (beside ∙ e))
            ∙ query_state r x.1 h t
            ∙ sym (ap (λ u. u.0) (query_for_found ops (f.of_ℕ a) r h x e))
      ]
