-- ===== src/Host/Params/Chain.antt =====
-- What `clap_set_param` of csrc/clap_host.c queues, and what a new block makes of it.
use audio_plugins_jl.Base.{
  ℕ, ◌≡◌, refl, ◌∙◌, ap, true, false, not, ◌||◌, some, List, [], arith, Bool-cases, inl, inr,
}
use audio_plugins_jl.Base.Loops.{update}
use audio_plugins_jl.Host.Types.{Doubles}
use audio_plugins_jl.Host.State.{State, Ctx}
use audio_plugins_jl.Host.Tokens.{next_token, token_matches}
use audio_plugins_jl.Host.Input.{new_block}
use audio_plugins_jl.Host.Params.{queue_param, param_pos, send_param, set_param}

module _ {P D S : Type 0} ⦃f : Doubles D⦄ where
  -- What `clap_set_param` and `clap_process` ask of a block token.
  pub record IsCurrent (c : Ctx P D S) (dep : D) : Type 0 where
    pub opened : c.st.is_open ≡ true
    pub matches : token_matches c.legacy dep c.st.in_token ≡ true
    pub filled : f.same c.st.in_token (f.of_ℕ 0) ≡ false

  -- With a current token and a parameter that stands at row `k`, the change is what `send_param` does.
  set_param_sends :
      (c : Ctx P D S) (dep id value : D) (k : ℕ)
      → IsCurrent c dep
      → param_pos id c.st.cache 0 ≡ some k
      → f.same value value ≡ true
      → set_param dep id value c ≡ send_param k dep id value c
  unfolding set_param
  set_param_sends c dep id value k v pos whole =
      ground (arith, v.opened, v.matches, v.filled, pos, whole)

  send_param_held :
      (c : Ctx P D S) (k : ℕ) (dep id value : D)
      → f.same (c.st.sent_val k) (c.st.sent_val k) ≡ true
      → f.same (c.st.sent_val k) value ≡ true
      → send_param k dep id value c ≡ (dep, c)
  unfolding send_param
  send_param_held c k dep id value whole same = ground (arith, whole, same)

  send_param_queued :
      (c : Ctx P D S) (k : ℕ) (dep id value : D) (ev : List (ℕ × D))
      → queue_param id value c.st.ev ≡ some ev
      → (not (f.same (c.st.sent_val k) (c.st.sent_val k)) || not (f.same (c.st.sent_val k) value))
        ≡ true
      → send_param k dep id value c ≡ (
        dep,
        record c { st = record (c.st) { ev = ev; sent_val = update c.st.sent_val k value } },
      )
  unfolding send_param
  send_param_queued c k dep id value ev room changed = ground (arith, room, changed)

  -- A value that has been taken is remembered, whether it was queued now or before.
  record IsSent (k : ℕ) (value : D) (s : State P D S) : Type 0 where
    whole : f.same (s.sent_val k) (s.sent_val k) ≡ true
    same : f.same (s.sent_val k) value ≡ true

  send_param-IsSent :
      (c : Ctx P D S) (k : ℕ) (dep id value : D) (ev : List (ℕ × D))
      → queue_param id value c.st.ev ≡ some ev
      → f.same value value ≡ true
      → let t = (send_param k dep id value c).1 in
        IsSent k value t.st × (t.st.cache ≡ c.st.cache) × (t.st.is_open ≡ c.st.is_open)
  send_param-IsSent c k dep id value ev room whole =
      elim (Bool-cases (
        not (f.same (c.st.sent_val k) (c.st.sent_val k)) || not (f.same (c.st.sent_val k) value))) [
          | inl changed ↦
              rw (send_param_queued c k dep id value ev room changed)
                (record { whole = ground (arith, whole); same = ground (arith, whole) }, refl, refl)
          | inr held ↦
              let w : f.same (c.st.sent_val k) (c.st.sent_val k) ≡ true = ground (arith, held) in
              let s : f.same (c.st.sent_val k) value ≡ true = ground (arith, held) in
              rw (send_param_held c k dep id value w s) (record { whole = w; same = s }, refl, refl)
        ]

  new_block_keeps :
      (n : ℕ) (rows : ℕ → ℕ → S) (c : Ctx P D S)
      → let t = (new_block n rows c).1 in
        (t.st.ev ≡ []) × (t.st.sent_val ≡ c.st.sent_val) × (t.st.cache ≡ c.st.cache)
  unfolding new_block next_token
  new_block_keeps n rows c = (ground arith, ground arith, ground arith)

  -- A value that `clap_set_param` takes for one block, when a new block replaces that one before it
  -- is processed, is never given to the plugin by setting it again: on the new block
  -- `clap_set_param` answers with its token and queues nothing, for a state whose plugin declares
  -- the parameter, a whole value, room in the queue, and tokens that are current.
  pub set_param_withheld :
      (c : Ctx P D S) (dep dep' id value : D) (k n : ℕ) (rows : ℕ → ℕ → S) (ev : List (ℕ × D))
      → IsCurrent c dep
      → param_pos id c.st.cache 0 ≡ some k
      → f.same value value ≡ true
      → queue_param id value c.st.ev ≡ some ev
      → (t : Ctx P D S) → t ≡ (new_block n rows (set_param dep id value c).1).1
      → IsCurrent t dep'
      → (set_param dep' id value t ≡ (dep', t)) × (t.st.ev ≡ [])
  set_param_withheld c dep dep' id value k n rows ev v pos whole room t e v' =
      let sends = set_param_sends c dep id value k v pos whole in
      let (sent, cache, opened) = send_param-IsSent c k dep id value ev room whole in
      let (empty, kept, cache') = new_block_keeps n rows (set_param dep id value c).1 in
      let kept' : t.st.sent_val ≡ (send_param k dep id value c).1.st.sent_val =
        ap (λ x. x.st.sent_val) e ∙ kept ∙ ap (λ x. x.1.st.sent_val) sends in
      let cached : t.st.cache ≡ c.st.cache =
        ap (λ x. x.st.cache) e ∙ cache' ∙ ap (λ x. x.1.st.cache) sends ∙ cache in
      (
        set_param_sends t dep' id value k v' (ap (λ x. param_pos id x 0) cached ∙ pos) whole
            ∙ send_param_held t k dep' id value (rw kept' sent.whole) (rw kept' sent.same),
        ap (λ x. x.st.ev) e ∙ empty,
      )
