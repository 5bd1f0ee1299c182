-- ===== src/Host/Params.antt =====
-- The parameters of csrc/clap_host.c: what is queued for the next block, and when.
pub mod Chain
use audio_plugins_jl.Base.{
  ℕ, suc, ◌+◌, Bool, true, false, not, ◌&&◌, ◌||◌, Option, none, some, List, [], ◌∷◌, ◌++◌, length,
  ltb, leb, ◌==◌, if◌then◌else◌,
}
use audio_plugins_jl.Base.Loops.{update}
use audio_plugins_jl.Host.Types.{
  ℤ, pos, negsuc, ev_max, Doubles, Param, nothing_open, no_parameter, queue_full, wrong_plugin,
}
use audio_plugins_jl.Host.State.{State, Ctx, set_err}
use audio_plugins_jl.Host.Tokens.{token_matches}

-- `want != open_index`, where -1 stands for no plugin.
unfoldable pub is_index : ℤ → Option ℕ → Bool
is_index (pos n) none = false
is_index (pos n) (some k) = n == k
is_index (negsuc n) none = n == 0
is_index (negsuc n) (some k) = false

module _ {D : Type 0} ⦃f : Doubles D⦄ where
  abbrev pub is_nan : D → Bool
  is_nan x = not (f.same x x)

  -- `id >= 0.0`, which NaN is not.
  abbrev pub not_negative : D → Bool
  not_negative id = f.less (f.of_ℕ 0) id || f.same (f.of_ℕ 0) id

  -- The value is queued, or it is refused.
  unfoldable pub queue_param : D → D → List (ℕ × D) → Option (List (ℕ × D))
  queue_param id val ev =
      if not (not_negative id) || leb ev_max (length ev)
      then none
      else if is_nan val
      then none
      else some (ev ++ (f.to_u32 id, val) ∷ [])

  -- `param_pos`, from position `i` on.
  unfoldable pub param_pos : D → List (Param D) → ℕ → Option ℕ
  param_pos id [] i = none
  param_pos id (p ∷ ps) i =
      let rest = param_pos id ps (suc i) in if f.same (f.of_ℕ p.id) id then some i else rest

module _ {P D S : Type 0} ⦃f : Doubles D⦄ where
  -- The value of parameter `k`, if it has changed.
  unfoldable pub send_param : ℕ → D → D → D → Ctx P D S → D × Ctx P D S
  send_param k dep id value c =
      if is_nan (c.st.sent_val k) || not (f.same (c.st.sent_val k) value)
      then elim (queue_param id value c.st.ev) [
        | none ↦ (f.nan, set_err queue_full c)
        | some ev ↦ (
          dep,
          record c { st = record (c.st) { ev = ev; sent_val = update c.st.sent_val k value } },
        )
      ]
      else (dep, c)

  unfoldable pub set_param : D → D → D → Ctx P D S → D × Ctx P D S
  set_param dep id value c =
      if not c.st.is_open
      then (f.nan, set_err nothing_open c)
      else if not (token_matches c.legacy dep c.st.in_token) || f.same c.st.in_token (f.of_ℕ 0)
      then (f.nan, c)
      else elim (param_pos id c.st.cache 0) [
        | none ↦ (f.nan, set_err no_parameter c)
        | some k ↦ if is_nan value then (f.nan, c) else send_param k dep id value c
      ]

  unfoldable pub expect : D → D → Ctx P D S → D × Ctx P D S
  expect dep index c =
      if is_nan dep
      then (f.nan, c)
      else if not c.st.is_open
      then (f.nan, set_err nothing_open c)
      else if not (is_index (f.to_long (f.add index f.half)) c.st.open_index)
      then (f.nan, set_err wrong_plugin c)
      else (dep, c)
