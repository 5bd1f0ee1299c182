-- ===== src/Host/Tokens.antt =====
-- The tokens of csrc/clap_host.c: what a block is called, and which block a call is about.
use audio_plugins_jl.Base.{ℕ, ◌+◌, ◌-◌, ◌^◌, Bool, leb, if◌then◌else◌}
use audio_plugins_jl.Host.Types.{Doubles, token_space}
use audio_plugins_jl.Host.State.{Ctx, set_err}

-- 9007199254740991.0, up to which whole numbers are exact.
abbrev pub exact_max : ℕ
exact_max = 2 ^ 53 - 1

module _ {D : Type 0} ⦃f : Doubles D⦄ where
  unfoldable pub next_token : {P S : Type 0} → Ctx P D S → D → D × Ctx P D S
  next_token c previous =
      if c.legacy
      then (f.add previous (f.of_ℕ 1), c)
      else if leb exact_max c.next_token
      then (f.nan, set_err token_space c)
      else (f.neg (f.of_ℕ (c.next_token + 1)), record c { next_token = c.next_token + 1 })

  unfoldable pub token_matches : Bool → D → D → Bool
  token_matches legacy dep token = f.same (if legacy then f.trunc (f.add dep f.half) else dep) token
