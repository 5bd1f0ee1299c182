-- ===== src/Lv2/Calls.antt =====
-- Any sequence of the calls of csrc/lv2_host.c that change an open plugin's state.
pub mod Room
pub mod Kept
pub mod Each
pub mod Placed
pub mod Within
pub mod Idle
pub mod Once
use audio_plugins_jl.Base.{ℕ, List, [], ◌∷◌, Option}
use audio_plugins_jl.Host.Types.{ℤ, Doubles, Floats}
use audio_plugins_jl.Lv2.State.{State}
use audio_plugins_jl.Lv2.Input.{lv2_in_fill, lv2_in_tone}
use audio_plugins_jl.Lv2.Midi.{lv2_in_midi}
use audio_plugins_jl.Lv2.Process.{RunArgs, RunReply, lv2_process}

pub data Call (D : Type 0) : Type 0 where
  fill : Option (ℕ → D) → ℤ → ℤ → Call D
  tone : D → D → D → D → Call D
  midi : D → D → D → D → D → D → Call D
  processing : D → (ℕ → D) → (ℕ → D) → Call D

module _ {P D S : Type 0} ⦃f : Doubles D⦄ ⦃g : Floats D S⦄ (pad : ℕ → ℕ)
    (run : P → RunArgs S → RunReply P S) where
  unfoldable pub lv2_call : Call D → State P D S → D × State P D S
  lv2_call (fill samples n channels) s = lv2_in_fill samples n channels s
  lv2_call (tone t waveform freq amp) s = lv2_in_tone t waveform freq amp s
  lv2_call (midi dep port frame b0 b1 b2) s = lv2_in_midi pad dep port frame b0 b1 b2 s
  lv2_call (processing dep ids vals) s = lv2_process run dep ids vals s

  unfoldable pub lv2_calls : List (Call D) → State P D S → State P D S
  unfolding lv2_call
  lv2_calls [] s = s
  lv2_calls (c ∷ cs) s = lv2_calls cs (lv2_call c s).1
