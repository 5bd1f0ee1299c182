-- ===== src/Host/Runs.antt =====
-- Any sequence of calls of csrc/clap_host.c, which the caller serialises.
pub mod Handles
pub mod Calls
pub mod Copied
pub mod Events
pub mod Stale
pub mod Tracked
pub mod Users
use audio_plugins_jl.Base.{ℕ, Bool, Option}
use audio_plugins_jl.Host.Types.{Bytes, Doubles, Floats, PluginOps, Bundle}
use audio_plugins_jl.Host.Query.{Query, Command}
use audio_plugins_jl.Host.Instances.{
  Host, query_for, command_for, command_default, open_instance, close_instance, scan_default,
  open_default, close_default, in_copy,
}

module _ {P D S : Type 0} ⦃f : Doubles D⦄ ⦃g : Floats D S⦄ (ops : PluginOps P D S) where
  pub data Step (h : Host P D S) : Host P D S → Type 0 where
    asks : (handle : D) (q : Query D) → Step h (query_for ops handle q h).1
    commands : (handle : D) (q : Command D) → Step h (command_for ops handle q h).1
    commands_default : (q : Command D) → Step h (command_default ops q h).1
    opens :
        (b : Bundle P) (memory : Bool) (path : Bytes) (id : Option Bytes) (rate size chans : D)
        → Step h (open_instance ops b memory path id rate size chans h).1
    closes : (handle : D) → Step h (close_instance ops handle h)
    scans : (b : Bundle P) (path : Bytes) → Step h (scan_default ops b path h).1
    opens_default :
        (b : Bundle P) (path : Bytes) (id : Option Bytes) (rate size chans : D)
        → Step h (open_default ops b path id rate size chans h).1
    closes_default : Step h (close_default ops h)
    copies : (dst src dep : D) → Step h (in_copy ops dst src dep h).1

  pub data Reach (h : Host P D S) : Host P D S → Type 0 where
    here : Reach h h
    next : {t u : Host P D S} → Reach h t → Step t u → Reach h u
