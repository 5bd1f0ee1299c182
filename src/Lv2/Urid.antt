-- ===== src/Lv2/Urid.antt =====
-- The URID map of csrc/lv2_host.c.
pub mod Ids
use audio_plugins_jl.Base.{
  ℕ, zero, suc, ◌-◌, Bool, List, [], ◌∷◌, ◌++◌, Option, none, some, length, get_elem?, leb,
  if◌then◌else◌,
}
use audio_plugins_jl.Host.Types.{Bytes}
use audio_plugins_jl.Host.Open.{same_bytes}

-- LV2_HOST_MAX_URIDS
abbrev pub max_urids : ℕ
max_urids = 1024

-- The position of a URI in `URIS`, from `i` on.
unfoldable pub uri_index : Bytes → List Bytes → ℕ → Option ℕ
uri_index uri [] i = none
uri_index uri (u ∷ us) i =
    let rest = uri_index uri us (suc i) in if same_bytes u uri then some i else rest

-- `urid_map`; `memory` says that `strdup` gives a copy.
unfoldable pub urid_map : Bool → Option Bytes → List Bytes → ℕ × List Bytes
urid_map memory none uris = (0, uris)
urid_map memory (some uri) uris = elim (uri_index uri uris 0) [
  | some i ↦ (suc i, uris)
  | none ↦
      if leb max_urids (length uris)
      then (0, uris)
      else if memory
      then (suc (length uris), uris ++ uri ∷ [])
      else (0, uris)
]

unfoldable pub urid_unmap : ℕ → List Bytes → Option Bytes
urid_unmap zero uris = none
urid_unmap (suc i) uris = get_elem? uris i
