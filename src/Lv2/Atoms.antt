-- ===== src/Lv2/Atoms.antt =====
-- The atom ports of `lv2_host_open` in csrc/lv2_host.c: their slots in one arena, and their first
-- headers.
use audio_plugins_jl.Base.{
  ℕ, suc, ◌+◌, ◌*◌, ◌/◌, ◌^◌, Bool, false, List, [], ◌∷◌, Option, none, some, ltb, leb,
  if◌then◌else◌,
}
use audio_plugins_jl.Base.Loops.{for_range, update}
use audio_plugins_jl.Lv2.State.{Slot, State, head_atom_seq, head_atom_out}

-- LV2_HOST_MAX_ATOM_PORTS, LV2_HOST_ATOM_BUF and LV2_HOST_ATOM_ARENA_MAX
abbrev pub max_atom_ports : ℕ
max_atom_ports = 32

abbrev pub atom_buf : ℕ
atom_buf = 8192

abbrev pub atom_arena_max : ℕ
atom_arena_max = 64 * 1024 * 1024

-- What the plugin declares of an atom port: its index and direction, the `rsz:minimumSize` in whole
-- bytes, and whether it supports MIDI.
pub record AtomPort : Type 0 where
  pub index : ℕ
  pub is_input : Bool
  pub min_size : ℕ
  pub midi : Bool

-- The slots so far.
pub record Arena : Type 0 where
  pub n_atom : ℕ
  pub bytes : ℕ
  pub slots : ℕ → Slot
  pub atom_slot : ℕ → Option ℕ

-- The larger of the two sizes, up to a multiple of 8.
abbrev pub capacity_of : ℕ → ℕ
capacity_of size = ((if ltb atom_buf size then size else atom_buf) + 7) / 8 * 8

abbrev pub slot_of : AtomPort → ℕ → Slot
slot_of port offset = record {
  port = port.index;
  cap = capacity_of port.min_size;
  offset = offset;
  is_input = port.is_input;
  midi = port.midi;
  count = 0;
  last = none;
  atom_type = 0;
  unit = 0;
  size = 0;
  events = [];
}

-- The slot of one port: none where there are too many, or too many bytes.
unfoldable pub place_atom : AtomPort → Arena → Option Arena
place_atom port a =
    if leb max_atom_ports a.n_atom
    then none
    else if leb (2 ^ 32) port.min_size
    then none
    else if ltb atom_arena_max (a.bytes + capacity_of port.min_size)
    then none
    else some (record {
      n_atom = suc a.n_atom;
      bytes = a.bytes + capacity_of port.min_size;
      slots = update a.slots a.n_atom (slot_of port a.bytes);
      atom_slot = update a.atom_slot port.index (some a.n_atom);
    })

unfoldable pub place_atoms : List AtomPort → Arena → Option Arena
unfolding place_atom
place_atoms [] a = some a
place_atoms (port ∷ ports) a = elim (place_atom port a) [
  | none ↦ none
  | some b ↦ place_atoms ports b
]

abbrev pub no_slots : Arena
no_slots = record {
  n_atom = 0;
  bytes = 0;
  slots = λ i. record {
    port = 0;
    cap = 0;
    offset = 0;
    is_input = false;
    midi = false;
    count = 0;
    last = none;
    atom_type = 0;
    unit = 0;
    size = 0;
    events = [];
  };
  atom_slot = λ k. none;
}

module _ {P D S : Type 0} where
  abbrev pub head_slot : ℕ → State P D S → State P D S
  head_slot i s = if (s.slots i).is_input then head_atom_seq i s else head_atom_out i s

  -- The buffers are connected, and headed.
  unfoldable pub connect_atoms : Arena → State P D S → State P D S
  connect_atoms a s =
      for_range a.n_atom 0 head_slot
        (record s { n_atom = a.n_atom; slots = a.slots; atom_slot = a.atom_slot })
