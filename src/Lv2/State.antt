-- ===== src/Lv2/State.antt =====
-- `state_t` of csrc/lv2_host.c while a plugin is open, and the headers of its atom buffers.
use audio_plugins_jl.Base.{ℕ, ◌-◌, Bool, false, List, [], Option, none, some, if◌then◌else◌}
use audio_plugins_jl.Base.Loops.{for_range, update}
use audio_plugins_jl.Host.Types.{Bytes}

-- LV2_HOST_PARAM_SLOTS and the sizes of LV2_Atom, LV2_Atom_Sequence_Body and LV2_Atom_Event.
abbrev pub control_slots : ℕ
control_slots = 4

abbrev pub atom_size : ℕ
atom_size = 8

abbrev pub sequence_body_size : ℕ
sequence_body_size = 8

abbrev pub atom_event_size : ℕ
atom_event_size = 16

-- Why a MIDI event is refused: one constructor for each message of `lv2_in_midi`.
pub data MidiRefusal : Type 0 where
  port_no_number not_atom_port not_atom_input no_midi_port frame_no_number frame_outside
        out_of_order byte_after_gap no_midi_byte no_status_byte no_data_byte no_bytes
        variable_length undefined_status wrong_length sequence_full :
      MidiRefusal

-- What ERR holds.
pub data Lv2Error : Type 0 where
  plugin_closed samples_missing tone_not_finite no_armed_block refused_block : Lv2Error
  midi_error : MidiRefusal → Lv2Error

-- An event of a sequence, and the byte of the buffer that it starts at.
pub record MidiEvent : Type 0 where
  pub offset : ℕ
  pub frame : ℕ
  pub kind : ℕ
  pub bytes : Bytes

-- The buffer of an atom port: the `atom_*` fields of its slot, and what its header says. `last` is
-- `atom_last`, with none for -1.
pub record Slot : Type 0 where
  pub port : ℕ
  pub cap : ℕ
  pub offset : ℕ
  pub is_input : Bool
  pub midi : Bool
  pub count : ℕ
  pub last : Option ℕ
  pub atom_type : ℕ
  pub unit : ℕ
  pub size : ℕ
  pub events : List MidiEvent

pub record ControlInput (D : Type 0) : Type 0 where
  pub port : ℕ
  pub min : D
  pub max : D
  pub default : D
  pub name : Bytes
  pub symbol : Bytes

pub record State (P D S : Type 0) : Type 0 where
  pub inst : P
  pub is_open : Bool
  pub sample_rate : D
  pub block : ℕ
  pub chan : ℕ
  pub plugin_name : Bytes
  pub plugin_uri : Bytes
  pub n_ports : ℕ
  pub n_audio_in : ℕ
  pub n_audio_out : ℕ
  pub latency_port : Option ℕ
  pub params : List (ControlInput D)
  pub ctrl : ℕ → S
  pub is_ctrl_in : ℕ → Bool
  pub is_ctrl_out : ℕ → Bool
  pub n_atom : ℕ
  pub atom_slot : ℕ → Option ℕ
  pub slots : ℕ → Slot
  pub u_sequence : ℕ
  pub u_frametime : ℕ
  pub u_midievent : ℕ
  pub u_chunk : ℕ
  pub input : ℕ → ℕ → S
  pub output : ℕ → ℕ → S
  pub side_in : ℕ → S
  pub in_token : ℕ
  pub out_token : ℕ
  pub in_armed : Bool
  pub in_n : ℕ
  pub out_n : ℕ
  pub n_process : ℕ
  pub midi_bad : Bool
  pub err : Option Lv2Error

module _ {P D S : Type 0} where
  abbrev pub set_error : Lv2Error → State P D S → State P D S
  set_error e s = record s { err = some e }

  -- `head_atom_seq`: an empty sequence.
  abbrev pub head_atom_seq : ℕ → State P D S → State P D S
  head_atom_seq i s = record s {
    slots = update s.slots i (record (s.slots i) {
      atom_type = s.u_sequence;
      unit = s.u_frametime;
      size = sequence_body_size;
      events = [];
    });
  }

  -- `head_atom_out`: a chunk of all that follows the header.
  abbrev pub head_atom_out : ℕ → State P D S → State P D S
  head_atom_out i s = record s {
    slots = update s.slots i (record (s.slots i) {
      atom_type = s.u_chunk;
      size = (s.slots i).cap - atom_size;
      events = [];
    });
  }

  -- No event is queued in the slot.
  abbrev pub cleared : ℕ → State P D S → State P D S
  cleared i s = record s {
    slots = update s.slots i (record (s.slots i) { count = 0; last = none });
  }

  abbrev pub rehead_input : ℕ → State P D S → State P D S
  rehead_input i s = if (s.slots i).is_input then cleared i (head_atom_seq i s) else s

  -- A new block carries no events, and clears a refused one.
  unfoldable pub rehead_atom_inputs : State P D S → State P D S
  rehead_atom_inputs s = record (for_range s.n_atom 0 rehead_input s) { midi_bad = false }
