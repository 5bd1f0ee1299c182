-- ===== src/Lv2/Midi.antt =====
-- `lv2_in_midi` of csrc/lv2_host.c: a MIDI event for the armed block.
use audio_plugins_jl.Base.{
  ℕ, suc, ◌+◌, ◌-◌, ◌%◌, ◌^◌, Bool, true, false, not, ◌&&◌, ◌||◌, List, [], ◌∷◌, ◌++◌, none, some,
  length, ltb, leb, ◌==◌, if◌then◌else◌,
}
use audio_plugins_jl.Base.Loops.{update}
use audio_plugins_jl.Base.Words.{sub32}
use audio_plugins_jl.Host.Types.{ℤ, pos, negsuc, index_below, Bytes, Doubles}
use audio_plugins_jl.Lv2.State.{
  State, Slot, atom_size, atom_event_size, MidiRefusal, port_no_number, not_atom_port,
  not_atom_input, no_midi_port, frame_no_number, frame_outside, out_of_order, byte_after_gap,
  no_midi_byte, no_status_byte, no_data_byte, no_bytes, variable_length, undefined_status,
  wrong_length, sequence_full, midi_error, plugin_closed, no_armed_block, set_error,
}
use audio_plugins_jl.Lv2.Input.{is_armed}

-- What one of the checks gives, or why the event is refused.
pub data Checked (A : Type 0) : Type 0 where
  refused : MidiRefusal → Checked A
  accepted : A → Checked A

-- The bytes of a complete message: -1 for variable length, 0 for an undefined status.
unfoldable pub midi_msg_len : ℕ → ℤ
midi_msg_len st =
    if ltb st 0xc0
    then pos 3
    else if ltb st 0xe0
    then pos 2
    else if ltb st 0xf0
    then pos 3
    else if leb 0xf8 st
    then pos 1
    else if st == 0xf1 || st == 0xf3
    then pos 2
    else if st == 0xf2
    then pos 3
    else if st == 0xf6
    then pos 1
    else if st == 0xf0 || st == 0xf7
    then negsuc 0
    else pos 0

-- The checks of byte `i`, and the byte: a conversion to uint8_t.
unfoldable pub check_byte : ℕ → ℤ → Checked ℕ
check_byte i (pos b) =
    if ltb 0xff b
    then refused no_midi_byte
    else if i == 0 && ltb b 0x80
    then refused no_status_byte
    else if ltb 0 i && ltb 0x7f b
    then refused no_data_byte
    else accepted b
check_byte i (negsuc b) = if i == 0 then refused no_status_byte else accepted (255 - b % 256)

-- The length of the message against its status.
unfoldable pub check_message : Bytes → Checked Bytes
unfolding midi_msg_len
check_message [] = refused no_bytes
check_message (st ∷ rest) = elim (midi_msg_len st) [
  | negsuc n ↦ refused variable_length
  | pos want ↦
      if want == 0
      then refused undefined_status
      else if length (st ∷ rest) == want
      then accepted (st ∷ rest)
      else refused wrong_length
]

-- `pad` is `lv2_atom_pad_size`. The event goes to the padded end of the sequence.
unfoldable pub append_event : (ℕ → ℕ) → ℕ → ℕ → Bytes → Slot → Checked Slot
append_event pad kind frame msg slot =
    let capacity = (slot.cap - atom_size) % 2 ^ 32 in
    let total = atom_event_size + length msg in
    if ltb (sub32 capacity slot.size) total
    then refused sequence_full
    else accepted (record slot {
      events =
          slot.events
          ++ record { offset = atom_size + pad slot.size; frame = frame; kind = kind; bytes = msg }
            ∷ [];
      size = slot.size + pad total;
      last = some frame;
      count = suc slot.count;
    })

module _ {D : Type 0} ⦃f : Doubles D⦄ where
  -- The bytes from `i` on, after those in `msg`; a gap ends the message.
  unfoldable pub read_message : ℕ → Bool → List D → Bytes → Checked Bytes
  unfolding check_byte
  read_message i ended [] msg = accepted msg
  read_message i ended (x ∷ xs) msg =
      let skip = read_message (suc i) true xs msg in
      if not (f.is_finite x) || f.less x (f.of_ℕ 0)
      then skip
      else if ended
      then refused byte_after_gap
      else elim (check_byte i (f.to_long (f.add x f.half))) [
        | refused why ↦ refused why
        | accepted b ↦ read_message (suc i) ended xs (msg ++ b ∷ [])
      ]

module _ {P D S : Type 0} ⦃f : Doubles D⦄ where
  -- The slot of the port: an atom input that takes MIDI.
  unfoldable pub check_midi_port : D → State P D S → Checked ℕ
  check_midi_port port s =
      if not (f.is_finite port)
      then refused port_no_number
      else elim (index_below (f.to_long (f.add port f.half)) s.n_ports) [
        | none ↦ refused not_atom_port
        | some k ↦ elim (s.atom_slot k) [
          | none ↦ refused not_atom_port
          | some i ↦
              if not (s.slots i).is_input
              then refused not_atom_input
              else if not (s.slots i).midi
              then refused no_midi_port
              else accepted i
        ]
      ]

  -- The frame: in the block, and not before the last event's.
  unfoldable pub check_frame : D → Slot → State P D S → Checked ℕ
  check_frame frame slot s =
      if not (f.is_finite frame)
      then refused frame_no_number
      else elim (index_below (f.to_long (f.add frame f.half)) s.block) [
        | none ↦ refused frame_outside
        | some n ↦ elim slot.last [
          | none ↦ accepted n
          | some last ↦ if ltb n last then refused out_of_order else accepted n
        ]
      ]

  -- The checks of an event in the order of the source, and the slot that holds it.
  unfoldable pub place_event : (ℕ → ℕ) → D → D → List D → State P D S → Checked (ℕ × Slot)
  unfolding check_midi_port check_frame read_message check_message append_event
  place_event pad port frame bytes s = elim (check_midi_port port s) [
    | refused why ↦ refused why
    | accepted i ↦ elim (check_frame frame (s.slots i) s) [
      | refused why ↦ refused why
      | accepted n ↦ elim (read_message 0 false bytes []) [
        | refused why ↦ refused why
        | accepted got ↦ elim (check_message got) [
          | refused why ↦ refused why
          | accepted msg ↦ elim (append_event pad s.u_midievent n msg (s.slots i)) [
            | refused why ↦ refused why
            | accepted slot ↦ accepted (i, slot)
          ]
        ]
      ]
    ]
  ]

  -- A refusal past the test of the token spoils the armed block.
  abbrev pub midi_refused : MidiRefusal → State P D S → D × State P D S
  midi_refused why s = (f.nan, record s { err = some (midi_error why); midi_bad = true })

  unfoldable pub lv2_in_midi : (ℕ → ℕ) → D → D → D → D → D → D → State P D S → D × State P D S
  unfolding is_armed place_event
  lv2_in_midi pad dep port frame b0 b1 b2 s =
      if not s.is_open
      then (f.nan, set_error plugin_closed s)
      else if not (is_armed dep s)
      then (f.nan, set_error no_armed_block s)
      else elim (place_event pad port frame (b0 ∷ b1 ∷ b2 ∷ []) s) [
        | refused why ↦ midi_refused why s
        | accepted placed ↦ (dep, record s { slots = update s.slots placed.0 placed.1 })
      ]
