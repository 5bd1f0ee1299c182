-- ===== src/Live/Events.antt =====
-- The checks that `ap_live_try_write` makes of a block's events, in its order.
pub mod Admissible
use audio_plugins_jl.Base.{
  ℕ, zero, suc, ◌-◌, Bool, true, false, not, ◌&&◌, ◌||◌, List, [], ◌∷◌, Option, none, some, bit_and,
  ltb, leb, ◌==◌, if◌then◌else◌,
}
use audio_plugins_jl.Live.Types.{
  Status, ok, invalid, unsupported, EventType, param, midi, other, DoubleOps, LiveEvent, ParamInfo,
}
use audio_plugins_jl.Live.Session.{Setup}

-- CLAP_PARAM_IS_STEPPED and CLAP_PARAM_IS_READONLY.
abbrev pub param_is_stepped : ℕ
param_is_stepped = 1

abbrev pub param_is_readonly : ℕ
param_is_readonly = 8

-- `flags & mask`
abbrev pub has_flag : ℕ → ℕ → Bool
has_flag flags mask = not (bit_and flags mask == 0)

-- `param_info`: the first parameter of that id.
unfoldable pub param_info : {D : Type 0} → List (ParamInfo D) → ℕ → Option (ParamInfo D)
param_info [] id = none
param_info (p ∷ ps) id = if p.id == id then some p else param_info ps id

-- The bytes of a message, its status byte among them.
unfoldable pub midi_length : ℕ → ℕ
midi_length status =
    if leb 0xf8 status || status == 0xf6
    then 1
    else if bit_and status 0xe0 == 0xc0 || status == 0xf1 || status == 0xf3
    then 2
    else 3

-- `for (byte = i; byte < i + n; ++byte) if (midi[byte] >= 0x80) return AP_LIVE_INVALID`
unfoldable pub data_bytes_ok : ℕ → ℕ → (ℕ → ℕ) → Bool
data_bytes_ok zero i bytes = true
data_bytes_ok (suc n) i bytes = ltb (bytes i) 0x80 && data_bytes_ok n (suc i) bytes

module _ {D : Type 0} where
  -- The AP_LIVE_MIDI branch.
  unfoldable pub check_midi : Setup D → LiveEvent D → Status
  unfolding midi_length data_bytes_ok
  check_midi s e =
      let status = e.bytes 0 in
      if ltb status 0x80 || status == 0xf4 || status == 0xf5 || status == 0xf9 || status == 0xfd
      then invalid
      else if status == 0xf0 || status == 0xf7
      then unsupported
      else if not (data_bytes_ok (midi_length status - 1) 1 e.bytes)
      then invalid
      else if not s.midi_input
          || (s.notes_only
              && not (bit_and status 0xf0 == 0x80)
              && not (bit_and status 0xf0 == 0x90))
      then unsupported
      else ok

module _ {D : Type 0} ⦃f : DoubleOps D⦄ where
  -- The test of a value against its parameter.
  unfoldable pub value_fits : Option (ParamInfo D) → D → Bool
  value_fits none v = false
  value_fits (some p) v = not (
      has_flag p.flags param_is_readonly
      || not (f.is_finite v)
      || f.less v p.min_value
      || f.less p.max_value v
      || (has_flag p.flags param_is_stepped && not (f.same (f.truncated v) v)))

  -- The AP_LIVE_PARAM branch.
  unfoldable pub check_param : Setup D → LiveEvent D → Status
  unfolding value_fits param_info
  check_param s e =
      if s.block_parameters && not (e.frame == 0)
      then unsupported
      else if value_fits (param_info s.params e.param_id) e.value
      then ok
      else invalid

  unfoldable pub check_body : Setup D → LiveEvent D → EventType → Status
  unfolding check_param check_midi
  check_body s e param = check_param s e
  check_body s e midi = check_midi s e
  check_body s e other = unsupported

  -- The body of the loop over `events` at `i`.
  unfoldable pub check_event : Setup D → (ℕ → LiveEvent D) → ℕ → Status
  unfolding check_body
  check_event s events i =
      let e = events i in
      if leb s.config.block_size e.frame || (not (i == 0) && ltb e.frame (events (i - 1)).frame)
      then invalid
      else check_body s e e.type

  -- `for (i = i; i < i + n; ++i)`: the first check that fails decides.
  unfoldable pub check_events : Setup D → (ℕ → LiveEvent D) → ℕ → ℕ → Status
  check_events s events zero i = ok
  check_events s events (suc n) i = elim (check_event s events i) [
    | ok ↦ check_events s events n (suc i)
    | bad ↦ bad
  ]
