-- ===== src/Live/Events/Admissible/Midi.antt =====
-- The MIDI 1.0 messages that the live engine accepts, against its tests on their bytes.
use audio_plugins_jl.Base.{
  ℕ, ◌≤◌, ◌<◌, ◌≡◌, ◌≢◌, refl, ◌↔◌, ◌⊎◌, Bool, true, false, arith, leb, ltb, ◌==◌, ◌&&◌, not,
  bit_and,
}
use audio_plugins_jl.Base.Bits.{all_below, all_below_sound}
use audio_plugins_jl.Live.Types.{ok, LiveEvent}
use audio_plugins_jl.Live.Session.{Setup}
use audio_plugins_jl.Live.Events.{check_midi}

-- Two data bytes: notes, key pressure, controllers, pitch bend and song position.
abbrev HasTwo : ℕ → Type 0
HasTwo s = ((0x80 ≤ s) × (s < 0xc0)) ⊎ ((0xe0 ≤ s) × (s < 0xf0)) ⊎ (s ≡ 0xf2)

-- One: programs, channel pressure, time code and song select.
abbrev HasOne : ℕ → Type 0
HasOne s = ((0xc0 ≤ s) × (s < 0xe0)) ⊎ (s ≡ 0xf1) ⊎ (s ≡ 0xf3)

-- None: tune request and the real-time messages that MIDI 1.0 defines.
abbrev HasNone : ℕ → Type 0
HasNone s = (s ≡ 0xf6) ⊎ ((0xf8 ≤ s) × (s ≢ 0xf9) × (s ≢ 0xfd))

-- A whole message of at most three bytes that is not system exclusive.
abbrev pub IsMessage : ℕ → ℕ → ℕ → Type 0
IsMessage s b c = (HasTwo s × (b < 0x80) × (c < 0x80)) ⊎ (HasOne s × (b < 0x80)) ⊎ HasNone s

abbrev agree : Bool → Bool → Bool
agree true b = b
agree false b = not b

-- The masks of a status byte as ranges.
mask_test : ℕ → Bool
mask_test s =
    agree (bit_and s 0xe0 == 0xc0) (leb 0xc0 s && ltb s 0xe0)
    && agree (bit_and s 0xf0 == 0x80) (leb 0x80 s && ltb s 0x90)
    && agree (bit_and s 0xf0 == 0x90) (leb 0x90 s && ltb s 0xa0)

mask_table : all_below 256 mask_test ≡ true
unfolding mask_test
mask_table = refl

mask_row : (s : ℕ) → s < 256 → mask_test s ≡ true
mask_row s h = all_below_sound 256 mask_test s mask_table h

module _ {D : Type 0} where
  accepted :
      (s : Setup D) (e : LiveEvent D)
      → e.bytes 0 < 256
      → check_midi s e ≡ ok
      → IsMessage (e.bytes 0) (e.bytes 1) (e.bytes 2)
        × (s.midi_input ≡ true)
        × ((s.notes_only ≡ false) ⊎ (e.bytes 0 < 0xa0))
  unfolding check_midi mask_test
  accepted s e byte h = (
    ground (arith, mask_row (e.bytes 0) byte),
    ground (arith, mask_row (e.bytes 0) byte),
    ground (arith, mask_row (e.bytes 0) byte),
  )

  -- Exactly whole messages with data bytes below 0x80 pass, where the plugin takes MIDI, and only
  -- note messages where it takes notes only.
  pub check_midi_iff :
      (s : Setup D) (e : LiveEvent D)
      → e.bytes 0 < 256
      → (check_midi s e ≡ ok) ↔ (
          IsMessage (e.bytes 0) (e.bytes 1) (e.bytes 2)
          × (s.midi_input ≡ true)
          × ((s.notes_only ≡ false) ⊎ (e.bytes 0 < 0xa0)))
  unfolding check_midi mask_test
  check_midi_iff s e byte =
      (λ h. accepted s e byte h, λ h. ground (arith, mask_row (e.bytes 0) byte))
