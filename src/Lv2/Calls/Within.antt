-- ===== src/Lv2/Calls/Within.antt =====
-- Where the events of csrc/lv2_host.c lie, after any calls on an open plugin.
use audio_plugins_jl.Base.{ℕ, ◌+◌, ◌<◌, ◌≤◌, ◌≡◌, true, List, some, arith}
use audio_plugins_jl.Host.Types.{Doubles, Floats}
use audio_plugins_jl.Lv2.State.{State}
use audio_plugins_jl.Lv2.Atoms.{
  AtomPort, Arena, atom_arena_max, place_atoms, no_slots, connect_atoms,
}
use audio_plugins_jl.Lv2.Process.{RunArgs, RunReply}
use audio_plugins_jl.Lv2.Calls.{Call, lv2_calls}
use audio_plugins_jl.Lv2.Calls.Room.{IsPad, AreAdjacent}
use audio_plugins_jl.Lv2.Calls.Kept.{IsKept}
use audio_plugins_jl.Lv2.Calls.Each.{lv2_calls-IsKept}
use audio_plugins_jl.Lv2.Calls.Placed.{IsArena, place_atoms-IsArena, connect_atoms-IsKept}

-- The buffers are apart and in the arena, and the events of each input lie in its buffer, past the
-- header, one after the other.
pub record IsWithin {P D S : Type 0} (pad : ℕ → ℕ) (a : Arena) (s : State P D S) : Type 0 where
  pub bounded : a.bytes ≤ atom_arena_max
  pub inside : (i : ℕ) → i < a.n_atom → (s.slots i).offset + (s.slots i).cap ≤ a.bytes
  pub apart :
      (j i : ℕ) → j < a.n_atom → i < j → (s.slots i).offset + (s.slots i).cap ≤ (s.slots j).offset
  pub sequence :
      (i : ℕ)
      → i < a.n_atom
      → (s.slots i).is_input ≡ true
      → (8 + (s.slots i).size ≤ (s.slots i).cap)
        × AreAdjacent pad 16 (8 + (s.slots i).size) (s.slots i).events

IsKept-IsWithin :
    {P D S : Type 0} (pad : ℕ → ℕ) (a : Arena) (s : State P D S)
    → IsArena a
    → IsKept pad a s
    → IsWithin pad a s
IsKept-IsWithin pad a s sound h = record {
  bounded = sound.bounded;
  inside = λ i lt.
      let r = h.roomy i lt in
      let o = r.same_offset in
      let c = r.same_cap in let l = sound.inside i lt in omega (arith, o, c, l);
  apart = λ j i lt less.
      let li : i < a.n_atom = omega (arith, lt, less) in
      let r = h.roomy i li in
      let o = r.same_offset in
      let c = r.same_cap in
      let q = (h.roomy j lt).same_offset in
      let l = sound.apart j i lt less in omega (arith, o, c, q, l);
  sequence = λ i lt is.
      let r = h.roomy i lt in
      let c = r.same_cap in let w = r.within is in (omega (arith, c, w), r.adjacent is);
}

module _ {P D S : Type 0} ⦃f : Doubles D⦄ ⦃g : Floats D S⦄ (pad : ℕ → ℕ)
    (run : P → RunArgs S → RunReply P S) where
  -- With a padding function that rounds up to multiples of 8: after `lv2_host_open` has placed the atom
  -- ports and headed their buffers, and after any calls of lv2_in_fill, lv2_in_tone, lv2_in_midi and
  -- lv2_process, the buffers lie in the arena, which is of 64 MiB at most, and apart; and the events of
  -- each input lie in its buffer, past the header, one after the other.
  pub lv2_calls-IsWithin :
      (ports : List AtomPort) (a : Arena) (calls : List (Call D)) (s : State P D S)
      → IsPad pad
      → place_atoms ports no_slots ≡ some a
      → IsWithin pad a (lv2_calls pad run calls (connect_atoms a s))
  lv2_calls-IsWithin ports a calls s p e =
      let sound = place_atoms-IsArena ports a e in
      IsKept-IsWithin pad a (lv2_calls pad run calls (connect_atoms a s)) sound (
        lv2_calls-IsKept pad a run calls (connect_atoms a s) p (connect_atoms-IsKept pad a sound s))
