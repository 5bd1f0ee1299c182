-- ===== src/Lv2/Calls/Room.antt =====
-- The room in an atom buffer of csrc/lv2_host.c.
use audio_plugins_jl.Base.{
  ℕ, ◌+◌, ◌-◌, ◌*◌, ◌/◌, ◌%◌, ◌^◌, ◌<◌, ◌≤◌, ◌≡◌, refl, sym, ap, subst, ◌∙◌, true, false, List, [],
  ◌∷◌, ◌++◌, Option, length, ltb, ltb→le, arith,
}
use audio_plugins_jl.Base.Cases.{if_known}
use audio_plugins_jl.Base.Words.{sub32}
use audio_plugins_jl.Host.Types.{Bytes}
use audio_plugins_jl.Lv2.State.{Slot, MidiEvent}
use audio_plugins_jl.Lv2.Midi.{Checked, refused, accepted, append_event}

-- `lv2_atom_pad_size` rounds up to a multiple of 8.
abbrev pub IsPad : (ℕ → ℕ) → Type 0
IsPad pad = (n : ℕ) → pad n ≡ (n + 7) / 8 * 8

-- The events lie one after the other, from byte `at` up to byte `end`.
abbrev pub AreAdjacent : (ℕ → ℕ) → ℕ → ℕ → List MidiEvent → Type 0
AreAdjacent pad at end [] = at ≡ end
AreAdjacent pad at end (e ∷ es) =
    (e.offset ≡ at) × AreAdjacent pad (at + pad (16 + length e.bytes)) end es

-- A slot with the place and the size of `q`; the sequence of an input ends in it.
pub record IsRoomy (pad : ℕ → ℕ) (q slot : Slot) : Type 0 where
  pub same_offset : slot.offset ≡ q.offset
  pub same_cap : slot.cap ≡ q.cap
  pub same_direction : slot.is_input ≡ q.is_input
  pub whole : q.cap % 8 ≡ 0
  pub least : 16 ≤ q.cap
  pub most : q.cap < 2 ^ 32
  pub padded : slot.is_input ≡ true → slot.size % 8 ≡ 0
  pub within : slot.is_input ≡ true → 8 + slot.size ≤ q.cap
  pub adjacent : slot.is_input ≡ true → AreAdjacent pad 16 (8 + slot.size) slot.events

adjacent_more :
    (pad : ℕ → ℕ) (es : List MidiEvent) (e : MidiEvent) (at end next : ℕ)
    → AreAdjacent pad at end es
    → e.offset ≡ end
    → next ≡ end + pad (16 + length e.bytes)
    → AreAdjacent pad at next (es ++ e ∷ [])
adjacent_more pad [] e at end next h o n =
    (o ∙ sym h, ap (λ x. x + pad (16 + length e.bytes)) h ∙ sym n)
adjacent_more pad (x ∷ es) e at end next h o n =
    (h.0, adjacent_more pad es e (at + pad (16 + length x.bytes)) end next h.1 o n)

room_padded :
    (cap size total : ℕ)
    → cap % 8 ≡ 0
    → 16 ≤ cap
    → cap < 2 ^ 32
    → size % 8 ≡ 0
    → 8 + size ≤ cap
    → total ≤ sub32 ((cap - 8) % 2 ^ 32) size
    → 8 + (size + (total + 7) / 8 * 8) ≤ cap
room_padded cap size total a b c d e h = omega (arith, a, b, c, d, e, h)

-- What holds of a check's result, if there is one.
abbrev pub Accepted {ℓ} : {A : Type 0} → (A → Type ℓ) → Checked A → Type ℓ
Accepted T (refused why) = Unit
Accepted T (accepted a) = T a

pub checked_all {ℓ κ} :
    {A B : Type 0} (T : A → Type ℓ) (U : B → Type κ) (c : Checked A) (k : A → Checked B)
    → Accepted T c
    → ((a : A) → T a → Accepted U (k a))
    → Accepted U (elim c [ refused why ↦ refused why | accepted a ↦ k a ])
checked_all T U (refused why) k h next = tt
checked_all T U (accepted a) k h next = next a h

pub checked_any {κ} :
    {A B : Type 0} (U : B → Type κ) (c : Checked A) (k : A → Checked B)
    → ((a : A) → Accepted U (k a))
    → Accepted U (elim c [ refused why ↦ refused why | accepted a ↦ k a ])
checked_any U (refused why) k next = tt
checked_any U (accepted a) k next = next a

pub append_event-IsRoomy :
    (pad : ℕ → ℕ) (q : Slot) (kind frame : ℕ) (msg : Bytes) (slot : Slot)
    → IsPad pad
    → IsRoomy pad q slot
    → slot.is_input ≡ true
    → Accepted (IsRoomy pad q) (append_event pad kind frame msg slot)
unfolding append_event
append_event-IsRoomy pad q kind frame msg slot p h i =
    if_known (Accepted (IsRoomy pad q))
      (ltb (sub32 ((slot.cap - 8) % 2 ^ 32) slot.size) (16 + length msg)) (λ _. tt)
      (λ room.
        let size : pad slot.size ≡ slot.size =
          let e = p slot.size in let m = h.padded i in omega (arith, e, m) in
        let total = p (16 + length msg) in
        let fits = ltb→le (sub32 ((slot.cap - 8) % 2 ^ 32) slot.size) (16 + length msg) room in
        let capacity = h.same_cap in
        record {
          same_offset = h.same_offset;
          same_cap = h.same_cap;
          same_direction = h.same_direction;
          whole = h.whole;
          least = h.least;
          most = h.most;
          padded = λ _. let m = h.padded i in omega (arith, total, m);
          within = λ _. rw (total) (
              room_padded q.cap slot.size (16 + length msg) h.whole h.least h.most (h.padded i)
                (h.within i)
                (subst (λ c. 16 + length msg ≤ sub32 ((c - 8) % 2 ^ 32) slot.size) capacity fits));
          adjacent = λ _.
              adjacent_more pad slot.events
                (record { offset = 8 + pad slot.size; frame = frame; kind = kind; bytes = msg }) 16
                (8 + slot.size) (8 + (slot.size + pad (16 + length msg))) (h.adjacent i)
                (omega (arith, size)) (omega arith);
        })

-- An empty sequence has room.
pub emptied-IsRoomy :
    (pad : ℕ → ℕ) (q slot : Slot) (kind unit : ℕ)
    → IsRoomy pad q slot
    → IsRoomy pad q (record slot { atom_type = kind; unit = unit; size = 8; events = [] })
emptied-IsRoomy pad q slot kind unit h = record {
  same_offset = h.same_offset;
  same_cap = h.same_cap;
  same_direction = h.same_direction;
  whole = h.whole;
  least = h.least;
  most = h.most;
  padded = λ _. refl;
  within = λ _. h.least;
  adjacent = λ _. refl;
}

-- A slot whose sequence is as it was.
pub recounted-IsRoomy :
    (pad : ℕ → ℕ) (q slot : Slot) (n : ℕ) (last : Option ℕ)
    → IsRoomy pad q slot
    → IsRoomy pad q (record slot { count = n; last = last })
recounted-IsRoomy pad q slot n last h = record {
  same_offset = h.same_offset;
  same_cap = h.same_cap;
  same_direction = h.same_direction;
  whole = h.whole;
  least = h.least;
  most = h.most;
  padded = h.padded;
  within = h.within;
  adjacent = h.adjacent;
}

-- The header of an output does not bear on the inputs.
pub output-IsRoomy :
    (pad : ℕ → ℕ) (q slot : Slot) (kind size : ℕ)
    → IsRoomy pad q slot
    → slot.is_input ≡ false
    → IsRoomy pad q (record slot { atom_type = kind; size = size; events = [] })
output-IsRoomy pad q slot kind size h out = record {
  same_offset = h.same_offset;
  same_cap = h.same_cap;
  same_direction = h.same_direction;
  whole = h.whole;
  least = h.least;
  most = h.most;
  padded = λ e. absurd (ground (arith, e, out));
  within = λ e. absurd (ground (arith, e, out));
  adjacent = λ e. absurd (ground (arith, e, out));
}
