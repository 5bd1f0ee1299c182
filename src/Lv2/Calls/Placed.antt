-- ===== src/Lv2/Calls/Placed.antt =====
-- The slots that `lv2_host_open` of csrc/lv2_host.c carves out of the arena, and their first headers.
use mathlib.Core.Option.{some-injective}
use audio_plugins_jl.Base.{
  ℕ, suc, ◌+◌, ◌-◌, ◌%◌, ◌^◌, ◌<◌, ◌≤◌, ◌≡◌, refl, sym, ap, subst, ◌∙◌, Bool, true, false, List, [],
  ◌∷◌, Option, none, some, ltb, leb, ltb→le, ◌==◌, if◌then◌else◌, arith,
}
use audio_plugins_jl.Base.Cases.{if_known, if_all, option_known}
use audio_plugins_jl.Base.Loops.{for_range_inv, update}
use audio_plugins_jl.Lv2.State.{State, Slot}
use audio_plugins_jl.Lv2.Atoms.{
  AtomPort, Arena, max_atom_ports, atom_buf, atom_arena_max, capacity_of, slot_of, place_atom,
  place_atoms, no_slots, head_slot, connect_atoms,
}
use audio_plugins_jl.Lv2.Calls.Room.{IsRoomy}
use audio_plugins_jl.Lv2.Calls.Kept.{IsKept}

pub record IsArena (a : Arena) : Type 0 where
  pub bounded : a.bytes ≤ atom_arena_max
  pub inside : (i : ℕ) → i < a.n_atom → (a.slots i).offset + (a.slots i).cap ≤ a.bytes
  pub whole : (i : ℕ) → i < a.n_atom → (a.slots i).cap % 8 ≡ 0
  pub least : (i : ℕ) → i < a.n_atom → atom_buf ≤ (a.slots i).cap
  pub apart :
      (j i : ℕ) → j < a.n_atom → i < j → (a.slots i).offset + (a.slots i).cap ≤ (a.slots j).offset
  pub numbered : (k i : ℕ) → a.atom_slot k ≡ some i → i < a.n_atom

capacity_whole : (n : ℕ) → capacity_of n % 8 ≡ 0
capacity_whole n = omega arith

capacity_least : (n : ℕ) → atom_buf ≤ capacity_of n
capacity_least n = ground (arith)

-- The next slot.
abbrev extended : AtomPort → Arena → Arena
extended port a = record {
  n_atom = suc a.n_atom;
  bytes = a.bytes + capacity_of port.min_size;
  slots = update a.slots a.n_atom (slot_of port a.bytes);
  atom_slot = update a.atom_slot port.index (some a.n_atom);
}

update_new : {A : Type 0} (u : ℕ → A) (n : ℕ) (v : A) → update u n v n ≡ v
update_new u n v = ground (arith)

update_old : {A : Type 0} (u : ℕ → A) (n : ℕ) (v : A) (i : ℕ) → i < n → update u n v i ≡ u i
update_old u n v i h = ground (arith, h)

update_past : {A : Type 0} (u : ℕ → A) (n : ℕ) (v : A) (i : ℕ) → n < i → update u n v i ≡ u i
update_past u n v i h = ground (arith, h)

true≢false : true ≡ false → ⊥
true≢false e = ground (arith, e)

-- What holds of the old slots and of the new one.
each_extended :
    (T : ℕ → Slot → Type 0) (u : ℕ → Slot) (n : ℕ) (v : Slot)
    → ((i : ℕ) → i < n → T i (u i))
    → T n v
    → (i : ℕ) → i < suc n
    → T i (update u n v i)
each_extended T u n v old new i lt =
    if_known (T i) (i == n)
      (λ same. let e : i ≡ n = ground (arith, same) in subst (λ k. T k v) (sym e) new)
      (λ other. let less : i < n = ground (arith, other, lt) in old i less)

extended-IsArena :
    (port : AtomPort) (a : Arena)
    → IsArena a
    → a.bytes + capacity_of port.min_size ≤ atom_arena_max
    → IsArena (extended port a)
extended-IsArena port a h fits = record {
  bounded = fits;
  inside =
      each_extended (λ _ x. x.offset + x.cap ≤ a.bytes + capacity_of port.min_size) a.slots a.n_atom
        (slot_of port a.bytes) (λ i lt. let old = h.inside i lt in omega (arith, old))
        (omega arith);
  whole =
      each_extended (λ _ x. x.cap % 8 ≡ 0) a.slots a.n_atom (slot_of port a.bytes) h.whole
        (capacity_whole port.min_size);
  least =
      each_extended (λ _ x. atom_buf ≤ x.cap) a.slots a.n_atom (slot_of port a.bytes) h.least
        (capacity_least port.min_size);
  apart = λ j i lt less.
      let old : i < a.n_atom = omega (arith, lt, less) in
      let v = slot_of port a.bytes in
      subst (λ x. x.offset + x.cap ≤ (update a.slots a.n_atom v j).offset)
        (sym (update_old a.slots a.n_atom v i old))
        (each_extended (λ j x. i < j → (a.slots i).offset + (a.slots i).cap ≤ x.offset) a.slots
          a.n_atom v (λ j lt less. h.apart j i lt less) (λ _. h.inside i old) j lt less);
  numbered = λ k i e. numbered_more k i (k == port.index) e;
}
  where
    numbered_more :
        (k i : ℕ) (same : Bool)
        → (if same then some a.n_atom else a.atom_slot k) ≡ some i
        → i < suc a.n_atom
    numbered_more k i true e = let n = some-injective a.n_atom i e in omega (arith, n)
    numbered_more k i false e = let lt = h.numbered k i e in omega (arith, lt)

-- The arena is sound, if there is one.
abbrev SoundIfPlaced : Option Arena → Type 0
SoundIfPlaced none = Unit
SoundIfPlaced (some b) = IsArena b

place_atom_sound : (port : AtomPort) (a : Arena) → IsArena a → SoundIfPlaced (place_atom port a)
unfolding place_atom
place_atom_sound port a h = if_all SoundIfPlaced (leb max_atom_ports a.n_atom) tt (
    if_all SoundIfPlaced (leb (2 ^ 32) port.min_size) tt (
      if_known SoundIfPlaced (ltb atom_arena_max (a.bytes + capacity_of port.min_size)) (λ _. tt)
        (λ fits.
          extended-IsArena port a h
            (ltb→le atom_arena_max (a.bytes + capacity_of port.min_size) fits))))

place_atoms_sound :
    (ports : List AtomPort) (a : Arena) → IsArena a → SoundIfPlaced (place_atoms ports a)
unfolding place_atoms
place_atoms_sound [] a h = h
place_atoms_sound (port ∷ ports) a h =
    option_known SoundIfPlaced (place_atom port a) (λ _. tt)
      (λ b e. place_atoms_sound ports b (subst SoundIfPlaced e (place_atom_sound port a h)))

none_placed : IsArena no_slots
none_placed = record {
  bounded = omega arith;
  inside = λ i lt. absurd (omega (arith, lt));
  whole = λ i lt. absurd (omega (arith, lt));
  least = λ i lt. absurd (omega (arith, lt));
  apart = λ j i lt less. absurd (omega (arith, lt));
  numbered = λ k i e. absurd (ground (arith, e));
}

pub place_atoms-IsArena :
    (ports : List AtomPort) (a : Arena) → place_atoms ports no_slots ≡ some a → IsArena a
place_atoms-IsArena ports a e = subst SoundIfPlaced e (place_atoms_sound ports no_slots none_placed)

module _ (pad : ℕ → ℕ) (a : Arena) (sound : IsArena a) where
  headed-IsRoomy :
      (i kind unit size : ℕ)
      → i < a.n_atom
      → ((a.slots i).is_input ≡ true → size ≡ 8)
      → IsRoomy pad
          (a.slots i)
          (record (a.slots i) { atom_type = kind; unit = unit; size = size; events = [] })
  headed-IsRoomy i kind unit size lt e = record {
    same_offset = refl;
    same_cap = refl;
    same_direction = refl;
    whole = sound.whole i lt;
    least = let l = sound.least i lt in omega (arith, l);
    most = let b = sound.bounded in let l = sound.inside i lt in omega (arith, b, l);
    padded = λ is. rw (e is) refl;
    within = λ is. let z = e is in let l = sound.least i lt in omega (arith, z, l);
    adjacent = λ is. let z = e is in omega (arith, z);
  }

module _ {P D S : Type 0} (pad : ℕ → ℕ) (a : Arena) (sound : IsArena a) where
  -- Before slot `k` is headed: those below it have room, the others are as they were placed.
  record IsHeaded (k : ℕ) (s : State P D S) : Type 0 where
    slot_count : s.n_atom ≡ a.n_atom
    same_ports : s.atom_slot ≡ a.atom_slot
    done : (i : ℕ) → i < k → IsRoomy pad (a.slots i) (s.slots i)
    left : (i : ℕ) → k ≤ i → s.slots i ≡ a.slots i

  head_step :
      (k : ℕ) (s : State P D S) (v : Slot)
      → IsHeaded k s
      → IsRoomy pad (a.slots k) v
      → IsHeaded (suc k) (record s { slots = update s.slots k v })
  head_step k s v h r = record {
    slot_count = h.slot_count;
    same_ports = h.same_ports;
    done = each_extended (λ i x. IsRoomy pad (a.slots i) x) s.slots k v h.done r;
    left = λ i more. update_past s.slots k v i more ∙ h.left i (omega (arith, more));
  }

  head_slot-IsHeaded :
      (k : ℕ) (s : State P D S) → k < a.n_atom → IsHeaded k s → IsHeaded (suc k) (head_slot k s)
  head_slot-IsHeaded k s lt h =
      let same = h.left k (omega arith) in
      if_known (IsHeaded (suc k)) (s.slots k).is_input
        (λ _.
          head_step k s
            (record (s.slots k) {
              atom_type = s.u_sequence;
              unit = s.u_frametime;
              size = 8;
              events = [];
            })
            h
            (subst
              (λ x. IsRoomy pad (a.slots k) (record x {
                atom_type = s.u_sequence;
                unit = s.u_frametime;
                size = 8;
                events = [];
              }))
              (sym same)
              (headed-IsRoomy pad a sound k s.u_sequence s.u_frametime 8 lt (λ _. refl))))
        (λ out.
          head_step k s
            (record (s.slots k) { atom_type = s.u_chunk; size = (s.slots k).cap - 8; events = [] })
            h
            (subst
              (λ x.
                IsRoomy pad (a.slots k)
                  (record x { atom_type = s.u_chunk; size = (s.slots k).cap - 8; events = [] }))
              (sym same)
              (headed-IsRoomy pad a sound k s.u_chunk (a.slots k).unit ((s.slots k).cap - 8) lt
                (λ is.
                  absurd (true≢false (sym is ∙ ap (λ (x : Slot). x.is_input) (sym same) ∙ out))))))

  pub connect_atoms-IsKept : (s : State P D S) → IsKept pad a (connect_atoms a s)
  unfolding connect_atoms
  connect_atoms-IsKept s =
      let start = record s { n_atom = a.n_atom; slots = a.slots; atom_slot = a.atom_slot } in
      let headed =
        for_range_inv (λ k t. IsHeaded k t) head_slot a.n_atom 0 a.n_atom start
          (λ k t _ lt h. head_slot-IsHeaded k t lt h) (omega arith)
          (record {
            slot_count = refl;
            same_ports = refl;
            done = λ i lt. absurd (omega (arith, lt));
            left = λ i _. refl;
          }) in
      record {
        n_atom = headed.slot_count;
        numbered = λ k i e. sound.numbered k i (sym (ap (λ u. u k) headed.same_ports) ∙ e);
        roomy = headed.done;
      }
