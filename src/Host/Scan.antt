-- ===== src/Host/Scan.antt =====
-- Discovery in csrc/clap_host.c: the descriptors of a bundle, copied out of its factory.
use audio_plugins_jl.Base.{
  ℕ, zero, suc, ◌-◌, Bool, true, false, not, ◌&&◌, List, [], ◌∷◌, Option, none, some, length, ltb,
  leb, ◌==◌, if◌then◌else◌, get_elem?,
}
use audio_plugins_jl.Host.Types.{
  Bytes, ℤ, index_below, desc_str, max_features, feature_str, scan_sanity, Desc, RawDesc, Bundle,
  HostError, no_path, open_failed, no_entry, incompatible, no_factory, too_many_plugins,
  out_of_memory, no_descriptors,
}
use audio_plugins_jl.Host.State.{State, Ctx, set_err}
use audio_plugins_jl.Host.Modules.{Acquired, taken, refused, acquire, unload}

-- The first `n` elements.
unfoldable pub take {ℓ} : {A : Type ℓ} → ℕ → List A → List A
take zero xs = []
take (suc n) [] = []
take (suc n) (x ∷ xs) = x ∷ take n xs

-- `snprintf(dst, size, "%s", src)`: all of the string that fits before the terminator.
unfoldable pub truncated : ℕ → Bytes → Bytes
unfolding take
truncated size s = take (size - 1) s

-- A null string is copied as an empty one.
abbrev pub field : Option Bytes → Bytes
field none = []
field (some s) = truncated desc_str s

-- The features, the first CLAP_HOST_MAX_FEATURES of them.
unfoldable pub copy_features : ℕ → List Bytes → List Bytes
copy_features zero fs = []
copy_features (suc n) [] = []
copy_features (suc n) (f ∷ fs) = truncated feature_str f ∷ copy_features n fs

unfoldable pub copy_desc : RawDesc → Desc
copy_desc d = record {
  id = field d.id;
  name = field d.name;
  vendor = field d.vendor;
  version = field d.version;
  description = field d.description;
  features = copy_features max_features d.features;
}

-- `for (i = i; i < i + n; i++)` over the factory; a missing descriptor is skipped.
unfoldable pub copy_all : (ℕ → Option RawDesc) → ℕ → ℕ → List Desc
unfolding copy_desc
copy_all descriptor zero i = []
copy_all descriptor (suc n) i =
    let rest = copy_all descriptor n (suc i) in
    elim (descriptor i) [ none ↦ rest | some d ↦ copy_desc d ∷ rest ]

abbrev pub is_empty : Bytes → Bool
is_empty [] = true
is_empty (x ∷ xs) = false

module _ {P D S : Type 0} where
  -- A failure past the opening of the library gives it back.
  unfoldable pub give_up : HostError → Ctx P D S → Bool × Ctx P D S
  give_up e c = (false, unload (set_err e c))

  -- The scan once the entry is the state's own.
  unfoldable pub scan_factory : Bundle P → Ctx P D S → Bool × Ctx P D S
  unfolding copy_all
  scan_factory b c =
      if b.has_factory
      then (let t = record c { st = record (c.st) { factory = true } } in
          if ltb scan_sanity b.plugin_count
          then give_up too_many_plugins t
          else if ltb t.st.cap_desc b.plugin_count && not b.desc_memory
          then give_up out_of_memory t
          else let found = copy_all b.descriptor b.plugin_count 0 in
            let u = record t {
              st = record (t.st) {
                cap_desc =
                    if leb b.plugin_count t.st.cap_desc then t.st.cap_desc else b.plugin_count;
                desc = found;
              };
            } in
            if length found == 0 then give_up no_descriptors u else (true, u))
      else give_up no_factory c

  -- What follows the attempt to acquire the entry.
  unfoldable pub scan_acquired : Bundle P → ℕ → Acquired → Ctx P D S → Bool × Ctx P D S
  scan_acquired b e (refused why) c = give_up why c
  scan_acquired b e (taken ms) c =
      scan_factory b
        (record c { modules = ms; st = record (c.st) { entry = some e; entry_inited = true } })

  -- The scan of the bundle `b` at a path, the state being closed: true says that descriptors were
  -- found.
  unfoldable pub scan_closed : Bundle P → Bytes → Ctx P D S → Bool × Ctx P D S
  scan_closed b path c =
      let t = record c { st = record (c.st) { desc = [] } } in
      if is_empty path then (false, set_err no_path t) else elim b.library [
        | none ↦ (false, set_err open_failed t)
        | some lib ↦
            let u = record t { st = record (t.st) { dl = some lib } } in
            elim b.entry [
              | none ↦ give_up no_entry u
              | some e ↦
                  if not b.compatible
                  then give_up incompatible u
                  else scan_acquired b e (acquire b e u.modules) u
            ]
      ]

  -- The `scan_id` family; "" out of range.
  unfoldable pub scan_field : (Desc → Bytes) → State P D S → ℤ → Bytes
  scan_field field s i = elim (index_below i (length s.desc)) [
    | none ↦ []
    | some k ↦ elim (get_elem? s.desc k) [ none ↦ [] | some d ↦ field d ]
  ]

  unfoldable pub scan_n_features : State P D S → ℤ → ℕ
  scan_n_features s i = elim (index_below i (length s.desc)) [
    | none ↦ 0
    | some k ↦ elim (get_elem? s.desc k) [ none ↦ 0 | some d ↦ length d.features ]
  ]

  unfoldable pub scan_feature : State P D S → ℤ → ℤ → Bytes
  scan_feature s i k = elim (index_below i (length s.desc)) [
    | none ↦ []
    | some row ↦ elim (get_elem? s.desc row) [
      | none ↦ []
      | some d ↦ elim (index_below k (length d.features)) [
        | none ↦ []
        | some j ↦ elim (get_elem? d.features j) [ none ↦ [] | some t ↦ t ]
      ]
    ]
  ]
