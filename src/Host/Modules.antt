-- ===== src/Host/Modules.antt =====
-- The loaded modules of csrc/clap_host.c, each counted by the states that use it: `clap_entry` is
-- initialised by the first and deinitialised by the last.
pub mod Balance
pub mod Counts
use audio_plugins_jl.Base.{
  ℕ, Bool, true, false, List, [], ◌∷◌, Option, none, some, ◌==◌, if◌then◌else◌,
}
use audio_plugins_jl.Base.Words.{add32, sub32}
use audio_plugins_jl.Host.Types.{Bundle, HostError, out_of_memory, init_failed}
use audio_plugins_jl.Host.State.{Module, Ctx}

-- `refs++` on the first module with that entry; `none` without one.
unfoldable pub find_entry : ℕ → List Module → Option (List Module)
find_entry e [] = none
find_entry e (m ∷ ms) =
    let rest = find_entry e ms in
    if m.entry == e
    then some (record m { refs = add32 m.refs 1 } ∷ ms)
    else elim rest [ none ↦ none | some ms' ↦ some (m ∷ ms') ]

-- `--refs` on the first module with that entry, which leaves the list when none are left.
unfoldable pub release_entry : ℕ → List Module → List Module
release_entry e [] = []
release_entry e (m ∷ ms) =
    let rest = release_entry e ms in
    if m.entry == e
    then (if sub32 m.refs 1 == 0 then ms else record m { refs = sub32 m.refs 1 } ∷ ms)
    else m ∷ rest

-- The modules after `acquire_entry`, or why it failed.
pub data Acquired : Type 0 where
  taken : List Module → Acquired
  refused : HostError → Acquired

-- `acquire_entry`; an entry without `init` needs none.
unfoldable pub acquire : {P : Type 0} → Bundle P → ℕ → List Module → Acquired
unfolding find_entry
acquire b e ms = elim (find_entry e ms) [
  | some ms' ↦ taken ms'
  | none ↦
      if b.module_memory
      then elim b.entry_init [
        | none ↦ taken (record { entry = e; refs = 1 } ∷ ms)
        | some ok ↦ if ok then taken (record { entry = e; refs = 1 } ∷ ms) else refused init_failed
      ]
      else refused out_of_memory
]

module _ {P D S : Type 0} where
  -- What `unload` gives back.
  unfoldable pub unload : Ctx P D S → Ctx P D S
  unload c = record c {
    modules =
        if c.st.entry_inited
        then elim c.st.entry [ none ↦ c.modules | some e ↦ release_entry e c.modules ]
        else c.modules;
    st = record (c.st) { entry_inited = false; dl = none; entry = none; factory = false };
  }
