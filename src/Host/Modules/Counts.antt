-- ===== src/Host/Modules/Counts.antt =====
-- The reference counts of the modules of csrc/clap_host.c: `clap_entry.deinit` runs with the last use.
use audio_plugins_jl.Base.{
  ℕ, ◌+◌, ◌-◌, ◌≤◌, ◌<◌, ◌≡◌, ◌≢◌, subst, refl, ap, ◌∙◌, sym, true, false, List, [], ◌∷◌, none,
  some, ◌==◌, if◌then◌else◌, arith, Bool-cases, Option-cases, inl, inr, ==_iff,
}
use native.Mathlib.Decide.{dec_lt}
use audio_plugins_jl.Base.Words.{u32, add32, sub32}
use audio_plugins_jl.Host.State.{Module}
use audio_plugins_jl.Host.Modules.{find_entry, release_entry}

-- The uses counted for an entry: 0 without a module of it.
unfoldable pub uses : ℕ → List Module → ℕ
uses e [] = 0
uses e (m ∷ ms) = let rest = uses e ms in if m.entry == e then m.refs else rest

-- Every module is used, less than 2^32 times, and stands once.
abbrev pub IsLive : List Module → Type 0
IsLive [] = Unit
IsLive (m ∷ ms) = (1 ≤ m.refs) × (m.refs < u32) × (uses m.entry ms ≡ 0) × IsLive ms

-- `find_entry` on a list, by its first module.
find_entry_hit :
    (e : ℕ) (m : Module) (ms : List Module)
    → (m.entry == e) ≡ true
    → find_entry e (m ∷ ms) ≡ some (record m { refs = add32 m.refs 1 } ∷ ms)
unfolding find_entry
find_entry_hit e m ms eq = ground (arith, eq)

find_entry-none :
    (e : ℕ) (m : Module) (ms : List Module)
    → (m.entry == e) ≡ false
    → find_entry e ms ≡ none
    → find_entry e (m ∷ ms) ≡ none
unfolding find_entry
find_entry-none e m ms eq rest = ground (arith, eq, rest)

find_entry-some :
    (e : ℕ) (m : Module) (ms ms' : List Module)
    → (m.entry == e) ≡ false
    → find_entry e ms ≡ some ms'
    → find_entry e (m ∷ ms) ≡ some (m ∷ ms')
unfolding find_entry
find_entry-some e m ms ms' eq rest = ground (arith, eq, rest)

pub uses_hit :
    (e : ℕ) (m : Module) (ms : List Module) → (m.entry == e) ≡ true → uses e (m ∷ ms) ≡ m.refs
unfolding uses
uses_hit e m ms eq = ground (arith, eq)

pub uses_miss :
    (e : ℕ) (m : Module) (ms : List Module) → (m.entry == e) ≡ false → uses e (m ∷ ms) ≡ uses e ms
unfolding uses
uses_miss e m ms eq = ground (arith, eq)

release_miss :
    (e : ℕ) (m : Module) (ms : List Module)
    → (m.entry == e) ≡ false
    → release_entry e (m ∷ ms) ≡ m ∷ release_entry e ms
unfolding release_entry
release_miss e m ms eq = ground (arith, eq)

release_last :
    (e : ℕ) (m : Module) (ms : List Module)
    → (m.entry == e) ≡ true
    → m.refs ≡ 1
    → release_entry e (m ∷ ms) ≡ ms
unfolding release_entry
release_last e m ms eq one =
    let r : sub32 m.refs 1 ≡ 0 = omega (arith, one) in ground (arith, eq, r)

release_more :
    (e : ℕ) (m : Module) (ms : List Module)
    → (m.entry == e) ≡ true
    → 1 < m.refs
    → m.refs < u32
    → release_entry e (m ∷ ms) ≡ record m { refs = m.refs - 1 } ∷ ms
unfolding release_entry
release_more e m ms eq more lt =
    let r : sub32 m.refs 1 ≡ m.refs - 1 = omega (arith, more, lt) in ground (arith, eq, r, more)

-- A module that does not stand there is not used.
pub missing_uses : (e : ℕ) (ms : List Module) → find_entry e ms ≡ none → uses e ms ≡ 0
unfolding uses find_entry
missing_uses e [] eq = refl
missing_uses e (m ∷ ms) eq = elim (Bool-cases (m.entry == e)) [
  | inl hit ↦ ground (arith, eq, find_entry_hit e m ms hit)
  | inr miss ↦ elim (Option-cases (find_entry e ms)) [
    | inl e' ↦ uses_miss e m ms miss ∙ missing_uses e ms e'
    | inr (ms', e') ↦ ground (arith, eq, find_entry-some e m ms ms' miss e')
  ]
]

-- The counts once the entry is used once more.
pub record Counted (e : ℕ) (more less : List Module) : Type 0 where
  pub one_more : uses e more ≡ uses e less + 1
  pub others : (d : ℕ) → d ≢ e → uses d more ≡ uses d less
  pub live : IsLive less → IsLive more

pub find_entry-Counted :
    (e : ℕ) (ms ms' : List Module)
    → uses e ms + 1 < u32
    → find_entry e ms ≡ some ms'
    → Counted e ms' ms
unfolding find_entry
find_entry-Counted e [] ms' lt eq = ground (arith, eq)
find_entry-Counted e (m ∷ ms) ms' lt eq = elim (Bool-cases (m.entry == e)) [
  | inl hit ↦
      let bumped : Module = record m { refs = add32 m.refs 1 } in
      let small : m.refs + 1 < u32 = omega (arith, lt, uses_hit e m ms hit) in
      let own : m.entry ≡ e = (==_iff m.entry e).0 hit in
      let same : bumped ∷ ms ≡ ms' = ground (arith, eq, find_entry_hit e m ms hit) in
      subst (λ l. Counted e l (m ∷ ms)) same
        (record {
          one_more =
              uses_hit e bumped ms hit
              ∙ omega (arith, small)
              ∙ ap (λ n. n + 1) (sym (uses_hit e m ms hit));
          others = λ d ne.
              let off : (m.entry == d) ≡ false = ground (arith, own, ne) in
              uses_miss d bumped ms off ∙ sym (uses_miss d m ms off);
          live = λ v. (omega (arith, small), omega (arith, small), v.2, v.3);
        })
  | inr miss ↦ elim (Option-cases (find_entry e ms)) [
    | inl e' ↦ ground (arith, eq, find_entry-none e m ms miss e')
    | inr (rest, e') ↦
        let tail = find_entry-Counted e ms rest (omega (arith, lt, uses_miss e m ms miss)) e' in
        let same : m ∷ rest ≡ ms' = ground (arith, eq, find_entry-some e m ms rest miss e') in
        let off : m.entry ≢ e = ground (arith, miss) in
        subst (λ l. Counted e l (m ∷ ms)) same
          (record {
            one_more =
                uses_miss e m rest miss
                ∙ tail.one_more
                ∙ ap (λ n. n + 1) (sym (uses_miss e m ms miss));
            others = λ d ne. elim (Bool-cases (m.entry == d)) [
              | inl here ↦ uses_hit d m rest here ∙ sym (uses_hit d m ms here)
              | inr there ↦
                  uses_miss d m rest there ∙ tail.others d ne ∙ sym (uses_miss d m ms there)
            ];
            live = λ v. (v.0, v.1, tail.others m.entry off ∙ v.2, tail.live v.3);
          })
  ]
]

-- One use less of a module that stands in the list.
pub release_entry-Counted :
    (e : ℕ) (ms : List Module)
    → IsLive ms
    → 1 ≤ uses e ms
    → (uses e (release_entry e ms) + 1 ≡ uses e ms)
      × ((d : ℕ) → d ≢ e → uses d (release_entry e ms) ≡ uses d ms)
      × IsLive (release_entry e ms)
unfolding uses
release_entry-Counted e [] v used = absurd (omega (arith, used))
release_entry-Counted e (m ∷ ms) v used = elim (Bool-cases (m.entry == e)) [
  | inl hit ↦
      let own : m.entry ≡ e = (==_iff m.entry e).0 hit in
      let off : (d : ℕ) → d ≢ e → (m.entry == d) ≡ false = λ d ne. ground (arith, own, ne) in
      elim (dec_lt 1 m.refs) [
        | yes more ↦
            let less : Module = record m { refs = m.refs - 1 } in
            rw (release_more e m ms hit more v.1) (
              omega (arith, uses_hit e less ms hit, uses_hit e m ms hit, more),
              λ d ne. uses_miss d less ms (off d ne) ∙ sym (uses_miss d m ms (off d ne)),
              (omega (arith, more), omega (arith, v.1), v.2, v.3),
            )
        | no last ↦ rw (release_last e m ms hit (omega (arith, v.0, last))) (
          let gone : uses e ms ≡ 0 = subst (λ i. uses i ms ≡ 0) own v.2 in
              omega (arith, gone, uses_hit e m ms hit, v.0, last),
          λ d ne. sym (uses_miss d m ms (off d ne)),
          v.3,
        )
      ]
  | inr miss ↦
      let tail = release_entry-Counted e ms v.3 (omega (arith, used, uses_miss e m ms miss)) in
      rw (release_miss e m ms miss) (
        omega (arith, uses_miss e m (release_entry e ms) miss, uses_miss e m ms miss, tail.0),
        λ d ne. elim (Bool-cases (m.entry == d)) [
          | inl here ↦ uses_hit d m (release_entry e ms) here ∙ sym (uses_hit d m ms here)
          | inr there ↦
              uses_miss d m (release_entry e ms) there ∙ tail.1 d ne ∙ sym (uses_miss d m ms there)
        ],
        (v.0, v.1, tail.1 m.entry (ground (arith, miss)) ∙ v.2, tail.2),
      )
]
