-- ===== src/Export/State.antt =====
-- clap.state of csrc/clap_plugin_template.c:
--   "APST" | u32 version | u32 count | count x (u32 id, f64 value)
pub mod RoundTrip
pub mod Restored
pub mod Session
use audio_plugins_jl.Base.{
  ℕ, zero, suc, Bool, true, false, not, ◌&&◌, List, [], ◌∷◌, Option, none, some, length, ◌==◌,
  if◌then◌else◌,
}
use audio_plugins_jl.Host.Types.{Bytes, Doubles}
use audio_plugins_jl.Host.Open.{same_bytes}
use audio_plugins_jl.Export.Program.{ParamInfo, Program, Inst}
use audio_plugins_jl.Export.Params.{set_id}
use audio_plugins_jl.Export.Stream.{
  Streams, Patterns, write_all, read_all, write_u32, write_f64, read_u32, read_f64,
}

abbrev pub magic : Bytes
magic = b'A' ∷ b'P' ∷ b'S' ∷ b'T' ∷ []

-- AP_STATE_VERSION
abbrev pub state_version : ℕ
state_version = 1

-- `a && b` of two transfers.
abbrev pub and_then : {O : Type 0} → Bool × O → (O → Bool × O) → Bool × O
and_then r k = if r.0 then k r.1 else (false, r.1)

module _ {Pars Mem Out D O I : Type 0} ⦃f : Doubles D⦄ ⦃p : Patterns D⦄ (io : Streams O I)
    (prog : Program Pars Mem Out D) where
  -- The rows from `k` on.
  unfoldable pub save_params : List (ParamInfo D) → ℕ → (ℕ → D) → O → Bool × O
  unfolding write_u32 write_f64
  save_params [] k values o = (true, o)
  save_params (row ∷ rows) k values o =
      and_then (write_u32 io o row.id)
        (λ a. and_then (write_f64 io a (values k)) (λ b. save_params rows (suc k) values b))

  unfoldable pub state_save : Inst Pars Mem D → O → Bool × O
  unfolding save_params write_all
  state_save s o = and_then (write_all io o magic) (λ a.
      and_then (write_u32 io a state_version) (λ b.
        and_then (write_u32 io b (length prog.info)) (λ c. save_params prog.info 0 s.values c)))

  -- `count` records; an id that is not known is skipped.
  unfoldable pub load_params : ℕ → I → Inst Pars Mem D → Bool × Inst Pars Mem D × I
  unfolding read_u32 read_f64
  load_params zero i s = (true, s, i)
  load_params (suc count) i s =
      let (id, j) = read_u32 io i in
      elim id [
        | none ↦ (false, s, j)
        | some n ↦
            let (value, k) = read_f64 io j in
            elim value [ none ↦ (false, s, k) | some v ↦ load_params count k (set_id prog n v s) ]
      ]

  -- The records, once the count is read.
  unfoldable pub load_count : I → Inst Pars Mem D → Bool × Inst Pars Mem D × I
  unfolding load_params
  load_count i s =
      let (count, j) = read_u32 io i in
      elim count [ none ↦ (false, s, j) | some n ↦ load_params n j s ]

  unfoldable pub load_version : I → Inst Pars Mem D → Bool × Inst Pars Mem D × I
  unfolding load_count
  load_version i s =
      let (version, j) = read_u32 io i in
      elim version [
        | none ↦ (false, s, j)
        | some n ↦ if n == state_version then load_count j s else (false, s, j)
      ]

  unfoldable pub state_load : Inst Pars Mem D → I → Bool × Inst Pars Mem D × I
  unfolding load_version read_all
  state_load s i =
      let (head, j) = read_all io i 4 in
      elim head [
        | none ↦ (false, s, j)
        | some bs ↦ if same_bytes bs magic then load_version j s else (false, s, j)
      ]
