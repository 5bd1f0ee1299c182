-- ===== src/Export/State/RoundTrip.antt =====
-- What `state_save` of csrc/clap_plugin_template.c writes, and what `state_load` makes of it.
use audio_plugins_jl.Base.{
  ℕ, zero, suc, ◌/◌, ◌^◌, ◌<◌, ◌≡◌, refl, sym, ap, ◌∙◌, subst, Bool, true, List, [], ◌∷◌, ◌++◌,
  Option, none, some, length, arith,
}
use audio_plugins_jl.Host.Types.{Bytes, Doubles}
use audio_plugins_jl.Export.Program.{ParamInfo, Program, Inst}
use audio_plugins_jl.Export.Params.{set_id}
use audio_plugins_jl.Export.Stream.{
  Streams, Patterns, bytes_of, number_of, write_u32, write_f64, read_u32, read_f64,
}
use audio_plugins_jl.Export.Stream.Contract.{
  IsStream, Wrote, write_all-Wrote, read_all-Read, append_assoc, append-nil,
}
use audio_plugins_jl.Export.State.Restored.{restored}
use audio_plugins_jl.Export.State.{and_then, save_params, load_params}

-- A number of `n` bytes is read back from its bytes.
number_of-bytes_of : (n v : ℕ) → v < 256 ^ n → number_of (bytes_of n v) ≡ v
number_of-bytes_of zero v h = omega arith
number_of-bytes_of (suc n) v h =
    let IH = number_of-bytes_of n (v / 256) (omega arith) in omega (arith, IH)

length-bytes_of : (n v : ℕ) → length (bytes_of n v) ≡ n
length-bytes_of zero v = refl
length-bytes_of (suc n) v = ap suc (length-bytes_of n (v / 256))

-- The pattern of a double has 64 bits, and gives the double back.
pub record IsExact {D : Type 0} (p : Patterns D) : Type 0 where
  pub exact : (v : D) → p.of_bits (p.to_bits v) ≡ v
  pub bounded : (v : D) → p.to_bits v < 2 ^ 64

abbrev pub AreWords : {D : Type 0} → List (ParamInfo D) → Type 0
AreWords [] = Unit
AreWords (row ∷ rows) = (row.id < 2 ^ 32) × AreWords rows

module _ {Pars Mem Out D O I : Type 0} ⦃f : Doubles D⦄ ⦃p : Patterns D⦄ (io : Streams O I)
    (h : IsStream io) (ok : IsExact p) (prog : Program Pars Mem Out D) where
  abbrev pub rows_bytes : List (ParamInfo D) → ℕ → (ℕ → D) → Bytes
  rows_bytes [] k values = []
  rows_bytes (row ∷ rows) k values =
      bytes_of 4 row.id ++ (bytes_of 8 (p.to_bits (values k)) ++ rows_bytes rows (suc k) values)

  pub and_then-Wrote :
      (r : Bool × O) (next : O → Bool × O) (base now more : Bytes)
      → Wrote io h r (base ++ now)
      → ((o : O) → Wrote io h (next o) (h.written o ++ more))
      → Wrote io h (and_then r next) (base ++ (now ++ more))
  and_then-Wrote r next base now more w n = rw (w.whole) (
      subst (Wrote io h (next r.1)) (ap (λ x. x ++ more) w.now ∙ append_assoc base now more)
        (n r.1))

  pub write_u32-Wrote :
      (o : O) (v : ℕ) → Wrote io h (write_u32 io o v) (h.written o ++ bytes_of 4 v)
  unfolding write_u32
  write_u32-Wrote o v = write_all-Wrote io h o (bytes_of 4 v)

  write_f64-Wrote :
      (o : O) (v : D) → Wrote io h (write_f64 io o v) (h.written o ++ bytes_of 8 (p.to_bits v))
  unfolding write_f64
  write_f64-Wrote o v = write_all-Wrote io h o (bytes_of 8 (p.to_bits v))

  pub save_params-Wrote :
      (rows : List (ParamInfo D)) (k : ℕ) (values : ℕ → D) (o : O)
      → Wrote io h (save_params io prog rows k values o) (h.written o ++ rows_bytes rows k values)
  unfolding save_params
  save_params-Wrote [] k values o = record { whole = refl; now = sym (append-nil (h.written o)) }
  save_params-Wrote (row ∷ rows) k values o =
      and_then-Wrote (write_u32 io o row.id)
        (λ a. and_then (write_f64 io a (values k)) (λ b. save_params io prog rows (suc k) values b))
        (h.written o) (bytes_of 4 row.id)
        (bytes_of 8 (p.to_bits (values k)) ++ rows_bytes rows (suc k) values)
        (write_u32-Wrote o row.id)
        (λ a.
          and_then-Wrote (write_f64 io a (values k))
            (λ b. save_params io prog rows (suc k) values b) (h.written a)
            (bytes_of 8 (p.to_bits (values k))) (rows_bytes rows (suc k) values)
            (write_f64-Wrote a (values k)) (λ b. save_params-Wrote rows (suc k) values b))

  pub record Fetched {A : Type 0} (r : Option A × I) (v : A) (rest : Bytes) : Type 0 where
    pub got : r.0 ≡ some v
    pub left : h.remaining r.1 ≡ rest

  pub read_u32-Fetched :
      (i : I) (v : ℕ) (rest : Bytes)
      → v < 2 ^ 32
      → h.remaining i ≡ bytes_of 4 v ++ rest
      → Fetched (read_u32 io i) v rest
  unfolding read_u32
  read_u32-Fetched i v rest small e =
      let r = read_all-Read io h i (bytes_of 4 v) rest e in
      record {
        got =
            ap
              (λ (o : Option Bytes). elim o as (λ _. Option ℕ) [
                | none ↦ none
                | some b ↦ some (number_of b)
              ])
              r.got
            ∙ ap some (number_of-bytes_of 4 v small);
        left = r.left;
      }

  read_f64-Fetched :
      (i : I) (v : D) (rest : Bytes)
      → h.remaining i ≡ bytes_of 8 (p.to_bits v) ++ rest
      → Fetched (read_f64 io i) v rest
  unfolding read_f64
  read_f64-Fetched i v rest e =
      let r = read_all-Read io h i (bytes_of 8 (p.to_bits v)) rest e in
      record {
        got =
            ap
              (λ (o : Option Bytes). elim o as (λ _. Option D) [
                | none ↦ none
                | some b ↦ some (p.of_bits (number_of b))
              ])
              r.got
            ∙ ap (λ b. some (p.of_bits b)) (number_of-bytes_of 8 (p.to_bits v) (ok.bounded v))
            ∙ ap some (ok.exact v);
        left = r.left;
      }

  load_step :
      (count : ℕ) (i : I) (s : Inst Pars Mem D) (n : ℕ) (v : D)
      → (read_u32 io i).0 ≡ some n
      → (read_f64 io {D = D} (read_u32 io i).1).0 ≡ some v
      → load_params io prog (suc count) i s
        ≡ load_params io prog count (read_f64 io {D = D} (read_u32 io i).1).1 (set_id prog n v s)
  unfolding load_params
  load_step count i s n v e d = rw (e, d, load_params) refl

  pub load_params-restored :
      (rows : List (ParamInfo D)) (k : ℕ) (values : ℕ → D) (i : I) (s : Inst Pars Mem D)
      (rest : Bytes)
      → AreWords rows
      → h.remaining i ≡ rows_bytes rows k values ++ rest
      → (load_params io prog (length rows) i s).0 ≡ true
        × (load_params io prog (length rows) i s).1 ≡ restored prog rows k values s
  unfolding load_params
  load_params-restored [] k values i s rest w e = (refl, refl)
  load_params-restored (row ∷ rows) k values i s rest w e =
      let a =
        read_u32-Fetched i row.id
          (bytes_of 8 (p.to_bits (values k)) ++ rows_bytes rows (suc k) values ++ rest) w.0 e in
      let b =
        read_f64-Fetched (read_u32 io i).1 (values k) (rows_bytes rows (suc k) values ++ rest)
          (a.left) in
      let step = load_step (length rows) i s row.id (values k) a.got b.got in
      rw (step) (
        load_params-restored rows (suc k) values (read_f64 io {D = D} (read_u32 io i).1).1
          (set_id prog row.id (values k) s) rest w.1 b.left)
