-- ===== src/Export/State/Session.antt =====
-- A session of csrc/clap_plugin_template.c that is saved, and loaded again.
use audio_plugins_jl.Base.{
  ℕ, ◌+◌, ◌^◌, ◌<◌, ◌≡◌, refl, sym, ap, ◌∙◌, subst, true, [], ◌++◌, some, length, get_elem?, arith,
}
use audio_plugins_jl.Host.Types.{Bytes, Doubles}
use audio_plugins_jl.Host.Open.{same_bytes}
use audio_plugins_jl.Export.Program.{ParamInfo, Program, Inst}
use audio_plugins_jl.Export.Params.{fitted}
use audio_plugins_jl.Export.Stream.{
  Streams, Patterns, bytes_of, write_all, read_all, write_u32, read_u32,
}
use audio_plugins_jl.Export.Stream.Contract.{
  IsStream, Wrote, write_all-Wrote, read_all-Read, append-nil,
}
use audio_plugins_jl.Export.State.{
  magic, state_version, and_then, save_params, state_save, load_params, load_count, load_version,
  state_load,
}
use audio_plugins_jl.Export.State.RoundTrip.{
  IsExact, AreWords, rows_bytes, and_then-Wrote, write_u32-Wrote, save_params-Wrote,
  read_u32-Fetched, load_params-restored,
}
use audio_plugins_jl.Export.State.Restored.{restored, IsIndexed, IsRest, restored_value}

module _ {Pars Mem Out D O I : Type 0} ⦃f : Doubles D⦄ ⦃p : Patterns D⦄ (io : Streams O I)
    (h : IsStream io) (ok : IsExact p) (prog : Program Pars Mem Out D) where
  abbrev saved_bytes : Inst Pars Mem D → Bytes
  saved_bytes s =
      magic
      ++ (bytes_of 4 state_version
          ++ (bytes_of 4 (length prog.info) ++ rows_bytes io h ok prog prog.info 0 s.values))

  state_save-Wrote :
      (s : Inst Pars Mem D) (o : O)
      → Wrote io h (state_save io prog s o) (h.written o ++ saved_bytes s)
  unfolding state_save
  state_save-Wrote s o =
      and_then-Wrote io h ok prog (write_all io o magic)
        (λ a. and_then (write_u32 io a state_version) (λ b.
          and_then (write_u32 io b (length prog.info))
            (λ c. save_params io prog prog.info 0 s.values c)))
        (h.written o) magic
        (bytes_of 4 state_version
          ++ (bytes_of 4 (length prog.info) ++ rows_bytes io h ok prog prog.info 0 s.values))
        (write_all-Wrote io h o magic)
        (λ a.
          and_then-Wrote io h ok prog (write_u32 io a state_version)
            (λ b.
              and_then (write_u32 io b (length prog.info))
                (λ c. save_params io prog prog.info 0 s.values c))
            (h.written a) (bytes_of 4 state_version)
            (bytes_of 4 (length prog.info) ++ rows_bytes io h ok prog prog.info 0 s.values)
            (write_u32-Wrote io h ok prog a state_version)
            (λ b.
              and_then-Wrote io h ok prog (write_u32 io b (length prog.info))
                (λ c. save_params io prog prog.info 0 s.values c) (h.written b)
                (bytes_of 4 (length prog.info)) (rows_bytes io h ok prog prog.info 0 s.values)
                (write_u32-Wrote io h ok prog b (length prog.info))
                (λ c. save_params-Wrote io h ok prog prog.info 0 s.values c)))

  load_count_step :
      (n : ℕ) (i : I) (t : Inst Pars Mem D)
      → (read_u32 io i).0 ≡ some n
      → load_count io prog i t ≡ load_params io prog n (read_u32 io i).1 t
  unfolding load_count
  load_count_step n i t e = rw (e, load_count) refl

  load_version_step :
      (i : I) (t : Inst Pars Mem D)
      → (read_u32 io i).0 ≡ some state_version
      → load_version io prog i t ≡ load_count io prog (read_u32 io i).1 t
  unfolding load_version
  load_version_step i t e = rw (e, load_version) refl

  state_load_step :
      (i : I) (t : Inst Pars Mem D)
      → (read_all io i 4).0 ≡ some magic
      → state_load io prog t i ≡ load_version io prog (read_all io i 4).1 t
  unfolding state_load same_bytes
  state_load_step i t e = rw (e, state_load) refl

  load_count-restored :
      (values : ℕ → D) (i : I) (t : Inst Pars Mem D)
      → AreWords prog.info
      → length prog.info < 2 ^ 32
      → h.remaining i ≡ bytes_of 4 (length prog.info) ++ rows_bytes io h ok prog prog.info 0 values
      → ((load_count io prog i t).0 ≡ true)
        × ((load_count io prog i t).1 ≡ restored prog prog.info 0 values t)
  load_count-restored values i t w small e =
      let r =
        read_u32-Fetched io h ok prog i (length prog.info)
          (rows_bytes io h ok prog prog.info 0 values) small e in
      rw (load_count_step (length prog.info) i t r.got) (
        load_params-restored io h ok prog prog.info 0 values (read_u32 io i).1 t [] w
          (r.left ∙ sym (append-nil (rows_bytes io h ok prog prog.info 0 values))))

  load_version-restored :
      (values : ℕ → D) (i : I) (t : Inst Pars Mem D)
      → AreWords prog.info
      → length prog.info < 2 ^ 32
      → h.remaining i
        ≡ bytes_of 4 state_version
          ++ (bytes_of 4 (length prog.info) ++ rows_bytes io h ok prog prog.info 0 values)
      → ((load_version io prog i t).0 ≡ true)
        × ((load_version io prog i t).1 ≡ restored prog prog.info 0 values t)
  load_version-restored values i t w small e =
      let r =
        read_u32-Fetched io h ok prog i state_version
          (bytes_of 4 (length prog.info) ++ rows_bytes io h ok prog prog.info 0 values)
          (omega arith) e in
      rw (load_version_step i t r.got)
        (load_count-restored values (read_u32 io i).1 t w small r.left)

  state_load-restored :
      (s : Inst Pars Mem D) (i : I) (t : Inst Pars Mem D)
      → AreWords prog.info
      → length prog.info < 2 ^ 32
      → h.remaining i ≡ saved_bytes s
      → ((state_load io prog t i).0 ≡ true)
        × ((state_load io prog t i).1 ≡ restored prog prog.info 0 s.values t)
  state_load-restored s i t w small e =
      let r =
        read_all-Read io h i magic
          (bytes_of 4 state_version
            ++ (bytes_of 4 (length prog.info) ++ rows_bytes io h ok prog prog.info 0 s.values))
          e in
      rw (state_load_step i t r.got)
        (load_version-restored s.values (read_all io i 4).1 t w small r.left)

  -- Where the streams move a byte at least in each transfer, each row of the table is the first with its
  -- id, the ids and their number are of 32 bits, and the pattern of a double is of 64 bits and gives it
  -- back: `state_save` to an empty stream succeeds, `state_load` of what it has written succeeds on
  -- every instance, and gives each parameter the saved value, fitted to its row.
  pub state_load-state_save :
      (s t : Inst Pars Mem D) (o : O) (i : I)
      → IsIndexed prog.info
      → AreWords prog.info
      → length prog.info < 2 ^ 32
      → h.written o ≡ []
      → h.remaining i ≡ h.written (state_save io prog s o).1
      → ((state_save io prog s o).0 ≡ true)
        × ((state_load io prog t i).0 ≡ true)
        × ((k : ℕ) (row : ParamInfo D)
            → get_elem? prog.info k ≡ some row
            → (state_load io prog t i).1.values k ≡ fitted row (s.values k))
  state_load-state_save s t o i indexed words small fresh given =
      let saved = state_save-Wrote s o in
      let loaded =
        state_load-restored s i t words small
          (given ∙ saved.now ∙ ap (λ x. x ++ saved_bytes s) fresh) in
      (
        saved.whole,
        loaded.0,
        λ k row e.
            let no : 0 + k ≡ k = omega arith in
            let place : IsRest prog indexed prog.info 0 =
              λ j p q. let same : 0 + j ≡ j = omega arith in rw (same) q in
            ap (λ (x : Inst Pars Mem D). x.values k) loaded.1
            ∙ subst (λ j. (restored prog prog.info 0 s.values t).values j ≡ fitted row (s.values j))
                no (restored_value prog indexed prog.info 0 s.values t k row place e),
      )
