-- ===== src/Export/State/Restored.antt =====
-- The values that csrc/clap_plugin_template.c has once each row is set by its id.
use audio_plugins_jl.Base.{
  ℕ, zero, suc, ◌+◌, ◌<◌, ◌≡◌, refl, ap, ◌∙◌, subst, List, [], ◌∷◌, some, get_elem?, arith,
}
use audio_plugins_jl.Host.Types.{Doubles}
use audio_plugins_jl.Export.Program.{ParamInfo, Program, Inst, param_index}
use audio_plugins_jl.Export.Params.{set_id, set_param, fitted}
use audio_plugins_jl.Base.Loops.{update}

-- Each row of the table is the first with its id.
abbrev pub IsIndexed : {D : Type 0} → List (ParamInfo D) → Type 0
IsIndexed {D} info =
    (k : ℕ) (p : ParamInfo D) → get_elem? info k ≡ some p → param_index p.id info 0 ≡ some k

module _ {Pars Mem Out D : Type 0} ⦃f : Doubles D⦄ (prog : Program Pars Mem Out D) where
  -- The rows set one after the other, by their ids.
  abbrev pub restored : List (ParamInfo D) → ℕ → (ℕ → D) → Inst Pars Mem D → Inst Pars Mem D
  restored [] k values s = s
  restored (row ∷ rows) k values s = restored rows (suc k) values (set_id prog row.id (values k) s)

module _ {Pars Mem Out D : Type 0} ⦃f : Doubles D⦄ (prog : Program Pars Mem Out D)
    (indexed : IsIndexed prog.info) where
  set_id_found :
      (id k : ℕ) (v : D) (s : Inst Pars Mem D)
      → param_index id prog.info 0 ≡ some k
      → set_id prog id v s ≡ set_param prog k v s
  unfolding set_id
  set_id_found id k v s e = rw (e, set_id) refl

  set_param_found :
      (k : ℕ) (row : ParamInfo D) (v : D) (s : Inst Pars Mem D)
      → get_elem? prog.info k ≡ some row
      → (set_param prog k v s).values ≡ update s.values k (fitted row v)
  unfolding set_param
  set_param_found k row v s e = rw (e, set_param) refl

  set_row :
      (k : ℕ) (row : ParamInfo D) (v : D) (s : Inst Pars Mem D)
      → get_elem? prog.info k ≡ some row
      → (set_id prog row.id v s).values ≡ update s.values k (fitted row v)
  set_row k row v s e =
      rw (set_id_found row.id k v s (indexed k row e)) (set_param_found k row v s e)

  -- The rows from `i` on.
  abbrev pub IsRest : List (ParamInfo D) → ℕ → Type 0
  IsRest rows i =
      (j : ℕ) (row : ParamInfo D)
      → get_elem? rows j ≡ some row
      → get_elem? prog.info (i + j) ≡ some row

  IsRest-tail :
      (row : ParamInfo D) (rows : List (ParamInfo D)) (i : ℕ)
      → IsRest (row ∷ rows) i
      → IsRest rows (suc i)
  IsRest-tail row rows i h j p e =
      let at : suc i + j ≡ i + suc j = omega arith in rw (at) (h (suc j) p e)

  IsRest-head :
      (row : ParamInfo D) (rows : List (ParamInfo D)) (i : ℕ)
      → IsRest (row ∷ rows) i
      → get_elem? prog.info i ≡ some row
  IsRest-head row rows i h =
      let at : i + 0 ≡ i = omega arith in
      subst (λ k. get_elem? prog.info k ≡ some row) at (h 0 row refl)

  restored_before :
      (rows : List (ParamInfo D)) (i : ℕ) (values : ℕ → D) (s : Inst Pars Mem D) (k : ℕ)
      → IsRest rows i
      → k < i
      → (restored prog rows i values s).values k ≡ s.values k
  restored_before [] i values s k place lt = refl
  restored_before (row ∷ rows) i values s k place lt =
      let later =
        restored_before rows (suc i) values (set_id prog row.id (values i) s) k
          (IsRest-tail row rows i place) (omega (arith, lt)) in
      let now = set_row i row (values i) s (IsRest-head row rows i place) in
      later ∙ ap (λ x. x k) now ∙ ground (arith, lt)

  pub restored_value :
      (rows : List (ParamInfo D)) (i : ℕ) (values : ℕ → D) (s : Inst Pars Mem D) (j : ℕ)
      (row : ParamInfo D)
      → IsRest rows i
      → get_elem? rows j ≡ some row
      → (restored prog rows i values s).values (i + j) ≡ fitted row (values (i + j))
  restored_value [] i values s j row place e = ground (arith, e)
  restored_value (first ∷ rows) i values s zero row place e =
      let at : i + 0 ≡ i = omega arith in
      let now = set_row i first (values i) s (IsRest-head first rows i place) in
      rw (at) (
        restored_before rows (suc i) values (set_id prog first.id (values i) s) i
          (IsRest-tail first rows i place) (omega arith)
        ∙ ap (λ x. x i) now
        ∙ ground (arith, e))
  restored_value (first ∷ rows) i values s (suc j) row place e =
      let at : i + suc j ≡ suc i + j = omega arith in
      rw (at) (
        restored_value rows (suc i) values (set_id prog first.id (values i) s) j row
          (IsRest-tail first rows i place) e)
