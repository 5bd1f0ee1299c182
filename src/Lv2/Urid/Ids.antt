-- ===== src/Lv2/Urid/Ids.antt =====
-- What csrc/lv2_host.c promises of the numbers of URIs.
use mathlib.Core.Option.{some-injective}
use audio_plugins_jl.Base.{
  leb→lt, ℕ, zero, suc, ◌+◌, ◌≤◌, ◌≡◌, refl, sym, ap, ap₂, subst, ◌∙◌, Bool-cases, Option-cases,
  ◌⊎◌, inl, inr, Bool, true, false, List, [], ◌∷◌, ◌++◌, Option, none, some, length, length-append,
  get_elem?, leb, if◌then◌else◌, arith,
}
use audio_plugins_jl.Base.Cases.{if_all, if_known}
use audio_plugins_jl.Host.Types.{Bytes}
use audio_plugins_jl.Host.Open.{same_bytes}
use audio_plugins_jl.Lv2.Urid.{max_urids, uri_index, urid_map, urid_unmap}

absent : {A : Type 0} {a : A} → none ≡ some a → ⊥
absent e = ground (arith, e)

same_bytes_self : (a : Bytes) → same_bytes a a ≡ true
unfolding same_bytes
same_bytes_self [] = refl
same_bytes_self (x ∷ a) = ground (arith, same_bytes_self a)

same_bytes_equal : (a b : Bytes) → same_bytes a b ≡ true → a ≡ b
unfolding same_bytes
same_bytes_equal [] [] e = refl
same_bytes_equal [] (y ∷ b) e = ground (arith, e)
same_bytes_equal (x ∷ a) [] e = ground (arith, e)
same_bytes_equal (x ∷ a) (y ∷ b) e =
    let both : (x ≡ y) × (same_bytes a b ≡ true) = ground (arith, e) in
    ap₂ (λ z c. z ∷ c) both.0 (same_bytes_equal a b both.1)

-- The table after any calls of the map, each with what `strdup` then does.
abbrev pub urid_maps : List (Bool × Option Bytes) → List Bytes → List Bytes
urid_maps [] uris = uris
urid_maps ((memory, uri) ∷ calls) uris = urid_maps calls (urid_map memory uri uris).1

-- The number `v` stands for the URI in a table, and mapping it there answers `v` and adds nothing.
pub record Stands (uri : Bytes) (v : ℕ) (uris : List Bytes) : Type 0 where
  pub back : urid_unmap v uris ≡ some uri
  pub again : (memory : Bool) → urid_map memory (some uri) uris ≡ (v, uris)

-- What a call of the map leaves: an answer of 0 changes nothing; any other answer is the number of the
-- URI, and stays so.
pub record IsMapped (uri : Bytes) (before : List Bytes) (r : ℕ × List Bytes) : Type 0 where
  pub within : length before ≤ max_urids → length r.1 ≤ max_urids
  pub kept : (v : ℕ) (w : Bytes) → urid_unmap v before ≡ some w → urid_unmap v r.1 ≡ some w
  pub answer :
      ((r.0 ≡ 0) × (r.1 ≡ before))
      ⊎ ((later : List (Bool × Option Bytes)) → Stands uri r.0 (urid_maps later r.1))

uri_index_hit :
    (uri u : Bytes) (us : List Bytes) (i : ℕ)
    → same_bytes u uri ≡ true
    → uri_index uri (u ∷ us) i ≡ some i
unfolding uri_index
uri_index_hit uri u us i e = rw (e) refl

uri_index_miss :
    (uri u : Bytes) (us : List Bytes) (i : ℕ)
    → same_bytes u uri ≡ false
    → uri_index uri (u ∷ us) i ≡ uri_index uri us (suc i)
unfolding uri_index
uri_index_miss uri u us i e = rw (e) refl

uri_index_nil : (uri : Bytes) (i : ℕ) → uri_index uri [] i ≡ none
unfolding uri_index
uri_index_nil uri i = refl

uri_index_found :
    (uri : Bytes) (uris : List Bytes) (i k : ℕ)
    → uri_index uri uris i ≡ some k
    → (j : ℕ) × ((k ≡ i + j) × (get_elem? uris j ≡ some uri))
uri_index_found uri [] i k e = absurd (absent (sym (uri_index_nil uri i) ∙ e))
uri_index_found uri (u ∷ us) i k e = elim (Bool-cases (same_bytes u uri)) [
  | inl hit ↦
      let here = some-injective i k (sym (uri_index_hit uri u us i hit) ∙ e) in
      (0, (omega (arith, here), ap some (same_bytes_equal u uri hit)))
  | inr miss ↦
      let (j, (at, got)) =
        uri_index_found uri us (suc i) k (sym (uri_index_miss uri u us i miss) ∙ e) in
      (suc j, (omega (arith, at), got))
]

-- A URI that is put at the end is found there.
uri_index_last :
    (uri : Bytes) (uris : List Bytes) (i : ℕ)
    → uri_index uri uris i ≡ none
    → uri_index uri (uris ++ uri ∷ []) i ≡ some (i + length uris)
uri_index_last uri [] i e =
    let at : i + 0 ≡ i = omega arith in rw (at) (uri_index_hit uri uri [] i (same_bytes_self uri))
uri_index_last uri (u ∷ us) i e = elim (Bool-cases (same_bytes u uri)) [
  | inl hit ↦ absurd (absent (sym e ∙ uri_index_hit uri u us i hit))
  | inr miss ↦
      let at : i + suc (length us) ≡ suc i + length us = omega arith in
      uri_index_miss uri u (us ++ uri ∷ []) i miss
      ∙ uri_index_last uri us (suc i) (sym (uri_index_miss uri u us i miss) ∙ e)
      ∙ ap some (sym at)
]

get_elem?_kept :
    (uris more : List Bytes) (j : ℕ) (w : Bytes)
    → get_elem? uris j ≡ some w
    → get_elem? (uris ++ more) j ≡ some w
get_elem?_kept [] more j w e = absurd (absent e)
get_elem?_kept (u ∷ us) more zero w e = e
get_elem?_kept (u ∷ us) more (suc j) w e = get_elem?_kept us more j w e

urid_map_known :
    (memory : Bool) (uri : Bytes) (uris : List Bytes) (k : ℕ)
    → uri_index uri uris 0 ≡ some k
    → urid_map memory (some uri) uris ≡ (suc k, uris)
unfolding urid_map
urid_map_known memory uri uris k e = rw (e, urid_map) refl

urid_map_new :
    (memory : Bool) (uri : Bytes) (uris : List Bytes)
    → uri_index uri uris 0 ≡ none
    → urid_map memory (some uri) uris ≡ (
        if leb max_urids (length uris)
        then (0, uris)
        else if memory
        then (suc (length uris), uris ++ uri ∷ [])
        else (0, uris))
unfolding urid_map
urid_map_new memory uri uris e = rw (e, urid_map) refl

uri_index_kept :
    (uri : Bytes) (uris more : List Bytes) (i k : ℕ)
    → uri_index uri uris i ≡ some k
    → uri_index uri (uris ++ more) i ≡ some k
uri_index_kept uri [] more i k e = absurd (absent (sym (uri_index_nil uri i) ∙ e))
uri_index_kept uri (u ∷ us) more i k e = elim (Bool-cases (same_bytes u uri)) [
  | inl hit ↦ uri_index_hit uri u (us ++ more) i hit ∙ sym (uri_index_hit uri u us i hit) ∙ e
  | inr miss ↦
      uri_index_miss uri u (us ++ more) i miss
      ∙ uri_index_kept uri us more (suc i) k (sym (uri_index_miss uri u us i miss) ∙ e)
]

-- A call of the map leaves what is found where it is.
urid_map_keeps :
    (memory : Bool) (o : Option Bytes) (uri : Bytes) (uris : List Bytes) (k : ℕ)
    → uri_index uri uris 0 ≡ some k
    → uri_index uri (urid_map memory o uris).1 0 ≡ some k
unfolding urid_map
urid_map_keeps memory none uri uris k e = e
urid_map_keeps memory (some u) uri uris k e = elim (Option-cases (uri_index u uris 0)) [
  | inr (j, at) ↦
      subst (λ (r : ℕ × List Bytes). uri_index uri r.1 0 ≡ some k)
        (sym (urid_map_known memory u uris j at)) e
  | inl new ↦
      let T : ℕ × List Bytes → Type 0 = λ r. uri_index uri r.1 0 ≡ some k in
      subst T (sym (urid_map_new memory u uris new)) (
        if_all T (leb max_urids (length uris)) e
          (if_all T memory (uri_index_kept uri uris (u ∷ []) 0 k e) e))
]

found-Stands :
    (uri : Bytes) (uris : List Bytes) (k : ℕ)
    → uri_index uri uris 0 ≡ some k
    → Stands uri (suc k) uris
unfolding urid_unmap
found-Stands uri uris k e =
    let (j, (at, got)) = uri_index_found uri uris 0 k e in
    let same : k ≡ j = omega (arith, at) in
    record { back = rw (same) got; again = λ memory. urid_map_known memory uri uris k e }

urid_maps-Stands :
    (later : List (Bool × Option Bytes)) (uri : Bytes) (uris : List Bytes) (k : ℕ)
    → uri_index uri uris 0 ≡ some k
    → Stands uri (suc k) (urid_maps later uris)
urid_maps-Stands [] uri uris k e = found-Stands uri uris k e
urid_maps-Stands ((memory, o) ∷ later) uri uris k e =
    urid_maps-Stands later uri (urid_map memory o uris).1 k (urid_map_keeps memory o uri uris k e)

-- Whatever the table of URIs holds: `urid_map` of a URI answers 0 and leaves the table, or it answers a
-- number that, then and after any later calls of the map, `urid_unmap` turns back into that URI, and
-- a further map of it answers again without a change. No number that `urid_unmap` knew changes its
-- URI, and a table of at most LV2_HOST_MAX_URIDS entries keeps to that.
pub urid_map-IsMapped :
    (memory : Bool) (uri : Bytes) (uris : List Bytes)
    → IsMapped uri uris (urid_map memory (some uri) uris)
unfolding urid_unmap
urid_map-IsMapped memory uri uris = elim (Option-cases (uri_index uri uris 0)) [
  | inr (k, e) ↦ rw (urid_map_known memory uri uris k e) (record {
    within = λ h. h;
    kept = λ v w h. h;
    answer = inr (λ later. urid_maps-Stands later uri uris k e);
  })
  | inl e ↦
      let unchanged : IsMapped uri uris (0, uris) = record {
        within = λ h. h;
        kept = λ v w h. h;
        answer = inl (refl, refl);
      } in
      rw (urid_map_new memory uri uris e) (
        if_known (IsMapped uri uris) (leb max_urids (length uris)) (λ _. unchanged)
          (λ room.
            if_all (IsMapped uri uris) memory
              (record {
                within = λ _.
                    let size = length-append uris (uri ∷ []) in
                    let less = leb→lt max_urids (length uris) room in omega (arith, size, less);
                kept = λ v w h. still v w h;
                answer = inr (λ later. urid_maps-Stands later uri (uris ++ uri ∷ []) (length uris) (
                    let no : 0 + length uris ≡ length uris = omega arith in
                    uri_index_last uri uris 0 e ∙ ap some no));
              })
              unchanged))
]
  where
    still :
        (v : ℕ) (w : Bytes) → urid_unmap v uris ≡ some w → urid_unmap v (uris ++ uri ∷ []) ≡ some w
    still zero w h = h
    still (suc j) w h = get_elem?_kept uris (uri ∷ []) j w h
