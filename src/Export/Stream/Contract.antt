-- ===== src/Export/Stream/Contract.antt =====
-- The transfers of csrc/clap_plugin_template.c over streams that take or give some bytes each time.
use audio_plugins_jl.Base.{
  ℕ, zero, suc, ◌+◌, ◌-◌, ◌≤◌, ◌≡◌, refl, sym, ap, ap₂, ◌∙◌, subst, Bool, true, false, [], ◌∷◌,
  ◌++◌, Option, none, some, length, length-append, arith,
}
use audio_plugins_jl.Host.Types.{Bytes, ℤ, pos, negsuc}
use audio_plugins_jl.Host.Scan.{take}
use audio_plugins_jl.Export.Stream.{Streams, drop, write_rounds, write_all, read_rounds, read_all}

-- One write takes the first bytes, one at least.
pub record IsTaken {O I : Type 0} (io : Streams O I) (written : O → Bytes) (o : O) (bs : Bytes)
    : Type 0 where
  pub count : ℕ
  pub answer : (io.write o bs).0 ≡ pos (suc count)
  pub within : suc count ≤ length bs
  pub appended : written (io.write o bs).1 ≡ written o ++ take (suc count) bs

-- One read of at most `n` bytes gives the next ones, one at least.
pub record IsGiven {O I : Type 0} (io : Streams O I) (remaining : I → Bytes) (i : I) (n : ℕ)
    : Type 0 where
  pub count : ℕ
  pub answer : (io.read i n).0 ≡ pos (suc count)
  pub within : suc count ≤ n
  pub bytes : take (suc count) (io.read i n).1 ≡ take (suc count) (remaining i)
  pub advanced : remaining (io.read i n).2 ≡ drop (suc count) (remaining i)

-- What the streams hold, and that each transfer moves some of it.
pub record IsStream {O I : Type 0} (io : Streams O I) : Type 0 where
  pub written : O → Bytes
  pub remaining : I → Bytes
  pub takes : (o : O) (bs : Bytes) → 1 ≤ length bs → IsTaken io written o bs
  pub gives : (i : I) (n : ℕ) → 1 ≤ n → n ≤ length (remaining i) → IsGiven io remaining i n

take-drop : (n : ℕ) (bs : Bytes) → take n bs ++ drop n bs ≡ bs
unfolding take drop
take-drop zero bs = refl
take-drop (suc n) [] = refl
take-drop (suc n) (b ∷ bs) = ap (λ x. b ∷ x) (take-drop n bs)

length-drop : (n : ℕ) (bs : Bytes) → length (drop n bs) ≡ length bs - n
unfolding drop
length-drop zero bs = omega arith
length-drop (suc n) [] = omega arith
length-drop (suc n) (b ∷ bs) = let IH = length-drop n bs in omega (arith, IH)

take_split : (a b : ℕ) (bs : Bytes) → take a bs ++ take b (drop a bs) ≡ take (a + b) bs
unfolding take drop
take_split zero b bs = let no : zero + b ≡ b = omega arith in rw (no) refl
take_split (suc a) zero [] =
    let more : suc a + zero ≡ suc (a + zero) = omega arith in rw (more) refl
take_split (suc a) (suc b) [] =
    let more : suc a + (suc b) ≡ suc (a + (suc b)) = omega arith in rw (more) refl
take_split (suc a) b (x ∷ bs) =
    let more : suc a + b ≡ suc (a + b) = omega arith in
    rw (more) (ap (λ y. x ∷ y) (take_split a b bs))

drop_split : (a b : ℕ) (bs : Bytes) → drop b (drop a bs) ≡ drop (a + b) bs
unfolding drop
drop_split zero b bs = let no : zero + b ≡ b = omega arith in rw (no) refl
drop_split (suc a) zero [] =
    let more : suc a + zero ≡ suc (a + zero) = omega arith in rw (more) refl
drop_split (suc a) (suc b) [] =
    let more : suc a + (suc b) ≡ suc (a + (suc b)) = omega arith in rw (more) refl
drop_split (suc a) b (x ∷ bs) =
    let more : suc a + b ≡ suc (a + b) = omega arith in rw (more) (drop_split a b bs)

take-append : (a b : Bytes) → take (length a) (a ++ b) ≡ a
unfolding take
take-append [] b = refl
take-append (x ∷ a) b = ap (λ y. x ∷ y) (take-append a b)

drop-append : (a b : Bytes) → drop (length a) (a ++ b) ≡ b
unfolding drop
drop-append [] b = refl
drop-append (x ∷ a) b = drop-append a b

pub append-nil : (a : Bytes) → a ++ [] ≡ a
append-nil [] = refl
append-nil (x ∷ a) = ap (λ y. x ∷ y) (append-nil a)

pub append_assoc : (a b c : Bytes) → (a ++ b) ++ c ≡ a ++ (b ++ c)
append_assoc [] b c = refl
append_assoc (x ∷ a) b c = ap (λ y. x ∷ y) (append_assoc a b c)

module _ {O I : Type 0} (io : Streams O I) (h : IsStream io) where
  pub record Wrote (r : Bool × O) (bs : Bytes) : Type 0 where
    pub whole : r.0 ≡ true
    pub now : h.written r.1 ≡ bs

  write_step :
      (n : ℕ) (o : O) (b : ℕ) (bs : Bytes) (w : ℕ)
      → (io.write o (b ∷ bs)).0 ≡ pos (suc w)
      → write_rounds io (suc n) o (b ∷ bs) ≡ write_rounds io n (io.write o (b ∷ bs)).1 (drop w bs)
  unfolding write_rounds
  write_step n o b bs w e =
      let next = (io.write o (b ∷ bs)).1 in
      ap
        (λ (x : ℤ). elim x as (λ _. Bool × O) [
          | negsuc v ↦ (false, next)
          | pos zero ↦ (false, next)
          | pos (suc v) ↦ write_rounds io n next (drop v bs)
        ])
        e

  write_rounds-Wrote :
      (n : ℕ) (o : O) (bs : Bytes)
      → length bs ≤ n
      → Wrote (write_rounds io n o bs) (h.written o ++ bs)
  unfolding write_rounds drop take
  write_rounds-Wrote n o [] e = record { whole = refl; now = sym (append-nil (h.written o)) }
  write_rounds-Wrote zero o (b ∷ bs) e = absurd (omega (arith, e))
  write_rounds-Wrote (suc n) o (b ∷ bs) e =
      let t = h.takes o (b ∷ bs) (omega arith) in
      let left = length-drop t.count bs in
      let r =
        write_rounds-Wrote n (io.write o (b ∷ bs)).1 (drop t.count bs) (omega (arith, left, e)) in
      let so : h.written (io.write o (b ∷ bs)).1 ++ drop t.count bs ≡ h.written o ++ (b ∷ bs) =
        ap (λ x. x ++ drop t.count bs) t.appended
        ∙ append_assoc (h.written o) (b ∷ take t.count bs) (drop t.count bs)
        ∙ ap (λ x. h.written o ++ (b ∷ x)) (take-drop t.count bs) in
      subst (λ x. Wrote x (h.written o ++ (b ∷ bs))) (sym (write_step n o b bs t.count t.answer))
        (subst (λ x. Wrote (write_rounds io n (io.write o (b ∷ bs)).1 (drop t.count bs)) x) so r)

  pub write_all-Wrote : (o : O) (bs : Bytes) → Wrote (write_all io o bs) (h.written o ++ bs)
  unfolding write_all
  write_all-Wrote o bs = write_rounds-Wrote (length bs) o bs (omega arith)

  pub record Read (r : Option Bytes × I) (bs rest : Bytes) : Type 0 where
    pub got : r.0 ≡ some bs
    pub left : h.remaining r.1 ≡ rest

  read_step :
      (n m : ℕ) (i : I) (r : ℕ)
      → (io.read i (suc m)).0 ≡ pos (suc r)
      → read_rounds io (suc n) i (suc m) ≡ (
        elim (read_rounds io n (io.read i (suc m)).2 (m - r)).0 [
          | none ↦ none
          | some bs ↦ some (take (suc r) (io.read i (suc m)).1 ++ bs)
        ],
        (read_rounds io n (io.read i (suc m)).2 (m - r)).1,
      )
  unfolding read_rounds
  read_step n m i r e =
      let next = (io.read i (suc m)).2 in
      ap
        (λ (x : ℤ). elim x as (λ _. Option Bytes × I) [
          | negsuc v ↦ (none, next)
          | pos zero ↦ (none, next)
          | pos (suc v) ↦ (
            elim (read_rounds io n next (m - v)).0 [
              | none ↦ none
              | some bs ↦ some (take (suc v) (io.read i (suc m)).1 ++ bs)
            ],
            (read_rounds io n next (m - v)).1,
          )
        ])
        e

  read_rounds-Read :
      (fuel n : ℕ) (i : I)
      → n ≤ fuel
      → n ≤ length (h.remaining i)
      → Read (read_rounds io fuel i n) (take n (h.remaining i)) (drop n (h.remaining i))
  unfolding read_rounds drop take
  read_rounds-Read fuel zero i e l = record { got = refl; left = refl }
  read_rounds-Read zero (suc n) i e l = absurd (omega (arith, e))
  read_rounds-Read (suc fuel) (suc n) i e l =
      let t = h.gives i (suc n) (omega arith) l in
      let next = (io.read i (suc n)).2 in
      let left = length-drop (suc t.count) (h.remaining i) in
      let size = ap length t.advanced in
      let r =
        read_rounds-Read fuel (n - t.count) next (omega (arith, e))
          (omega (arith, left, size, l, t.within)) in
      let all : suc t.count + (n - t.count) ≡ suc n = omega (arith, t.within) in
      let got =
        ap₂ (λ x y. some (x ++ take (n - t.count) y)) t.bytes t.advanced
        ∙ ap some (take_split (suc t.count) (n - t.count) (h.remaining i))
        ∙ ap (λ k. some (take k (h.remaining i))) all in
      let rest =
        ap (drop (n - t.count)) t.advanced
        ∙ drop_split (suc t.count) (n - t.count) (h.remaining i)
        ∙ ap (λ k. drop k (h.remaining i)) all in
      subst (λ x. Read x (take (suc n) (h.remaining i)) (drop (suc n) (h.remaining i)))
        (sym (read_step fuel n i t.count t.answer))
        (record { got = rw (r.got) got; left = r.left ∙ rest })

  pub read_all-Read :
      (i : I) (bs rest : Bytes)
      → h.remaining i ≡ bs ++ rest
      → Read (read_all io i (length bs)) bs rest
  unfolding read_all
  read_all-Read i bs rest e =
      let size = length-append bs rest in
      let long : length bs ≤ length (h.remaining i) =
        let l = ap length e in omega (arith, l, size) in
      let r = read_rounds-Read (length bs) (length bs) i (omega arith) long in
      record {
        got = r.got ∙ ap (λ x. some (take (length bs) x)) e ∙ ap some (take-append bs rest);
        left = r.left ∙ ap (drop (length bs)) e ∙ drop-append bs rest;
      }
