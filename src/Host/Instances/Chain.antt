-- ===== src/Host/Instances/Chain.antt =====
-- A chain of two instances of csrc/clap_host.c: the output of one becomes the input of the other.
use audio_plugins_jl.Base.{
  ℕ, ◌<◌, ◌≡◌, refl, sym, ap, ◌∙◌, subst, true, false, some, List, [], ◌∷◌, arith, ltb, ◌==◌,
  Bool-cases, Option-cases, inl, inr, ==_iff,
}
use audio_plugins_jl.Host.Types.{ℤ, pos, negsuc, index_below, Doubles, Floats, PluginOps}
use audio_plugins_jl.Host.State.{State, Ctx}
use audio_plugins_jl.Host.Tokens.{next_token, token_matches}
use audio_plugins_jl.Host.Input.{new_block, sample_at, in_sample}
use audio_plugins_jl.Host.Output.{out_ok, out_sample}
use audio_plugins_jl.Host.Instances.{
  Host, find_instance, put_instance, copy_block, copied_rows, ctx, globals,
}
use audio_plugins_jl.Host.Instances.Handles.{Below, find_instance-Below}

index_below_bound : (i : ℤ) (n k : ℕ) → index_below i n ≡ some k → k < n
unfolding index_below
index_below_bound (pos i) n k e = ground (arith, e)
index_below_bound (negsuc i) n k e = ground (arith, e)

module _ {D S : Type 0} ⦃f : Doubles D⦄ ⦃g : Floats D S⦄ where
  -- A read of two blocks that agree inside their bounds gives the same.
  pub sample_at_alike :
      (rows rows' : ℕ → ℕ → S) (n chan : ℕ) (i ch : D)
      → ((c k : ℕ) → c < chan → k < n → rows c k ≡ rows' c k)
      → sample_at rows n chan i ch ≡ sample_at rows' n chan i ch
  unfolding sample_at
  sample_at_alike rows rows' n chan i ch same =
      elim (Option-cases (index_below (f.to_long (f.add i f.half)) n)) [
        | inl out ↦ ground (arith, out)
        | inr (k, at_k) ↦ elim (Option-cases (index_below (f.to_long (f.add ch f.half)) chan)) [
          | inl out ↦ ground (arith, out, at_k)
          | inr (c, at_c) ↦
              let cell =
                same c k (index_below_bound _ chan c at_c) (index_below_bound _ n k at_k) in
              ground (arith, at_k, at_c, cell)
        ]
      ]

module _ {P D S : Type 0} ⦃f : Doubles D⦄ where
  -- A changed instance is found under the handle that it was found under.
  pub find_instance_put :
      (n : ℕ) (handle : D) (l : List (ℕ × State P D S)) (x : ℕ × State P D S) (t : State P D S)
      → Below n l
      → find_instance handle l ≡ some x
      → find_instance handle (put_instance x.0 t l) ≡ some (x.0, t)
  unfolding find_instance put_instance
  find_instance_put n handle [] x t v e = ground (arith, e)
  find_instance_put n handle ((k, s) ∷ l) x t v e = elim (Bool-cases (f.same (f.of_ℕ k) handle)) [
    | inl hit ↦
        let key : (k, s) ≡ x = ground (arith, hit, e) in
        subst (λ y. find_instance handle (put_instance y.0 t ((k, s) ∷ l)) ≡ some (y.0, t)) key
          (simp ((==_iff k k).1 refl) (ground (arith, hit)))
    | inr miss ↦
        let found : find_instance handle l ≡ some x = ground (arith, miss, e) in
        let lt = find_instance-Below k handle l x v.1 found in
        let other : (k == x.0) ≡ false = ground (arith, lt) in
        let rest = find_instance_put k handle l x t v.1 found in
        simp other (ground (arith, miss, rest))
  ]

module _ {P D S : Type 0} ⦃f : Doubles D⦄ ⦃g : Floats D S⦄ (ops : PluginOps P D S) where
  -- Two states that a chain may join.
  pub record IsJoined (d s : State P D S) : Type 0 where
    pub opened : d.is_open ≡ true
    pub block : d.block ≡ s.block
    pub chan : d.chan ≡ s.chan
    pub rate : f.same d.sample_rate s.sample_rate ≡ true

  pub copy_block_token :
      (k : ℕ) (d s : State P D S) (dep : D) (h : Host P D S)
      → out_ok dep (ctx false s h) ≡ true
      → IsJoined d s
      → copy_block ops k d s dep h ≡ (
          let (token, c) = new_block d.block (copied_rows ops d s) (ctx false d h) in
          (token, record (globals c h) { instances = put_instance k c.st h.instances }))
  unfolding copy_block
  copy_block_token k d s dep h valid v = ground (arith, valid, v.block, v.chan, v.rate)

  next_token_st : (c : Ctx P D S) (previous : D) → (next_token c previous).1.st ≡ c.st
  unfolding next_token
  next_token_st c previous = ground arith

  -- What a state reads of a block that it has just been given.
  new_block_read :
      (n : ℕ) (rows : ℕ → ℕ → S) (c : Ctx P D S) (t : Host P D S) (i ch : D)
      → c.st.is_open ≡ true
      → f.same (new_block n rows c).0 (new_block n rows c).0 ≡ true
      → in_sample (new_block n rows c).0 i ch (ctx false (new_block n rows c).1.st t)
        ≡ sample_at rows n c.st.chan i ch
  unfolding in_sample new_block token_matches
  new_block_read n rows c t i ch opened whole =
      let keep = next_token_st c c.st.in_token in
      let open' : (next_token c c.st.in_token).1.st.is_open ≡ true =
        ap (λ s. s.is_open) keep ∙ opened in
      let chan' : (next_token c c.st.in_token).1.st.chan ≡ c.st.chan = ap (λ s. s.chan) keep in
      ground (arith, open', whole, chan')

  out_sample_valid :
      (s : State P D S) (h : Host P D S) (dep i ch : D)
      → out_ok dep (ctx false s h) ≡ true
      → out_sample dep i ch (ctx false s h) ≡ sample_at s.output s.out_n s.chan i ch
  unfolding out_sample
  out_sample_valid s h dep i ch valid = ground (arith, valid)

  -- What the joined state reads of its new block.
  pub in_sample_copied :
      (d s : State P D S) (h t : Host P D S) (dep i ch : D)
      → out_ok dep (ctx false s h) ≡ true
      → IsJoined d s
      → s.out_n ≡ s.block
      → f.same
          (new_block d.block (copied_rows ops d s) (ctx false d h)).0
          (new_block d.block (copied_rows ops d s) (ctx false d h)).0
        ≡ true
      → in_sample
          (new_block d.block (copied_rows ops d s) (ctx false d h)).0
          i
          ch
          (ctx false (new_block d.block (copied_rows ops d s) (ctx false d h)).1.st t)
        ≡ out_sample dep i ch (ctx false s h)
  in_sample_copied d s h t dep i ch valid v full whole =
      new_block_read d.block (copied_rows ops d s) (ctx false d h) t i ch v.opened whole
      ∙ sample_at_alike (copied_rows ops d s) s.output d.block d.chan i ch (λ c k hc hk.
        let a : ltb c d.chan ≡ true = ground (arith, hc) in
        let b : ltb k d.block ≡ true = ground (arith, hk) in simp (a, b) refl)
      ∙ ap (λ n. sample_at s.output n d.chan i ch) (v.block ∙ sym full)
      ∙ ap (λ n. sample_at s.output s.out_n n i ch) v.chan
      ∙ sym (out_sample_valid s h dep i ch valid)
