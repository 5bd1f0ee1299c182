-- ===== src/Host/Runs/Copied.antt =====
-- `clap_in_copy_for` of csrc/clap_host.c, as the readers of both instances see it.
use audio_plugins_jl.Base.{ℕ, ◌+◌, ◌≡◌, sym, ap, ◌∙◌, subst, true, false, some}
use audio_plugins_jl.Host.Types.{Doubles, Floats, PluginOps}
use audio_plugins_jl.Host.State.{State}
use audio_plugins_jl.Host.Input.{new_block}
use audio_plugins_jl.Host.Output.{out_ok}
use audio_plugins_jl.Host.Query.{query, number, in_sample_of, out_sample_of}
use audio_plugins_jl.Host.Instances.{
  Host, find_instance, put_instance, query_for, in_copy, copied_rows, ctx, globals,
}
use audio_plugins_jl.Host.Instances.Chain.{
  IsJoined, find_instance_put, copy_block_token, in_sample_copied,
}
use audio_plugins_jl.Host.Runs.Handles.{IsNumbered}
use audio_plugins_jl.Host.Runs.Calls.{query_for_found, in_copy_found}

module _ {P D S : Type 0} ⦃f : Doubles D⦄ ⦃g : Floats D S⦄ (ops : PluginOps P D S) where
  -- What a copy between two instances answers and leaves, where they may be joined.
  copied :
      (h : Host P D S) (dst src dep : D) (x y : ℕ × State P D S)
      → find_instance dst h.instances ≡ some x
      → find_instance src h.instances ≡ some y
      → out_ok dep (ctx false y.1 h) ≡ true
      → IsJoined ops x.1 y.1
      → in_copy ops dst src dep h ≡ (
          let (token, c) = new_block x.1.block (copied_rows ops x.1 y.1) (ctx false x.1 h) in
          (token, record (globals c h) { instances = put_instance x.0 c.st h.instances }))
  copied h dst src dep x y at_dst at_src valid v =
      in_copy_found ops dst src dep h x y at_dst at_src
      ∙ copy_block_token ops x.0 x.1 y.1 dep h valid v

  -- On a host whose handles are numbered, after a copy from an instance whose named output block is
  -- whole and current to another instance of the same block size, channels and rate, which is open,
  -- and where the new token is a number: every sample that the new block of the destination answers,
  -- under the token of the copy, is the one that the output block of the source answered before it.
  pub in_copy_hands_on :
      (h : Host P D S) (dst src dep i ch : D) (x y : ℕ × State P D S) (r : D × Host P D S)
      → IsNumbered h
      → find_instance dst h.instances ≡ some x
      → find_instance src h.instances ≡ some y
      → out_ok dep (ctx false y.1 h) ≡ true
      → IsJoined ops x.1 y.1
      → y.1.out_n ≡ y.1.block
      → r ≡ in_copy ops dst src dep h
      → f.same r.0 r.0 ≡ true
      → (query_for ops dst (in_sample_of r.0 i ch) r.1).0
        ≡ (query_for ops src (out_sample_of dep i ch) h).0
  unfolding query
  in_copy_hands_on h dst src dep i ch x y r n at_dst at_src valid v full e whole =
      let same = e ∙ copied h dst src dep x y at_dst at_src valid v in
      let (token, c) = new_block x.1.block (copied_rows ops x.1 y.1) (ctx false x.1 h) in
      let t : Host P D S = record (globals c h) { instances = put_instance x.0 c.st h.instances } in
      let whole' : f.same token token ≡ true = subst (λ u. f.same u.0 u.0 ≡ true) same whole in
      let found = find_instance_put (h.next_handle + 1) dst h.instances x c.st n.below at_dst in
      subst
        (λ u.
          (query_for ops dst (in_sample_of u.0 i ch) u.1).0
          ≡ (query_for ops src (out_sample_of dep i ch) h).0)
        (sym same)
        (ap (λ u. u.0) (query_for_found ops dst (in_sample_of token i ch) t (x.0, c.st) found)
          ∙ ap number (in_sample_copied ops x.1 y.1 h t dep i ch valid v full whole')
          ∙ sym (ap (λ u. u.0) (query_for_found ops src (out_sample_of dep i ch) h y at_src)))
