-- ===== src/Host/Runs/Calls.antt =====
-- What the calls of csrc/clap_host.c on a handle come to, by what the handle finds.
use audio_plugins_jl.Base.{ℕ, ◌≡◌, false, none, some, arith, Option-cases, inl, inr}
use audio_plugins_jl.Host.Types.{Doubles, Floats, PluginOps, invalid_handle}
use audio_plugins_jl.Host.State.{State}
use audio_plugins_jl.Host.Open.{close}
use audio_plugins_jl.Host.Query.{Query, Command, query, refusal, refused_command, command}
use audio_plugins_jl.Host.Instances.{
  Host, find_instance, instance_of, unlink, put_instance, query_for, command_for, close_instance,
  in_copy, ctx, globals, copy_block,
}

module _ {P D S : Type 0} ⦃f : Doubles D⦄ ⦃g : Floats D S⦄ (ops : PluginOps P D S) where
  pub query_for_missing :
      (handle : D) (q : Query D) (h : Host P D S)
      → find_instance handle h.instances ≡ none
      → query_for ops handle q h ≡ (refusal q, record h { err = some invalid_handle })
  unfolding query_for instance_of
  query_for_missing handle q h e = ground (arith, e)

  pub query_for_found :
      (handle : D) (q : Query D) (h : Host P D S) (x : ℕ × State P D S)
      → find_instance handle h.instances ≡ some x
      → query_for ops handle q h ≡ (query ops q (ctx false x.1 h), h)
  unfolding query_for instance_of
  query_for_found handle q h x e = ground (arith, e)

  pub command_for_missing :
      (handle : D) (q : Command D) (h : Host P D S)
      → find_instance handle h.instances ≡ none
      → command_for ops handle q h ≡ (refused_command q, record h { err = some invalid_handle })
  unfolding command_for instance_of
  command_for_missing handle q h e = ground (arith, e)

  pub command_for_found :
      (handle : D) (q : Command D) (h : Host P D S) (k : ℕ) (s : State P D S)
      → find_instance handle h.instances ≡ some (k, s)
      → let (r, c) = command ops q (ctx false s h) in
        command_for ops handle q h
        ≡ (r, record (globals c h) { instances = put_instance k c.st h.instances })
  unfolding command_for instance_of
  command_for_found handle q h k s e = ground (arith, e)

  pub close_instance_missing :
      (handle : D) (h : Host P D S)
      → find_instance handle h.instances ≡ none
      → close_instance ops handle h ≡ h
  unfolding close_instance
  close_instance_missing handle h e = ground (arith, e)

  pub close_instance_found :
      (handle : D) (h : Host P D S) (k : ℕ) (s : State P D S)
      → find_instance handle h.instances ≡ some (k, s)
      → close_instance ops handle h
        ≡ globals (close ops (ctx false s h)) (record h { instances = unlink handle h.instances })
  unfolding close_instance
  close_instance_found handle h k s e = ground (arith, e)

  pub in_copy_source :
      (dst src dep : D) (h : Host P D S)
      → find_instance src h.instances ≡ none
      → in_copy ops dst src dep h ≡ (f.nan, record h { err = some invalid_handle })
  unfolding in_copy instance_of
  in_copy_source dst src dep h e = elim (Option-cases (find_instance dst h.instances)) [
    | inl e' ↦ ground (arith, e, e')
    | inr (x, e') ↦ ground (arith, e, e')
  ]

  pub in_copy_destination :
      (dst src dep : D) (h : Host P D S)
      → find_instance dst h.instances ≡ none
      → in_copy ops dst src dep h ≡ (f.nan, record h { err = some invalid_handle })
  unfolding in_copy instance_of
  in_copy_destination dst src dep h e = elim (Option-cases (find_instance src h.instances)) [
    | inl e' ↦ ground (arith, e, e')
    | inr (x, e') ↦ ground (arith, e, e')
  ]

  pub in_copy_from :
      (dst src dep : D) (h : Host P D S)
      → find_instance src h.instances ≡ none
      → ((in_copy ops dst src dep h).1.next_handle ≡ h.next_handle)
        × ((in_copy ops dst src dep h).1.instances ≡ h.instances)
  unfolding in_copy instance_of
  in_copy_from dst src dep h e = (ground (arith, e), ground (arith, e))

  pub in_copy_to :
      (dst src dep : D) (h : Host P D S)
      → find_instance dst h.instances ≡ none
      → ((in_copy ops dst src dep h).1.next_handle ≡ h.next_handle)
        × ((in_copy ops dst src dep h).1.instances ≡ h.instances)
  unfolding in_copy instance_of
  in_copy_to dst src dep h e = (ground (arith, e), ground (arith, e))

  pub in_copy_found :
      (dst src dep : D) (h : Host P D S) (x y : ℕ × State P D S)
      → find_instance dst h.instances ≡ some x
      → find_instance src h.instances ≡ some y
      → in_copy ops dst src dep h ≡ copy_block ops x.0 x.1 y.1 dep h
  unfolding in_copy instance_of
  in_copy_found dst src dep h x y e e' = ground (arith, e, e')
