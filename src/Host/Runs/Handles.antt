-- ===== src/Host/Runs/Handles.antt =====
-- Handles are never reused, and an instance answers to its own handle alone.
use audio_plugins_jl.Base.{
  ℕ, ◌+◌, ◌≤◌, ◌<◌, ◌≡◌, refl, Bool, false, not, ◌||◌, Option, ◌∷◌, arith, ◌==◌, Bool-cases,
  Option-cases, ◌⊎◌, inl, inr, leb, leb→lt,
}
use audio_plugins_jl.Host.Types.{Doubles, Floats, PluginOps, Bundle, Bytes}
use audio_plugins_jl.Host.State.{State}
use audio_plugins_jl.Host.Tokens.{exact_max}
use audio_plugins_jl.Host.Open.{open_bundle}
use audio_plugins_jl.Host.Input.{new_block}
use audio_plugins_jl.Host.Output.{out_ok}
use audio_plugins_jl.Host.Query.{Query, Command, command}
use audio_plugins_jl.Host.Instances.{
  Host, fresh, instance_args, find_instance, instance_of, put_instance, query_for, command_for,
  command_default, open_instance, close_instance, scan_default, open_default, close_default,
  in_copy, ctx, copied_rows, copy_block,
}
use audio_plugins_jl.Host.Runs.Calls.{
  command_for_missing, command_for_found, close_instance_missing, close_instance_found,
  in_copy_from, in_copy_to, in_copy_found,
}
use audio_plugins_jl.Host.Instances.Handles.{
  IsExact, Below, Gone, put_instance-Below, put_instance-Gone, unlink-Below, unlink_keeps-Gone,
}
use audio_plugins_jl.Host.Runs.{
  Step, asks, commands, commands_default, opens, closes, scans, opens_default, closes_default,
  copies, Reach, here, next,
}

-- Handles in falling order, up to the last one given, which is a whole double.
pub record IsNumbered {P D S : Type 0} (h : Host P D S) : Type 0 where
  pub exact_handle : h.next_handle ≤ exact_max
  pub below : Below (h.next_handle + 1) h.instances

-- What a step does to handles.
pub record Keeps {P D S : Type 0} (h t : Host P D S) : Type 0 where
  pub numbered : IsNumbered h → IsNumbered t
  pub grows : h.next_handle ≤ t.next_handle
  pub stays : (a : ℕ) → a ≤ h.next_handle → Gone a h.instances → Gone a t.instances

module _ {P D S : Type 0} where
  -- A step that leaves the list alone, or changes the state of one instance.
  same_list :
      (h t : Host P D S) → t.instances ≡ h.instances → t.next_handle ≡ h.next_handle → Keeps h t
  same_list h t e n = record {
    numbered =
        λ v. record { exact_handle = omega (arith, v.exact_handle, n); below = rw (e, n) v.below };
    grows = omega (arith, n);
    stays = λ a le v. rw e v;
  }

  put_list :
      (h t : Host P D S) (k : ℕ) (s : State P D S)
      → t.instances ≡ put_instance k s h.instances
      → t.next_handle ≡ h.next_handle
      → Keeps h t
  put_list h t k s e n = record {
    numbered = λ v. record {
      exact_handle = omega (arith, v.exact_handle, n);
      below = rw (e, n) (put_instance-Below (h.next_handle + 1) k s h.instances v.below);
    };
    grows = omega (arith, n);
    stays = λ a le v. rw e (put_instance-Gone a k s h.instances v);
  }

module _ {P D S : Type 0} ⦃f : Doubles D⦄ ⦃g : Floats D S⦄ (ops : PluginOps P D S) where
  query_for-Keeps :
      (handle : D) (q : Query D) (h : Host P D S) → Keeps h (query_for ops handle q h).1
  unfolding query_for instance_of
  query_for-Keeps handle q h = same_list h _ (ground arith) (ground arith)

  command_for-Keeps :
      (handle : D) (q : Command D) (h : Host P D S) → Keeps h (command_for ops handle q h).1
  command_for-Keeps handle q h = elim (Option-cases (find_instance handle h.instances)) [
    | inl missing ↦ rw (command_for_missing ops handle q h missing) (same_list h _ refl refl)
    | inr (found, e) ↦
        rw (command_for_found ops handle q h found.0 found.1 e)
          (put_list h _ found.0 (command ops q (ctx false found.1 h)).1.st refl refl)
  ]

  -- Opening either leaves the list alone or puts one instance in front, under the next handle.
  open_instance_cases :
      (b : Bundle P) (memory : Bool) (path : Bytes) (id : Option Bytes) (rate size chans : D)
      (h : Host P D S)
      → let t = (open_instance ops b memory path id rate size chans h).1 in
        ((t.instances ≡ h.instances) × (t.next_handle ≡ h.next_handle))
        ⊎ ((h.next_handle < exact_max)
            × (s : State P D S) × (t.instances ≡ (h.next_handle + 1, s) ∷ h.instances)
            × (t.next_handle ≡ h.next_handle + 1))
  unfolding open_instance
  open_instance_cases b memory path id rate size chans h =
      let r = open_bundle ops b path id rate size chans (ctx false (fresh ops) h) in
      elim (Bool-cases (instance_args ops rate size chans)) [
        | inr bad ↦ simp bad (inl (refl, refl))
        | inl args ↦ elim (Bool-cases (leb exact_max h.next_handle)) [
          | inl spent ↦ simp (args, spent) (inl (refl, refl))
          | inr left ↦ elim (Bool-cases memory) [
            | inr poor ↦ simp (args, left, poor) (inl (refl, refl))
            | inl rich ↦ elim (Bool-cases r.0) [
              | inr failed ↦ simp (args, left, rich, failed) (inl (refl, refl))
              | inl done ↦
                  simp (args, left, rich, done)
                    (inr (leb→lt exact_max h.next_handle left, r.1.st, refl, refl))
            ]
          ]
        ]
      ]

  copy_block_cases :
      (k : ℕ) (d s : State P D S) (dep : D) (h : Host P D S)
      → let t = (copy_block ops k d s dep h).1 in
        (t.next_handle ≡ h.next_handle)
        × ((t.instances ≡ h.instances)
            ⊎ ((s' : State P D S) × (t.instances ≡ put_instance k s' h.instances)))
  unfolding copy_block
  copy_block_cases k d s dep h = elim (Bool-cases (out_ok dep (ctx false s h))) [
    | inr stale ↦ simp stale (refl, inl refl)
    | inl valid ↦
        elim (Bool-cases (
          not (d.block == s.block)
          || not (d.chan == s.chan)
          || not (f.same d.sample_rate s.sample_rate))) [
            | inl other ↦ simp (valid, other) (refl, inl refl)
            | inr alike ↦
                simp (valid, alike)
                  (refl, inr ((new_block d.block (copied_rows ops d s) (ctx false d h)).1.st, refl))
          ]
  ]

  in_copy-Keeps : (dst src dep : D) (h : Host P D S) → Keeps h (in_copy ops dst src dep h).1
  in_copy-Keeps dst src dep h = elim (Option-cases (find_instance dst h.instances)) [
    | inl e ↦ let (n, same) = in_copy_to ops dst src dep h e in same_list h _ same n
    | inr (x, e) ↦ elim (Option-cases (find_instance src h.instances)) [
      | inl e' ↦ let (n, same) = in_copy_from ops dst src dep h e' in same_list h _ same n
      | inr (y, e') ↦ rw (in_copy_found ops dst src dep h x y e e') (
          let (n, change) = copy_block_cases x.0 x.1 y.1 dep h in
          elim change [ inl same ↦ same_list h _ same n | inr (s, put) ↦ put_list h _ x.0 s put n ])
    ]
  ]

  module _ (exact : IsExact f) where
    pub close_instance-Keeps : (handle : D) (h : Host P D S) → Keeps h (close_instance ops handle h)
    close_instance-Keeps handle h = elim (Option-cases (find_instance handle h.instances)) [
      | inl missing ↦ rw (close_instance_missing ops handle h missing) (same_list h h refl refl)
      | inr (found, e) ↦ rw (close_instance_found ops handle h found.0 found.1 e) (record {
        numbered = λ v. record {
          exact_handle = v.exact_handle;
          below = unlink-Below exact (h.next_handle + 1) handle h.instances v.below;
        };
        grows = omega arith;
        stays = λ a le v. unlink_keeps-Gone exact handle a h.instances v;
      })
    ]

    pub Step-Keeps : {h t : Host P D S} → Step ops h t → Keeps h t
    unfolding command_default scan_default open_default close_default
    Step-Keeps {h} (asks handle q) = query_for-Keeps handle q h
    Step-Keeps {h} (commands handle q) = command_for-Keeps handle q h
    Step-Keeps {h} (commands_default q) = same_list h _ refl refl
    Step-Keeps {h} {t} (opens b memory path id rate size chans) =
        elim (open_instance_cases b memory path id rate size chans h) [
          | inl (e, n) ↦ same_list h _ e n
          | inr (room, s, e, n) ↦ record {
            numbered = λ v. record {
              exact_handle = omega (arith, n, room);
              below = rw (e, n) (omega arith, v.below);
            };
            grows = omega (arith, n);
            stays = λ a le v. rw e (omega (arith, le), v);
          }
        ]
    Step-Keeps {h} (closes handle) = close_instance-Keeps handle h
    Step-Keeps {h} (scans b path) = same_list h _ refl refl
    Step-Keeps {h} (opens_default b path id rate size chans) = same_list h _ refl refl
    Step-Keeps {h} closes_default = same_list h _ refl refl
    Step-Keeps {h} (copies dst src dep) = in_copy-Keeps dst src dep h

    pub Reach-Keeps : {h t : Host P D S} → Reach ops h t → Keeps h t
    Reach-Keeps {h} here = same_list h h refl refl
    Reach-Keeps (next m st) =
        let a = Reach-Keeps m in
        let b = Step-Keeps st in
        record {
          numbered = λ v. b.numbered (a.numbered v);
          grows = omega (arith, a.grows, b.grows);
          stays = λ i le v. b.stays i (omega (arith, a.grows)) (a.stays i le v);
        }
