-- ===== src/Export/Process/Due.antt =====
-- The events of `plug_process` in csrc/clap_plugin_template.c, split at a frame.
use audio_plugins_jl.Base.{
  ℕ, suc, ◌+◌, ◌-◌, ◌<◌, ◌≤◌, ◌≡◌, refl, List, [], ◌∷◌, ◌++◌, Option, none, some, ltb, arith,
}
use audio_plugins_jl.Base.Cases.{if_all}
use audio_plugins_jl.Host.Types.{Doubles}
use audio_plugins_jl.Export.Program.{Program, Inst}
use audio_plugins_jl.Export.Params.{Event, apply_event, apply_events}
use audio_plugins_jl.Export.Process.{due}

-- Each event is of a frame before `n`.
abbrev pub IsBefore : {D : Type 0} → ℕ → List (Option (Event D)) → Type 0
IsBefore n [] = Unit
IsBefore n (none ∷ es) = IsBefore n es
IsBefore n (some e ∷ es) = (e.time < n) × IsBefore n es

-- The first of the events, if there is one, is of frame `n` or later.
abbrev pub StartsAt : {D : Type 0} → ℕ → List (Option (Event D)) → Type 0
StartsAt n [] = Unit
StartsAt n (none ∷ es) = ⊥
StartsAt n (some e ∷ es) = n ≤ e.time

-- The events of a block that begins at frame `n`.
abbrev pub later : {D : Type 0} → ℕ → List (Option (Event D)) → List (Option (Event D))
later n [] = []
later n (none ∷ es) = none ∷ later n es
later n (some e ∷ es) = some (record e { time = e.time - n }) ∷ later n es

module _ {Pars Mem Out D : Type 0} ⦃f : Doubles D⦄ (prog : Program Pars Mem Out D) where
  due_held :
      (i n : ℕ) (es : List (Option (Event D))) (s : Inst Pars Mem D)
      → i < n
      → StartsAt n es
      → due prog i es s ≡ (es, s)
  unfolding due
  due_held i n [] s h st = refl
  due_held i n (none ∷ es) s h st = absurd st
  due_held i n (some e ∷ es) s h st = ground (arith)

  -- Before frame `n`, the later events wait.
  pub due_prefix :
      (i n : ℕ) (es fs : List (Option (Event D))) (s : Inst Pars Mem D)
      → i < n
      → StartsAt n fs
      → due prog i (es ++ fs) s ≡ ((due prog i es s).0 ++ fs, (due prog i es s).1)
  unfolding due
  due_prefix i n [] fs s h st = due_held i n fs s h st
  due_prefix i n (none ∷ es) fs s h st = due_prefix i n es fs s h st
  due_prefix i n (some e ∷ es) fs s h st =
      let IH = due_prefix i n es fs (apply_event prog (some e) s) h st in ground (arith, IH)

  pub due-IsBefore :
      (i n : ℕ) (es : List (Option (Event D))) (s : Inst Pars Mem D)
      → IsBefore n es
      → IsBefore n (due prog i es s).0
  unfolding due
  due-IsBefore i n [] s h = h
  due-IsBefore i n (none ∷ es) s h = due-IsBefore i n es s h
  due-IsBefore i n (some e ∷ es) s h =
      if_all (λ (r : List (Option (Event D)) × Inst Pars Mem D). IsBefore n r.0) (ltb i e.time) h
        (due-IsBefore i n es (apply_event prog (some e) s) (h.1))

  -- From frame `n` on, the earlier events are all taken.
  pub due_passed :
      (i n : ℕ) (es fs : List (Option (Event D))) (s : Inst Pars Mem D)
      → n ≤ suc i
      → IsBefore n es
      → due prog i (es ++ fs) s ≡ due prog i fs (apply_events prog es s)
  unfolding due apply_events apply_event
  due_passed i n [] fs s h b = refl
  due_passed i n (none ∷ es) fs s h b = due_passed i n es fs s h b
  due_passed i n (some e ∷ es) fs s h b =
      let IH = due_passed i n es fs (apply_event prog (some e) s) h (b.1) in ground (arith, IH)

  pub apply_event_later :
      (n : ℕ) (e : Event D) (s : Inst Pars Mem D)
      → apply_event prog (some (record e { time = e.time - n })) s ≡ apply_event prog (some e) s
  unfolding apply_event
  apply_event_later n e s = refl

  pub apply_events-later :
      (n : ℕ) (es : List (Option (Event D))) (s : Inst Pars Mem D)
      → apply_events prog (later n es) s ≡ apply_events prog es s
  unfolding apply_events apply_event
  apply_events-later n [] s = refl
  apply_events-later n (none ∷ es) s = apply_events-later n es s
  apply_events-later n (some e ∷ es) s = apply_events-later n es (apply_event prog (some e) s)

  pub apply_events-append :
      (es fs : List (Option (Event D))) (s : Inst Pars Mem D)
      → apply_events prog (es ++ fs) s ≡ apply_events prog fs (apply_events prog es s)
  unfolding apply_events
  apply_events-append [] fs s = refl
  apply_events-append (e ∷ es) fs s = apply_events-append es fs (apply_event prog e s)

  -- A block that begins at frame `n` has the same events due in its frame `i`.
  pub due-later :
      (n i : ℕ) (es : List (Option (Event D))) (s : Inst Pars Mem D)
      → due prog i (later n es) s ≡ (later n (due prog (n + i) es s).0, (due prog (n + i) es s).1)
  unfolding due apply_event
  due-later n i [] s = refl
  due-later n i (none ∷ es) s = due-later n i es s
  due-later n i (some e ∷ es) s =
      let IH = due-later n i es (apply_event prog (some e) s) in ground (arith, IH)

  -- Every event that is due, and then the rest, are the events in order.
  pub due_rest :
      (i : ℕ) (es : List (Option (Event D))) (s : Inst Pars Mem D)
      → apply_events prog (due prog i es s).0 (due prog i es s).1 ≡ apply_events prog es s
  unfolding due apply_events apply_event
  due_rest i [] s = refl
  due_rest i (none ∷ es) s = due_rest i es s
  due_rest i (some e ∷ es) s =
      let IH = due_rest i es (apply_event prog (some e) s) in ground (arith, IH)
