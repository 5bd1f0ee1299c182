-- ===== src/Export/Process/Cut.antt =====
-- What one call of `plug_process` in csrc/clap_plugin_template.c gives, and two calls on its halves.
use audio_plugins_jl.Base.{
  ℕ, zero, suc, ◌+◌, ◌≡◌, refl, sym, ap, ap₂, ◌∙◌, List, ◌++◌, Option, arith,
}
use audio_plugins_jl.Base.Loops.{for_range}
use audio_plugins_jl.Base.Loops.Both.{
  for_range_both, for_range_split, for_range_none, for_range-suc,
}
use audio_plugins_jl.Host.Types.{Doubles, Floats}
use audio_plugins_jl.Export.Program.{Program, Inst}
use audio_plugins_jl.Export.Params.{Event, apply_events}
use audio_plugins_jl.Export.Process.{Audio, Frame, step_channel, step_frame}
use audio_plugins_jl.Export.Process.Due.{
  IsBefore, StartsAt, later, due_passed, apply_events-later, apply_events-append,
}
use audio_plugins_jl.Export.Process.Blocks.{from, join, audio, plane_join_from, plane_from-IsAlike}
use audio_plugins_jl.Export.Process.Ahead.{IsAhead, step_frame-IsAhead}
use audio_plugins_jl.Export.Process.InTwo.{Keeps, step_frame-Keeps, before}

pub join_from : {D S : Type 0} (n : ℕ) (b : Audio D S) → join n b (from n b) ≡ b
join_from n b =
    ap₂ (λ p q. audio p q b.channel_count) (plane_join_from n b.data32) (plane_join_from n b.data64)

module _ {Pars Mem Out D S : Type 0} ⦃f : Doubles D⦄ ⦃g : Floats D S⦄
    (prog : Program Pars Mem Out D) where
  -- What is left of the events is applied after the last frame.
  abbrev pub finished : Frame Pars Mem D S → Inst Pars Mem D × Audio D S
  finished t = (apply_events prog t.events t.inst, t.output)

  abbrev pub frames : Audio D S → ℕ → ℕ → ℕ → Frame Pars Mem D S → Frame Pars Mem D S
  frames input channels n i t = for_range n i (step_frame prog input channels) t

  frame_caught_up :
      (input : Audio D S) (channels n : ℕ) (fs : List (Option (Event D))) (u : Frame Pars Mem D S)
      → IsBefore n u.events
      → step_frame prog input channels n (before prog fs u)
        ≡ step_frame prog input channels n
            (record { inst = apply_events prog u.events u.inst; events = fs; output = u.output })
  unfolding step_frame
  frame_caught_up input channels n fs u h =
      ap
        (λ (z : List (Option (Event D)) × Inst Pars Mem D).
          for_range channels 0 (step_channel prog input n)
            (record { inst = z.1; events = z.0; output = u.output }))
        (due_passed prog n n u.events fs u.inst (omega arith) h)

  caught_up :
      (input : Audio D S) (channels m n : ℕ) (fs : List (Option (Event D))) (u : Frame Pars Mem D S)
      → IsBefore n u.events
      → finished (frames input channels m n (before prog fs u))
        ≡ finished (
            frames input channels m n
              (record { inst = apply_events prog u.events u.inst; events = fs; output = u.output }))
  caught_up input channels zero n fs u h =
      rw
        (
          for_range_none (step_frame prog input channels) n (before prog fs u),
          for_range_none (step_frame prog input channels) n
              (record { inst = apply_events prog u.events u.inst; events = fs; output = u.output }),
        )
        (ap (λ s. (s, u.output)) (apply_events-append prog u.events fs u.inst))
  caught_up input channels (suc m) n fs u h =
      rw
        (
          for_range-suc (step_frame prog input channels) m n (before prog fs u),
          for_range-suc (step_frame prog input channels) m n
              (record { inst = apply_events prog u.events u.inst; events = fs; output = u.output }),
        )
        (ap (λ t. finished (frames input channels m (suc n) t))
          (frame_caught_up input channels n fs u h))

  finished_ahead :
      (n : ℕ) (a : Audio D S) (t u : Frame Pars Mem D S)
      → IsAhead n a t u
      → finished t ≡ ((finished u).0, join n a (finished u).1)
  finished_ahead n a t u h =
      ap finished h.same
      ∙ ap (λ s. (s, join n a u.output))
          (sym (apply_events-later prog n h.rest u.inst)
            ∙ ap (λ es. apply_events prog es u.inst) (sym h.events))

  -- The frame that the second block starts from, where `u` ends the first.
  abbrev pub second_start : ℕ → List (Option (Event D)) → Frame Pars Mem D S → Frame Pars Mem D S
  second_start n fs u = record {
    inst = apply_events prog u.events u.inst;
    events = later n fs;
    output = from n u.output;
  }

  -- The first `n` frames, with their own events and with more after them.
  first_half :
      (input : Audio D S) (channels n : ℕ) (es fs : List (Option (Event D))) (out : Audio D S)
      (s : Inst Pars Mem D)
      → IsBefore n es
      → StartsAt n fs
      → Keeps prog n fs
          (frames input channels n 0 (record { inst = s; events = es ++ fs; output = out }))
          (frames input channels n 0 (record { inst = s; events = es; output = out }))
  first_half input channels n es fs out s h st =
      let body = step_frame prog input channels in
      for_range_both (Keeps prog n fs) body body 0 n 0 0
        (record { inst = s; events = es ++ fs; output = out })
        (record { inst = s; events = es; output = out })
        (λ i t u lt r.
          let no : 0 + i ≡ i = omega arith in
          rw (no) (step_frame-Keeps prog input n fs channels i t u (omega arith) st r))
        refl (record { same = refl; early = h })

  -- The other `m` frames, as frames `n` on and as a block of their own.
  second_half :
      (input : Audio D S) (channels n m : ℕ) (fs : List (Option (Event D))) (u : Frame Pars Mem D S)
      → IsAhead n u.output
          (frames input channels m n
            (record { inst = apply_events prog u.events u.inst; events = fs; output = u.output }))
          (frames (from n input) channels m 0 (second_start n fs u))
  second_half input channels n m fs u =
      for_range_both (IsAhead n u.output) (step_frame prog input channels)
        (step_frame prog (from n input) channels) n m 0 n
        (record { inst = apply_events prog u.events u.inst; events = fs; output = u.output })
        (second_start n fs u)
        (λ i t v _ r. step_frame-IsAhead prog n u.output input channels i t v r) (omega arith)
        (record {
          rest = fs;
          same =
              ap (λ o. record { inst = apply_events prog u.events u.inst; events = fs; output = o })
                (sym (join_from n u.output));
          events = refl;
          alike = record {
            floats = plane_from-IsAlike n u.output.data32;
            doubles = plane_from-IsAlike n u.output.data64;
          };
        })

  pub frames_in_two :
      (input : Audio D S) (channels n m : ℕ) (es fs : List (Option (Event D))) (out : Audio D S)
      (s : Inst Pars Mem D)
      → IsBefore n es
      → StartsAt n fs
      → let u = frames input channels n 0 (record { inst = s; events = es; output = out }) in
        let w = finished (frames (from n input) channels m 0 (second_start n fs u)) in
        finished
          (frames input channels (n + m) 0 (record { inst = s; events = es ++ fs; output = out }))
        ≡ (w.0, join n u.output w.1)
  frames_in_two input channels n m es fs out s h st =
      let start : Frame Pars Mem D S = record { inst = s; events = es ++ fs; output = out } in
      let u = frames input channels n 0 (record { inst = s; events = es; output = out }) in
      let kept = first_half input channels n es fs out s h st in
      let here : n ≡ 0 + n = omega arith in
      ap finished (for_range_split (step_frame prog input channels) n m 0 n start here)
      ∙ ap (λ t. finished (frames input channels m n t)) kept.same
      ∙ caught_up input channels m n fs u kept.early
      ∙ finished_ahead n u.output
          (frames input channels m n
            (record { inst = apply_events prog u.events u.inst; events = fs; output = u.output }))
          (frames (from n input) channels m 0 (second_start n fs u))
          (second_half input channels n m fs u)
