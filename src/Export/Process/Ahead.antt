-- ===== src/Export/Process/Ahead.antt =====
-- A run of `plug_process` in csrc/clap_plugin_template.c beside the block that begins at its frame `n`.
use audio_plugins_jl.Base.{ℕ, ◌+◌, ◌≡◌, refl, sym, ap, ◌∙◌, List, Option, none, some, arith}
use audio_plugins_jl.Base.Loops.{update}
use audio_plugins_jl.Base.Loops.Both.{for_range_both}
use audio_plugins_jl.Host.Types.{Doubles, Floats}
use audio_plugins_jl.Export.Program.{Program, Inst}
use audio_plugins_jl.Export.Params.{Event}
use audio_plugins_jl.Export.Process.{
  Audio, Frame, read_sample, write_sample, due, step_channel, step_frame,
}
use audio_plugins_jl.Export.Process.Due.{later, due-later}
use audio_plugins_jl.Export.Process.Blocks.{from, join, audio, AreAlike, write_joined}

module _ {D S : Type 0} ⦃g : Floats D S⦄ where
  read_ahead :
      (n c i : ℕ) (d : D) (b : Audio D S) → read_sample b c (n + i) d ≡ read_sample (from n b) c i d
  unfolding read_sample
  read_ahead n c i d b = go b.data32 b.data64
    where
      go :
          (p : Option (ℕ → ℕ → S)) (q : Option (ℕ → ℕ → D))
          → read_sample (audio p q b.channel_count) c (n + i) d
            ≡ read_sample (from n (audio p q b.channel_count)) c i d
      go none none = refl
      go none (some q) = refl
      go (some p) q = refl

module _ {Pars Mem D S : Type 0} where
  pub record IsAhead (n : ℕ) (a : Audio D S) (t u : Frame Pars Mem D S) : Type 0 where
    pub rest : List (Option (Event D))
    pub same : t ≡ record { inst = u.inst; events = rest; output = join n a u.output }
    pub events : u.events ≡ later n rest
    pub alike : AreAlike a u.output

-- A frame once its events are taken.
abbrev pub with_due :
    {Pars Mem Out D S : Type 0} ⦃f : Doubles D⦄
    → Program Pars Mem Out D
    → ℕ
    → Frame Pars Mem D S
    → Frame Pars Mem D S
with_due prog i t = record t {
  inst = (due prog i t.events t.inst).1;
  events = (due prog i t.events t.inst).0;
}

module _ {Pars Mem Out D S : Type 0} ⦃f : Doubles D⦄ ⦃g : Floats D S⦄
    (prog : Program Pars Mem Out D) (n : ℕ) (a input : Audio D S) where
  -- A channel's frame, of its sample and from its output.
  abbrev taken :
      ℕ
      → D
      → (ℕ → D → Audio D S)
      → Frame Pars Mem D S
      → List (Option (Event D))
      → Frame Pars Mem D S
  taken c x out u es =
      let (o, pars, mem) = prog.step x u.inst.pars (u.inst.mem c) in
      let (y, kept) = prog.read_output o (u.inst.held c) in
      record {
        inst = record (u.inst) {
          pars = pars;
          mem = update u.inst.mem c mem;
          held = update u.inst.held c kept;
        };
        events = es;
        output = out c y;
      }

  step_channel-IsAhead :
      (i c : ℕ) (t u : Frame Pars Mem D S)
      → IsAhead n a t u
      → IsAhead n a (step_channel prog input (n + i) c t) (step_channel prog (from n input) i c u)
  unfolding step_channel
  step_channel-IsAhead i c t u h =
      let x = read_sample (from n input) c i (f.nan) in
      let r = prog.step x u.inst.pars (u.inst.mem c) in
      let y = prog.read_output r.0 (u.inst.held c) in
      let w =
        write_joined n c i a.channel_count u.output.channel_count y.0 a.data32 u.output.data32
          a.data64 u.output.data64 h.alike.floats h.alike.doubles in
      record {
        rest = h.rest;
        same =
            ap (λ t. step_channel prog input (n + i) c t) h.same
            ∙ ap (λ x. taken c x (λ c y. write_sample c (n + i) y (join n a u.output)) u h.rest)
                (read_ahead n c i f.nan input)
            ∙ ap (λ o. taken c x (λ _ _. o) u h.rest) w.0;
        events = h.events;
        alike = w.1;
      }

  pub step_frame-IsAhead :
      (channels i : ℕ) (t u : Frame Pars Mem D S)
      → IsAhead n a t u
      → IsAhead n a
          (step_frame prog input channels (n + i) t)
          (step_frame prog (from n input) channels i u)
  unfolding step_frame
  step_frame-IsAhead channels i t u h =
      let s = due prog (n + i) h.rest u.inst in
      let e = ap (λ es. due prog i es u.inst) h.events ∙ due-later prog n i h.rest u.inst in
      for_range_both (IsAhead n a) (step_channel prog input (n + i))
        (step_channel prog (from n input) i) 0 channels 0 0 (with_due prog (n + i) t)
        (with_due prog i u)
        (λ k t u _ r. let no : 0 + k ≡ k = omega arith in rw (no) (step_channel-IsAhead i k t u r))
        refl
        (record {
          rest = s.0;
          same =
              ap (with_due prog (n + i)) h.same
              ∙ ap
                  (λ (z : List (Option (Event D)) × Inst Pars Mem D). record {
                    inst = z.1;
                    events = s.0;
                    output = join n a u.output;
                  })
                  (sym e);
          events = ap (λ (z : List (Option (Event D)) × Inst Pars Mem D). z.0) e;
          alike = h.alike;
        })
