-- ===== src/Export/Process/InTwo.antt =====
-- A block of `plug_process` in csrc/clap_plugin_template.c that is cut in two at a frame.
use audio_plugins_jl.Base.{ℕ, ◌+◌, ◌<◌, ◌≡◌, refl, ap, ◌∙◌, List, ◌++◌, Option, none, some, arith}
use audio_plugins_jl.Base.Loops.{for_range, for_range_inv}
use audio_plugins_jl.Base.Loops.Both.{for_range_both}
use audio_plugins_jl.Host.Types.{Doubles, Floats}
use audio_plugins_jl.Export.Program.{Program, Inst}
use audio_plugins_jl.Export.Params.{Event}
use audio_plugins_jl.Export.Process.{Audio, Frame, write_sample, has_data, step_channel, step_frame}
use audio_plugins_jl.Export.Process.Due.{IsBefore, StartsAt, due_prefix, due-IsBefore}
use audio_plugins_jl.Export.Process.Blocks.{audio}
use audio_plugins_jl.Export.Process.Ahead.{with_due}

module _ {Pars Mem Out D S : Type 0} ⦃f : Doubles D⦄ ⦃g : Floats D S⦄
    (prog : Program Pars Mem Out D) where
  -- The frame with `fs` after its events.
  abbrev pub before : List (Option (Event D)) → Frame Pars Mem D S → Frame Pars Mem D S
  before fs u = record u { events = u.events ++ fs }

  pub record Keeps (n : ℕ) (fs : List (Option (Event D))) (t u : Frame Pars Mem D S) : Type 0 where
    pub same : t ≡ before fs u
    pub early : IsBefore n u.events

  step_channel-Keeps :
      (input : Audio D S) (n : ℕ) (fs : List (Option (Event D))) (i c : ℕ)
      (t u : Frame Pars Mem D S)
      → Keeps n fs t u
      → Keeps n fs (step_channel prog input i c t) (step_channel prog input i c u)
  unfolding step_channel
  step_channel-Keeps input n fs i c t u k = record {
    same = ap (step_channel prog input i c) k.same;
    early = k.early;
  }

  pub step_frame-Keeps :
      (input : Audio D S) (n : ℕ) (fs : List (Option (Event D))) (channels i : ℕ)
      (t u : Frame Pars Mem D S)
      → i < n
      → StartsAt n fs
      → Keeps n fs t u
      → Keeps n fs (step_frame prog input channels i t) (step_frame prog input channels i u)
  unfolding step_frame
  step_frame-Keeps input n fs channels i t u h st k =
      for_range_both (Keeps n fs) (step_channel prog input i) (step_channel prog input i) 0 channels
        0 0 (with_due prog i t) (with_due prog i u)
        (λ c t u _ r.
          let no : 0 + c ≡ c = omega arith in rw (no) (step_channel-Keeps input n fs i c t u r))
        refl
        (record {
          same =
              ap (with_due prog i) k.same
              ∙ ap
                  (λ (z : List (Option (Event D)) × Inst Pars Mem D). record {
                    inst = z.1;
                    events = z.0;
                    output = u.output;
                  })
                  (due_prefix prog i n u.events fs u.inst h st);
          early = due-IsBefore prog i n u.events u.inst k.early;
        })

  -- The shape of a buffer, which samples do not change.
  pub record IsShaped (a b : Audio D S) : Type 0 where
    pub count : b.channel_count ≡ a.channel_count
    pub planes : has_data b ≡ has_data a

  write_sample-IsShaped :
      (a b : Audio D S) (c i : ℕ) (v : D) → IsShaped a b → IsShaped a (write_sample c i v b)
  unfolding write_sample
  write_sample-IsShaped a b c i v h = go b.data32 b.data64 h.planes
    where
      go :
          (p : Option (ℕ → ℕ → S)) (q : Option (ℕ → ℕ → D))
          → has_data (audio p q b.channel_count) ≡ has_data a
          → IsShaped a (write_sample c i v (audio p q b.channel_count))
      go none none e = record { count = h.count; planes = e }
      go none (some q) e = record { count = h.count; planes = e }
      go (some p) q e = record { count = h.count; planes = e }

  pub frames-IsShaped :
      (a input : Audio D S) (channels n i : ℕ) (t : Frame Pars Mem D S)
      → IsShaped a t.output
      → IsShaped a (for_range n i (step_frame prog input channels) t).output
  unfolding step_frame step_channel
  frames-IsShaped a input channels n i t h =
      for_range_inv (λ _ (t : Frame Pars Mem D S). IsShaped a t.output)
        (step_frame prog input channels) n i (i + n) t
        (λ k t _ _ r.
          for_range_inv (λ _ (t : Frame Pars Mem D S). IsShaped a t.output)
            (step_channel prog input k) channels 0 channels (with_due prog k t)
            (λ c t _ _ r. write_sample-IsShaped a t.output c k _ r) (omega arith) r)
        refl h
