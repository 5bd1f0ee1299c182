-- ===== src/Export/Process/Consecutive.antt =====
-- Two calls of `plug_process` in csrc/clap_plugin_template.c in a row, and the call that they make up.
use audio_plugins_jl.Base.{
  ℕ, ◌+◌, ◌≡◌, refl, sym, ap, ap₂, ◌∙◌, List, ◌++◌, Option, none, some, Bool, true, false,
}
use audio_plugins_jl.Host.Types.{Doubles, Floats}
use audio_plugins_jl.Export.Program.{Program, Inst}
use audio_plugins_jl.Export.Params.{Event}
use audio_plugins_jl.Export.Process.{
  Audio, Block, ProcessStatus, process_error, process_continue, has_data, channels_of, is_refused,
  run_block, plug_process,
}
use audio_plugins_jl.Export.Process.Due.{IsBefore, StartsAt, later}
use audio_plugins_jl.Export.Process.Blocks.{from, join, audio}
use audio_plugins_jl.Export.Process.InTwo.{frames-IsShaped}
use audio_plugins_jl.Export.Process.Cut.{frames, finished, second_start, frames_in_two, join_from}

module _ {Pars Mem Out D S : Type 0} ⦃f : Doubles D⦄ ⦃g : Floats D S⦄
    (prog : Program Pars Mem Out D) where
  abbrev pub first_block : ℕ → List (Option (Event D)) → Block D S → Block D S
  first_block n es b = record b { frames_count = n; events = es }

  -- The block from frame `n` on, with the output as the first block leaves it.
  abbrev pub second_block : ℕ → ℕ → List (Option (Event D)) → Audio D S → Block D S → Block D S
  second_block n m fs out b = record b {
    frames_count = m;
    events = later n fs;
    input = from n b.input;
    output = from n out;
  }

  -- The second call, and the two outputs put together.
  abbrev pub then_second :
      ℕ
      → ℕ
      → List (Option (Event D))
      → Block D S
      → ProcessStatus × Inst Pars Mem D × Option (Audio D S)
      → ProcessStatus × Inst Pars Mem D × Option (Audio D S)
  then_second n m fs b (status, s, none) = (status, s, none)
  then_second n m fs b (status, s, some out) =
      let (again, t, rest) = plug_process prog (some (second_block n m fs out b)) s in
      (again, t, elim rest [ none ↦ none | some last ↦ some (join n out last) ])

  has_data_from : (n : ℕ) (b : Audio D S) → has_data (from n b) ≡ has_data b
  has_data_from n b = go b.data32 b.data64
    where
      go :
          (p : Option (ℕ → ℕ → S)) (q : Option (ℕ → ℕ → D))
          → has_data (from n (audio p q b.channel_count)) ≡ has_data (audio p q b.channel_count)
      go none none = refl
      go none (some q) = refl
      go (some p) q = refl

  second_refused :
      (n m : ℕ) (fs : List (Option (Event D))) (b : Block D S) (out : Audio D S)
      → has_data out ≡ has_data b.output
      → is_refused (second_block n m fs out b) ≡ is_refused b
  unfolding is_refused
  second_refused n m fs b out e = rw (has_data_from n b.input, has_data_from n out, e) refl

  second_channels :
      (n m : ℕ) (fs : List (Option (Event D))) (b : Block D S) (out : Audio D S)
      → out.channel_count ≡ b.output.channel_count
      → channels_of prog (second_block n m fs out b) ≡ channels_of prog b
  unfolding channels_of
  second_channels n m fs b out e = rw (e) refl

  run_in_two :
      (n m : ℕ) (es fs : List (Option (Event D))) (b : Block D S) (s : Inst Pars Mem D)
      → b.frames_count ≡ n + m
      → b.events ≡ es ++ fs
      → IsBefore n es
      → StartsAt n fs
      → let first = run_block prog (first_block n es b) s in
        let second = run_block prog (second_block n m fs first.1 b) first.0 in
        (run_block prog b s ≡ (second.0, join n first.1 second.1))
        × (has_data first.1 ≡ has_data b.output)
  unfolding run_block channels_of
  run_in_two n m es fs b s count events h st =
      let channels = channels_of prog b in
      let u =
        frames prog b.input channels n 0 (record { inst = s; events = es; output = b.output }) in
      let shaped =
        frames-IsShaped prog b.output b.input channels n 0
          (record { inst = s; events = es; output = b.output })
          (record { count = refl; planes = refl }) in
      let run : ℕ → Inst Pars Mem D × Audio D S =
        λ c. finished prog (frames prog (from n b.input) c m 0 (second_start prog n fs u)) in
      (
        ap₂
              (λ k es. finished prog (
                frames prog b.input channels k 0
                  (record { inst = s; events = es; output = b.output })))
              count events
            ∙ frames_in_two prog b.input channels n m es fs b.output s h st
            ∙ ap (λ c. ((run c).0, join n u.output (run c).1))
                (sym (second_channels n m fs b u.output shaped.count)),
        shaped.planes,
      )

  plug_process_refused :
      (b : Block D S) (s : Inst Pars Mem D)
      → is_refused b ≡ true
      → plug_process prog (some b) s ≡ (process_error, s, some b.output)
  unfolding plug_process
  plug_process_refused b s e = rw (e) refl

  plug_process_served :
      (b : Block D S) (s : Inst Pars Mem D)
      → is_refused b ≡ false
      → plug_process prog (some b) s
        ≡ (process_continue, (run_block prog b s).0, some (run_block prog b s).1)
  unfolding plug_process
  plug_process_served b s e = rw (e) refl

  -- A block of `n + m` frames, whose events are those of its first `n` frames and then others that
  -- begin at frame `n` or later, is two calls in a row: the first on its first `n` frames with the
  -- former, the second on the frames from `n` on, with the latter moved `n` frames back. The answer and
  -- the instance are those of the second call, the output is the first call's up to frame `n` and the
  -- second's from there on; where the block is refused, so are both.
  pub plug_process_in_two :
      (n m : ℕ) (es fs : List (Option (Event D))) (b : Block D S) (s : Inst Pars Mem D)
      → b.frames_count ≡ n + m
      → b.events ≡ es ++ fs
      → IsBefore n es
      → StartsAt n fs
      → plug_process prog (some b) s
        ≡ then_second n m fs b (plug_process prog (some (first_block n es b)) s)
  unfolding is_refused
  plug_process_in_two n m es fs b s count events h st = go (is_refused b) refl
    where
      go :
          (r : Bool)
          → is_refused b ≡ r
          → plug_process prog (some b) s
            ≡ then_second n m fs b (plug_process prog (some (first_block n es b)) s)
      go true r =
          let again = second_refused n m fs b b.output refl ∙ r in
          plug_process_refused b s r
          ∙ ap (λ o. (process_error, s, some o)) (sym (join_from n b.output))
          ∙ sym (
              ap
                (λ (z : ProcessStatus × Inst Pars Mem D × Option (Audio D S)).
                  (z.0, z.1, elim (z.2) [ none ↦ none | some last ↦ some (join n b.output last) ]))
                (plug_process_refused (second_block n m fs b.output b) s again))
          ∙ sym (ap (then_second n m fs b) (plug_process_refused (first_block n es b) s r))
      go false r =
          let run = run_in_two n m es fs b s count events h st in
          let first = run_block prog (first_block n es b) s in
          let again = second_refused n m fs b first.1 run.1 ∙ r in
          plug_process_served b s r
          ∙ ap (λ (z : Inst Pars Mem D × Audio D S). (process_continue, z.0, some z.1)) run.0
          ∙ sym (
              ap
                (λ (z : ProcessStatus × Inst Pars Mem D × Option (Audio D S)).
                  (z.0, z.1, elim (z.2) [ none ↦ none | some last ↦ some (join n first.1 last) ]))
                (plug_process_served (second_block n m fs first.1 b) first.0 again))
          ∙ sym (ap (then_second n m fs b) (plug_process_served (first_block n es b) s r))
