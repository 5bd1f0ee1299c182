-- ===== src/Export/Process/Blocks.antt =====
-- Two blocks in a row of `plug_process` in csrc/clap_plugin_template.c, and the one run that they make.
use audio_plugins_jl.Base.{
  ℕ, ◌+◌, ◌-◌, ◌≡◌, refl, sym, ap, fun_ext, Option, none, some, ltb, if◌then◌else◌, arith,
}
use audio_plugins_jl.Base.Loops.{update_at}
use audio_plugins_jl.Host.Types.{Floats}
use audio_plugins_jl.Export.Process.{Audio, write_sample}

abbrev pub plane_from : {A : Type 0} → ℕ → Option (ℕ → ℕ → A) → Option (ℕ → ℕ → A)
plane_from n none = none
plane_from n (some x) = some (λ c i. x c (n + i))

-- The buffer whose frame 0 is frame `n`.
abbrev pub from : {D S : Type 0} → ℕ → Audio D S → Audio D S
from n b = record {
  data32 = plane_from n b.data32;
  data64 = plane_from n b.data64;
  channel_count = b.channel_count;
}

abbrev pub plane_join :
    {A : Type 0} → ℕ → Option (ℕ → ℕ → A) → Option (ℕ → ℕ → A) → Option (ℕ → ℕ → A)
plane_join n none y = none
plane_join n (some x) none = none
plane_join n (some x) (some y) = some (λ c i. if ltb i n then x c i else y c (i - n))

-- The first `n` frames of one buffer, and then the frames of another.
abbrev pub join : {D S : Type 0} → ℕ → Audio D S → Audio D S → Audio D S
join n a b = record {
  data32 = plane_join n a.data32 b.data32;
  data64 = plane_join n a.data64 b.data64;
  channel_count = b.channel_count;
}

pub plane_join_from :
    {A : Type 0} (n : ℕ) (x : Option (ℕ → ℕ → A)) → plane_join n x (plane_from n x) ≡ x
plane_join_from n none = refl
plane_join_from n (some x) = ap some (fun_ext (λ c. fun_ext (λ i. ground (arith))))

-- Two planes are both there, or neither is.
abbrev pub IsAlike : {A : Type 0} → Option (ℕ → ℕ → A) → Option (ℕ → ℕ → A) → Type 0
IsAlike none none = Unit
IsAlike (some x) (some y) = Unit
IsAlike _ _ = ⊥

pub plane_from-IsAlike : {A : Type 0} (n : ℕ) (x : Option (ℕ → ℕ → A)) → IsAlike x (plane_from n x)
plane_from-IsAlike n none = tt
plane_from-IsAlike n (some x) = tt

pub record AreAlike {D S : Type 0} (a b : Audio D S) : Type 0 where
  pub floats : IsAlike a.data32 b.data32
  pub doubles : IsAlike a.data64 b.data64

abbrev pub audio : {D S : Type 0} → Option (ℕ → ℕ → S) → Option (ℕ → ℕ → D) → ℕ → Audio D S
audio p q k = record { data32 = p; data64 = q; channel_count = k }

joined_cell :
    {A : Type 0} (n c i d j : ℕ) (v : A) (x y : ℕ → ℕ → A)
    → (if ltb j n then x d j else update_at y c i v d (j - n))
      ≡ update_at (λ d j. if ltb j n then x d j else y d (j - n)) c (n + i) v d j
joined_cell n c i d j v x y = ground (arith)

module _ {D S : Type 0} ⦃g : Floats D S⦄ where
  pub write_joined :
      (n c i k l : ℕ) (v : D) (p x : Option (ℕ → ℕ → S)) (q y : Option (ℕ → ℕ → D))
      → IsAlike p x
      → IsAlike q y
      → (write_sample c (n + i) v (join n (audio p q k) (audio x y l))
          ≡ join n (audio p q k) (write_sample c i v (audio x y l)))
        × AreAlike (audio p q k) (write_sample c i v (audio x y l))
  unfolding write_sample
  write_joined n c i k l v none none none none h e = (refl, record { floats = tt; doubles = tt })
  write_joined n c i k l v none none (some q) (some y) h e = (
    ap (λ z. audio none (some z) l)
        (fun_ext (λ d. fun_ext (λ j. sym (joined_cell n c i d j v q y)))),
    record { floats = tt; doubles = tt },
  )
  write_joined n c i k l v (some p) (some x) q y h e = (
    ap (λ z. audio (some z) (plane_join n q y) l)
        (fun_ext (λ d. fun_ext (λ j. sym (joined_cell n c i d j (g.to_float v) p x)))),
    record { floats = tt; doubles = e },
  )
  write_joined n c i k l v none none none (some y) h e = absurd e
  write_joined n c i k l v none none (some q) none h e = absurd e
  write_joined n c i k l v none (some x) q y h e = absurd h
  write_joined n c i k l v (some p) none q y h e = absurd h
