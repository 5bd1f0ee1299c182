-- ===== src/Export/Stream.antt =====
-- The streams of csrc/clap_plugin_template.c: a host may take or give fewer bytes than it is asked
-- for, so each transfer is a loop.
pub mod Contract
use audio_plugins_jl.Base.{
  ℕ, zero, suc, ◌+◌, ◌-◌, ◌*◌, ◌/◌, ◌%◌, Bool, true, false, List, [], ◌∷◌, ◌++◌, Option, none, some,
  length, if◌then◌else◌,
}
use audio_plugins_jl.Host.Types.{Bytes, ℤ, pos, negsuc}
use audio_plugins_jl.Host.Scan.{take}

-- The host's streams: `write` says how many of the bytes it has taken, `read` how many it has put in
-- the buffer, and which.
pub record Streams (O I : Type 0) : Type 0 where
  pub write : O → Bytes → ℤ × O
  pub read : I → ℕ → ℤ × Bytes × I

-- `memcpy` between a double and its pattern.
pub record Patterns (D : Type 0) : Type 0 where
  pub to_bits : D → ℕ
  pub of_bits : ℕ → D

unfoldable pub drop : ℕ → Bytes → Bytes
drop zero bs = bs
drop (suc n) [] = []
drop (suc n) (b ∷ bs) = drop n bs

-- The bytes of a number of `n` bytes, the low one first, and back; the shifted bytes do not overlap,
-- so that `|` adds.
abbrev pub bytes_of : ℕ → ℕ → Bytes
bytes_of zero v = []
bytes_of (suc n) v = v % 256 ∷ bytes_of n (v / 256)

abbrev pub number_of : Bytes → ℕ
number_of [] = 0
number_of (b ∷ bs) = b + 256 * number_of bs

module _ {O I : Type 0} (io : Streams O I) where
  -- `while (n > 0)`; a round that goes on has taken a byte at least, so that the length of the buffer
  -- is fuel enough.
  unfoldable pub write_rounds : ℕ → O → Bytes → Bool × O
  unfolding drop
  write_rounds n o [] = (true, o)
  write_rounds zero o (b ∷ bs) = (false, o)
  write_rounds (suc n) o (b ∷ bs) = elim (io.write o (b ∷ bs)).0 [
    | negsuc w ↦ (false, (io.write o (b ∷ bs)).1)
    | pos zero ↦ (false, (io.write o (b ∷ bs)).1)
    | pos (suc w) ↦ write_rounds n (io.write o (b ∷ bs)).1 (drop w bs)
  ]

  unfoldable pub write_all : O → Bytes → Bool × O
  unfolding write_rounds
  write_all o bs = write_rounds (length bs) o bs

  -- The bytes read, if all `n` were; `fuel` bounds the rounds.
  unfoldable pub read_rounds : ℕ → I → ℕ → Option Bytes × I
  read_rounds fuel i zero = (some [], i)
  read_rounds zero i (suc n) = (none, i)
  read_rounds (suc fuel) i (suc n) = elim (io.read i (suc n)).0 [
    | negsuc r ↦ (none, (io.read i (suc n)).2)
    | pos zero ↦ (none, (io.read i (suc n)).2)
    | pos (suc r) ↦
        let (rest, j) = read_rounds fuel (io.read i (suc n)).2 (n - r) in
        (elim rest [ none ↦ none | some bs ↦ some (take (suc r) (io.read i (suc n)).1 ++ bs) ], j)
  ]

  unfoldable pub read_all : I → ℕ → Option Bytes × I
  unfolding read_rounds
  read_all i n = read_rounds n i n

  unfoldable pub write_u32 : O → ℕ → Bool × O
  unfolding write_all
  write_u32 o v = write_all o (bytes_of 4 v)

  unfoldable pub write_f64 : {D : Type 0} ⦃p : Patterns D⦄ → O → D → Bool × O
  unfolding write_all
  write_f64 ⦃p⦄ o v = write_all o (bytes_of 8 (p.to_bits v))

  unfoldable pub read_u32 : I → Option ℕ × I
  unfolding read_all
  read_u32 i =
      let (bs, j) = read_all i 4 in (elim bs [ none ↦ none | some b ↦ some (number_of b) ], j)

  unfoldable pub read_f64 : {D : Type 0} ⦃p : Patterns D⦄ → I → Option D × I
  unfolding read_all
  read_f64 ⦃p⦄ i =
      let (bs, j) = read_all i 8 in
      (elim bs [ none ↦ none | some b ↦ some (p.of_bits (number_of b)) ], j)
