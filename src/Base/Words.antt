-- ===== src/Base/Words.antt =====
-- uint32_t and uint64_t arithmetic: the wrap is written out.
use Prim.Native.Nat.{ℕ, ◌+◌, ◌-◌, ◌%◌, ◌^◌}

abbrev pub u32 : ℕ
u32 = 2 ^ 32

abbrev pub u64 : ℕ
u64 = 2 ^ 64

-- `a + b` and `a - b` on uint32_t.
abbrev pub add32 : ℕ → ℕ → ℕ
add32 a b = (a + b) % u32

abbrev pub sub32 : ℕ → ℕ → ℕ
sub32 a b = (a + u32 - b) % u32

-- `a + b` on uint64_t.
abbrev pub add64 : ℕ → ℕ → ℕ
add64 a b = (a + b) % u64
