-- ===== src/Base/Words.antt =====
-- Arithmetic of `size_t`, which is 64 bits wide and wraps around.
use Prim.Native.Nat.{ℕ, ◌+◌, ◌-◌, ◌%◌, ◌^◌, ◌≤◌, ◌<◌}
use mathlib.Core.Path.{◌≡◌}
use native.Mathlib.Omega.{arith}

abbrev pub size_mod : ℕ
size_mod = 2 ^ 64

unfoldable pub add_size : ℕ → ℕ → ℕ
add_size a b = (a + b) % size_mod

unfoldable pub sub_size : ℕ → ℕ → ℕ
sub_size a b = (a + size_mod - b) % size_mod

-- `+=` on a `uint32_t`.
unfoldable pub add_u32 : ℕ → ℕ → ℕ
add_u32 a b = (a + b) % 2 ^ 32

unfoldable pub sub_u32 : ℕ → ℕ → ℕ
sub_u32 a b = (a + 2 ^ 32 - b) % 2 ^ 32

pub add_size_exact : (a b : ℕ) → a + b < size_mod → add_size a b ≡ a + b
unfolding add_size
add_size_exact a b h = omega arith

pub sub_size_exact : (a b : ℕ) → a < size_mod → b ≤ a → sub_size a b ≡ a - b
unfolding sub_size
sub_size_exact a b h k = omega arith

-- A difference below zero wraps to the top of the range.
pub sub_size_wraps : (a b : ℕ) → b < size_mod → a < b → sub_size a b ≡ a + size_mod - b
unfolding sub_size
sub_size_wraps a b h k = omega arith

pub sub_size-lt : (a b : ℕ) → sub_size a b < size_mod
unfolding sub_size
sub_size-lt a b = omega arith
