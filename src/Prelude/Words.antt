-- ===== src/Prelude/Words.antt =====
-- `std::uint64_t` as a native number below 2 ^ 64, with its wrap-around.
use Prim.Native.Nat.{ℕ, ◌+◌, ◌-◌, ◌%◌, ◌^◌, ◌≤◌, ◌<◌}
use mathlib.Core.Path.{◌≡◌}
use native.Mathlib.Omega.{arith}

abbrev pub u64_mod : ℕ
u64_mod = 2 ^ 64

-- `std::numeric_limits<std::uint64_t>::max()`, which also stands for an unlimited retention.
abbrev pub infinite : ℕ
infinite = 0xffff_ffff_ffff_ffff

unfoldable pub add64 : ℕ → ℕ → ℕ
add64 a b = (a + b) % u64_mod

unfoldable pub sub64 : ℕ → ℕ → ℕ
sub64 a b = (a + (u64_mod - b)) % u64_mod

pub add64-lt : (a b : ℕ) → add64 a b < u64_mod
unfolding add64
add64-lt a b = omega arith

pub add64-eq : (a b : ℕ) → a + b < u64_mod → add64 a b ≡ a + b
unfolding add64
add64-eq a b h = omega arith

pub sub64-eq : (a b : ℕ) → b ≤ a → a < u64_mod → sub64 a b ≡ a - b
unfolding sub64
sub64-eq a b h k = omega arith

-- The distance between two readings of a wrapping counter.
pub sub64-add64 : (a b : ℕ) → a < u64_mod → b < u64_mod → sub64 (add64 a b) a ≡ b
unfolding add64 sub64
sub64-add64 a b h k = omega arith

pub sub64_self : (a : ℕ) → a < u64_mod → sub64 a a ≡ 0
unfolding sub64
sub64_self a h = omega arith

-- Different offsets give different addresses.
pub add64_injective : (a i j : ℕ) → i < u64_mod → j < u64_mod → add64 a i ≡ add64 a j → i ≡ j
unfolding add64
add64_injective a i j h k e = omega arith
