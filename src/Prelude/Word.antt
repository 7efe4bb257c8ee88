-- ===== src/Prelude/Word.antt =====
-- Unsigned 64-bit arithmetic, with the wrap-around of a release build.
use Prim.Native.Nat.{ℕ, ◌+◌, ◌-◌, ◌*◌, ◌%◌, ◌<◌, ◌≤◌}
use mathlib.Core.Path.{◌≡◌}
use native.Mathlib.Omega.{arith}

-- 2^64
abbrev pub u64_mod : ℕ
u64_mod = 18446744073709551616

-- `u64::MAX`
abbrev pub u64_max : ℕ
u64_max = 18446744073709551615

unfoldable pub add64 : ℕ → ℕ → ℕ
add64 a b = (a + b) % u64_mod

unfoldable pub sub64 : ℕ → ℕ → ℕ
sub64 a b = (a + u64_mod - b) % u64_mod

unfoldable pub mul64 : ℕ → ℕ → ℕ
mul64 a b = a * b % u64_mod

pub add64-eq : (a b : ℕ) → a + b < u64_mod → add64 a b ≡ a + b
unfolding add64
add64-eq a b h = omega arith

pub sub64-eq : (a b : ℕ) → b ≤ a → a < u64_mod → sub64 a b ≡ a - b
unfolding sub64
sub64-eq a b h k = omega arith

pub add64-lt : (a b : ℕ) → add64 a b < u64_mod
unfolding add64
add64-lt a b = omega arith

pub sub64-lt : (a b : ℕ) → sub64 a b < u64_mod
unfolding sub64
sub64-lt a b = omega arith

-- Taking a number away and adding it again.
pub add64-sub64 : (a b : ℕ) → a < u64_mod → b < u64_mod → add64 (sub64 a b) b ≡ a
unfolding add64 sub64
add64-sub64 a b h k = omega arith

pub sub64-add64 : (a b : ℕ) → a < u64_mod → b < u64_mod → sub64 (add64 a b) b ≡ a
unfolding add64 sub64
sub64-add64 a b h k = omega arith
