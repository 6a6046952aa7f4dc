-- ===== src/Golang/Int.antt =====
-- Signed integers over the native numbers. An `int` has 64 bits, and its operations wrap.
use a.Prelude.{ℕ, zero, suc, ◌+◌, ◌-◌, ◌*◌, ◌/◌, ◌%◌, ◌^◌, Bool, true, false, ltb, if◌then◌else◌}

-- `negsuc n` is -(n + 1).
pub data ℤ : Type 0 where
  pos : ℕ → ℤ
  negsuc : ℕ → ℤ

-- The 64 bits of an `int`, such as `uint64(n)` has them.
abbrev pub bits64 : ℤ → ℕ
bits64 (pos n) = n % 2 ^ 64
bits64 (negsuc n) = (2 ^ 64 - suc n % 2 ^ 64) % 2 ^ 64

-- The int that 64 bits stand for.
abbrev pub int64 : ℕ → ℤ
int64 n = if ltb n (2 ^ 63) then pos n else negsuc (2 ^ 64 - 1 - n)

-- `a + b`, `a - b` and `a * b`
abbrev pub add_int : ℤ → ℤ → ℤ
add_int a b = int64 ((bits64 a + bits64 b) % 2 ^ 64)

abbrev pub sub_int : ℤ → ℤ → ℤ
sub_int a b = int64 ((bits64 a + (2 ^ 64 - bits64 b)) % 2 ^ 64)

abbrev pub mul_int : ℤ → ℤ → ℤ
mul_int a b = int64 (bits64 a * bits64 b % 2 ^ 64)

-- `a < b`
abbrev pub lt_int : ℤ → ℤ → Bool
lt_int (pos m) (pos n) = ltb m n
lt_int (pos m) (negsuc n) = false
lt_int (negsuc m) (pos n) = true
lt_int (negsuc m) (negsuc n) = ltb n m

-- -n, and `a / 2`, which is rounded towards 0.
abbrev pub neg : ℕ → ℤ
neg zero = pos 0
neg (suc n) = negsuc n

abbrev pub half_int : ℤ → ℤ
half_int (pos n) = pos (n / 2)
half_int (negsuc n) = neg (suc n / 2)
