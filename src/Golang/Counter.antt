-- ===== src/Golang/Counter.antt =====
-- `atomic.Uint64`: a counter that wraps at 2^64.
use a.Prelude.{ℕ, ◌+◌, ◌%◌, ◌^◌}

abbrev pub add_u64 : ℕ → ℕ → ℕ
add_u64 a b = (a + b) % 2 ^ 64
