-- ===== src/Golang/Float.antt =====
-- The `float64` operations that the code uses, as an interface: a client takes a value of it as a
-- section's parameter, and computes with nothing else.
use a.Prelude.{ℕ, Bool}
use a.Golang.Int.{ℤ}
use a.Golang.Slice.{Bytes}

pub record Float : Type 1 where
  pub F : Type 0
  -- `a < b` and `a <= b`
  pub flt : F → F → Bool
  pub fle : F → F → Bool
  pub fadd : F → F → F
  pub fsub : F → F → F
  pub fmul : F → F → F
  pub fdiv : F → F → F
  -- `float64(n)` of an integer, and the literal n / 10^k
  pub of_int : ℤ → F
  pub lit : ℕ → ℕ → F
  -- `math.Sqrt` and `math.Max`
  pub fsqrt : F → F
  pub fmax : F → F → F
  -- `int64(x)`, and `%.2f` and `%.1f` of a value
  pub to_int : F → ℤ
  pub show2 : F → Bytes
  pub show1 : F → Bytes
