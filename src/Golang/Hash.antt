-- ===== src/Golang/Hash.antt =====
-- `hash/fnv` (`New32a`, `New64a`) and `encoding/hex`.
use Prim.Native.Nat.{bit_xor}
use a.Prelude.{
  ℕ, zero, suc, ◌+◌, ◌-◌, ◌*◌, ◌/◌, ◌%◌, ◌^◌, ◌≡◌, refl, [], ◌∷◌, ◌++◌, ltb, if◌then◌else◌,
}
use a.Golang.Slice.{Bytes}
use a.Golang.Text.{text}

unfoldable pub fnv32a_from : ℕ → Bytes → ℕ
fnv32a_from h [] = h
fnv32a_from h (b ∷ bs) = fnv32a_from (bit_xor h b * 16777619 % 2 ^ 32) bs

unfoldable pub fnv64a_from : ℕ → Bytes → ℕ
fnv64a_from h [] = h
fnv64a_from h (b ∷ bs) = fnv64a_from (bit_xor h b * 1099511628211 % 2 ^ 64) bs

abbrev pub fnv32a : Bytes → ℕ
fnv32a bs = fnv32a_from 2166136261 bs

abbrev pub fnv64a : Bytes → ℕ
fnv64a bs = fnv64a_from 14695981039346656037 bs

abbrev hex_digit : ℕ → ℕ
hex_digit d = if ltb d 10 then b'0' + d else b'a' + (d - 10)

-- The lowest digits of a number, the highest first.
unfoldable pub hex_digits : ℕ → ℕ → Bytes
hex_digits zero n = []
hex_digits (suc k) n = hex_digits k (n / 16) ++ (hex_digit (n % 16) ∷ [])

-- `hex.EncodeToString(h.Sum(nil))` of a 64-bit hash
abbrev pub hex64 : ℕ → Bytes
hex64 n = hex_digits 16 n

runs : (fnv32a (text "a") ≡ 0xe40c292c) × (hex64 (fnv64a (text "a")) ≡ text "af63dc4c8601ec8c")
unfolding fnv32a_from fnv64a_from hex_digits
runs = (refl, refl)
