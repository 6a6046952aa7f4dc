-- ===== src/Golang/Slice.antt =====
-- A `[]byte`: `back` holds the bytes from the first element up to the slice's capacity, `len` says
-- how many of them the slice shows. Go checks an index against `len`, but the upper bound of a
-- slice expression against the capacity.
use a.Prelude.{
  ℕ, ◌+◌, ◌-◌, ◌*◌, ◌^◌, ◌≤◌, ◌<◌, List, leb, if◌then◌else◌, length, get_or, take, drop, All, ◌&&◌,
}
use a.Golang.Result.{Result, ok, panic}

abbrev pub Bytes : Type 0
Bytes = List ℕ

pub record Slice : Type 0 where
  pub back : Bytes
  pub len : ℕ

-- What Go guarantees of every slice.
pub record IsSlice (s : Slice) : Type 0 where
  pub within : s.len ≤ length s.back
  pub bytes : All (λ b. b < 256) s.back

-- The bytes that the slice shows.
abbrev pub shown : Slice → Bytes
shown s = take s.len s.back

-- A slice whose capacity is its length, such as a converted string.
abbrev pub whole : Bytes → Slice
whole bs = record { back = bs; len = length bs }

-- `s[i]` where the code has tested that `i < len(s)`.
abbrev pub byte : Slice → ℕ → ℕ
byte s i = get_or s.back i 0

-- `s[lo:hi]` where `lo <= hi <= cap(s)` is known.
abbrev pub sub_slice : Slice → ℕ → ℕ → Slice
sub_slice s lo hi = record { back = drop lo s.back; len = hi - lo }

-- `s[lo:hi]`: a panic past the capacity.
abbrev pub slice? : Slice → ℕ → ℕ → Result Slice
slice? s lo hi = if leb lo hi && leb hi (length s.back) then ok (sub_slice s lo hi) else panic

-- `s[lo:]` where `lo <= len(s)` is known.
abbrev pub slice_from : Slice → ℕ → Slice
slice_from s lo = sub_slice s lo s.len

-- `binary.BigEndian.Uint32` and `Uint64` of the bytes from offset `o`.
abbrev pub be32 : Slice → ℕ → ℕ
be32 s o = byte s o * 2 ^ 24 + byte s (o + 1) * 2 ^ 16 + byte s (o + 2) * 2 ^ 8 + byte s (o + 3)

abbrev pub be64 : Slice → ℕ → ℕ
be64 s o = be32 s o * 2 ^ 32 + be32 s (o + 4)
