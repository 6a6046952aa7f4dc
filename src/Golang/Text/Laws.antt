-- ===== src/Golang/Text/Laws.antt =====
-- Laws of the text functions, for decimal numerals and separators.
use a.Prelude.{
  ℕ, zero, suc, ◌+◌, ◌-◌, ◌*◌, ◌/◌, ◌%◌, ◌<◌, ◌^◌, ◌≡◌, refl, ◌≢◌, ◌↔◌, ◌∙◌, ap, inl, inr, true,
  some, List, [], ◌∷◌, ◌++◌, arith, ltb, length, All, Bool-cases, ltb→lt,
}
use a.Golang.Slice.{Bytes}
use a.Golang.Text.{bytes_eq, index_crlf, is_digit, digits_value, plus, atoi, decimal_onto, decimal}

pub bytes_eq_iff : (xs ys : Bytes) → (bytes_eq xs ys ≡ true) ↔ (xs ≡ ys)
unfolding bytes_eq
bytes_eq_iff (x ∷ xs) (y ∷ ys) = ground (arith, bytes_eq_iff xs ys)
bytes_eq_iff _ _ = ground arith

pub bytes_eq_refl : (xs : Bytes) → bytes_eq xs xs ≡ true
bytes_eq_refl xs = (bytes_eq_iff xs xs).1 refl

-- The separator is found behind bytes that hold no carriage return.
pub index_crlf-append :
    (xs rest : Bytes)
    → All (λ b. b ≢ 13) xs
    → index_crlf (xs ++ (13 ∷ 10 ∷ rest)) ≡ some (length xs)
unfolding index_crlf
index_crlf-append [] rest h = refl
index_crlf-append (x ∷ []) rest h = ground (arith, index_crlf-append [] rest tt)
index_crlf-append (x ∷ y ∷ ys) rest h = ground (arith, index_crlf-append (y ∷ ys) rest h.1)

digits_value-cons :
    (c : ℕ) (r : Bytes) (acc : ℕ) {n : ℕ}
    → digits_value acc (c ∷ r) ≡ some n
    → (is_digit c ≡ true) × (digits_value (acc * 10 + (c - b'0')) r ≡ some n)
unfolding digits_value
digits_value-cons c r acc h = ground arith

digits_value-digit :
    (acc d : ℕ) (r : Bytes)
    → d < 10
    → digits_value acc ((d + b'0') ∷ r) ≡ digits_value (acc * 10 + d) r
unfolding digits_value
digits_value-digit acc d r h =
    let value : d + b'0' - b'0' ≡ d = omega arith in
    ground (arith, ap (λ k. digits_value (acc * 10 + k) r) value)

pub digits_value-ne :
    (ds : Bytes) (acc : ℕ) {n : ℕ} → digits_value acc ds ≡ some n → All (λ b. b ≢ 13) ds
unfolding digits_value
digits_value-ne [] acc h = tt
digits_value-ne (c ∷ r) acc h =
    let (d, later) = digits_value-cons c r acc h in
    (ground arith, digits_value-ne r (acc * 10 + (c - b'0')) later)

decimal_onto-value :
    (f n : ℕ) (rest : Bytes) → n < f → digits_value 0 (decimal_onto f n rest) ≡ digits_value n rest
unfolding digits_value decimal_onto
decimal_onto-value zero n rest h = elim h [ ]
decimal_onto-value (suc f) n rest h = elim (Bool-cases (ltb n 10)) [
  | inl small ↦
      rw small (
        digits_value-digit 0 n rest (ltb→lt _ _ small)
        ∙ ap (λ k. digits_value k rest) (omega arith))
  | inr big ↦ rw big (
      decimal_onto-value f (n / 10) ((n % 10 + b'0') ∷ rest) (ground arith)
      ∙ digits_value-digit (n / 10) (n % 10) rest (omega arith)
      ∙ ap (λ k. digits_value k rest) (omega arith))
]

-- A decimal numeral reads back as its number.
pub digits_value-decimal : (n : ℕ) → digits_value 0 (decimal n) ≡ some n
unfolding decimal digits_value
digits_value-decimal n = decimal_onto-value (suc n) n [] (omega arith)

decimal_onto-ne-nil : (f n : ℕ) (rest : Bytes) → n < f → decimal_onto f n rest ≢ []
unfolding decimal_onto
decimal_onto-ne-nil zero n rest h = elim h [ ]
decimal_onto-ne-nil (suc f) n rest h =
    ground (arith, decimal_onto-ne-nil f (n / 10) ((n % 10 + b'0') ∷ rest))

pub decimal-ne-nil : (n : ℕ) → decimal n ≢ []
unfolding decimal
decimal-ne-nil n = decimal_onto-ne-nil (suc n) n [] (omega arith)

pub decimal-no_return : (n : ℕ) → All (λ b. b ≢ 13) (decimal n)
decimal-no_return n = digits_value-ne (decimal n) 0 (digits_value-decimal n)

-- A decimal numeral is a digit first: neither of the signs that `Atoi` takes.
atoi-digits :
    (ds : Bytes) {n : ℕ} → ds ≢ [] → digits_value 0 ds ≡ some n → n < 2 ^ 63 → atoi ds ≡ plus n
unfolding atoi
atoi-digits [] ne h lt = absurd (ne refl)
atoi-digits (c ∷ r) ne h lt = ground (arith, digits_value-cons c r 0 h)

-- `Atoi` reads a decimal numeral below 2^63.
pub atoi-decimal : (n : ℕ) → n < 2 ^ 63 → atoi (decimal n) ≡ plus n
atoi-decimal n h = atoi-digits (decimal n) (decimal-ne-nil n) (digits_value-decimal n) h

length-pos_of_ne : {A : Type 0} (xs : List A) → xs ≢ [] → 0 < length xs
length-pos_of_ne [] h = absurd (h refl)
length-pos_of_ne (x ∷ xs) h = omega arith

pub length-decimal-pos : (n : ℕ) → 0 < length (decimal n)
length-decimal-pos n = length-pos_of_ne (decimal n) (decimal-ne-nil n)
