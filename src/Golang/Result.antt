-- ===== src/Golang/Result.antt =====
-- A Go call that returns `(value, error)` and may panic.
use a.Prelude.{◌≡◌, refl, ◌⊎◌, inl, inr, Bool, true, false}

pub data Result {ℓ} (A : Type ℓ) : Type ℓ where
  ok : A → Result A
  err : Result A
  panic : Result A

infixl 5 ◌>>=◌
abbrev pub ◌>>=◌ {ℓ κ} : {A : Type ℓ} {B : Type κ} → Result A → (A → Result B) → Result B
ok x >>= f = f x
err >>= f = err
panic >>= f = panic

-- Whether the call panicked.
abbrev pub panics {ℓ} : {A : Type ℓ} → Result A → Bool
panics panic = true
panics _ = false

pub Result-cases {ℓ} :
    {A : Type ℓ} (r : Result A) → ((x : A) × (r ≡ ok x)) ⊎ ((r ≡ err) ⊎ (r ≡ panic))
Result-cases (ok x) = inl (x, refl)
Result-cases err = inr (inl refl)
Result-cases panic = inr (inr refl)

-- What a chain of calls that returned has computed.
pub bind-ok {ℓ κ} :
    {A : Type ℓ} {B : Type κ} {b : B} (first : Result A) (next : A → Result B)
    → (first >>= next) ≡ ok b
    → (x : A) × (first ≡ ok x) × (next x ≡ ok b)
bind-ok err next e = cc
bind-ok panic next e = cc
bind-ok (ok x) next e = (x, refl, e)

pub ok-injective {ℓ} : {A : Type ℓ} {x y : A} → ok x ≡ ok y → x ≡ y
ok-injective e = cc
