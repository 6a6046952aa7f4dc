-- ===== src/Redis/Progress.antt =====
-- pkg/protocol/parser.go: the bytes that a parsed command takes.
use a.Prelude.{
  ℕ, ◌∙◌, zero, suc, ◌+◌, ◌-◌, ◌≤◌, ◌<◌, ◌≡◌, refl, inl, inr, true, false, none, some, List, [],
  ◌∷◌, ◌++◌, arith, ltb, leb, length, drop, Option-cases, Bool-cases,
}
use a.Golang.Result.{Result, ok, err, panic, ◌>>=◌, Result-cases}
use a.Golang.Slice.{Bytes}
use a.Golang.Text.{index_byte, Unicode}
use a.Redis.Parser.{
  RedisCommand, Round, leave, fault, append, read_arg, after_round, read_args, read_bulk,
  array_header, make_strings_panics, command_of, parse_resp_array, parse_resp_response,
  parse_inline_command, parse_single, parse_multiple_from, parse_multiple,
}

-- A call that returns stops at `lo` or behind it.
abbrev pub Reaches {ℓ} : {A : Type ℓ} → ℕ → Result (A × ℕ) → Type 0
Reaches lo (ok (_, n)) = lo ≤ n
Reaches lo err = Unit
Reaches lo panic = Unit

Reaches-mono {ℓ} :
    {A : Type ℓ} (lo hi : ℕ) (r : Result (A × ℕ)) → lo ≤ hi → Reaches hi r → Reaches lo r
Reaches-mono lo hi (ok (_, n)) le h = omega arith
Reaches-mono lo hi err le h = tt
Reaches-mono lo hi panic le h = tt

Reaches-map {ℓ κ} :
    {A : Type ℓ} {B : Type κ} (lo : ℕ) (r : Result (A × ℕ)) (f : A → B)
    → Reaches lo r
    → Reaches lo (r >>= λ x. ok (f x.0, x.1))
Reaches-map lo (ok x) f h = h
Reaches-map lo err f h = tt
Reaches-map lo panic f h = tt

-- A round does not go back.
abbrev RoundReaches : ℕ → Round → Type 0
RoundReaches pos (leave end) = pos ≤ end
RoundReaches pos fault = Unit
RoundReaches pos (append _ next) = pos ≤ next

read_arg-RoundReaches : (p : Bytes) (pos : ℕ) → RoundReaches pos (read_arg p pos)
unfolding read_arg
read_arg-RoundReaches p pos = ground arith

after_round-Reaches :
    (pos : ℕ) (r : Round) (more : ℕ → Result (List Bytes × ℕ))
    → RoundReaches pos r
    → ((next : ℕ) → Reaches next (more next))
    → Reaches pos (after_round r more)
after_round-Reaches pos (leave end) more h k = h
after_round-Reaches pos fault more h k = tt
after_round-Reaches pos (append arg next) more h k =
    Reaches-map pos (more next) (◌∷◌ arg) (Reaches-mono pos next (more next) h (k next))

read_args-Reaches : (n : ℕ) (p : Bytes) (pos : ℕ) → Reaches pos (read_args n p pos)
unfolding read_args
read_args-Reaches zero p pos = omega arith
read_args-Reaches (suc n) p pos =
    after_round-Reaches pos (read_arg p pos) _ (read_arg-RoundReaches p pos)
      (λ next. read_args-Reaches n p next)

array_header-pos : (p : Bytes) (n pos : ℕ) → array_header p ≡ some (n, pos) → 1 ≤ pos
unfolding array_header
array_header-pos p n pos e = ground arith

module _ (u : Unicode) where
  resp_array_err : (p : Bytes) → array_header p ≡ none → parse_resp_array u p ≡ err
  unfolding parse_resp_array
  resp_array_err p e = rw (e, parse_resp_array)

  pub resp_array_panic :
      (p : Bytes) (n pos : ℕ)
      → array_header p ≡ some (n, pos)
      → make_strings_panics n ≡ true
      → parse_resp_array u p ≡ panic
  unfolding parse_resp_array
  resp_array_panic p n pos e big = rw (e, big, parse_resp_array)

  pub resp_array_ok :
      (p : Bytes) (n pos : ℕ)
      → array_header p ≡ some (n, pos)
      → make_strings_panics n ≡ false
      → parse_resp_array u p ≡ (read_args n p pos >>= λ x. ok (command_of u x.0, x.1))
  unfolding parse_resp_array
  resp_array_ok p n pos e small = rw (e, small, parse_resp_array)

  parse_resp_array-Reaches : (p : Bytes) → Reaches 1 (parse_resp_array u p)
  parse_resp_array-Reaches p = elim (Option-cases (array_header p)) [
    | inl e ↦ rw (resp_array_err p e) tt
    | inr ((n, pos), e) ↦ elim (Bool-cases (make_strings_panics n)) [
      | inl big ↦ rw (resp_array_panic p n pos e big) tt
      | inr small ↦ rw (resp_array_ok p n pos e small) (
          Reaches-map 1 (read_args n p pos) (command_of u)
            (Reaches-mono 1 pos _ (array_header-pos p n pos e) (read_args-Reaches n p pos)))
    ]
  ]

  parse_resp_response-Reaches : (p : Bytes) → Reaches 1 (parse_resp_response u p)
  unfolding parse_resp_response read_bulk
  parse_resp_response-Reaches p = ground arith

  parse_inline_command-pos :
      (first : ℕ) (r : Bytes) → leb b'A' first ≡ true → 0 < (parse_inline_command u (first ∷ r)).1
  unfolding parse_inline_command index_byte
  parse_inline_command-pos first r h = ground arith

  parse_single-Reaches : (p : Bytes) → Reaches 1 (parse_single u p)
  unfolding parse_single
  parse_single-Reaches [] = tt
  parse_single-Reaches (first ∷ r) = ground (
    arith,
    parse_resp_array-Reaches (first ∷ r),
    parse_resp_response-Reaches (first ∷ r),
    parse_inline_command-pos first r,
  )

  module _ (fuel : ℕ) (p : Bytes) (pos : ℕ) (commands : List RedisCommand) where
    pub round_over :
        ltb pos (length p) ≡ false
        → parse_multiple_from u (suc fuel) p pos commands ≡ some (ok commands)
    unfolding parse_multiple_from
    round_over e = rw (e, parse_multiple_from)

    pub round_command :
        (cmd : RedisCommand) (n : ℕ)
        → ltb pos (length p) ≡ true
        → parse_single u (drop pos p) ≡ ok (cmd, n)
        → parse_multiple_from u (suc fuel) p pos commands
          ≡ parse_multiple_from u fuel p (pos + n) (commands ++ (cmd ∷ []))
    unfolding parse_multiple_from
    round_command cmd n more e = rw (more, e, parse_multiple_from)

    pub round_panic :
        ltb pos (length p) ≡ true
        → parse_single u (drop pos p) ≡ panic
        → parse_multiple_from u (suc fuel) p pos commands ≡ some panic
    unfolding parse_multiple_from
    round_panic more e = rw (more, e, parse_multiple_from)

    round_err :
        ltb pos (length p) ≡ true
        → parse_single u (drop pos p) ≡ err
        → (r : Result (List RedisCommand)) × (parse_multiple_from u (suc fuel) p pos commands
            ≡ some r)
    unfolding parse_multiple_from
    round_err more e = rw (more, e, parse_multiple_from) (_, refl)

  parse_from :
      (fuel : ℕ) (p : Bytes) (pos : ℕ) (commands : List RedisCommand)
      → length p - pos < fuel
      → (r : Result (List RedisCommand)) × (parse_multiple_from u fuel p pos commands ≡ some r)
  parse_from zero p pos commands h = absurd (omega arith)
  parse_from (suc fuel) p pos commands h = elim (Bool-cases (ltb pos (length p))) [
    | inr over ↦ (ok commands, round_over fuel p pos commands over)
    | inl more ↦ elim (Result-cases (parse_single u (drop pos p))) [
      | inl ((cmd, n), e) ↦
          let forward = rw e at (parse_single-Reaches (drop pos p)) in
          let (r, done) = parse_from fuel p (pos + n) (commands ++ (cmd ∷ [])) (ground arith) in
          (r, round_command fuel p pos commands cmd n more e ∙ done)
      | inr failed ↦ elim failed [
        | inl e ↦ round_err fuel p pos commands more e
        | inr e ↦ (panic, round_panic fuel p pos commands more e)
      ]
    ]
  ]

  -- `ParseMultiple` comes to an end on every payload, by returning or by a panic: as many rounds as
  -- the payload has bytes are enough, since each parsed command takes at least one.
  pub parse_multiple_total :
      (p : Bytes) → (r : Result (List RedisCommand)) × (parse_multiple u p ≡ some r)
  unfolding parse_multiple
  parse_multiple_total p = parse_from (length p + 1) p 0 [] (omega arith)
