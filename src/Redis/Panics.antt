-- ===== src/Redis/Panics.antt =====
-- pkg/protocol/parser.go: lengths in a payload that make `ParseMultiple` panic. The sums
-- `pos+argLen` and `pos+bulkLen` overflow before they are compared with the payload's length, and
-- `make` is called with the announced number of arguments.
use native.Mathlib.Numerals.{add-one}
use a.Prelude.{
  ℕ, zero, suc, ◌+◌, ◌*◌, ◌≤◌, ◌<◌, ◌^◌, ◌≡◌, refl, sym, ap, ◌∙◌, false, some, [], ◌∷◌, arith,
  length, get_or, inl, inr, Bool-cases,
}
use a.Golang.Result.{panic}
use a.Golang.Slice.{Bytes}
use a.Golang.Text.{text, bytes_eq, decimal, atoi, plus, Unicode}
use a.Golang.Text.Laws.{atoi-decimal, length-decimal-pos, bytes_eq_iff}
use a.Redis.Parser.{
  fault, read_arg, read_args, parse_resp_array, parse_resp_response, read_bulk, response_end,
  response_command, RedisCommand, parse_single, parse_multiple,
}
use a.Redis.Lines.{
  line, line_length, drop-line_length, index_crlf-line, part_of_line, array_header-line,
  read_arg_fault,
}
use a.Redis.Progress.{resp_array_ok, resp_array_panic, round_panic}

minus_ne : (n : ℕ) → ¬ (atoi (text "-1") ≡ plus n)
unfolding atoi
minus_ne n e = cc

decimal-ne-minus : (n : ℕ) → n < 2 ^ 63 → bytes_eq (decimal n) (text "-1") ≡ false
decimal-ne-minus n h = elim (Bool-cases (bytes_eq (decimal n) (text "-1"))) [
  | inr other ↦ other
  | inl same ↦
      let bad : atoi (text "-1") ≡ plus n =
        ap atoi (sym ((bytes_eq_iff (decimal n) (text "-1")).0 same)) ∙ atoi-decimal n h in
      absurd (minus_ne n bad)
]

response_end-line :
    (n : ℕ) (rest : Bytes) → response_end (line b'$' n rest) ≡ suc (length (decimal n))
unfolding response_end
response_end-line n rest = rw (index_crlf-line b'$' n rest (omega arith))

key-line : (n : ℕ) (rest : Bytes) → (response_command (line b'$' n rest)).key ≡ decimal n
unfolding response_command
key-line n rest =
    ground (arith, response_end-line n rest, part_of_line b'$' n rest, length-decimal-pos n)

read_bulk_panic :
    (p : Bytes) (cmd : RedisCommand) (pos n : ℕ)
    → get_or p 0 0 ≡ b'$'
    → bytes_eq cmd.key (text "-1") ≡ false
    → atoi cmd.key ≡ plus n
    → 0 < n
    → 2 ^ 63 ≤ pos + n
    → read_bulk p cmd pos ≡ panic
unfolding read_bulk
read_bulk_panic p cmd pos n mark other value positive big = ground arith

overflow-pos : (n : ℕ) → 2 ^ 63 ≤ line_length n + n → 0 < n
unfolding decimal
overflow-pos zero h = absurd (omega arith)
overflow-pos (suc n) h = omega arith

read_args_fault :
    (k : ℕ) (p : Bytes) (pos : ℕ) → 0 < k → read_arg p pos ≡ fault → read_args k p pos ≡ panic
unfolding read_args
read_args_fault zero p pos h e = elim h [ ]
read_args_fault (suc k) p pos h e = rw e

module _ (u : Unicode) where
  response_panic :
      (n : ℕ) (rest : Bytes)
      → n < 2 ^ 63
      → 2 ^ 63 ≤ line_length n + n
      → parse_resp_response u (line b'$' n rest) ≡ panic
  unfolding parse_resp_response
  response_panic n rest small big =
      let p = line b'$' n rest in
      let key = key-line n rest in
      read_bulk_panic p (response_command p) _ n refl (rw key (decimal-ne-minus n small))
        (rw key (atoi-decimal n small)) (overflow-pos n big)
        (omega (arith, response_end-line n rest))

  array_panic_arg :
      (k n : ℕ) (rest : Bytes)
      → 0 < k
      → 16 * k ≤ 2 ^ 48
      → n < 2 ^ 63
      → 2 ^ 63 ≤ line_length k + line_length n + n
      → parse_resp_array u (line b'*' k (line b'$' n rest)) ≡ panic
  array_panic_arg k n rest pos few small big =
      resp_array_ok u _ k (line_length k) (array_header-line k _ pos (omega arith)) (ground arith)
      ∙ rw (
          read_args_fault k _ (line_length k) pos (
            read_arg_fault _ (line_length k) n rest (drop-line_length b'*' k (line b'$' n rest))
              small big))

  multiple_panic :
      (first : ℕ) (r : Bytes)
      → parse_single u (first ∷ r) ≡ panic
      → parse_multiple u (first ∷ r) ≡ some panic
  unfolding parse_multiple
  multiple_panic first r e =
      rw add-one (round_panic u (length (first ∷ r)) (first ∷ r) 0 [] (ground arith) e)

  single_response :
      (n : ℕ) (rest : Bytes)
      → parse_single u (line b'$' n rest) ≡ parse_resp_response u (line b'$' n rest)
  unfolding parse_single
  single_response n rest = refl

  single_array :
      (n : ℕ) (rest : Bytes)
      → parse_single u (line b'*' n rest) ≡ parse_resp_array u (line b'*' n rest)
  unfolding parse_single
  single_array n rest = refl

  -- Three classes of payloads on which `ParseMultiple` panics, whatever follows their first lines: a
  -- bulk reply that announces n bytes, where n and the length of its first line reach 2^63; a
  -- request of 1 to 2^44 arguments whose first argument announces so many; and a request that
  -- announces more than 2^44 arguments.
  pub parse_multiple-panics :
      (k n many : ℕ) (rest : Bytes)
      → 0 < k
      → k ≤ 2 ^ 44
      → n < 2 ^ 63
      → 2 ^ 63 ≤ line_length n + n
      → 2 ^ 44 < many
      → many < 2 ^ 63
      → (parse_multiple u (line b'$' n rest) ≡ some panic)
        × (parse_multiple u (line b'*' k (line b'$' n rest)) ≡ some panic)
        × (parse_multiple u (line b'*' many rest) ≡ some panic)
  parse_multiple-panics k n many rest pos few small big more fits = (
    multiple_panic b'$' _ (single_response n rest ∙ response_panic n rest small big),
    multiple_panic b'*' _ (
        single_array k (line b'$' n rest)
        ∙ array_panic_arg k n rest pos (omega arith) small (omega arith)),
    multiple_panic b'*' _ (
        single_array many rest
        ∙ resp_array_panic u _ many (line_length many)
            (array_header-line many rest (omega arith) fits) (ground arith)),
  )
