-- ===== src/Redis/Wire.antt =====
-- The requests of the Redis protocol, written down as an encoder, and `ParseMultiple` of
-- pkg/protocol/parser.go on a pipeline of them. The code has no writer.
use a.Prelude.{
  ℕ, zero, suc, ◌+◌, ◌-◌, ◌≤◌, ◌<◌, ◌^◌, ◌≡◌, ◌≢◌, refl, sym, ap, ◌∙◌, some, List, [], ◌∷◌, ◌++◌,
  map, arith, length, take, drop, All, take-append, drop-append, drop-drop, length-append,
  length-drop, append-nil, append_assoc,
}
use a.Golang.Result.{ok}
use a.Golang.Slice.{Bytes}
use a.Golang.Text.{decimal, Unicode}
use a.Redis.Parser.{
  RedisCommand, read_args, command_of, parse_resp_array, parse_single, parse_multiple_from,
  parse_multiple,
}
use a.Redis.Lines.{
  line, line_length, drop-line, drop-line_length, array_header-line, read_arg_append,
}
use a.Redis.Progress.{resp_array_ok, round_command, round_over}

-- `$n CR LF`, the n bytes, CR LF.
abbrev pub encode_arg : Bytes → Bytes → Bytes
encode_arg arg rest = line b'$' (length arg) (arg ++ (13 ∷ 10 ∷ rest))

abbrev pub encode_args : List Bytes → Bytes → Bytes
encode_args [] rest = rest
encode_args (arg ∷ args) rest = encode_arg arg (encode_args args rest)

-- `*k CR LF`, the k arguments.
abbrev pub encode_request : List Bytes → Bytes → Bytes
encode_request args rest = line b'*' (length args) (encode_args args rest)

abbrev pub encode_pipeline : List (List Bytes) → Bytes
encode_pipeline [] = []
encode_pipeline (req ∷ reqs) = encode_request req (encode_pipeline reqs)

-- The bytes of an argument, of the arguments, of a request.
abbrev arg_size : Bytes → ℕ
arg_size arg = line_length (length arg) + length arg + 2

args_size : List Bytes → ℕ
args_size [] = 0
args_size (arg ∷ args) = arg_size arg + args_size args

abbrev request_size : List Bytes → ℕ
request_size args = line_length (length args) + args_size args

length-encode_arg : (arg rest : Bytes) → length (encode_arg arg rest) ≡ arg_size arg + length rest
length-encode_arg arg rest = omega (
  arith,
  length-append (decimal (length arg)) (13 ∷ 10 ∷ (arg ++ (13 ∷ 10 ∷ rest))),
  length-append arg (13 ∷ 10 ∷ rest),
)

length-encode_args :
    (args : List Bytes) (rest : Bytes)
    → length (encode_args args rest) ≡ args_size args + length rest
unfolding args_size
length-encode_args [] rest = omega arith
length-encode_args (arg ∷ args) rest =
    omega (arith, length-encode_arg arg (encode_args args rest), length-encode_args args rest)

length-encode_request :
    (args : List Bytes) (rest : Bytes)
    → length (encode_request args rest) ≡ request_size args + length rest
length-encode_request args rest = omega (
  arith,
  length-append (decimal (length args)) (13 ∷ 10 ∷ encode_args args rest),
  length-encode_args args rest,
)

length-le_args_size : (args : List Bytes) → length args ≤ args_size args
unfolding args_size
length-le_args_size [] = omega arith
length-le_args_size (arg ∷ args) = omega (arith, length-le_args_size args)

-- Behind an argument.
drop-encode_arg :
    (p : Bytes) (pos : ℕ) (arg rest : Bytes)
    → drop pos p ≡ encode_arg arg rest
    → drop (pos + arg_size arg) p ≡ rest
drop-encode_arg p pos arg rest e =
    let n = length arg in
    let start = pos + suc (length (decimal n)) + 2 in
    let sum : pos + arg_size arg ≡ start + (n + 2) = omega arith in
    rw sum (
      sym (drop-drop start (n + 2) p)
      ∙ ap (drop (n + 2)) (drop-line p pos b'$' n (arg ++ (13 ∷ 10 ∷ rest)) e)
      ∙ sym (drop-drop n 2 (arg ++ (13 ∷ 10 ∷ rest)))
      ∙ ap (drop 2) (drop-append arg (13 ∷ 10 ∷ rest) n refl))

length-le_of_drop :
    (p : Bytes) (pos : ℕ) (arg rest : Bytes)
    → drop pos p ≡ encode_arg arg rest
    → pos + arg_size arg ≤ length p
length-le_of_drop p pos arg rest e =
    omega (arith, length-drop pos p, ap length e, length-encode_arg arg rest)

-- The loop of `parseRESPArray` reads the arguments back and stops behind them.
read_args-encode_args :
    (args : List Bytes) (p : Bytes) (pos : ℕ) (rest : Bytes)
    → length p < 2 ^ 63
    → drop pos p ≡ encode_args args rest
    → read_args (length args) p pos ≡ ok (args, pos + args_size args)
unfolding read_args args_size
read_args-encode_args [] p pos rest small e = ap (λ k. ok ([], k)) (omega arith)
read_args-encode_args (arg ∷ args) p pos rest small e =
    let next = encode_args args rest in
    let long = length-le_of_drop p pos arg next e in
    let round =
      read_arg_append p pos (length arg) (arg ++ (13 ∷ 10 ∷ next)) e (omega arith) (omega arith)
        (omega arith) in
    let later =
      read_args-encode_args args p (pos + arg_size arg) rest small
        (drop-encode_arg p pos arg next e) in
    let whole : take (length arg) (arg ++ (13 ∷ 10 ∷ next)) ≡ arg = take-append arg _ _ refl in
    let sum : pos + line_length (length arg) + length arg + 2 ≡ pos + arg_size arg = omega arith in
    rw (round, whole, sum, later) (ap (λ k. ok (arg ∷ args, k)) (omega arith))

drop-encode_args :
    (args : List Bytes) (p : Bytes) (pos : ℕ) (rest : Bytes)
    → drop pos p ≡ encode_args args rest
    → drop (pos + args_size args) p ≡ rest
unfolding args_size
drop-encode_args [] p pos rest e = ap (λ k. drop k p) (let z : pos + 0 ≡ pos = omega arith in z) ∙ e
drop-encode_args (arg ∷ args) p pos rest e =
    let sum : pos + (arg_size arg + args_size args) ≡ pos + arg_size arg + args_size args =
      omega arith in
    rw sum (drop-encode_args args p _ rest (drop-encode_arg p pos arg (encode_args args rest) e))

drop-encode_request :
    (p : Bytes) (pos : ℕ) (args : List Bytes) (rest : Bytes)
    → drop pos p ≡ encode_request args rest
    → drop (pos + request_size args) p ≡ rest
drop-encode_request p pos args rest e =
    let n = length args in
    let sum : pos + request_size args ≡ pos + suc (length (decimal n)) + 2 + args_size args =
      omega arith in
    rw sum (drop-encode_args args p _ rest (drop-line p pos b'*' n (encode_args args rest) e))

module _ (u : Unicode) where
  -- The command that a request stands for.
  abbrev pub request_command : List Bytes → RedisCommand
  request_command args = command_of u args

  parse_resp_array-encode_request :
      (args : List Bytes) (rest : Bytes)
      → args ≢ []
      → length (encode_request args rest) ≤ 2 ^ 44
      → parse_resp_array u (encode_request args rest) ≡ ok (request_command args, request_size args)
  parse_resp_array-encode_request args rest ne small =
      let p = encode_request args rest in
      let n = length args in
      let few = length-le_args_size args in
      let size = length-encode_request args rest in
      resp_array_ok u p n (line_length n)
        (array_header-line n (encode_args args rest) (ground arith) (omega arith))
        (ground (arith, few, size))
      ∙ rw (
          read_args-encode_args args p (line_length n) rest (omega arith)
            (drop-line_length b'*' (length args) (encode_args args rest)))

  parse_single-encode_request :
      (args : List Bytes) (rest : Bytes)
      → args ≢ []
      → length (encode_request args rest) ≤ 2 ^ 44
      → parse_single u (encode_request args rest) ≡ ok (request_command args, request_size args)
  unfolding parse_single
  parse_single-encode_request args rest ne small =
      parse_resp_array-encode_request args rest ne small

  parse_from-pipeline :
      (reqs : List (List Bytes)) (fuel : ℕ) (p : Bytes) (pos : ℕ) (commands : List RedisCommand)
      → All (λ req. req ≢ []) reqs
      → length p ≤ 2 ^ 44
      → drop pos p ≡ encode_pipeline reqs
      → length p - pos < fuel
      → parse_multiple_from u fuel p pos commands ≡ some (ok (commands ++ map request_command reqs))
  parse_from-pipeline reqs zero p pos commands ne small e enough = absurd (omega arith)
  parse_from-pipeline [] (suc fuel) p pos commands ne small e enough =
      let over : length p ≤ pos = omega (arith, length-drop pos p, ap length e) in
      round_over u fuel p pos commands (ground arith) ∙ rw append-nil
  parse_from-pipeline (req ∷ reqs) (suc fuel) p pos commands ne small e enough =
      let rest = encode_pipeline reqs in
      let long = length-encode_request req rest in
      let left : length p - pos ≡ length (encode_request req rest) =
        omega (arith, length-drop pos p, ap length e) in
      let more : pos < length p = omega (arith, long) in
      let cmd = request_command req in
      let n = request_size req in
      round_command u fuel p pos commands cmd n (ground arith)
        (rw e (parse_single-encode_request req rest ne.0 (omega arith)))
      ∙ parse_from-pipeline reqs fuel p (pos + n) (commands ++ (cmd ∷ [])) ne.1 small
          (drop-encode_request p pos req rest e) (omega arith)
      ∙ ap (λ cs. some (ok cs)) (append_assoc commands (cmd ∷ []) (map request_command reqs))

  -- `ParseMultiple` on a pipeline of requests, each of one argument or more, of 2^44 bytes at most in
  -- all, returns one command for each request, in order: its name in upper case, its key and its
  -- further arguments, whatever bytes these hold.
  pub parse_multiple-encode_pipeline :
      (reqs : List (List Bytes))
      → All (λ req. req ≢ []) reqs
      → length (encode_pipeline reqs) ≤ 2 ^ 44
      → parse_multiple u (encode_pipeline reqs) ≡ some (ok (map request_command reqs))
  unfolding parse_multiple
  parse_multiple-encode_pipeline reqs ne small =
      parse_from-pipeline reqs _ (encode_pipeline reqs) 0 [] ne small refl (omega arith)
