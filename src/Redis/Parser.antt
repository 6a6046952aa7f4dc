-- ===== src/Redis/Parser.antt =====
-- pkg/protocol/parser.go: the methods of `RedisParser`. It slices within its payload only, or with
-- an overflowed bound, so a payload is the bytes that the slice shows. `int` has 64 bits; positions
-- and lengths are not negative, and a sum that reaches 2^63 wraps to a negative number.
use mathlib.Core.Option
use a.Prelude.{
  ℕ, zero, suc, ◌+◌, ◌-◌, ◌*◌, ◌^◌, Bool, true, false, not, ◌&&◌, ◌||◌, Option, none, some, List,
  [], ◌∷◌, ◌++◌, ltb, leb, ◌==◌, if◌then◌else◌, length, take, drop, get_or,
}
use a.Golang.Result.{Result, ok, err, panic, ◌>>=◌}
use a.Golang.Slice.{Bytes}
use a.Golang.Text.{
  text, bytes_eq, index_crlf, index_byte, plus, minus, invalid, atoi, decimal, join, Unicode,
}
use a.Model.Span.{Span, TagValue, set_tag}

pub record RedisCommand : Type 0 where
  pub command : Bytes
  pub key : Bytes
  pub args : List Bytes
  pub is_response : Bool

abbrev pub empty_command : RedisCommand
empty_command = record { command = []; key = []; args = []; is_response = false }

-- `payload[lo:hi]` where `lo <= hi <= len(payload)` is known.
abbrev pub part : Bytes → ℕ → ℕ → Bytes
part p lo hi = take (hi - lo) (drop lo p)

-- `make([]string, 0, n)` panics where 16 n bytes are more than the runtime's largest block, 2^48
-- bytes on linux/amd64. A smaller block that the machine does not have is not modelled.
abbrev pub make_strings_panics : ℕ → Bool
make_strings_panics n = ltb (2 ^ 48) (16 * n)

-- `CanHandle`
unfoldable pub can_handle : Bytes → Bool
can_handle [] = false
can_handle (first ∷ r) =
    first == b'*'
    || (first == b'+'
        || (first == b'-'
            || (first == b':' || (first == b'$' || (leb b'A' first && leb first b'Z')))))

-- What a round of the loop of `parseRESPArray` does at `pos`: leave the loop at a position, panic,
-- or append an argument and go on.
pub data Round : Type 0 where
  leave : ℕ → Round
  fault : Round
  append : Bytes → ℕ → Round

unfoldable pub read_arg : Bytes → ℕ → Round
read_arg p pos = elim (ltb pos (length p) && get_or p pos 0 == b'$') [
  | false ↦ leave pos
  | true ↦ elim (index_crlf (drop pos p)) [
    | none ↦ leave pos
    | some crlf ↦ elim (atoi (part p (pos + 1) (pos + crlf))) [
      | plus len ↦
          let start = pos + crlf + 2 in
          if leb (2 ^ 63) (start + len)
          then fault
          else if ltb (length p) (start + len)
          then leave start
          else append (part p start (start + len)) (start + len + 2)
      | minus _ ↦ leave pos
      | invalid ↦ leave pos
    ]
  ]
]

-- The rest of the loop from a position is `more`.
abbrev pub after_round : Round → (ℕ → Result (List Bytes × ℕ)) → Result (List Bytes × ℕ)
after_round (leave end) more = ok ([], end)
after_round fault more = panic
after_round (append arg next) more = do (args, end) ← more next; ok (arg ∷ args, end)

-- The loop, for `n` arguments to come: the arguments that it appends, and where it stops.
unfoldable pub read_args : ℕ → Bytes → ℕ → Result (List Bytes × ℕ)
read_args zero p pos = ok ([], pos)
read_args (suc n) p pos = after_round (read_arg p pos) (λ next. read_args n p next)

-- The array's length `numArgs`, which is positive, and the position behind its line.
unfoldable pub array_header : Bytes → Option (ℕ × ℕ)
array_header p = elim (index_crlf p) [
  | none ↦ none
  | some crlf ↦ elim (atoi (part p 1 crlf)) [
    | plus n ↦ if n == 0 then none else some (n, crlf + 2)
    | minus _ ↦ none
    | invalid ↦ none
  ]
]

-- `crlfPos`, and the command that the first line makes.
unfoldable pub response_end : Bytes → ℕ
response_end p = Option.get_or (index_crlf p) (length p)

unfoldable pub response_command : Bytes → RedisCommand
response_command p = record {
  command = take 1 p;
  key = if ltb 1 (response_end p) then part p 1 (response_end p) else [];
  args = [];
  is_response = true;
}

-- The bulk string behind the first line `$n`, with `key` the text of n.
unfoldable pub read_bulk : Bytes → RedisCommand → ℕ → Result (RedisCommand × ℕ)
read_bulk p cmd pos =
    if get_or p 0 0 == b'$' && not (bytes_eq cmd.key (text "-1"))
    then elim (atoi cmd.key) [
      | plus n ↦
          if n == 0
          then ok (cmd, pos)
          else if leb (2 ^ 63) (pos + n)
          then panic
          else if leb (pos + n) (length p)
          then ok (record cmd { args = part p pos (pos + n) ∷ [] }, pos + n + 2)
          else ok (cmd, pos)
      | minus _ ↦ ok (cmd, pos)
      | invalid ↦ ok (cmd, pos)
    ]
    else ok (cmd, pos)

module _ (u : Unicode) where
  -- The command that an array's or a line's words make.
  abbrev pub command_of : List Bytes → RedisCommand
  command_of [] = empty_command
  command_of (name ∷ []) = record empty_command { command = u.to_upper name }
  command_of (name ∷ key ∷ args) = record {
    command = u.to_upper name;
    key = key;
    args = args;
    is_response = false;
  }

  unfoldable pub parse_resp_array : Bytes → Result (RedisCommand × ℕ)
  parse_resp_array p = elim (array_header p) [
    | none ↦ err
    | some (n, pos) ↦
        if make_strings_panics n
        then panic
        else (do (args, end) ← read_args n p pos; ok (command_of args, end))
  ]

  unfoldable pub parse_resp_response : Bytes → Result (RedisCommand × ℕ)
  parse_resp_response p = read_bulk p (response_command p) (response_end p + 2)

  unfoldable pub parse_inline_command : Bytes → RedisCommand × ℕ
  parse_inline_command p =
      let newline = Option.get_or (index_byte b'\n' p) (length p) in
      (
        command_of (u.fields (u.trim_space (take newline p))),
        if ltb newline (length p) && get_or p newline 0 == b'\n' then newline + 1 else newline,
      )

  unfoldable pub parse_single : Bytes → Result (RedisCommand × ℕ)
  parse_single [] = err
  parse_single (first ∷ r) =
      let p = first ∷ r in
      if first == b'*'
      then parse_resp_array p
      else if first == b'+' || (first == b'-' || (first == b':' || first == b'$'))
      then parse_resp_response p
      else if leb b'A' first && leb first b'Z'
      then ok (parse_inline_command p)
      else err

  -- The loop of `ParseMultiple`, with the commands so far; `none` means that the fuel ran out.
  unfoldable pub parse_multiple_from :
      ℕ → Bytes → ℕ → List RedisCommand → Option (Result (List RedisCommand))
  parse_multiple_from zero p pos commands = none
  parse_multiple_from (suc fuel) p pos commands = elim (ltb pos (length p)) [
    | false ↦ some (ok commands)
    | true ↦ elim (parse_single (drop pos p)) [
      | ok (cmd, n) ↦ parse_multiple_from fuel p (pos + n) (commands ++ (cmd ∷ []))
      | err ↦ some (elim commands [ [] ↦ err | c ∷ cs ↦ ok (c ∷ cs) ])
      | panic ↦ some panic
    ]
  ]

  unfoldable pub parse_multiple : Bytes → Option (Result (List RedisCommand))
  parse_multiple p = parse_multiple_from (length p + 1) p 0 []

  -- The keys that are not empty.
  unfoldable pub keys_of : List RedisCommand → List Bytes
  keys_of [] = []
  keys_of (c ∷ cs) = if bytes_eq c.key [] then keys_of cs else c.key ∷ keys_of cs

  module _ {F : Type 0} where
    -- What `Parse` writes to the span for the commands of a pipeline.
    unfoldable pub tag_pipeline : List RedisCommand → Span F → Span F
    tag_pipeline commands span =
        let n = length commands in
        let keys = keys_of commands in
        let s1 = record span {
          operation = text "PIPELINE (" ++ (decimal n ++ text " commands)");
        } in
        let s2 = set_tag (text "redis_pipeline") (TagValue.flag true) s1 in
        if ltb 0 (length keys)
        then set_tag (text "redis_keys") (TagValue.str (join (text ",") keys)) s2
        else s2

    -- `Parse` behind its call of `ParseMultiple`
    unfoldable pub parse_commands : List RedisCommand → Span F → Result (RedisCommand × Span F)
    parse_commands [] span = err
    parse_commands (c ∷ cs) span =
        let n = length (c ∷ cs) in
        let s1 = set_tag (text "redis_command_count") (TagValue.num n) span in
        ok (c, if ltb 1 n then tag_pipeline (c ∷ cs) s1 else s1)

    unfoldable pub parse : Bytes → Span F → Option (Result (RedisCommand × Span F))
    parse p span = Option.map (λ r. r >>= (λ cs. parse_commands cs span)) (parse_multiple p)
