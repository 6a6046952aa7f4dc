-- ===== src/Tests/Redis.antt =====
-- Tests of the Redis parser.
use a.Prelude.{◌≡◌, refl, true, false, some, List, [], ◌∷◌, map, arith}
use a.Golang.Result.{Result, ok, err, panic}
use a.Golang.Slice.{Bytes}
use a.Golang.Text.{text, decimal, atoi, index_crlf, index_byte, bytes_eq}
use a.Redis.Parser.{
  RedisCommand, read_arg, read_args, array_header, parse_resp_array, response_end, response_command,
  read_bulk, parse_resp_response, parse_inline_command, parse_single, parse_multiple_from,
  parse_multiple,
}
use a.Redis.Lines.{line}
use a.Redis.Panics.{parse_multiple-panics}
use a.Redis.Progress.{parse_multiple_total}
use a.Redis.Wire.{encode_pipeline, request_command, parse_multiple-encode_pipeline}
use a.Tests.Instances.{ascii}

program : Unit {0}
unfolding atoi index_crlf index_byte bytes_eq read_arg read_args array_header parse_resp_array
    response_end response_command read_bulk parse_resp_response parse_inline_command parse_single
    parse_multiple_from parse_multiple decimal
program = tt

abbrev requests : List (List Bytes)
requests = (text "get" ∷ text "k1" ∷ []) ∷ (text "set" ∷ text "k2" ∷ text "a\r\nb" ∷ []) ∷ []

-- A reply and a line behind it.
reply_and_line :
    parse_multiple ascii (text "$2\r\nhi\r\nPING now\n")
    ≡ some (
        ok (
          record { command = text "$"; key = text "2"; args = text "hi" ∷ []; is_response = true }
          ∷ record { command = text "PING"; key = text "now"; args = []; is_response = false }
          ∷ []))
unfolding program
reply_and_line = refl

bad_start : parse_multiple ascii (text "\n") ≡ some err
unfolding program
bad_start = refl

parse_multiple-encode_pipeline_example :
    parse_multiple ascii (encode_pipeline requests)
    ≡ some (ok (map (request_command ascii) requests))
unfolding decimal
parse_multiple-encode_pipeline_example =
    parse_multiple-encode_pipeline ascii requests (λ e. cc, (λ e. cc, tt)) (omega arith)

parse_multiple-panics_example :
    (parse_multiple ascii (line b'$' 9223372036854775807 []) ≡ some panic)
    × (parse_multiple ascii (line b'*' 1 (line b'$' 9223372036854775807 [])) ≡ some panic)
    × (parse_multiple ascii (line b'*' 99999999999999 []) ≡ some panic)
parse_multiple-panics_example =
    parse_multiple-panics ascii 1 9223372036854775807 99999999999999 [] (omega arith) (omega arith)
      (omega arith) (omega arith) (omega arith) (omega arith)

parse_multiple_total_example :
    (r : Result (List RedisCommand)) × (parse_multiple ascii (text "*1\r\n$x") ≡ some r)
parse_multiple_total_example = parse_multiple_total ascii (text "*1\r\n$x")
