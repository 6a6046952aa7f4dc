-- ===== src/Tests/Instances.antt =====
-- Values of the model's parameters, for the tests: whole numbers for float64, ASCII for Unicode.
use a.Prelude.{ℕ, ◌+◌, ◌-◌, ◌*◌, ◌/◌, ◌^◌, ◌&&◌, List, [], ◌∷◌, ltb, leb, if◌then◌else◌, map, ◌==◌}
use a.Golang.Float.{Float}
use a.Golang.Int.{ℤ, pos, negsuc}
use a.Golang.Slice.{Bytes}
use a.Golang.Text.{Unicode, decimal}
use a.Model.Span.{Span}

abbrev int_value : ℤ → ℕ
int_value (pos n) = n
int_value (negsuc n) = 0

abbrev pub whole_numbers : Float
whole_numbers = record {
  F = ℕ;
  flt = ltb;
  fle = leb;
  fadd = λ a b. a + b;
  fsub = λ a b. a - b;
  fmul = λ a b. a * b;
  fdiv = λ a b. a / b;
  of_int = int_value;
  lit = λ n k. n / 10 ^ k;
  fsqrt = λ a. a;
  fmax = λ a b. if ltb a b then b else a;
  to_int = pos;
  show2 = decimal;
  show1 = decimal;
}

abbrev upper : ℕ → ℕ
upper c = if leb b'a' c && leb c b'z' then c - 32 else c

abbrev lower : ℕ → ℕ
lower c = if leb b'A' c && leb c b'Z' then c + 32 else c

abbrev push_word : Bytes → List Bytes → List Bytes
push_word [] ws = ws
push_word (c ∷ w) ws = (c ∷ w) ∷ ws

-- The words of a text: the word begun at the left end, and those behind it.
abbrev words_onto : Bytes → Bytes × List Bytes
words_onto [] = ([], [])
words_onto (c ∷ r) =
    let rest = words_onto r in
    if c == b' ' then ([], push_word rest.0 rest.1) else (c ∷ rest.0, rest.1)

abbrev words : Bytes → List Bytes
words t = let w = words_onto t in push_word w.0 w.1

abbrev pub ascii : Unicode
ascii = record {
  to_upper = λ t. map upper t;
  to_lower = λ t. map lower t;
  trim_space = λ t. t;
  fields = words;
}

-- A span with nothing in it but what the arguments say.
abbrev pub span_of : Bytes → ℕ → ℕ → Span ℕ
span_of trace_id duration code = record {
  trace_id = trace_id;
  span_id = [];
  parent_span_id = [];
  service_name = [];
  operation = [];
  protocol = [];
  event_type = [];
  start_time = 0;
  end_time = 0;
  duration_ms = duration;
  error_code = code;
  payload_size = 0;
  payload = [];
  source_ip = [];
  dest_ip = [];
  source_port = 0;
  dest_port = 0;
  pid = 0;
  comm = [];
  path = [];
  tags = [];
}
