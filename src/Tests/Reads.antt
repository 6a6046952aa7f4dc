-- ===== src/Tests/Reads.antt =====
-- Tests of the store's queries.
use a.Prelude.{ℕ, ◌≡◌, refl, arith, true, none, some, List, [], ◌∷◌, length, replicate, map}
use a.Golang.Int.{pos}
use a.Golang.Split.{cut, split_at}
use a.Golang.Text.{text, bytes_eq, has_prefix, join, decimal}
use a.Model.Span.{Span, TagValue, insert_tag}
use a.Model.Trace.{Trace}
use a.Storage.Marks.{marks, traces_statement-Matches}
use a.Storage.Query.{TraceQuery, traces_statement, read_tags, parse_span_tags}
use a.Storage.Reader.{Reader, span_of_row, get_trace_by_id}
use a.Storage.Roots.{KeepsInk, get_trace_by_id-rootless}
use a.Storage.Row.{format_value, row_of, span_tags_to_string}
use a.Storage.Tags.{as_text, parse_span_tags-span_tags_to_string}
use a.Tests.Instances.{whole_numbers, ascii, span_of}

abbrev recent : TraceQuery ℕ
recent = record {
  trace_id = [];
  service_name = text "a?b";
  start_time = some (pos 5);
  end_time = none;
  min_latency_ms = some 100;
  max_latency_ms = none;
  protocol = [];
  limit = pos 20;
  offset = pos 0;
}

recent_statement :
    (traces_statement recent).sql
    ≡ text
        "SELECT DISTINCT trace_id FROM spans WHERE 1=1 AND service_name = ? AND start_time >= ? AND duration_ms >= ? ORDER BY start_time DESC LIMIT ?"
unfolding traces_statement bytes_eq
recent_statement = refl

traces_statement-Matches_example :
    marks (traces_statement recent).sql ≡ length (traces_statement recent).args
traces_statement-Matches_example = traces_statement-Matches recent

-- Two spans of a trace, the first of which has no parent.
abbrev root_and_child : List (Span ℕ)
root_and_child =
    record (span_of (replicate 32 b'a') 5 0) { span_id = text "0123456789abcdef" }
    ∷ record (span_of (replicate 32 b'a') 5 0) { parent_span_id = text "0123456789abcdef" }
    ∷ []

-- A database that answers every query for spans with these two.
abbrev two_rows : Reader ℕ
two_rows = record {
  Conn = Unit {0};
  query_spans = λ s conn. (
    tt,
    some (record {
      scanned = map (λ s. some (row_of (λ ip. none) s)) root_and_child;
      complete = true;
    }),
  );
  query_texts = λ s conn. (tt, none);
  query_operations = λ s conn. (tt, none);
  query_edges = λ s conn. (tt, none);
  ip_string = λ ip. [];
}

ascii-KeepsInk : KeepsInk ascii
unfolding bytes_eq
ascii-KeepsInk c s ink = refl

get_trace_by_id-rootless_example :
    (trace : Trace ℕ) × ((get_trace_by_id whole_numbers ascii two_rows (text "abc") tt).1
      ≡ some trace)
    × (trace.root_span ≡ none)
    × (trace.spans
        ≡ map (span_of_row whole_numbers ascii two_rows) (map (row_of (λ ip. none)) root_and_child))
get_trace_by_id-rootless_example =
    get_trace_by_id-rootless whole_numbers ascii two_rows ascii-KeepsInk b'a' (text "bc")
      (λ ip. none) (record (span_of (replicate 32 b'a') 5 0) { span_id = text "0123456789abcdef" })
      (record (span_of (replicate 32 b'a') 5 0) { parent_span_id = text "0123456789abcdef" } ∷ [])
      tt (omega arith) refl

parse_span_tags-span_tags_to_string_example :
    parse_span_tags
      (span_tags_to_string ((text "a", TagValue.num 7) ∷ (text "b", TagValue.flag true) ∷ []))
    ≡ map as_text ((text "a", TagValue.num 7) ∷ (text "b", TagValue.flag true) ∷ [])
unfolding bytes_eq decimal format_value
parse_span_tags-span_tags_to_string_example =
    parse_span_tags-span_tags_to_string
      ((text "a", TagValue.num 7) ∷ (text "b", TagValue.flag true) ∷ []) (omega arith)
      ((refl, tt), (tt, tt))

tags_program : Unit {0}
unfolding parse_span_tags read_tags insert_tag cut split_at has_prefix bytes_eq span_tags_to_string
    join
tags_program = tt

-- The keys of a Redis pipeline, which the parser joins by commas, do not come back.
lost_keys :
    parse_span_tags (span_tags_to_string ((text "redis_keys", TagValue.str (text "k1,k2")) ∷ []))
    ≡ (text "redis_keys", TagValue.str (text "k1")) ∷ []
unfolding tags_program format_value
lost_keys = refl
