-- ===== src/Model/Span.antt =====
-- pkg/model/trace.go: the span and its tags. A span's `Children` stand beside the spans of a trace.
use a.Prelude.{ℕ, Bool, List, [], ◌∷◌, if◌then◌else◌, Option, none, some}
use a.Golang.Slice.{Bytes}
use a.Golang.Text.{bytes_eq}

-- The values that the code stores in `Tags`.
pub data TagValue : Type 0 where
  num : ℕ → TagValue
  flag : Bool → TagValue
  str : Bytes → TagValue

abbrev pub Tags : Type 0
Tags = List (Bytes × TagValue)

-- `F` stands for float64. A `time.Time` is the nanoseconds since Go's zero time, of which an
-- instant after the Unix epoch is `unix_epoch` and more.
pub record Span (F : Type 0) : Type 0 where
  pub trace_id : Bytes
  pub span_id : Bytes
  pub parent_span_id : Bytes
  pub service_name : Bytes
  pub operation : Bytes
  pub protocol : Bytes
  pub event_type : Bytes
  pub start_time : ℕ
  pub end_time : ℕ
  pub duration_ms : F
  -- an int32, as its bit pattern
  pub error_code : ℕ
  pub payload_size : ℕ
  pub payload : Bytes
  pub source_ip : Bytes
  pub dest_ip : Bytes
  pub source_port : ℕ
  pub dest_port : ℕ
  pub pid : ℕ
  pub comm : Bytes
  pub path : Bytes
  pub tags : Tags

-- A map write and a map read.
unfoldable pub insert_tag : Bytes → TagValue → Tags → Tags
insert_tag k v [] = (k, v) ∷ []
insert_tag k v ((j, w) ∷ m) = if bytes_eq j k then (k, v) ∷ m else (j, w) ∷ insert_tag k v m

unfoldable pub get_tag : Bytes → Tags → Option TagValue
get_tag k [] = none
get_tag k ((j, w) ∷ m) = if bytes_eq j k then some w else get_tag k m

-- `SetTag`; a nil map and an empty one are the same list.
unfoldable pub set_tag : {F : Type 0} → Bytes → TagValue → Span F → Span F
set_tag k v s = record s { tags = insert_tag k v s.tags }
