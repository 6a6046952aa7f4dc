-- ===== src/Flame/Frame.antt =====
-- pkg/flamegraph/flamegraph.go: frames and the graph of a trace's root. A frame with its `Children`
-- is a tree of frames.
use a.Prelude.{ℕ, Option, none, some, [], ◌++◌, if◌then◌else◌}
use a.Golang.Float.{Float}
use a.Golang.Int.{ℤ, pos}
use a.Golang.Slice.{Bytes}
use a.Golang.Text.{text, bytes_eq}
use a.Model.Span.{Span}
use a.Model.Tree.{Tree, map_tree, Sorter, sort_tree}

pub record FlameFrame (F : Type 0) : Type 0 where
  pub name : Bytes
  pub service : Bytes
  pub value : ℤ
  pub start_time : ℕ
  pub end_time : ℕ
  pub duration : F
  pub span_id : Bytes

pub record FlameGraph (F : Type 0) : Type 0 where
  pub root : Tree (FlameFrame F)
  pub title : Bytes
  pub width : ℤ

module _ (fl : Float) where
  open fl use {F, fmul, lit, to_int}

  unfoldable pub frame_name : Span F → Bytes
  frame_name span =
      let name = span.service_name ++ (text ":" ++ span.operation) in
      if bytes_eq span.protocol [] then name else name ++ (text " [" ++ (span.protocol ++ text "]"))

  -- The frame of a span, without its children.
  abbrev pub frame_of : Span F → FlameFrame F
  frame_of span = record {
    name = frame_name span;
    service = span.service_name;
    value = to_int (fmul span.duration_ms (lit 1000 0));
    start_time = span.start_time;
    end_time = span.end_time;
    duration = span.duration_ms;
    span_id = span.span_id;
  }

  -- `convertSpanToFlameFrame`, which sorts the children of each span by their start.
  unfoldable pub convert_span_to_flame_frame : Sorter → Tree (Span F) → Tree (FlameFrame F)
  convert_span_to_flame_frame sorter span =
      map_tree frame_of (sort_tree sorter (λ s. s.start_time) span)

  -- `NewFlameGraph`; nil is `none`.
  unfoldable pub new_flame_graph : Sorter → Option (Tree (Span F)) → Bytes → Option (FlameGraph F)
  new_flame_graph sorter none title = none
  new_flame_graph sorter (some root) title =
      some
        (record { root = convert_span_to_flame_frame sorter root; title = title; width = pos 1200 })
