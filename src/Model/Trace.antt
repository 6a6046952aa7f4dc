-- ===== src/Model/Trace.antt =====
-- pkg/model/trace.go: `BuildTraceTree`. Spans are named by their place in the argument, and the
-- `Children` of each stand in a list beside the spans.
pub mod Times
use Prim.Native.Nat.{min}
use a.Prelude.{
  ℕ, zero, suc, ◌+◌, ◌-◌, ◌^◌, Bool, true, false, not, Option, none, some, List, [], ◌∷◌, ◌++◌, map,
  ltb, if◌then◌else◌,
}
use a.Golang.Dict.{lookup, insert}
use a.Golang.Float.{Float}
use a.Golang.Int.{ℤ, pos, negsuc}
use a.Golang.Slice.{Bytes}
use a.Golang.Text.{bytes_eq}
use a.Model.Span.{Span}

pub record Trace (F : Type 0) : Type 0 where
  pub trace_id : Bytes
  pub spans : List (Span F)
  pub children : List (List ℕ)
  pub root_span : Option ℕ
  pub start_time : ℕ
  pub end_time : ℕ
  pub duration : F

-- A child more for the span at a place.
unfoldable pub add_child : ℕ → ℕ → List (List ℕ) → List (List ℕ)
add_child parent child [] = []
add_child zero child (cs ∷ rest) = (cs ++ (child ∷ [])) ∷ rest
add_child (suc parent) child (cs ∷ rest) = cs ∷ add_child parent child rest

-- `end.Sub(start).Nanoseconds()`, which stops at the ends of an int64.
abbrev pub sub_nano : ℕ → ℕ → ℤ
sub_nano end start =
    if ltb end start
    then negsuc (min (start - end) (2 ^ 63) - 1)
    else pos (min (end - start) (2 ^ 63 - 1))

module _ {F : Type 0} where
  -- `spanMap`, filled from the span at a place on; a later span replaces an earlier one.
  unfoldable pub span_map : ℕ → List (Span F) → List (Bytes × ℕ) → List (Bytes × ℕ)
  span_map i [] m = m
  span_map i (span ∷ spans) m = span_map (i + 1) spans (insert span.span_id i m)

  -- `root`: the last span without a parent.
  unfoldable pub root_of : ℕ → List (Span F) → Option ℕ → Option ℕ
  root_of i [] root = root
  root_of i (span ∷ spans) root =
      root_of (i + 1) spans (if bytes_eq span.parent_span_id [] then some i else root)

  -- The loop that appends each span to its parent's children.
  unfoldable pub link_children :
      List (Bytes × ℕ) → ℕ → List (Span F) → List (List ℕ) → List (List ℕ)
  link_children m i [] children = children
  link_children m i (span ∷ spans) children = link_children m (i + 1) spans (
      if bytes_eq span.parent_span_id [] then children else elim (lookup span.parent_span_id m) [
        | none ↦ children
        | some parent ↦ add_child parent i children
      ])

  -- The loop over the times.
  unfoldable pub time_bounds : List (Span F) → ℕ × ℕ → ℕ × ℕ
  time_bounds [] b = b
  time_bounds (span ∷ spans) b = time_bounds spans (
    if ltb span.start_time b.0 then span.start_time else b.0,
    if ltb b.1 span.end_time then span.end_time else b.1,
  )

module _ (fl : Float) where
  open fl use {F, fdiv, of_int, lit}

  -- `BuildTraceTree`; `none` is nil.
  unfoldable pub build_trace_tree : List (Span F) → Option (Trace F)
  build_trace_tree [] = none
  build_trace_tree (first ∷ rest) =
      let spans = first ∷ rest in
      let bounds = time_bounds spans (first.start_time, first.end_time) in
      some (record {
        trace_id = first.trace_id;
        spans = spans;
        children = link_children (span_map 0 spans []) 0 spans (map (λ s. []) spans);
        root_span = root_of 0 spans none;
        start_time = bounds.0;
        end_time = bounds.1;
        duration = fdiv (of_int (sub_nano bounds.1 bounds.0)) (lit 1000000 0);
      })
