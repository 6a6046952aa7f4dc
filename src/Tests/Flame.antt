-- ===== src/Tests/Flame.antt =====
-- Tests of the flame graph.
use mathlib.Core.List.{Perm}
use a.Prelude.{ℕ, ◌≡◌, refl, arith, none, List, [], ◌++◌, map, length}
use a.Golang.Int.{pos}
use a.Golang.Result.{ok}
use a.Golang.Slice.{Bytes}
use a.Golang.Text.{text, bytes_eq, show_int, decimal, join}
use a.Model.Span.{Span}
use a.Model.Tree.{Tree, node, nil, cons, label, labels, height, map_tree, sort_tree}
use a.Flame.Frame.{FlameFrame, FlameGraph, frame_name, frame_of, convert_span_to_flame_frame}
use a.Flame.Conversion
use a.Flame.Depth.{calculate_max_depth}
use a.Flame.Drawn
use a.Flame.Drawn.{IsDrawable, Returns}
use a.Flame.Folded
use a.Flame.Folded.{collect_folded, to_folded, stacks, lines_of, frames_of}
use a.Flame.HotSpots
use a.Flame.HotSpots.{get_hot_spots, at_most_length}
use a.Flame.Stats
use a.Flame.Stats.{Stats, get_frame_stats, calls, occurrences}
use a.Flame.Svg.{config_of, to_svg}
use a.Tests.Instances.{whole_numbers, span_of}
use a.Tests.Sorting.{by_insertion, by_insertion-Permutes}

abbrev named : Bytes → ℕ → Span ℕ
named name start = record (span_of (text "t1") 7 0) {
  service_name = text "s";
  operation = name;
  start_time = start;
}

-- A root with two children, the later one first.
abbrev trace : Tree (Span ℕ)
trace =
    node (named (text "a") 1)
      (cons (node (named (text "b") 5) nil) (cons (node (named (text "c") 2) nil) nil))

abbrev graph : FlameGraph ℕ
graph = record {
  root = convert_span_to_flame_frame whole_numbers by_insertion trace;
  title = text "T";
  width = pos 1200;
}

folds : to_folded graph ≡ text "s:a 7000\ns:a;s:c 7000\ns:a;s:b 7000"
unfolding to_folded collect_folded convert_span_to_flame_frame map_tree sort_tree frame_name
    bytes_eq join show_int decimal
folds = refl

convert_span_to_flame_frame-frames_example :
    Perm
      (labels (convert_span_to_flame_frame whole_numbers by_insertion trace))
      (map (frame_of whole_numbers) (labels trace))
    × (calculate_max_depth (convert_span_to_flame_frame whole_numbers by_insertion trace) 1
        ≡ height trace)
convert_span_to_flame_frame-frames_example =
    Conversion.convert_span_to_flame_frame-frames whole_numbers by_insertion by_insertion-Permutes
      trace

to_folded-stacks_example :
    (to_folded graph ≡ join (text "\n") (lines_of (stacks [] graph.root)))
    × (frames_of (stacks [] graph.root) ≡ labels graph.root)
to_folded-stacks_example = Folded.to_folded-stacks graph

get_frame_stats-calls_example :
    (stats : Stats ℕ) × (get_frame_stats whole_numbers graph ≡ ok stats)
    × ((name : Bytes)
        → calls whole_numbers name stats ≡ occurrences whole_numbers name (labels graph.root))
get_frame_stats-calls_example = Stats.get_frame_stats-calls whole_numbers graph

get_hot_spots-length_example :
    (length (get_hot_spots whole_numbers by_insertion (pos 2) graph)
      ≡ at_most_length (pos 2) (length (labels graph.root)))
    × ((rest : List (Tree (FlameFrame ℕ))) × Perm
          (map label (get_hot_spots whole_numbers by_insertion (pos 2) graph ++ rest))
          (labels graph.root))
get_hot_spots-length_example =
    HotSpots.get_hot_spots-length whole_numbers by_insertion by_insertion-Permutes (pos 2) graph

drawable : IsDrawable whole_numbers (config_of none) graph
unfolding config_of convert_span_to_flame_frame map_tree sort_tree labels
drawable = record {
  hue = λ e. cc e;
  saturation = λ e. cc e;
  root_room = λ wide. (97, omega arith, refl);
  room = (
    λ wide. (97, omega arith, refl),
    (λ wide. (97, omega arith, refl), (λ wide. (97, omega arith, refl), tt)),
  );
}

to_svg-Returns_example : Returns (to_svg whole_numbers none graph)
to_svg-Returns_example = Drawn.to_svg-Returns whole_numbers none graph drawable
