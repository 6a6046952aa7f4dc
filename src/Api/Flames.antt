-- ===== src/Api/Flames.antt =====
-- pkg/api/server.go: `getFlameGraph`. The store's `GetTraceTree` is not in the repository, so it is a
-- parameter; it stands for the method on the server's store, which may be nil.
use a.Prelude.{zero, suc, Bool, Option, none, some, [], ◌∷◌, ◌++◌, if◌then◌else◌}
use a.Golang.Float.{Float}
use a.Golang.Int.{ℤ, pos, negsuc}
use a.Golang.Result.{Result, ok, err, panic, ◌>>=◌}
use a.Golang.Slice.{Bytes}
use a.Golang.Text.{text, bytes_eq}
use a.Flame.Color.{SvgConfig, ColorPalette}
use a.Flame.Folded.{to_folded}
use a.Flame.Frame.{FlameGraph, new_flame_graph}
use a.Flame.HotSpots.{get_hot_spots}
use a.Flame.Stats.{get_frame_stats}
use a.Flame.Svg.{to_svg}
use a.Model.Span.{Span}
use a.Model.Tree.{Tree, Sorter}
use a.Api.Answer.{Response, reply, send, plain, query_or, parse_int}
use a.Api.Handlers.{Body, flames}

abbrev pub no_colors : ColorPalette
no_colors = record {
  base_hue = pos 0;
  hue_range = pos 0;
  min_saturation = pos 0;
  max_saturation = pos 0;
  min_lightness = pos 0;
  max_lightness = pos 0;
}

-- The width that is given and positive, or 1200; the error of `strconv.Atoi` is passed over.
unfoldable pub width_of : Bytes → ℤ
unfolding parse_int
width_of width = elim (parse_int width) [
  | pos n ↦ elim n [ zero ↦ pos 1200 | suc k ↦ pos (suc k) ]
  | negsuc n ↦ pos 1200
]

abbrev pub svg_config : Bytes → Bytes → SvgConfig
svg_config title width = record {
  width = width_of width;
  height_per_frame = pos 18;
  font_size = pos 12;
  title = title;
  colors = no_colors;
}

module _ (fl : Float) (sorter : Sorter) (error : Bytes) (encodes : Body fl.F → Bool) where
  open fl use {F}

  -- The graph in the format that is asked for, without the header that names the file.
  unfoldable pub show_graph : Bytes → Bytes → Bytes → FlameGraph F → Result (Response (Body F))
  show_graph format width title fg =
      if bytes_eq format (text "folded")
      then ok (plain 200 (text "text/plain; charset=utf-8") (to_folded fg))
      else if bytes_eq format (text "stats")
      then (do
        stats ← get_frame_stats fl fg
        ok (
            send encodes 200 200 (text "success")
              (flames stats (get_hot_spots fl sorter (pos 10) fg))))
      else elim (to_svg fl (some (svg_config title width)) fg) [
        | ok svg ↦ ok (plain 200 (text "image/svg+xml") svg)
        | err ↦ ok (reply 500 500 (text "Failed to generate SVG: " ++ error) none)
        | panic ↦ panic
      ]

  module _ {Conn : Type 0}
      (get_trace_tree : Bytes → Conn → Conn × Option (Option (Tree (Span F)))) where
    unfoldable pub get_flame_graph :
        Bytes → Option Bytes → Option Bytes → Conn → Conn × Result (Response (Body F))
    get_flame_graph [] format width conn =
        (conn, ok (reply 400 400 (text "traceId is required") none))
    get_flame_graph (c ∷ trace_id) format width conn =
        let (conn', found) = get_trace_tree (c ∷ trace_id) conn in
        elim found [
          | none ↦ (conn', ok (reply 500 500 (text "Failed to get trace: " ++ error) none))
          | some root ↦ elim root [
            | none ↦ (conn', ok (reply 404 404 (text "Trace not found") none))
            | some tree ↦
                let title = text "Trace " ++ ((c ∷ trace_id) ++ text " Flame Graph") in
                elim (new_flame_graph fl sorter (some tree) title) [
                  | none ↦ (conn', ok (reply 500 500 (text "Failed to generate flame graph") none))
                  | some fg ↦ (
                    conn',
                    show_graph (query_or format (text "svg")) (query_or width (text "1200")) title
                        fg,
                  )
                ]
          ]
        ]
