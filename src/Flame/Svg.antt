-- ===== src/Flame/Svg.antt =====
-- pkg/flamegraph/flamegraph.go: `ToSVG` and `drawFrame`. Of a text that is cut, the code shows the
-- first bytes.
use a.Prelude.{
  ℕ, zero, suc, Bool, true, false, ◌&&◌, Option, none, some, [], ◌∷◌, ◌++◌, leb, if◌then◌else◌,
  take, length,
}
use a.Golang.Float.{Float}
use a.Golang.Int.{ℤ, pos, negsuc, add_int, sub_int, mul_int, lt_int, half_int}
use a.Golang.Result.{Result, ok, panic, ◌>>=◌}
use a.Golang.Slice.{Bytes}
use a.Golang.Text.{text, show_int, concat, escape_string}
use a.Model.Tree.{Tree, Forest, node, nil, cons, label}
use a.Flame.Frame.{FlameFrame, FlameGraph}
use a.Flame.Depth.{calculate_max_depth}
use a.Flame.Color.{SvgConfig, default_color_palette, default_svg_config, get_color}

-- `s[:n]`
abbrev pub prefix : ℤ → Bytes → Result Bytes
prefix (pos n) s = if leb n (length s) then ok (take n s) else panic
prefix (negsuc n) s = panic

-- `config.Colors.BaseHue == 0`
abbrev pub is_zero_int : ℤ → Bool
is_zero_int (pos zero) = true
is_zero_int _ = false

-- The configuration that `ToSVG` works with.
unfoldable pub config_of : Option SvgConfig → SvgConfig
config_of none = default_svg_config
config_of (some config) =
    if is_zero_int config.colors.base_hue
    then record config { colors = default_color_palette }
    else config

module _ (fl : Float) where
  open fl use {F, flt, fle, fadd, fsub, fmul, fdiv, of_int, lit, to_int, show2}

  -- How many bytes of a name fit into a frame.
  abbrev pub max_chars : SvgConfig → F → ℤ
  max_chars config width = to_int (fmul (fdiv width (of_int config.font_size)) (lit 18 1))

  -- The name as a frame shows it.
  abbrev pub shown_name : ℤ → Bytes → Result Bytes
  shown_name max name =
      if lt_int max (pos (length name))
      then (prefix (sub_int max (pos 3)) name >>= λ cut. ok (cut ++ text "..."))
      else ok name

  abbrev pub tooltip_of : FlameFrame F → Bytes
  tooltip_of frame = concat (
      frame.name
      ∷ text "\nDuration: "
      ∷ show2 frame.duration
      ∷ text "ms\nService: "
      ∷ frame.service
      ∷ text "\nSpanID: "
      ∷ frame.span_id
      ∷ [])

  abbrev pub rect_of : F → F → F → F → Bytes → Bytes
  rect_of x y width height color = concat (
      text "<rect x=\""
      ∷ show2 x
      ∷ text "\" y=\""
      ∷ show2 y
      ∷ text "\" width=\""
      ∷ show2 width
      ∷ text "\" height=\""
      ∷ show2 (fsub height (lit 1 0))
      ∷ text "\" fill=\""
      ∷ color
      ∷ text "\" stroke=\"#fff\" stroke-width=\"1\" rx=\"2\" ry=\"2\"/>"
      ∷ [])

  abbrev pub text_of : SvgConfig → F → F → F → Bytes → Bytes
  text_of config x y height shown = concat (
      text "<text x=\""
      ∷ show2 (fadd x (lit 5 0))
      ∷ text "\" y=\""
      ∷ show2 (fsub (fadd y height) (lit 5 0))
      ∷ text "\" font-size=\""
      ∷ show_int (sub_int config.font_size (pos 2))
      ∷ text "\" fill=\"#fff\" pointer-events=\"none\">"
      ∷ escape_string shown
      ∷ text "</text>"
      ∷ [])

  -- The name of a frame that is wider than 80.
  unfoldable pub draw_name : SvgConfig → FlameFrame F → F → F → F → F → Result Bytes
  draw_name config frame x y width height =
      if flt (lit 80 0) width
      then (shown_name (max_chars config width) frame.name >>= λ shown.
          ok (text_of config x y height shown))
      else ok []

  -- What `drawFrame` writes of the frame itself.
  unfoldable pub draw_box : SvgConfig → FlameFrame F → F → F → F → F → ℕ → Result Bytes
  draw_box config frame x y width height depth = get_color fl config frame depth >>= λ color.
      draw_name config frame x y width height >>= λ name. ok (
        concat (
          text "<g class=\"frame\">"
          ∷ text "<title>"
          ∷ escape_string (tooltip_of frame)
          ∷ text "</title>"
          ∷ rect_of x y width height color
          ∷ name
          ∷ text "</g>"
          ∷ []))

  abbrev pub child_width : SvgConfig → F → FlameFrame F → F
  child_width config total_value frame =
      fmul (fdiv (of_int frame.value) total_value) (of_int config.width)

  -- `drawFrame`, and its loop over the children, which stand side by side.
  unfoldable mutual
    pub draw_frame : SvgConfig → F → F → Bytes → Tree (FlameFrame F) → F → F → F → ℕ → Result Bytes
    draw_frame config total_value height sb (node frame children) x y width depth =
        if flt width (lit 5 1)
        then ok sb
        else (draw_box config frame x y width height depth >>= λ box.
            draw_children config total_value height (sb ++ box) children x (fadd y height)
              (suc depth))

    pub draw_children : SvgConfig → F → F → Bytes → Forest (FlameFrame F) → F → F → ℕ → Result Bytes
    draw_children config total_value height sb nil child_x child_y depth = ok sb
    draw_children config total_value height sb (cons child rest) child_x child_y depth =
        let width = child_width config total_value (label child) in
        draw_frame config total_value height sb child child_x child_y width depth >>= λ sb.
        draw_children config total_value height sb rest (fadd child_x width) child_y depth

  -- The beginning of the picture, up to its frames.
  abbrev pub header_of : SvgConfig → ℤ → Bytes
  header_of config height = concat (
      text "<svg xmlns=\"http://www.w3.org/2000/svg\" width=\""
      ∷ show_int config.width
      ∷ text "\" height=\""
      ∷ show_int height
      ∷ text "\" font-family=\"Verdana, sans-serif\" font-size=\""
      ∷ show_int config.font_size
      ∷ text "\">"
      ∷ text "<title>"
      ∷ escape_string config.title
      ∷ text "</title>"
      ∷ text
          "<defs>\n    <linearGradient id=\"titleGradient\" x1=\"0%\" y1=\"0%\" x2=\"0%\" y2=\"100%\">\n"
      ∷ text "      <stop offset=\"0%\" style=\"stop-color:#f5f5f5;stop-opacity:1\" />\n"
      ∷ text "      <stop offset=\"100%\" style=\"stop-color:#e0e0e0;stop-opacity:1\" />\n"
      ∷ text "    </linearGradient>\n  </defs>"
      ∷ text "<rect width=\""
      ∷ show_int config.width
      ∷ text "\" height=\"25\" fill=\"url(#titleGradient)\"/>"
      ∷ text "<text x=\""
      ∷ show_int (half_int config.width)
      ∷ text "\" y=\"17\" text-anchor=\"middle\" font-weight=\"bold\" fill=\"#333\">"
      ∷ escape_string config.title
      ∷ text "</text>"
      ∷ [])

  abbrev pub footer_of : SvgConfig → ℤ → ℕ → F → Bytes
  footer_of config height max_depth duration = concat (
      text "<text x=\"5\" y=\""
      ∷ show_int (sub_int height (pos 10))
      ∷ text "\" font-size=\""
      ∷ show_int (sub_int config.font_size (pos 1))
      ∷ text "\" fill=\"#666\">Total: "
      ∷ show2 duration
      ∷ text "ms</text>"
      ∷ text "<text x=\""
      ∷ show_int (sub_int config.width (pos 5))
      ∷ text "\" y=\""
      ∷ show_int (sub_int height (pos 10))
      ∷ text "\" text-anchor=\"end\" font-size=\""
      ∷ show_int (sub_int config.font_size (pos 1))
      ∷ text "\" fill=\"#666\">Depth: "
      ∷ show_int (pos max_depth)
      ∷ text "</text>"
      ∷ text "</svg>"
      ∷ [])

  -- The value by which widths are divided, which is not 0.
  abbrev pub total_of : FlameFrame F → F
  total_of frame =
      let value = of_int frame.value in
      if fle value (lit 0 0) && fle (lit 0 0) value then lit 1 0 else value

  -- `20 + maxDepth*config.HeightPerFrame + 40`
  abbrev pub height_of : SvgConfig → ℕ → ℤ
  height_of config max_depth =
      add_int (add_int (pos 20) (mul_int (pos max_depth) config.height_per_frame)) (pos 40)

  -- `ToSVG`, which never returns an error; a nil configuration is `none`.
  unfoldable pub to_svg : Option SvgConfig → FlameGraph F → Result Bytes
  to_svg given fg =
      let config = config_of given in
      let max_depth = calculate_max_depth fg.root 1 in
      let height = height_of config max_depth in
      draw_frame config (total_of (label fg.root)) (of_int config.height_per_frame)
        (header_of config height) fg.root (lit 0 0) (lit 25 0) (of_int config.width) 0
      >>= λ sb. ok (sb ++ footer_of config height max_depth (label fg.root).duration)
