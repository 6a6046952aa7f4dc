-- ===== src/Flame/Color.antt =====
-- pkg/flamegraph/flamegraph.go: the configuration of the picture, and `getColor`.
use a.Prelude.{ℕ, zero, suc, ◌/◌, ◌%◌, [], ◌∷◌, if◌then◌else◌}
use a.Golang.Float.{Float}
use a.Golang.Hash.{fnv32a}
use a.Golang.Int.{ℤ, pos, negsuc, add_int, sub_int, mul_int, lt_int}
use a.Golang.Result.{Result, ok, panic, ◌>>=◌}
use a.Golang.Slice.{Bytes}
use a.Golang.Text.{text, show_int, concat}
use a.Flame.Frame.{FlameFrame}

pub record ColorPalette : Type 0 where
  pub base_hue : ℤ
  pub hue_range : ℤ
  pub min_saturation : ℤ
  pub max_saturation : ℤ
  pub min_lightness : ℤ
  pub max_lightness : ℤ

pub record SvgConfig : Type 0 where
  pub width : ℤ
  pub height_per_frame : ℤ
  pub font_size : ℤ
  pub title : Bytes
  pub colors : ColorPalette

abbrev pub default_color_palette : ColorPalette
default_color_palette = record {
  base_hue = pos 200;
  hue_range = pos 60;
  min_saturation = pos 70;
  max_saturation = pos 90;
  min_lightness = pos 40;
  max_lightness = pos 70;
}

abbrev pub default_svg_config : SvgConfig
default_svg_config = record {
  width = pos 1200;
  height_per_frame = pos 18;
  font_size = pos 12;
  title = text "Trace Flame Graph";
  colors = default_color_palette;
}

-- `a % b` for an `a` that is not negative: the sign is that of a, and 0 is a division by zero.
abbrev pub rem_int : ℕ → ℤ → Result ℤ
rem_int a (pos zero) = panic
rem_int a (pos (suc n)) = ok (pos (a % suc n))
rem_int a (negsuc n) = ok (pos (a % suc n))

module _ (fl : Float) where
  open fl use {F, flt, lit}

  -- The lightness of a depth.
  abbrev pub lightness_of : ColorPalette → ℕ → ℤ
  lightness_of colors depth =
      let lightness = sub_int colors.max_lightness (mul_int (pos depth) (pos 3)) in
      if lt_int lightness colors.min_lightness then colors.min_lightness else lightness

  -- The hue and the saturation, which a long duration sets.
  abbrev pub hue_of : F → ℤ → ℤ
  hue_of duration hue =
      if flt (lit 500 0) duration then pos 0 else if flt (lit 200 0) duration then pos 30 else hue

  abbrev pub saturation_of : F → ℤ → ℤ
  saturation_of duration saturation =
      if flt (lit 500 0) duration
      then pos 90
      else if flt (lit 200 0) duration
      then pos 80
      else saturation

  abbrev pub show_color : ℤ → ℤ → ℤ → Bytes
  show_color hue saturation lightness = concat (
      text "hsl("
      ∷ show_int hue
      ∷ text ", "
      ∷ show_int saturation
      ∷ text "%, "
      ∷ show_int lightness
      ∷ text "%)"
      ∷ [])

  unfoldable pub get_color : SvgConfig → FlameFrame F → ℕ → Result Bytes
  get_color config frame depth =
      let hash = fnv32a frame.name in
      let colors : ColorPalette = config.colors in
      let saturation_range = sub_int colors.max_saturation colors.min_saturation in
      rem_int hash colors.hue_range >>= λ hue_part.
      rem_int (hash / 256) saturation_range >>= λ saturation_part. ok (
        show_color (hue_of frame.duration (add_int colors.base_hue hue_part))
          (saturation_of frame.duration (add_int colors.min_saturation saturation_part))
          (lightness_of colors depth))
