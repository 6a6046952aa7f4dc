-- ===== src/Flame/Drawn.antt =====
-- pkg/flamegraph/flamegraph.go: when `ToSVG` does not panic.
use a.Prelude.{
  ℕ, zero, suc, ◌+◌, ◌^◌, ◌<◌, ◌≡◌, ◌≢◌, refl, arith, true, Option, [], ◌++◌, ltb, leb, length, All,
  append-All, Bool-cases, inl, inr,
}
use a.Golang.Float.{Float}
use a.Golang.Int.{ℤ, pos, negsuc, sub_int}
use a.Golang.Result.{Result, ok, ◌>>=◌}
use a.Golang.Slice.{Bytes}
use a.Model.Tree.{Tree, Forest, node, nil, cons, label, labels, labels_all}
use a.Flame.Frame.{FlameFrame, FlameGraph}
use a.Flame.Color.{SvgConfig, rem_int, get_color}
use a.Flame.Svg.{
  config_of, max_chars, shown_name, draw_name, draw_box, child_width, draw_frame, draw_children,
  to_svg, total_of,
}

-- A call that returns a value.
abbrev pub Returns {ℓ} : {A : Type ℓ} → Result A → Type ℓ
Returns {A} r = (x : A) × (r ≡ ok x)

bind-Returns {ℓ κ} :
    {A : Type ℓ} {B : Type κ} (r : Result A) (next : A → Result B)
    → Returns r
    → ((x : A) → Returns (next x))
    → Returns (r >>= next)
bind-Returns r next (x, e) h = let (y, e') = h x in (y, rw e e')

rem_int-Returns : (n : ℕ) (d : ℤ) → d ≢ pos 0 → Returns (rem_int n d)
rem_int-Returns n (pos zero) h = absurd (h refl)
rem_int-Returns n (pos (suc d)) h = (_, refl)
rem_int-Returns n (negsuc d) h = (_, refl)

-- Three bytes less, of a number that has room for them.
less_three : (n : ℕ) → 3 + n < 2 ^ 63 → sub_int (pos (3 + n)) (pos 3) ≡ pos n
less_three n h = ground arith

module _ (fl : Float) where
  open fl use {F, flt, lit, of_int}

  shown_name-Returns :
      (n : ℕ) (name : Bytes) → 3 + n < 2 ^ 63 → Returns (shown_name fl (pos (3 + n)) name)
  shown_name-Returns n name h = elim (Bool-cases (ltb (3 + n) (length name))) [
    | inl long ↦
        let within : leb n (length name) ≡ true = ground (arith, long) in
        rw (long, less_three n h, within) (_, refl)
    | inr short ↦ rw short (name, refl)
  ]

  -- A width that is at most 80, or has room for at least three bytes of the name. A font of at most
  -- 48 leaves it to every width above 80 whose number of bytes is an int.
  abbrev pub HasRoom : SvgConfig → F → Type 0
  HasRoom config width =
      flt (lit 80 0) width ≡ true
      → (n : ℕ) × (3 + n < 2 ^ 63) × (max_chars fl config width ≡ pos (3 + n))

  -- A configuration whose divisors are not 0, and with room in the widths that it gives to the frames
  -- of a graph.
  pub record IsDrawable (config : SvgConfig) (fg : FlameGraph F) : Type 0 where
    pub hue : config.colors.hue_range ≢ pos 0
    pub saturation : sub_int config.colors.max_saturation config.colors.min_saturation ≢ pos 0
    pub root_room : HasRoom config (of_int config.width)
    pub room :
        All
          (λ frame. HasRoom config (child_width fl config (total_of fl (label fg.root)) frame))
          (labels fg.root)

  draw_name-Returns :
      (config : SvgConfig) (frame : FlameFrame F) (x y width height : F)
      → HasRoom config width
      → Returns (draw_name fl config frame x y width height)
  unfolding draw_name
  draw_name-Returns config frame x y width height room = elim (Bool-cases (flt (lit 80 0) width)) [
    | inl wide ↦
        let (n, small, e) = room wide in
        rw (wide, e, draw_name)
          (bind-Returns _ _ (shown_name-Returns n frame.name small) (λ shown. (_, refl)))
    | inr narrow ↦ rw (narrow, draw_name) ([], refl)
  ]

  module _ (config : SvgConfig) (fg : FlameGraph F) (drawable : IsDrawable config fg) where
    draw_box-Returns :
        (frame : FlameFrame F) (x y width height : F) (depth : ℕ)
        → HasRoom config width
        → Returns (draw_box fl config frame x y width height depth)
    unfolding draw_box get_color
    draw_box-Returns frame x y width height depth room =
        bind-Returns _ _
          (bind-Returns _ _ (rem_int-Returns _ _ drawable.hue) (λ hue.
            bind-Returns _ _ (rem_int-Returns _ _ drawable.saturation) (λ saturation. (_, refl))))
          (λ color.
            bind-Returns _ _ (draw_name-Returns config frame x y width height room)
              (λ name. (_, refl)))

    abbrev ChildHasRoom : F → FlameFrame F → Type 0
    ChildHasRoom total frame = HasRoom config (child_width fl config total frame)

    mutual
      unfolding draw_frame labels

      draw_frame-Returns :
          (total height : F) (sb : Bytes) (t : Tree (FlameFrame F)) (x y width : F) (depth : ℕ)
          → HasRoom config width
          → All (ChildHasRoom total) (labels t)
          → Returns (draw_frame fl config total height sb t x y width depth)
      draw_frame-Returns total height sb (node frame ts) x y width depth room below =
          elim (Bool-cases (flt width (lit 5 1))) [
            | inl thin ↦ rw (thin, draw_frame) (sb, refl)
            | inr wide ↦
                rw (wide, draw_frame)
                  (bind-Returns _ _ (draw_box-Returns frame x y width height depth room) (λ box.
                    draw_children-Returns total height (sb ++ box) ts x _ (suc depth) below.1))
          ]

      draw_children-Returns :
          (total height : F) (sb : Bytes) (ts : Forest (FlameFrame F)) (x y : F) (depth : ℕ)
          → All (ChildHasRoom total) (labels_all ts)
          → Returns (draw_children fl config total height sb ts x y depth)
      draw_children-Returns total height sb nil x y depth h = (sb, refl)
      draw_children-Returns total height sb (cons (node frame us) ts) x y depth h =
          let (here, rest) =
            append-All (ChildHasRoom total) (labels (node frame us)) (labels_all ts) h in
          bind-Returns _ _
            (draw_frame-Returns total height sb (node frame us) x y
              (child_width fl config total frame) depth here.0 here)
            (λ sb. draw_children-Returns total height sb ts _ y depth rest)

  -- `ToSVG` returns a picture, and does not panic, if the configuration it works with has a range of
  -- hues and of saturations that are not 0, and leaves to every frame of the graph that it draws wider
  -- than 80 room for at least three bytes of its name.
  pub to_svg-Returns :
      (given : Option SvgConfig) (fg : FlameGraph F)
      → IsDrawable (config_of given) fg
      → Returns (to_svg fl given fg)
  unfolding to_svg
  to_svg-Returns given fg drawable =
      bind-Returns _ _
        (draw_frame-Returns (config_of given) fg drawable _ _ _ fg.root _ _ _ 0 drawable.root_room
          drawable.room)
        (λ sb. (_, refl))
