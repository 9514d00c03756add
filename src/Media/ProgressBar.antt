-- ===== src/Media/ProgressBar.antt =====
-- pkg/imaging/progress_bar.go: what `AddProgressBar` draws on an image. The drawing itself is the image library's.
pub mod Inside
use godlna.Base.{
  ℕ, zero, suc, ◌+◌, ◌-◌, ◌*◌, ◌≤◌, List, [], ◌∷◌, Option, none, some, Bool, true, false, ◌&&◌,
  ◌||◌, not, if◌then◌else◌, ltb, leb, nat_beq, ℤ, pos, negsuc, ltb_ℤ, ◌+ℤ◌, ◌-ℤ◌, quot, scale,
  wrap_int64, ◌≡◌, refl,
}

-- `image.Rectangle`, and `image.Rect`, which puts the corners in order.
pub record Rectangle : Type 0 where
  pub min_x : ℤ
  pub min_y : ℤ
  pub max_x : ℤ
  pub max_y : ℤ

unfoldable pub rect : ℤ → ℤ → ℤ → ℤ → Rectangle
rect x0 y0 x1 y1 = record {
  min_x = if ltb_ℤ x1 x0 then x1 else x0;
  min_y = if ltb_ℤ y1 y0 then y1 else y0;
  max_x = if ltb_ℤ x1 x0 then x0 else x1;
  max_y = if ltb_ℤ y1 y0 then y0 else y1;
}

pub record Color : Type 0 where
  pub red : ℕ
  pub green : ℕ
  pub blue : ℕ
  pub alpha : ℕ

abbrev pub position_top : ℤ
position_top = pos 0

abbrev pub position_right : ℤ
position_right = pos 1

abbrev pub position_bottom : ℤ
position_bottom = pos 2

abbrev pub position_left : ℤ
position_left = pos 3

pub record Config : Type 0 where
  pub size : ℤ
  pub padding_x : ℤ
  pub padding_y : ℤ
  pub position : ℤ
  pub complete_color : Color
  pub incomplete_color : Color
  pub full_color : Color

abbrev pub default_progress_bar_config : Config
default_progress_bar_config = record {
  size = pos 15;
  padding_x = pos 0;
  padding_y = pos 0;
  position = position_bottom;
  complete_color = record { red = 255; green = 85; blue = 0; alpha = 255 };
  incomplete_color = record { red = 106; green = 106; blue = 106; alpha = 180 };
  full_color = record { red = 110; green = 215; blue = 92; alpha = 255 };
}

-- The options, which set one field each.
pub data ProgressBarOption : Type 0 where
  progress_size : ℤ → ProgressBarOption
  progress_padding_x : ℤ → ProgressBarOption
  progress_padding_y : ℤ → ProgressBarOption
  progress_complete_color : Color → ProgressBarOption
  progress_incomplete_color : Color → ProgressBarOption
  progress_full_color : Color → ProgressBarOption
  progress_position : ℤ → ProgressBarOption

unfoldable pub applied : ProgressBarOption → Config → Config
applied (progress_size size) c = record c { size = size }
applied (progress_padding_x padding) c = record c { padding_x = padding }
applied (progress_padding_y padding) c = record c { padding_y = padding }
applied (progress_complete_color cl) c = record c { complete_color = cl }
applied (progress_incomplete_color cl) c = record c { incomplete_color = cl }
applied (progress_full_color cl) c = record c { full_color = cl }
applied (progress_position position) c =
    if not (ltb_ℤ position position_top) && not (ltb_ℤ position_left position)
    then record c { position = position }
    else c

unfoldable pub configured : Config → List ProgressBarOption → Config
configured c [] = c
configured c (option ∷ options) = configured (applied option c) options

-- Arithmetic of 64 bits.
unfoldable pub plus : ℤ → ℤ → ℤ
plus a b = wrap_int64 (a +ℤ b)

unfoldable pub minus : ℤ → ℤ → ℤ
minus a b = wrap_int64 (a -ℤ b)

unfoldable pub times : ℤ → ℕ → ℤ
times a k = wrap_int64 (scale a k)

-- The filled part of a length between two paddings.
unfoldable pub part : ℤ → ℤ → ℕ → ℤ
part whole padding progress = quot (times (minus whole (times padding 2)) progress) 100

-- None where the code panics.
unfoldable pub get_rectangle : ℕ → ℤ → ℤ → ℤ → Config → Option Rectangle
get_rectangle progress w h (pos zero) c = some (
    rect c.padding_x c.padding_y (plus c.padding_x (part w c.padding_x progress))
      (plus c.padding_y c.size))
get_rectangle progress w h (pos (suc zero)) c = some (
    rect (minus (minus w c.padding_x) c.size) (minus h c.padding_y) (minus w c.padding_x)
      (minus (minus h c.padding_y) (part h c.padding_y progress)))
get_rectangle progress w h (pos (suc (suc zero))) c = some (
    rect c.padding_x (minus h c.padding_y) (plus c.padding_x (part w c.padding_x progress))
      (minus (minus h c.padding_y) c.size))
get_rectangle progress w h (pos (suc (suc (suc zero)))) c = some (
    rect c.padding_x (minus h c.padding_y) (plus c.padding_x c.size)
      (minus (minus h c.padding_y) (part h c.padding_y progress)))
get_rectangle progress w h (pos (suc (suc (suc (suc n))))) c = none
get_rectangle progress w h (negsuc n) c = none

-- A rectangle drawn in one colour over the image.
pub record Draw : Type 0 where
  pub rectangle : Rectangle
  pub color : Color

unfoldable pub drawn : Option Rectangle → Color → Option (List Draw) → Option (List Draw)
drawn none cl ds = none
drawn (some r) cl none = none
drawn (some r) cl (some ds) = some (record { rectangle = r; color = cl } ∷ ds)

unfoldable pub draws : ℤ → ℤ → ℕ → Config → Option (List Draw)
unfolding drawn
draws w h progress c =
    if ltb 0 progress
    then if ltb progress 100
      then drawn (get_rectangle 100 w h c.position c) c.incomplete_color
          (drawn (get_rectangle progress w h c.position c) c.complete_color (some []))
      else drawn (get_rectangle 100 w h c.position c) c.full_color (some [])
    else some []

-- On no image nothing is drawn. The width and the height are those of an image that starts at the origin, as scaling
-- makes it.
unfoldable pub add_progress_bar : Option (ℤ × ℤ) → ℕ → List ProgressBarOption → Option (List Draw)
unfolding draws configured
add_progress_bar none progress options = some []
add_progress_bar (some (w, h)) progress options =
    draws w h progress (configured default_progress_bar_config options)
