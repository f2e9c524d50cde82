-- ===== src/Layout/Drop.antt =====
-- determineDropDirection of frontend/layout/lib/utils.ts, on whole pixels: both sides of a test
-- against a fifth of the width or the height are multiplied by five.
pub mod Mirror
use starterm.Base.{
  ℕ, ◌+◌, ◌*◌, Option, none, some, Bool, true, false, ◌&&◌, ◌||◌, if◌then◌else◌, ltb, nat_eq,
}
use starterm.Base.Int.{ℤ, pos, negsuc, ◌-ℤ◌}
use starterm.Layout.Tree.Compute.{
  DropDirection, top, right, bottom, left, outer_top, outer_right, outer_bottom, outer_left, center,
}

pub record Dimensions : Type 0 where
  pub from_top : ℤ
  pub from_left : ℤ
  pub width : ℕ
  pub height : ℕ

pub record XyCoord : Type 0 where
  pub x : ℤ
  pub y : ℤ

-- The code 0 to 3, by the signs of the two diagonals.
abbrev pub side : Bool → Bool → DropDirection
side false false = top
side true false = right
side true true = bottom
side false true = left

-- code += 4
abbrev pub outer_of : DropDirection → DropDirection
outer_of top = outer_top
outer_of right = outer_right
outer_of bottom = outer_bottom
outer_of left = outer_left
outer_of d = d

abbrev pub is_central : ℕ → ℕ → ℕ → ℕ → Bool
is_central w h x y =
    ltb (2 * w) (5 * x) && ltb (5 * x) (3 * w) && ltb (2 * h) (5 * y) && ltb (5 * y) (3 * h)

abbrev pub is_outer : ℕ → ℕ → ℕ → ℕ → Bool
is_outer w h x y = ltb (5 * y) h || ltb (4 * h) (5 * y) || ltb (5 * x) w || ltb (4 * w) (5 * x)

abbrev pub is_on_diagonal : ℕ → ℕ → ℕ → ℕ → Bool
is_on_diagonal w h x y = nat_eq (y * w) (x * h) || nat_eq (y * w + x * h) (h * w)

abbrev pub is_outside : ℕ → ℕ → ℕ → ℕ → Bool
is_outside w h x y = ltb h y || ltb w x

-- The point within the box, from its corner.
unfoldable pub direction_at : ℕ → ℕ → ℕ → ℕ → Option DropDirection
direction_at w h x y =
    if is_outside w h x y
    then none
    else if is_central w h x y
    then some center
    else if is_on_diagonal w h x y
    then none
    else if is_outer w h x y
    then some (outer_of (side (ltb (h * w) (y * w + x * h)) (ltb (x * h) (y * w))))
    else some (side (ltb (h * w) (y * w + x * h)) (ltb (x * h) (y * w)))

abbrev pub from_corner : ℕ → ℕ → ℤ → ℤ → Option DropDirection
from_corner w h (pos x) (pos y) = direction_at w h x y
from_corner w h _ _ = none

unfoldable pub determine_drop_direction : Option Dimensions → Option XyCoord → Option DropDirection
unfolding direction_at
determine_drop_direction (some d) (some p) =
    from_corner d.width d.height (p.x -ℤ d.from_left) (p.y -ℤ d.from_top)
determine_drop_direction _ _ = none
