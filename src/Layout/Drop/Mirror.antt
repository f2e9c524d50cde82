-- ===== src/Layout/Drop/Mirror.antt =====
-- The drop zones of a box are mirror images of each other.
use starterm.Base.{
  ℕ, ◌+◌, ◌*◌, Option, none, some, Bool, true, false, if◌then◌else◌, ltb, ◌≡◌, refl, sym, ap, ◌∙◌,
  arith,
}
use native.Mathlib.Nat.{add-mul, mul_comm}
use starterm.Layout.Tree.Compute.{DropDirection, right, left, outer_right, outer_left, center}
use starterm.Layout.Drop.{
  direction_at, side, outer_of, is_central, is_outer, is_on_diagonal, is_outside,
}

abbrev pub mirrored : DropDirection → DropDirection
mirrored left = right
mirrored right = left
mirrored outer_left = outer_right
mirrored outer_right = outer_left
mirrored d = d

abbrev pub mirrored_if_any : Option DropDirection → Option DropDirection
mirrored_if_any none = none
mirrored_if_any (some d) = some (mirrored d)

products : (w h x x' : ℕ) → x + x' ≡ w → x * h + x' * h ≡ h * w
products w h x x' e = sym (add-mul x x' h) ∙ ap (λ n. n * h) e ∙ mul_comm w h

-- The tests of the code, for a point and its mirror image; the products are numbers here.
outer_mirrored : (w h x x' y : ℕ) → x + x' ≡ w → is_outer w h x' y ≡ is_outer w h x y
outer_mirrored w h x x' y e = ground arith

central_mirrored : (w h x x' y : ℕ) → x + x' ≡ w → is_central w h x' y ≡ is_central w h x y
central_mirrored w h x x' y e = ground arith

outside_mirrored : (w h x x' y : ℕ) → x + x' ≡ w → is_outside w h x' y ≡ is_outside w h x y
outside_mirrored w h x x' y e = ground arith

diagonal_mirrored : (w h x x' y : ℕ) → x + x' ≡ w → is_on_diagonal w h x' y ≡ is_on_diagonal w h x y
diagonal_mirrored w h x x' y e = ground (arith, products w h x x' e)

-- The two diagonals change places.
first_diagonal : (w h x x' y : ℕ) → x + x' ≡ w → ltb (h * w) (y * w + x' * h) ≡ ltb (x * h) (y * w)
first_diagonal w h x x' y e = ground (arith, products w h x x' e)

second_diagonal : (w h x x' y : ℕ) → x + x' ≡ w → ltb (x' * h) (y * w) ≡ ltb (h * w) (y * w + x * h)
second_diagonal w h x x' y e = ground (arith, products w h x x' e)

mirrored-side : (a b : Bool) → side a b ≡ mirrored (side b a)
mirrored-side true true = refl
mirrored-side true false = refl
mirrored-side false true = refl
mirrored-side false false = refl

choice_mirrored :
    (outside central diagonal outer : Bool) (a b : Bool)
    → (if outside
        then none
        else if central
        then some center
        else if diagonal
        then none
        else if outer
        then some (outer_of (side a b))
        else some (side a b))
      ≡ mirrored_if_any (
          if outside
          then none
          else if central
          then some center
          else if diagonal
          then none
          else if outer
          then some (outer_of (side b a))
          else some (side b a))
choice_mirrored true central diagonal outer a b = refl
choice_mirrored false true diagonal outer a b = refl
choice_mirrored false false true outer a b = refl
choice_mirrored false false false true true true = refl
choice_mirrored false false false true true false = refl
choice_mirrored false false false true false true = refl
choice_mirrored false false false true false false = refl
choice_mirrored false false false false a b = ap some (mirrored-side a b)

-- A point as far from the left edge of a box as another is from the right one, at the same height,
-- has the mirrored direction: left for right and right for left, also at the edges, and else the
-- same one; and one has a direction exactly if the other has.
pub direction_at_mirrored :
    (w h x x' y : ℕ) → x + x' ≡ w → direction_at w h x' y ≡ mirrored_if_any (direction_at w h x y)
unfolding direction_at
direction_at_mirrored w h x x' y e =
    rw
      (
        outside_mirrored w h x x' y e,
        central_mirrored w h x x' y e,
        diagonal_mirrored w h x x' y e,
        outer_mirrored w h x x' y e,
        first_diagonal w h x x' y e,
        second_diagonal w h x x' y e,
      )
      (choice_mirrored (is_outside w h x y) (is_central w h x y) (is_on_diagonal w h x y)
        (is_outer w h x y) (ltb (x * h) (y * w)) (ltb (h * w) (y * w + x * h)))
