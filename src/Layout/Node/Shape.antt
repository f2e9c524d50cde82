-- ===== src/Layout/Node/Shape.antt =====
-- Predicates on the shape of a layout tree.
pub mod Kept
pub mod Added
use starterm.Base.{ℕ, Option, none, some, ◌≡◌, true}
use starterm.Layout.Types.Nodes.{
  FlexDirection, reverse_flex_direction, TabLayoutData, Info, LayoutNode, leaf, branch, Nodes, nil,
  cons, flex_of,
}

-- Every node has data or else a non-empty array of children.
abbrev mutual
  pub IsWellFormed : LayoutNode → Type 0
  IsWellFormed (leaf i none) = ⊥
  IsWellFormed (leaf i (some d)) = Unit {0}
  IsWellFormed (branch i (some d) cs) = ⊥
  IsWellFormed (branch i none nil) = ⊥
  IsWellFormed (branch i none (cons c cs)) = IsWellFormed c × AreWellFormed cs

  pub AreWellFormed : Nodes → Type 0
  AreWellFormed nil = Unit {0}
  AreWellFormed (cons c cs) = IsWellFormed c × AreWellFormed cs

-- Moreover no node has a leaf for its only child.
abbrev mutual
  pub IsNormal : LayoutNode → Type 0
  IsNormal (leaf i none) = ⊥
  IsNormal (leaf i (some d)) = Unit {0}
  IsNormal (branch i (some d) cs) = ⊥
  IsNormal (branch i none nil) = ⊥
  IsNormal (branch i none (cons (leaf j e) nil)) = ⊥
  IsNormal (branch i none (cons (branch j e bs) nil)) = IsNormal (branch j e bs)
  IsNormal (branch i none (cons b (cons c cs))) = IsNormal b × IsNormal c × AreNormal cs

  pub AreNormal : Nodes → Type 0
  AreNormal nil = Unit {0}
  AreNormal (cons c cs) = IsNormal c × AreNormal cs

-- The direction changes at every level.
abbrev mutual
  pub IsAlternating : LayoutNode → Type 0
  IsAlternating (leaf i d) = Unit {0}
  IsAlternating (branch i d cs) = AreAlternating (reverse_flex_direction i.flex_direction) cs

  pub AreAlternating : FlexDirection → Nodes → Type 0
  AreAlternating f nil = Unit {0}
  AreAlternating f (cons c cs) = (flex_of c ≡ f) × IsAlternating c × AreAlternating f cs
