-- ===== src/Layout/Node/Shape/Added.antt =====
-- addChildAt keeps trees well-formed.
use starterm.Base.{
  ℕ, zero, suc, String, none, some, ◌≡◌, refl, arith, Bool-cases, inl, inr, leb, ◌+◌, ◌<◌, ◌≤◌,
}
use starterm.Base.{ok}
use starterm.Base.Int.{ℤ, pos, negsuc}
use starterm.Layout.Types.Nodes.{
  FlexDirection, flex_eq, Info, LayoutNode, leaf, branch, Nodes, nil, cons, ◌+++◌, insert_at,
  count_nodes,
}
use starterm.Layout.Node.{add_child_at, add_children, place, to_add, children_to_add}
use starterm.Layout.Node.Shape.{IsWellFormed, AreWellFormed}
use starterm.Layout.Node.Shape.Kept.{branch-WellFormed, children-WellFormed}

AreWellFormed-+++ :
    (cs ds : Nodes) → AreWellFormed cs → AreWellFormed ds → AreWellFormed (cs +++ ds)
AreWellFormed-+++ nil ds h k = k
AreWellFormed-+++ (cons c cs) ds (p, h) k = (p, AreWellFormed-+++ cs ds h k)

AreWellFormed-insert_at :
    (i : ℕ) (ds cs : Nodes)
    → AreWellFormed ds
    → AreWellFormed cs
    → AreWellFormed (insert_at i ds cs)
AreWellFormed-insert_at zero ds cs h k = AreWellFormed-+++ ds cs h k
AreWellFormed-insert_at (suc i) ds nil h k = h
AreWellFormed-insert_at (suc i) ds (cons c cs) h k = (k.0, AreWellFormed-insert_at i ds cs h k.1)

count_nodes-+++ : (cs ds : Nodes) → count_nodes (cs +++ ds) ≡ count_nodes cs + count_nodes ds
count_nodes-+++ nil ds = omega arith
count_nodes-+++ (cons c cs) ds = omega (arith, count_nodes-+++ cs ds)

count_nodes-insert_at :
    (i : ℕ) (ds cs : Nodes) → count_nodes (insert_at i ds cs) ≡ count_nodes ds + count_nodes cs
count_nodes-insert_at zero ds cs = count_nodes-+++ ds cs
count_nodes-insert_at (suc i) ds nil = omega arith
count_nodes-insert_at (suc i) ds (cons c cs) = omega (arith, count_nodes-insert_at i ds cs)

AreWellFormed-place :
    (k : ℤ) (ds cs : Nodes) → AreWellFormed ds → AreWellFormed cs → AreWellFormed (place k ds cs)
unfolding place
AreWellFormed-place (negsuc k) ds cs h w = w
AreWellFormed-place (pos i) ds cs h w = elim (Bool-cases (leb (count_nodes cs) i)) [
  | inl e ↦ rw e (AreWellFormed-+++ cs ds w h)
  | inr e ↦ rw e (AreWellFormed-insert_at i ds cs h w)
]

count_nodes-place : (k : ℤ) (ds cs : Nodes) → count_nodes cs ≤ count_nodes (place k ds cs)
unfolding place
count_nodes-place (negsuc k) ds cs = omega arith
count_nodes-place (pos i) ds cs = elim (Bool-cases (leb (count_nodes cs) i)) [
  | inl e ↦ rw e (omega (arith, count_nodes-+++ cs ds))
  | inr e ↦ rw e (omega (arith, count_nodes-insert_at i ds cs))
]

to_add-WellFormed :
    (f : FlexDirection) (n : LayoutNode) → IsWellFormed n → AreWellFormed (to_add f n)
to_add-WellFormed f (leaf i none) h = absurd h
to_add-WellFormed f (leaf i (some d)) h = elim (Bool-cases (flex_eq i.flex_direction f)) [
  | inl e ↦ rw e (tt, tt)
  | inr e ↦ rw e (tt, tt)
]
to_add-WellFormed f (branch i (some d) cs) h = absurd h
to_add-WellFormed f (branch i none cs) h = elim (Bool-cases (flex_eq i.flex_direction f)) [
  | inl e ↦ rw e (children-WellFormed i cs h).0
  | inr e ↦ rw e (h, tt)
]

add_children-WellFormed :
    (k : ℤ) (i : Info) (cs : Nodes) (c : LayoutNode)
    → AreWellFormed cs
    → 0 < count_nodes cs
    → IsWellFormed c
    → (n : LayoutNode) × (add_children k (cons c nil) (branch i none cs) ≡ ok n) × IsWellFormed n
add_children-WellFormed k i cs c w l h =
    let ds = children_to_add i.flex_direction (cons c nil) in
    (
      branch i none (place k ds cs),
      refl,
      branch-WellFormed i (place k ds cs)
          (AreWellFormed-place k ds cs
            (AreWellFormed-+++ (to_add i.flex_direction c) nil
              (to_add-WellFormed i.flex_direction c h) tt)
            w)
          (omega (arith, count_nodes-place k ds cs)),
    )

-- Adding a well-formed node to a well-formed node succeeds at every index, and gives a well-formed
-- node.
pub add_child_at-WellFormed :
    (fresh : ℕ → String) (n : LayoutNode) (k : ℤ) (c : LayoutNode)
    → IsWellFormed n
    → IsWellFormed c
    → (n' : LayoutNode) × (add_child_at fresh n k (cons c nil) ≡ ok n') × IsWellFormed n'
unfolding add_child_at
add_child_at-WellFormed fresh (leaf i none) k c w h = absurd w
add_child_at-WellFormed fresh (leaf i (some d)) k c w h =
    add_children-WellFormed k _ (cons _ nil) c (tt, tt) (omega arith) h
add_child_at-WellFormed fresh (branch i (some d) cs) k c w h = absurd w
add_child_at-WellFormed fresh (branch i none cs) k c w h =
    let (ws, l) = children-WellFormed i cs w in add_children-WellFormed k i cs c ws l h
