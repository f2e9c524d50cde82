-- ===== src/Layout/Node/Shape/Kept.antt =====
-- Reading, writing and adding nodes keeps trees well-formed.
use starterm.Base.{
  suc, String, none, some, ◌===◌, ◌≡◌, refl, ap, ◌∙◌, arith, Bool-cases, Option-cases, inl, inr,
  is_defined, some_inj, none_ne_some, ◌<◌,
}
use mathlib.Core.Path.{subst}
use starterm.Layout.Types.Nodes.{Info, LayoutNode, leaf, branch, Nodes, nil, cons, count_nodes}
use starterm.Layout.Node.{find_node, find_nodes, write_node, write_nodes}
use starterm.Layout.Node.Shape.{IsWellFormed, AreWellFormed}

-- A branch is well-formed if it has no data, and some children that are all well-formed.
pub branch-WellFormed :
    (i : Info) (cs : Nodes)
    → AreWellFormed cs
    → 0 < count_nodes cs
    → IsWellFormed (branch i none cs)
branch-WellFormed i nil h k = elim k [ ]
branch-WellFormed i (cons c cs) h k = h

pub children-WellFormed :
    (i : Info) (cs : Nodes)
    → IsWellFormed (branch i none cs)
    → AreWellFormed cs × (0 < count_nodes cs)
children-WellFormed i nil h = absurd h
children-WellFormed i (cons c cs) h = (h, omega arith)

mutual
  unfolding find_node

  find_node-WellFormed' :
      (t : LayoutNode) (s : String) (n : LayoutNode)
      → IsWellFormed t
      → find_node t s ≡ some n
      → IsWellFormed n
  find_node-WellFormed' (leaf i d) s n w h = elim (Bool-cases (i.id === s)) [
    | inl e ↦ subst IsWellFormed (some_inj (rw e at h)) w
    | inr e ↦ absurd (none_ne_some (rw e at h))
  ]
  find_node-WellFormed' (branch i (some d) cs) s n w h = absurd w
  find_node-WellFormed' (branch i none cs) s n w h = elim (Bool-cases (i.id === s)) [
    | inl e ↦ subst IsWellFormed (some_inj (rw e at h)) w
    | inr e ↦ find_nodes-WellFormed cs s n (children-WellFormed i cs w).0 (rw e at h)
  ]

  find_nodes-WellFormed :
      (ts : Nodes) (s : String) (n : LayoutNode)
      → AreWellFormed ts
      → find_nodes ts s ≡ some n
      → IsWellFormed n
  find_nodes-WellFormed nil s n w h = absurd (none_ne_some h)
  find_nodes-WellFormed (cons c cs) s n w h = elim (Option-cases (find_node c s)) [
    | inl e ↦ find_nodes-WellFormed cs s n w.1 (rw e at h)
    | inr (k, e) ↦ find_node-WellFormed' c s n w.0 (e ∙ (rw e at h))
  ]

pub find_node-WellFormed :
    (t : LayoutNode) (s : String) (n : LayoutNode)
    → IsWellFormed t
    → find_node t s ≡ some n
    → IsWellFormed n
find_node-WellFormed = find_node-WellFormed'

mutual
  unfolding write_node

  write_node-WellFormed' :
      (t : LayoutNode) (s : String) (n : LayoutNode)
      → IsWellFormed t
      → IsWellFormed n
      → IsWellFormed (write_node t s n)
  write_node-WellFormed' (leaf i d) s n w v = elim (Bool-cases (i.id === s)) [
    | inl e ↦ rw e v
    | inr e ↦ rw e w
  ]
  write_node-WellFormed' (branch i (some d) cs) s n w v = absurd w
  write_node-WellFormed' (branch i none cs) s n w v = elim (Bool-cases (i.id === s)) [
    | inl e ↦ rw e v
    | inr e ↦
        let (ws, k) = children-WellFormed i cs w in
        let (ws', eq) = write_nodes-WellFormed cs s n ws v in
        rw e (branch-WellFormed i (write_nodes cs s n) ws' (omega (arith, eq)))
  ]

  write_nodes-WellFormed :
      (ts : Nodes) (s : String) (n : LayoutNode)
      → AreWellFormed ts
      → IsWellFormed n
      → AreWellFormed (write_nodes ts s n) × (count_nodes (write_nodes ts s n) ≡ count_nodes ts)
  write_nodes-WellFormed nil s n w v = (tt, refl)
  write_nodes-WellFormed (cons c cs) s n w v = elim (Bool-cases (is_defined (find_node c s))) [
    | inl e ↦ rw e ((write_node-WellFormed' c s n w.0 v, w.1), refl)
    | inr e ↦ let (ws, eq) = write_nodes-WellFormed cs s n w.1 v in rw e ((w.0, ws), ap suc eq)
  ]

pub write_node-WellFormed :
    (t : LayoutNode) (s : String) (n : LayoutNode)
    → IsWellFormed t
    → IsWellFormed n
    → IsWellFormed (write_node t s n)
write_node-WellFormed = write_node-WellFormed'
