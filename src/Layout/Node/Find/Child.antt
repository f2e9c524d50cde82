-- ===== src/Layout/Node/Find/Child.antt =====
-- A node below the root, its parent and its place there.
use starterm.Base.{
  String, some, true, false, ◌===◌, eq_iff, ◌≡◌, sym, ◌∙◌, arith, Bool-cases, Option-cases, inl,
  inr, some_inj, none_ne_some,
}
use mathlib.Core.Path.{subst}
use starterm.Layout.Types.Nodes.{LayoutNode, leaf, branch, Nodes, nil, cons, id_of}
use starterm.Layout.Node.{find_node, find_nodes, find_parent}
use starterm.Layout.Node.Find.{
  ids, ids_of, unique, unique-append, elem-ids, elem-ids_of, HasUniqueIds,
}
use starterm.Layout.Node.Find.Parent.{
  IsParentOf, find_parent-IsParentOf, find_parent-elem, find_node-find_parent, find_node_trans,
  child-found,
}

mutual
  unfolding find_node ids unique

  find_node-unique :
      (t : LayoutNode) (q : String) (p : LayoutNode)
      → unique (ids t) ≡ true
      → find_node t q ≡ some p
      → unique (ids p) ≡ true
  find_node-unique (leaf i d) q p u h = elim (Bool-cases (i.id === q)) [
    | inl e ↦ subst (λ n. unique (ids n) ≡ true) (some_inj (rw e at h)) u
    | inr e ↦ absurd (none_ne_some (rw e at h))
  ]
  find_node-unique (branch i d cs) q p u h = elim (Bool-cases (i.id === q)) [
    | inl e ↦ subst (λ n. unique (ids n) ≡ true) (some_inj (rw e at h)) u
    | inr e ↦ find_nodes-unique cs q p (ground arith) (rw e at h)
  ]

  find_nodes-unique :
      (ts : Nodes) (q : String) (p : LayoutNode)
      → unique (ids_of ts) ≡ true
      → find_nodes ts q ≡ some p
      → unique (ids p) ≡ true
  find_nodes-unique nil q p u h = absurd (none_ne_some h)
  find_nodes-unique (cons b ts) q p u h =
      let (ub, us, apart) = unique-append (ids b) (ids_of ts) u in
      elim (Option-cases (find_node b q)) [
        | inl e ↦ find_nodes-unique ts q p us (rw e at h)
        | inr (n, e) ↦ find_node-unique b q p ub (e ∙ (rw e at h))
      ]

-- A child of a node is found in the node.
child_in_parent :
    (p : LayoutNode) (s : String) (q : IsParentOf p s)
    → unique (ids p) ≡ true
    → find_node p s ≡ some q.child
unfolding find_node ids unique
child_in_parent p s q u =
    let u' = subst (λ n. unique (ids n) ≡ true) q.shape u in
    let below = child-found q.children s q.index q.child (ground arith) q.is_child q.has_id in
    rw q.shape (ground (arith, elem-ids_of q.children s, eq_iff q.node_info.id s))

-- A node below the root of a tree with unique ids, and its parent.
pub record Below (root : LayoutNode) (s : String) (c : LayoutNode) : Type 0 where
  pub parent : LayoutNode
  pub parent_eq : find_parent root s ≡ some parent
  pub spot : IsParentOf parent s
  pub child_eq : spot.child ≡ c
  pub found : find_node root (id_of parent) ≡ some parent

parent_some :
    (root : LayoutNode) (s : String) (c : LayoutNode)
    → find_node root s ≡ some c
    → (id_of root === s) ≡ false
    → (p : LayoutNode) × (find_parent root s ≡ some p)
parent_some root s c h e = elim (Option-cases (find_parent root s)) [
  | inl none' ↦ absurd (ground (arith, find_parent-elem root s, elem-ids root s))
  | inr found ↦ found
]

pub node-Below :
    (root : LayoutNode) (s : String) (c : LayoutNode)
    → HasUniqueIds root
    → find_node root s ≡ some c
    → (id_of root === s) ≡ false
    → Below root s c
node-Below root s c u h e =
    let (p, eq) = parent_some root s c h e in
    let q = find_parent-IsParentOf root s p eq in
    let found = find_node-find_parent root s p u eq in
    let inside = child_in_parent p s q (find_node-unique root (id_of p) p u found) in
    record {
      parent = p;
      parent_eq = eq;
      spot = q;
      child_eq = some_inj (sym (find_node_trans root (id_of p) s p q.child u found inside) ∙ h);
      found = found;
    }
