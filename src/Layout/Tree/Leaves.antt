-- ===== src/Layout/Tree/Leaves.antt =====
-- What the operations on a node below the root do to the leafs of the layout.
use starterm.Base.{
  ◌+◌, String, none, some, Bool, true, false, ◌===◌, List, [], ◌≡◌, refl, arith, Bool-cases, inl,
  inr,
}
use mathlib.Core.Path.{subst}
use starterm.Base.{done}
use starterm.Base.Int.{pos}
use starterm.Layout.Types.Nodes.{LayoutNode, id_of, size_of, with_size}
use starterm.Layout.Node.{find_node, write_node, remove_child}
use starterm.Layout.Node.Find.{HasUniqueIds}
use starterm.Layout.Node.Find.Parent.{IsParentOf}
use starterm.Layout.Node.Find.Child.{Below, node-Below}
use starterm.Layout.Node.Leaves.{
  Entry, leafs, Within, Within-trans, write_node-Within, leafs-with_size,
}
use starterm.Layout.Node.Leaves.Children.{leafs_of-set_at, leafs_of-remove_from}
use starterm.Layout.Tree.{
  LayoutTreeState, is_unset, is_id, delete_in, delete_node, child_with_id, bump, with_root,
  focus_if,
}
use starterm.Layout.Tree.Replace.{set_in, replace_in, replace_node}

remove_child-Within :
    (p : LayoutNode) (s : String) (q : IsParentOf p s)
    → Within (leafs q.child) [] (leafs p) (leafs (remove_child p s (pos 0)))
unfolding remove_child leafs
remove_child-Within p s q =
    rw q.shape (leafs_of-remove_from q.children s q.index q.child q.at_index q.is_child)

pub child_with_id_lem :
    (p : LayoutNode) (s : String) (q : IsParentOf p s) → child_with_id p s ≡ some (q.index, q.child)
unfolding child_with_id
child_with_id_lem p s q = rw (q.shape, child_with_id) (rw q.at_index (rw q.is_child refl))

pub set_in-Within :
    (p : LayoutNode) (s : String) (q : IsParentOf p s) (n : LayoutNode)
    → Within (leafs q.child) (leafs n) (leafs p) (leafs (set_in p q.index n))
unfolding leafs
set_in-Within p s q n = rw q.shape (leafs_of-set_at q.children q.index q.child n q.is_child)

pub root-focus_if :
    (f : Bool) (s : String) (st : LayoutTreeState) → (focus_if f s st).root_node ≡ st.root_node
root-focus_if false s st = refl
root-focus_if true s st = refl

pub generation-focus_if :
    (f : Bool) (s : String) (st : LayoutTreeState)
    → (bump (focus_if f s st)).generation ≡ st.generation + 1
generation-focus_if false s st = refl
generation-focus_if true s st = refl

module _ {root : LayoutNode} {s : String} {c : LayoutNode} (b : Below root s c) where
  -- A change to the leafs of the parent is a change inside the layout.
  pub through_parent :
      {new : List Entry} (p : LayoutNode)
      → Within (leafs b.spot.child) new (leafs b.parent) (leafs p)
      → Within (leafs c) new (leafs root) (leafs (write_node root (id_of b.parent) p))
  through_parent {new} p w =
      subst (λ n. Within (leafs n) new (leafs root) (leafs (write_node root (id_of b.parent) p)))
        b.child_eq (Within-trans w (write_node-Within root (id_of b.parent) b.parent p b.found))

  delete_in-Within :
      (t : LayoutNode) × (delete_in root s ≡ some t) × Within (leafs c) [] (leafs root) (leafs t)
  unfolding delete_in
  delete_in-Within = (
    write_node root (id_of b.parent) (remove_child b.parent s (pos 0)),
    rw (b.parent_eq, delete_in) refl,
    through_parent _ (remove_child-Within b.parent s b.spot),
  )

  replace_in-Within :
      (n : LayoutNode)
      → (t : LayoutNode) × (replace_in root s n ≡ some t)
        × Within (leafs c) (leafs n) (leafs root) (leafs t)
  unfolding replace_in
  replace_in-Within n =
      let m = with_size (size_of b.spot.child) n in
      (
        write_node root (id_of b.parent) (set_in b.parent b.spot.index m),
        rw (b.parent_eq, replace_in) (rw (child_with_id_lem b.parent s b.spot) refl),
        rw (← leafs-with_size (size_of b.spot.child) n)
            (through_parent _ (set_in-Within b.parent s b.spot m)),
      )

-- Deleting a node below the root of a tree with unique ids removes its leafs and keeps all others,
-- in their order. The node loses the focus, and the generation grows by one.
pub delete_node-Within :
    (st : LayoutTreeState) (root : LayoutNode) (s : String) (c : LayoutNode)
    → st.root_node ≡ some root
    → HasUniqueIds root
    → find_node root s ≡ some c
    → is_unset s ≡ false
    → (id_of root === s) ≡ false
    → (st' : LayoutTreeState) × (t : LayoutNode) × (delete_node st s ≡ done st')
      × (st'.root_node ≡ some t)
      × Within (leafs c) [] (leafs root) (leafs t)
      × (is_id st'.focused_node_id s ≡ false)
      × (st'.generation ≡ st.generation + 1)
unfolding delete_node
delete_node-Within st root s c e u h given other =
    let (t, eq, w) = delete_in-Within (node-Below root s c u h other) in
    elim (Bool-cases (is_id st.focused_node_id s)) [
      | inl f ↦ (
        bump (record (with_root t st) { focused_node_id = none }),
        t,
        ground arith,
        refl,
        w,
        refl,
        refl,
      )
      | inr f ↦ (bump (with_root t st), t, ground arith, refl, w, f, refl)
    ]

-- Replacing a node below the root of a tree with unique ids puts the leafs of the new node where
-- those of the old one were, and keeps all others, in their order. The generation grows by one.
pub replace_node-Within :
    (st : LayoutTreeState) (root : LayoutNode) (s : String) (c n : LayoutNode) (focused : Bool)
    → st.root_node ≡ some root
    → HasUniqueIds root
    → find_node root s ≡ some c
    → (id_of root === s) ≡ false
    → (st' : LayoutTreeState) × (t : LayoutNode) × (replace_node st s n focused ≡ done st')
      × (st'.root_node ≡ some t)
      × Within (leafs c) (leafs n) (leafs root) (leafs t)
      × (st'.generation ≡ st.generation + 1)
unfolding replace_node
replace_node-Within st root s c n focused e u h other =
    let (t, eq, w) = replace_in-Within (node-Below root s c u h other) n in
    (
      bump (focus_if focused (id_of n) (with_root t st)),
      t,
      ground arith,
      root-focus_if focused (id_of n) (with_root t st),
      w,
      generation-focus_if focused (id_of n) (with_root t st),
    )
