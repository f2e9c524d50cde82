-- ===== src/Layout/Tree/Insertion.antt =====
-- What insertNode and insertNodeAtIndex do to the layout.
use starterm.Base.{ℕ, ◌+◌, String, some, Bool, true, false, [], ◌≡◌, refl, arith, append-nil}
use mathlib.Core.Path.{subst}
use starterm.Base.{done, ok}
use starterm.Base.Int.{pos}
use starterm.Layout.Types.Nodes.{LayoutNode, nil, cons, id_of}
use starterm.Layout.Node.{find_node, write_node}
use starterm.Layout.Node.Find.{HasUniqueIds}
use starterm.Layout.Node.Leaves.{leafs, leafs_of, Within, Within-trans, write_node-Within}
use starterm.Layout.Node.Leaves.Insertion.{add_child_at-Within}
use starterm.Layout.Node.Location.{default_max_children}
use starterm.Layout.Node.Location.Best.{find_next_insert_location-Least}
use starterm.Layout.Node.Location.Found.{place-found}
use starterm.Layout.Node.Shape.{IsWellFormed}
use starterm.Layout.Node.Shape.Kept.{find_node-WellFormed, write_node-WellFormed}
use starterm.Layout.Node.Shape.Added.{add_child_at-WellFormed}
use starterm.Layout.Tree.{
  LayoutTreeState, bump, with_root, focus_if, magnify_if, add_below, insert_node,
}
use starterm.Layout.Tree.Leaves.{root-focus_if, generation-focus_if}

leafs_of_one : (n : LayoutNode) → leafs_of (cons n nil) ≡ leafs n
unfolding leafs
leafs_of_one n = append-nil (leafs n)

-- Adding below a node that the root finds.
pub add_below-Within :
    (fresh : ℕ → String) (root p n : LayoutNode) (k : ℕ)
    → find_node root (id_of p) ≡ some p
    → IsWellFormed root
    → IsWellFormed n
    → (t : LayoutNode) × (add_below fresh root p (pos k) n ≡ ok t)
      × Within [] (leafs n) (leafs root) (leafs t)
      × IsWellFormed t
unfolding add_below
add_below-Within fresh root p n k h w v =
    let (p', eq, w') =
      add_child_at-WellFormed fresh p (pos k) n (find_node-WellFormed root (id_of p) p w h) v in
    (
      write_node root (id_of p) p',
      rw eq refl,
      Within-trans
          (subst (λ l. Within [] l (leafs p) (leafs p')) (leafs_of_one n)
            (add_child_at-Within fresh p k (cons n nil) eq))
          (write_node-Within root (id_of p) p p' h),
      write_node-WellFormed root (id_of p) p' w w',
    )

pub root-magnify_if :
    (f m : Bool) (s : String) (st : LayoutTreeState)
    → (focus_if f s (magnify_if m s st)).root_node ≡ st.root_node
root-magnify_if f false s st = root-focus_if f s st
root-magnify_if f true s st = root-focus_if f s (magnify_if true s st)

pub generation-magnify_if :
    (f m : Bool) (s : String) (st : LayoutTreeState)
    → (bump (focus_if f s (magnify_if m s st))).generation ≡ st.generation + 1
generation-magnify_if f false s st = generation-focus_if f s st
generation-magnify_if f true s st = generation-focus_if f s (magnify_if true s st)

-- Inserting a well-formed node into a well-formed layout with unique ids always succeeds: the leafs
-- of the node come in together, all leafs of the layout stay, in their order, the layout stays
-- well-formed, and the generation grows by one.
pub insert_node-Within :
    (fresh : ℕ → String) (st : LayoutTreeState) (root n : LayoutNode) (magnified focused : Bool)
    → st.root_node ≡ some root
    → HasUniqueIds root
    → IsWellFormed root
    → IsWellFormed n
    → (st' : LayoutTreeState) × (t : LayoutNode) × (insert_node fresh st (some n) magnified focused
        ≡ done st')
      × (st'.root_node ≡ some t)
      × Within [] (leafs n) (leafs root) (leafs t)
      × IsWellFormed t
      × (st'.generation ≡ st.generation + 1)
unfolding insert_node
insert_node-Within fresh st root n magnified focused e u w v =
    let (l, eq, m, _) = find_next_insert_location-Least root default_max_children (omega arith) in
    let (t, added, within, w') =
      add_below-Within fresh root l.node n l.index (place-found default_max_children 1 root l u m) w
        v in
    let st1 = with_root t st in
    (
      bump (focus_if focused (id_of n) (magnify_if magnified (id_of n) st1)),
      t,
      rw (e, insert_node) (rw eq (rw added refl)),
      root-magnify_if focused magnified (id_of n) st1,
      within,
      w',
      generation-magnify_if focused magnified (id_of n) st1,
    )
