-- ===== src/Layout/Node/Leaves/Insertion.antt =====
-- addChildAt and addIntermediateNode on the leafs of a node.
use starterm.Base.{ℕ, String, Option, none, some, List, [], ◌≡◌, refl, sym, ap, ◌∙◌, append-nil}
use mathlib.Core.Path.{subst}
use starterm.Base.{ok, ok_inj, throw_ne_ok, returned}
use starterm.Base.Int.{pos}
use starterm.Layout.Types.Nodes.{TabLayoutData, Info, LayoutNode, leaf, branch, Nodes, nil, cons}
use starterm.Layout.Node.{children_to_add, add_children, add_child_at, add_intermediate_node}
use starterm.Layout.Node.Leaves.{
  Entry, leafs, leafs_of, Within, leafs_of-place, leafs-children_to_add,
}

-- An intermediate node leaves the leafs as they were, ids included, if the node holds data or
-- children but not both.
pub leafs-add_intermediate_leaf :
    (fresh : ℕ → String) (i : Info) (d : Option TabLayoutData) {n : LayoutNode}
    → add_intermediate_node fresh (leaf i d) ≡ ok n
    → leafs n ≡ leafs (leaf i d)
unfolding add_intermediate_node leafs
leafs-add_intermediate_leaf fresh i none h = absurd (throw_ne_ok h)
leafs-add_intermediate_leaf fresh i (some d) h = ap leafs (sym (ok_inj h))

pub leafs-add_intermediate_branch :
    (fresh : ℕ → String) (i : Info) (cs : Nodes) {n : LayoutNode}
    → add_intermediate_node fresh (branch i none cs) ≡ ok n
    → leafs n ≡ leafs_of cs
unfolding add_intermediate_node leafs
leafs-add_intermediate_branch fresh i nil h = absurd (throw_ne_ok h)
leafs-add_intermediate_branch fresh i (cons c cs) h =
    ap leafs (sym (ok_inj h)) ∙ append-nil _ ∙ append-nil _

Within-refl : (xs : List Entry) → Within [] [] xs xs
Within-refl xs = record { before = []; after = xs; was = refl; becomes = refl }

add_children-Within :
    (k : ℕ) (ds : Nodes) (n : LayoutNode) {n' : LayoutNode}
    → add_children (pos k) ds n ≡ ok n'
    → Within [] (leafs_of ds) (leafs n) (leafs n')
unfolding leafs
add_children-Within k ds (leaf i d) h = absurd (throw_ne_ok h)
add_children-Within k ds (branch i d cs) h =
    subst (λ t. Within [] (leafs_of ds) (leafs_of cs) (leafs t)) (ok_inj h)
      (rw (← leafs-children_to_add i.flex_direction ds)
        (leafs_of-place k (children_to_add i.flex_direction ds) cs))

-- At an index that is not negative the leafs of the new children come in together, in order, and
-- no leaf of the node is lost, whether or not nodes are flattened on the way.
pub add_child_at-Within :
    (fresh : ℕ → String) (n : LayoutNode) (k : ℕ) (ds : Nodes) {n' : LayoutNode}
    → add_child_at fresh n (pos k) ds ≡ ok n'
    → Within [] (leafs_of ds) (leafs n) (leafs n')
unfolding add_child_at leafs
add_child_at-Within fresh n k nil h =
    subst (λ t. Within [] [] (leafs n) (leafs t)) (ok_inj h) (Within-refl (leafs n))
add_child_at-Within fresh (leaf i none) k (cons c cs) h = absurd (throw_ne_ok h)
add_child_at-Within fresh (leaf i (some d)) k (cons c cs) h =
    let (n, p, q) =
      returned (add_intermediate_node fresh (leaf i (some d))) (add_children (pos k) (cons c cs))
        h in
    rw (← leafs-add_intermediate_leaf fresh i (some d) p) (add_children-Within k (cons c cs) n q)
add_child_at-Within fresh (branch i d ds) k (cons c cs) h =
    add_children-Within k (cons c cs) (branch i d ds) h
