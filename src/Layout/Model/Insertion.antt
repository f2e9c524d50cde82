-- ===== src/Layout/Model/Insertion.antt =====
-- An insertion, from the action to the state that is stored.
use starterm.Base.{
  ℕ, ◌+◌, String, Option, none, some, Bool, true, List, [], if◌then◌else◌, ltb, done, ◌≡◌, refl,
  sym, ap, ◌∙◌, arith, if_both,
}
use mathlib.Core.Path.{subst}
use mathlib.Core.List.{Permᴰ}
use starterm.Layout.Types.Nodes.{LayoutNode}
use starterm.Layout.Node.Find.{HasUniqueIds}
use starterm.Layout.Node.Shape.{IsWellFormed, IsNormal}
use starterm.Layout.Node.Leaves.{leafs, Within}
use starterm.Layout.Tree.{LeafOrderEntry}
use starterm.Layout.Tree.Insertion.{insert_node-Within}
use starterm.Layout.Model.{
  LayoutModel, with_tree, on_state, on_tree, insert, reduce_tree, is_same, set_tree_state_atom,
}
use starterm.Layout.Model.Update.{update_tree}
use starterm.Layout.Model.Order.{entries, update_tree-Permᴰ}
use starterm.Layout.Model.Reducer.{
  is_newer, note_magnified, store_if, after_switch, reduce_on_tree, tree_reducer,
}

note_magnified-keeps :
    (m : LayoutModel)
    → ((note_magnified m).tree_state ≡ m.tree_state)
      × ((note_magnified m).is_on_page ≡ m.is_on_page)
      × ((note_magnified m).ephemeral_node ≡ m.ephemeral_node)
note_magnified-keeps m =
    if_both
      (λ (v : LayoutModel).
        (v.tree_state ≡ m.tree_state)
        × (v.is_on_page ≡ m.is_on_page)
        × (v.ephemeral_node ≡ m.ephemeral_node))
      (is_same m.magnified_node_id m.tree_state.magnified_node_id) (λ _. (refl, refl, refl))
      (λ _. (refl, refl, refl))

is_newer-next : (l : Option ℕ) (g h : ℕ) → l ≡ some g → h ≡ g + 1 → is_newer l h ≡ true
is_newer-next none g h e k = cc
is_newer-next (some l) g h e k = below l (some_eq e)
  where
    some_eq : some l ≡ some g → l ≡ g
    some_eq e = cc

    below : (l : ℕ) → l ≡ g → ltb l h ≡ true
    below l e = ground arith

module _ (digits : ℕ → String) (before : String → String → Bool) (fresh : ℕ → String) where
  -- Inserting a well-formed node by an action always succeeds in a well-formed layout with unique ids
  -- that is on the page, without a temporary node, and whose state is stored. In the tree that results
  -- the leafs of the node have come in together and all others stand in their order, and no node has a
  -- leaf for its only child; the new order of the leafs holds exactly those of this tree, in some
  -- order; and the state that results is stored, with a generation that has grown by two.
  pub tree_reducer-insert :
      (m : LayoutModel) (root n : LayoutNode) (magnified focused : Bool)
      → m.is_on_page ≡ true
      → m.ephemeral_node ≡ none
      → m.tree_state.root_node ≡ some root
      → m.last_tree_state_generation ≡ some m.tree_state.generation
      → HasUniqueIds root
      → IsWellFormed root
      → IsWellFormed n
      → (m' : LayoutModel) × (t : LayoutNode) × (los : List LeafOrderEntry) × (tree_reducer digits
            before fresh true m
            (on_tree (insert (some n) magnified focused))
          ≡ done m')
        × (m'.tree_state.root_node ≡ some t)
        × Within [] (leafs n) (leafs root) (leafs t)
        × IsNormal t
        × (m'.tree_state.leaf_order ≡ some los)
        × Permᴰ los (entries (leafs t))
        × (m'.tree_state_atom ≡ m'.tree_state)
        × (m'.tree_state.generation ≡ m.tree_state.generation + 2)
        × (m'.last_tree_state_generation ≡ some m'.tree_state.generation)
  unfolding tree_reducer reduce_on_tree reduce_tree set_tree_state_atom
  tree_reducer-insert m root n magnified focused page alone e stored u w v =
      let (st, t, inserted, at, within, w', g) =
        insert_node-Within fresh m.tree_state root n magnified focused e u w v in
      let k = with_tree m st in
      let (same, still, none_here) = note_magnified-keeps k in
      let (r, up, (t', root', normal, kept), (los, order, perm), g') =
        update_tree-Permᴰ digits before (note_magnified k) t (still ∙ page) (none_here ∙ alone)
          (ap (λ s. s.root_node) same ∙ at) w' in
      (
        set_tree_state_atom true r,
        t',
        los,
        ap (λ o. after_switch digits before fresh true (on_state m o)) inserted
            ∙ ap
                (λ (b : Bool).
                  if b
                  then store_if true (note_magnified k)
                      (update_tree digits before (note_magnified k))
                  else done k)
                (is_newer-next m.last_tree_state_generation m.tree_state.generation st.generation
                  stored g)
            ∙ ap (store_if true (note_magnified k)) up,
        root',
        subst (Within [] (leafs n) (leafs root)) (sym kept) within,
        normal,
        order,
        subst (λ es. Permᴰ los (entries es)) (sym kept) perm,
        refl,
        omega (arith, g', ap (λ s. s.generation) same, g),
        refl,
      )
