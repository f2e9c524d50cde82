-- ===== src/Layout/Model/Update.antt =====
-- updateTree of frontend/layout/lib/layoutModel.ts: the tree is balanced or only walked, its leafs and
-- the temporary node are put in order by their keys, and the focus and the magnified node are checked.
--
-- `digits` writes a number, and `before` is localeCompare on keys, which is not positive. Which of two
-- errors comes first is left out, and so are the positions. The temporary node is not in the tree.
use starterm.Base.{
  ℕ, ◌+◌, String, Option, none, some, Bool, List, [], ◌∷◌, ◌++◌, if◌then◌else◌, Result, ok, throw,
  ◌>>=◌, type_error,
}
use starterm.Base.Texts.{concat}
use starterm.Layout.Types.Nodes.{
  TabLayoutData, LayoutNode, leaf, branch, Nodes, nil, cons, count_nodes,
}
use starterm.Layout.Node.Balance.{balance_node}
use starterm.Layout.Tree.{LeafOrderEntry}
use starterm.Layout.Model.{
  LayoutModel, validate_focused_node, validate_magnified_node, cleanup_node_models,
}

-- A leaf with its treeKey.
abbrev pub Keyed : Type 0
Keyed = LeafOrderEntry × String

-- A node whose children are gone counts as a leaf, but has no data.
abbrev pub if_any : List Keyed → Result (List Keyed)
if_any [] = throw type_error
if_any (e ∷ es) = ok (e ∷ es)

abbrev pub both_lists : Result (List Keyed) → Result (List Keyed) → Result (List Keyed)
both_lists r s = r >>= λ es. s >>= λ fs. ok (es ++ fs)

module _ (digits : ℕ → String) where
  -- The leafs below a node, with the keys that updateTreeHelper gives to the children as balanceNode
  -- has rewritten them: an empty one is `undefined`, and the children of an only child with children
  -- take the place of their grandparent.
  unfoldable mutual
    pub keyed : String → LayoutNode → Result (List Keyed)
    keyed k (leaf i none) = throw type_error
    keyed k (leaf i (some d)) = ok ((record { nodeid = i.id; blockid = d.block_id }, k) ∷ [])
    keyed k (branch i d cs) = keyed_children k 0 cs >>= if_any

    pub keyed_children : String → ℕ → Nodes → Result (List Keyed)
    keyed_children k n nil = ok []
    keyed_children k n (cons (branch i d nil) cs) = throw type_error
    keyed_children k n (cons (branch i d (cons (branch j e gs) nil)) cs) =
        both_lists (keyed_spliced k n gs) (keyed_children k (n + count_nodes gs) cs)
    keyed_children k n (cons (branch i d (cons (leaf j e) nil)) cs) =
        both_lists (keyed (concat k (digits n)) (branch i d (cons (leaf j e) nil)))
          (keyed_children k (n + 1) cs)
    keyed_children k n (cons (branch i d (cons b (cons b' bs))) cs) =
        both_lists (keyed (concat k (digits n)) (branch i d (cons b (cons b' bs))))
          (keyed_children k (n + 1) cs)
    keyed_children k n (cons (leaf i d) cs) =
        both_lists (keyed (concat k (digits n)) (leaf i d)) (keyed_children k (n + 1) cs)

    pub keyed_spliced : String → ℕ → Nodes → Result (List Keyed)
    keyed_spliced k n nil = ok []
    keyed_spliced k n (cons g gs) =
        both_lists (keyed (concat k (digits n)) g) (keyed_spliced k (n + 1) gs)

  -- The same where the tree is walked and not balanced.
  unfoldable mutual
    pub walked : String → LayoutNode → Result (List Keyed)
    walked k (leaf i none) = throw type_error
    walked k (leaf i (some d)) = ok ((record { nodeid = i.id; blockid = d.block_id }, k) ∷ [])
    walked k (branch i d cs) = walked_children k 0 cs >>= if_any

    pub walked_children : String → ℕ → Nodes → Result (List Keyed)
    walked_children k n nil = ok []
    walked_children k n (cons c cs) =
        both_lists (walked (concat k (digits n)) c) (walked_children k (n + 1) cs)

-- The temporary node, as updateEphemeralNodeProps adds it.
abbrev pub temporary_by : String → Option TabLayoutData → Result (List Keyed)
temporary_by id none = throw type_error
temporary_by id (some d) = ok ((record { nodeid = id; blockid = d.block_id }, "-1") ∷ [])

abbrev pub temporary : Option LayoutNode → Result (List Keyed)
temporary none = ok []
temporary (some (leaf i d)) = temporary_by i.id d
temporary (some (branch i d cs)) = temporary_by i.id d

module _ (before : String → String → Bool) where
  abbrev pub insert_by_key : Keyed → List Keyed → List Keyed
  insert_by_key e [] = e ∷ []
  insert_by_key e (f ∷ fs) =
      let rest = insert_by_key e fs in if before e.1 f.1 then e ∷ f ∷ fs else f ∷ rest

  -- The sort by the keys, which is stable.
  abbrev pub sort_by_key : List Keyed → List Keyed
  sort_by_key [] = []
  sort_by_key (e ∷ es) = insert_by_key e (sort_by_key es)

abbrev pub firsts : List Keyed → List LeafOrderEntry
firsts [] = []
firsts (e ∷ es) = e.0 ∷ firsts es

unfoldable pub get_leaf_order : (String → String → Bool) → List Keyed → List LeafOrderEntry
get_leaf_order before es = firsts (sort_by_key before es)

abbrev pub with_order : List LeafOrderEntry → LayoutModel → LayoutModel
with_order leafs m = record m { tree_state = record m.tree_state { leaf_order = some leafs } }

abbrev pub with_balanced : Option LayoutNode → LayoutModel → LayoutModel
with_balanced r m = record m { tree_state = record m.tree_state { root_node = r } }

-- The checks against the new order.
abbrev pub check_order : List LeafOrderEntry → LayoutModel → LayoutModel
check_order leafs m =
    cleanup_node_models leafs
      (validate_magnified_node leafs (validate_focused_node leafs (with_order leafs m)))

abbrev pub update_root :
    (ℕ → String) → (String → String → Bool) → LayoutModel → Option LayoutNode → Result LayoutModel
update_root digits before m none = do
  fs ← temporary m.ephemeral_node
  ok (check_order (get_leaf_order before fs) m)
update_root digits before m (some root) = do
  t ← balance_node root
  es ← keyed digits "0" root
  fs ← temporary m.ephemeral_node
  ok (check_order (get_leaf_order before (es ++ fs)) (with_balanced (some t) m))

unfoldable pub update_tree :
    (ℕ → String) → (String → String → Bool) → LayoutModel → Result LayoutModel
unfolding keyed get_leaf_order balance_node validate_focused_node validate_magnified_node
update_tree digits before m =
    if m.is_on_page then update_root digits before m m.tree_state.root_node else ok m

abbrev pub walk_root : (ℕ → String) → Option LayoutNode → Result (List Keyed)
walk_root digits none = ok []
walk_root digits (some root) = walked digits "0" root

abbrev pub update_walked :
    (ℕ → String) → (String → String → Bool) → LayoutModel → Result LayoutModel
update_walked digits before m = do
  es ← walk_root digits m.tree_state.root_node
  fs ← temporary m.ephemeral_node
  ok (check_order (get_leaf_order before (es ++ fs)) m)

-- updateTree(false)
unfoldable pub update_without_balance :
    (ℕ → String) → (String → String → Bool) → LayoutModel → Result LayoutModel
unfolding walked get_leaf_order validate_focused_node validate_magnified_node
update_without_balance digits before m =
    if m.is_on_page then update_walked digits before m else ok m
