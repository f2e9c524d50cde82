-- ===== src/Layout/Model/Operations.antt =====
-- What the program asks of the model in frontend/layout/lib/layoutModel.ts: focusing, magnifying and
-- closing a node, the temporary one too.
use starterm.Base.{
  ℕ, zero, suc, String, Option, none, some, Bool, true, false, or_else, ◌===◌, List, [], ◌∷◌,
  if◌then◌else◌, Outcome, done, thrown,
}
use starterm.Base.Lists.{get_elem?}
use starterm.Layout.Types.Nodes.{TabLayoutData, LayoutNode, leaf, branch, id_of}
use starterm.Layout.Node.{find_node}
use starterm.Layout.Tree.{LeafOrderEntry}
use starterm.Layout.Model.{LayoutModel, on_tree, focus, magnify_toggle, delete, is_same, stack_top}
use starterm.Layout.Model.Update.{update_without_balance}
use starterm.Layout.Model.Reducer.{store_if, tree_reducer}

abbrev pub found_in : Option LayoutNode → String → Option LayoutNode
found_in none id = none
found_in (some root) id = find_node root id

abbrev pub data_of : LayoutNode → Option TabLayoutData
data_of (leaf i d) = d
data_of (branch i d cs) = d

-- The model, with the data that onNodeDelete is called with.
abbrev pub Closing : Type 0
Closing = LayoutModel × List (Option TabLayoutData)

abbrev pub deleting : Option TabLayoutData → Outcome LayoutModel → Outcome Closing
deleting d (done m) = done (m, d ∷ [])
deleting d (thrown e m) = thrown e (m, [])

-- The node in the tree, or else the temporary node.
abbrev pub is_with_id : Option LayoutNode → String → Bool
is_with_id none id = false
is_with_id (some n) id = id_of n === id

abbrev pub found_anywhere : LayoutModel → String → Option LayoutNode
found_anywhere m id =
    or_else (found_in m.tree_state.root_node id)
      (if is_with_id m.ephemeral_node id then m.ephemeral_node else none)

-- The temporary node is gone, and has lost the focus.
abbrev pub without_temporary : LayoutModel → LayoutModel
without_temporary m = record m {
  ephemeral_node = none;
  tree_state = record m.tree_state { focused_node_id = none };
}

module _ (digits : ℕ → String) (before : String → String → Bool) (fresh : ℕ → String) where
  abbrev focus_found : LayoutModel → String → Option LayoutNode → Outcome LayoutModel
  focus_found m id none = done m
  focus_found m id (some n) = tree_reducer digits before fresh true m (on_tree (focus id))

  unfoldable pub focus_node_of : LayoutModel → String → Outcome LayoutModel
  unfolding tree_reducer
  focus_node_of m id =
      if is_same (stack_top m.focused_node_id_stack) (some id)
      then done m
      else focus_found m id (found_anywhere m id)

  abbrev focus_entry : LayoutModel → Option LeafOrderEntry → Outcome LayoutModel
  focus_entry m none = done m
  focus_entry m (some e) = focus_node_of m e.nodeid

  -- Blocks are numbered from one, in the order of the leafs.
  unfoldable pub switch_node_focus_by_block_num :
      List LeafOrderEntry → LayoutModel → ℕ → Outcome LayoutModel
  unfolding focus_node_of
  switch_node_focus_by_block_num leafs m zero = done m
  switch_node_focus_by_block_num leafs m (suc n) = focus_entry m (get_elem? leafs n)

  unfoldable pub focus_first_node : List LeafOrderEntry → LayoutModel → Outcome LayoutModel
  unfolding focus_node_of
  focus_first_node leafs m = focus_entry m (get_elem? leafs 0)

  unfoldable pub magnify_node_toggle_of : Bool → LayoutModel → String → Outcome LayoutModel
  unfolding tree_reducer
  magnify_node_toggle_of set_state m id =
      tree_reducer digits before fresh set_state (record m { last_ephemeral_node_id = none })
        (on_tree (magnify_toggle id))

  -- closeNode: a magnified node is made small first.
  abbrev delete_after : String → LayoutNode → Outcome LayoutModel → Outcome Closing
  delete_after id n (thrown e m) = thrown e (m, [])
  delete_after id n (done m) =
      deleting (data_of n) (tree_reducer digits before fresh true m (on_tree (delete id)))

  -- A temporary node is not in the tree, which is walked only.
  unfoldable pub close_temporary : LayoutModel → Option LayoutNode → Outcome Closing
  unfolding update_without_balance
  close_temporary m none = done (m, [])
  close_temporary m (some n) = deleting (data_of n) (
      store_if true (without_temporary m)
        (update_without_balance digits before (without_temporary m)))

  abbrev close_found : LayoutModel → String → Option LayoutNode → Outcome Closing
  close_found m id none =
      let closed = close_temporary m m.ephemeral_node in
      if is_with_id m.ephemeral_node id then closed else done (m, [])
  close_found m id (some n) =
      delete_after id n
        (if is_same (some id) m.magnified_node_id then magnify_node_toggle_of true m id else done m)

  unfoldable pub close_node : LayoutModel → String → Outcome Closing
  unfolding tree_reducer magnify_node_toggle_of find_node
  close_node m id = close_found m id (found_in m.tree_state.root_node id)
