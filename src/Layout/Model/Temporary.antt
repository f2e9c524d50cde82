-- ===== src/Layout/Model/Temporary.antt =====
-- The temporary node of frontend/layout/lib/layoutModel.ts: newEphemeralNode and
-- addEphemeralNodeToLayout. Where it is on the screen is left out.
use starterm.Base.{
  ℕ, String, Option, none, some, Bool, true, false, List, [], if◌then◌else◌, is_blank, text_of,
  type_error, Outcome, done, thrown, state_of, Result, ok, throw,
}
use starterm.Layout.Types.Nodes.{TabLayoutData, LayoutNode, id_of}
use starterm.Layout.Node.{new_layout_node}
use starterm.Layout.Model.{LayoutModel, on_tree, insert}
use starterm.Layout.Model.Reducer.{tree_reducer}
use starterm.Layout.Model.Operations.{Closing, close_node, focus_node_of, magnify_node_toggle_of}

abbrev with_deleted : List (Option TabLayoutData) → Outcome LayoutModel → Outcome Closing
with_deleted ds (done m) = done (m, ds)
with_deleted ds (thrown e m) = thrown e (m, ds)

module _ (digits : ℕ → String) (before : String → String → Bool) (fresh : ℕ → String) where
  -- The call of closeNode is not awaited, so that its error is lost.
  abbrev close_old : LayoutModel → Option LayoutNode → Closing
  unfolding close_node
  close_old m none = (m, [])
  close_old m (some n) = state_of (close_node digits before fresh m (id_of n))

  abbrev focus_new : Closing → Result LayoutNode → Outcome Closing
  unfolding focus_node_of
  focus_new (m, ds) (throw e) = thrown e (m, ds)
  focus_new (m, ds) (ok n) =
      with_deleted ds
        (focus_node_of digits before fresh (record m { ephemeral_node = some n }) (id_of n))

  unfoldable pub new_ephemeral_node : LayoutModel → String → Outcome Closing
  unfolding close_old focus_new new_layout_node
  new_ephemeral_node m block_id =
      focus_new (close_old m m.ephemeral_node)
        (new_layout_node (fresh 0) none none none (some (record { block_id = block_id })))

  -- A missing node is found out only after the magnified one has been made small.
  abbrev insert_temporary : Option LayoutNode → Outcome LayoutModel → Outcome LayoutModel
  unfolding tree_reducer
  insert_temporary n (thrown e m) = thrown e m
  insert_temporary none (done m) = thrown type_error m
  insert_temporary (some n) (done m) =
      tree_reducer digits before fresh true (record m { last_ephemeral_node_id = some (id_of n) })
        (on_tree (insert (some n) false false))

  unfoldable pub add_ephemeral_node_to_layout : LayoutModel → Outcome LayoutModel
  unfolding insert_temporary magnify_node_toggle_of
  add_ephemeral_node_to_layout m =
      let k = record m { ephemeral_node = none } in
      let toggled =
        magnify_node_toggle_of digits before fresh false k (text_of m.magnified_node_id) in
      insert_temporary m.ephemeral_node (if is_blank m.magnified_node_id then done k else toggled)
