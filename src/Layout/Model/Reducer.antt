-- ===== src/Layout/Model/Reducer.antt =====
-- treeReducer of frontend/layout/lib/layoutModel.ts: an action, and
-- the update and the storing of the state after it.
use starterm.Base.{
  ℕ, String, Option, none, some, Bool, true, if◌then◌else◌, ltb, Result, ok, throw, Outcome, done,
  thrown,
}
use starterm.Layout.Model.{
  TreeAction, LayoutTreeAction, on_tree, set_pending, clear_pending, commit_pending, LayoutModel,
  reduce_tree, is_same, set_tree_state_atom,
}
use starterm.Layout.Model.Update.{update_tree}

abbrev pub is_newer : Option ℕ → ℕ → Bool
is_newer none g = true
is_newer (some l) g = ltb l g

-- What is remembered where another node is magnified.
abbrev pub note_magnified : LayoutModel → LayoutModel
note_magnified m =
    if is_same m.magnified_node_id m.tree_state.magnified_node_id then m else record m {
      last_magnified_node_id = m.magnified_node_id;
      last_ephemeral_node_id = none;
      magnified_node_id = m.tree_state.magnified_node_id;
    }

-- setTreeStateAtom after an update that returns.
abbrev pub store_if : Bool → LayoutModel → Result LayoutModel → Outcome LayoutModel
store_if set_state m (throw e) = thrown e m
store_if set_state m (ok u) = done (if set_state then set_tree_state_atom true u else u)

module _ (digits : ℕ → String) (before : String → String → Bool) (fresh : ℕ → String) where
  -- What follows the switch, where it returns.
  abbrev pub after_switch : Bool → Outcome LayoutModel → Outcome LayoutModel
  after_switch set_state (thrown e m) = thrown e m
  after_switch set_state (done m) =
      if is_newer m.last_tree_state_generation m.tree_state.generation
      then store_if set_state (note_magnified m) (update_tree digits before (note_magnified m))
      else done m

  unfoldable pub reduce_on_tree : Bool → LayoutModel → TreeAction → Outcome LayoutModel
  unfolding reduce_tree
  reduce_on_tree set_state m a = after_switch set_state (reduce_tree fresh m a)

  abbrev pub forget_pending : Outcome LayoutModel → Outcome LayoutModel
  forget_pending (done m) = done (record m { pending_tree_action = none })
  forget_pending (thrown e m) = thrown e m

  -- A commit runs the pending action with its update and then drops it, but keeps it where it throws.
  abbrev pub commit : LayoutModel → Option TreeAction → Outcome LayoutModel
  commit m none = done m
  commit m (some a) = forget_pending (reduce_on_tree true m a)

  unfoldable pub tree_reducer : Bool → LayoutModel → LayoutTreeAction → Outcome LayoutModel
  unfolding reduce_on_tree
  tree_reducer set_state m (on_tree a) = reduce_on_tree set_state m a
  tree_reducer set_state m (set_pending none) = after_switch set_state (done m)
  tree_reducer set_state m (set_pending (some a)) =
      after_switch set_state (done (record m { pending_tree_action = some a }))
  tree_reducer set_state m clear_pending =
      after_switch set_state (done (record m { pending_tree_action = none }))
  tree_reducer set_state m commit_pending = after_switch set_state (commit m m.pending_tree_action)
