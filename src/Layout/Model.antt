-- ===== src/Layout/Model.antt =====
-- frontend/layout/lib/layoutModel.ts: the actions on the layout of a tab, the stack of focused nodes,
-- and what is checked against the order of the leafs after an update.
--
-- The order of the leafs is an argument, as it is of the checks. Positions on the screen and React are
-- left out. A pending action is one on the tree, which is all that is set.
pub mod Update
pub mod Order
pub mod Focus
pub mod Reducer
pub mod Operations
pub mod Temporary
pub mod Insertion
mod Tests
use starterm.Base.{
  ℕ, zero, suc, ◌+◌, String, Option, none, some, Bool, true, false, not, ◌&&◌, ◌||◌, ◌===◌, List,
  [], ◌∷◌, ◌++◌, if◌then◌else◌, is_blank, Result, ok, throw, Outcome, done, thrown, type_error,
}
use starterm.Base.Int.{ℤ}
use starterm.Layout.Types.Nodes.{LayoutNode}
use starterm.Layout.Tree.{
  LeafOrderEntry, LayoutTreeState, is_unset, insert_node, insert_node_at_index, delete_node,
  swap_node, ResizeNodeOperation, resize_node, focus_node, magnify_node_toggle, clear_tree,
}
use starterm.Layout.Tree.Replace.{replace_node, Position, split_horizontal, split_vertical}
use starterm.Layout.Tree.Move.{MoveAction, move_node}
use starterm.Layout.Tree.Compute.{DropDirection, Computed, nothing, swap, move, compute_move_node}

-- The actions on the tree.
pub data TreeAction : Type 0 where
  compute_move : String → String → DropDirection → TreeAction
  move_by : MoveAction → TreeAction
  insert : Option LayoutNode → Bool → Bool → TreeAction
  insert_at_index : Option LayoutNode → Option (List ℤ) → Bool → Bool → TreeAction
  delete focus magnify_toggle : String → TreeAction
  swap_nodes : String → String → TreeAction
  resize : Option (List ResizeNodeOperation) → TreeAction
  clear : TreeAction
  replace : String → LayoutNode → Bool → TreeAction
  split_in_row split_in_column : String → LayoutNode → Position → Bool → TreeAction

pub data LayoutTreeAction : Type 0 where
  on_tree : TreeAction → LayoutTreeAction
  set_pending : Option TreeAction → LayoutTreeAction
  clear_pending commit_pending : LayoutTreeAction

-- The generation that was stored last is -1 at first, which is `none`. The layout is on the page where
-- displayContainerRef is set.
pub record LayoutModel : Type 0 where
  pub tree_state : LayoutTreeState
  pub focused_node_id_stack : List (Option String)
  pub magnified_node_id : Option String
  pub last_magnified_node_id : Option String
  pub last_ephemeral_node_id : Option String
  pub pending_tree_action : Option TreeAction
  pub node_models : List String
  pub last_tree_state_generation : Option ℕ
  pub tree_state_atom : LayoutTreeState
  pub ephemeral_node : Option LayoutNode
  pub is_on_page : Bool

abbrev pub with_tree : LayoutModel → LayoutTreeState → LayoutModel
with_tree m s = record m { tree_state = s }

abbrev pub on_state : LayoutModel → Outcome LayoutTreeState → Outcome LayoutModel
on_state m (done s) = done (with_tree m s)
on_state m (thrown e s) = thrown e (with_tree m s)

-- What computeMoveNode returns becomes the pending action. A missing root has no id.
abbrev pub computed_action : Computed → Option TreeAction
computed_action nothing = none
computed_action (swap a b) = some (swap_nodes a b)
computed_action (move a) = some (move_by a)

abbrev pub compute_in : Option LayoutNode → String → String → DropDirection → Result Computed
compute_in none a b d = if is_unset a || is_unset b || a === b then ok nothing else throw type_error
compute_in (some root) a b d = compute_move_node root a b d

abbrev pub set_computed : LayoutModel → Result Computed → Outcome LayoutModel
set_computed m (ok c) = done (record m { pending_tree_action = computed_action c })
set_computed m (throw e) = thrown e m

-- The switch of treeReducer, for the actions on the tree.
unfoldable pub reduce_tree : (ℕ → String) → LayoutModel → TreeAction → Outcome LayoutModel
reduce_tree fresh m (compute_move a b d) = set_computed m (compute_in m.tree_state.root_node a b d)
reduce_tree fresh m (move_by a) = on_state m (move_node fresh m.tree_state a)
reduce_tree fresh m (insert n magnified focused) =
    on_state m (insert_node fresh m.tree_state n magnified focused)
reduce_tree fresh m (insert_at_index n arr magnified focused) =
    on_state m (insert_node_at_index fresh m.tree_state n arr magnified focused)
reduce_tree fresh m (delete id) = on_state m (delete_node m.tree_state id)
reduce_tree fresh m (focus id) = on_state m (focus_node m.tree_state id)
reduce_tree fresh m (magnify_toggle id) = on_state m (magnify_node_toggle m.tree_state id)
reduce_tree fresh m (swap_nodes a b) = on_state m (swap_node m.tree_state a b)
reduce_tree fresh m (resize ops) = on_state m (resize_node m.tree_state ops)
reduce_tree fresh m clear = on_state m (clear_tree m.tree_state)
reduce_tree fresh m (replace id n focused) = on_state m (replace_node m.tree_state id n focused)
reduce_tree fresh m (split_in_row id n p focused) =
    on_state m (split_horizontal fresh m.tree_state id n p focused)
reduce_tree fresh m (split_in_column id n p focused) =
    on_state m (split_vertical fresh m.tree_state id n p focused)

unfoldable pub set_tree_state_atom : Bool → LayoutModel → LayoutModel
set_tree_state_atom bump_generation m =
    let s = m.tree_state in
    let g = if bump_generation then s.generation + 1 else s.generation in
    record m {
      tree_state = record s { generation = g };
      last_tree_state_generation = some g;
      tree_state_atom = record s { generation = g };
    }

-- `a === b` on ids that may be undefined.
abbrev pub is_same : Option String → Option String → Bool
is_same none none = true
is_same none (some b) = false
is_same (some a) none = false
is_same (some a) (some b) = a === b

abbrev pub has_leaf : List LeafOrderEntry → Option String → Bool
has_leaf [] o = false
has_leaf (e ∷ es) o = is_same (some e.nodeid) o || has_leaf es o

abbrev pub includes : List (Option String) → Option String → Bool
includes [] o = false
includes (p ∷ ps) o = is_same p o || includes ps o

-- The loop that removes duplicates and stale entries, onto what it has kept.
abbrev pub without_stale :
    List LeafOrderEntry → List (Option String) → List (Option String) → List (Option String)
without_stale leafs [] new = new
without_stale leafs (o ∷ os) new =
    without_stale leafs os (if has_leaf leafs o && not (includes new o) then new ++ o ∷ [] else new)

-- The focus that takes the place of an unset one, with what is left of the stack.
abbrev pub next_focus :
    List LeafOrderEntry
    → Option String
    → List (Option String)
    → Option String × List (Option String)
next_focus leafs unset (o ∷ os) = (o, os)
next_focus (e ∷ es) unset [] = (some e.nodeid, [])
next_focus [] unset [] = (unset, [])

abbrev pub refocus :
    List LeafOrderEntry
    → Option String
    → List (Option String)
    → Option String × List (Option String)
refocus leafs o stack = if is_blank o then next_focus leafs o stack else (o, stack)

abbrev pub with_focus : LayoutModel → Option String × List (Option String) → LayoutModel
with_focus m (o, os) = record m {
  tree_state = record m.tree_state { focused_node_id = o };
  focused_node_id_stack = o ∷ os;
}

-- focusedNodeId of the model
abbrev pub stack_top : List (Option String) → Option String
stack_top [] = none
stack_top (o ∷ os) = o

unfoldable pub validate_focused_node : List LeafOrderEntry → LayoutModel → LayoutModel
validate_focused_node leafs m =
    if is_same m.tree_state.focused_node_id (stack_top m.focused_node_id_stack)
    then m
    else with_focus m (
        refocus leafs m.tree_state.focused_node_id (without_stale leafs m.focused_node_id_stack []))

unfoldable pub validate_magnified_node : List LeafOrderEntry → LayoutModel → LayoutModel
validate_magnified_node [] m = m
validate_magnified_node (e ∷ []) m = record m {
  tree_state = record m.tree_state { magnified_node_id = none };
  magnified_node_id = none;
}
validate_magnified_node (e ∷ f ∷ es) m = m

abbrev with_leaf : List LeafOrderEntry → List String → List String
with_leaf leafs [] = []
with_leaf leafs (id ∷ ids) =
    let rest = with_leaf leafs ids in if has_leaf leafs (some id) then id ∷ rest else rest

unfoldable pub cleanup_node_models : List LeafOrderEntry → LayoutModel → LayoutModel
cleanup_node_models leafs m = record m { node_models = with_leaf leafs m.node_models }
