-- ===== src/Layout/Model/Tests.antt =====
-- The focus of a small layout after its focused node is deleted.
use starterm.Base.{String, none, some, true, [], ◌∷◌, ◌≡◌, refl}
use starterm.Layout.Tree.{LeafOrderEntry, LayoutTreeState}
use starterm.Layout.Model.{
  LayoutModel, has_leaf, stack_top, validate_focused_node, cleanup_node_models,
}
use starterm.Layout.Model.Focus.{latest_or_first, validate_focused_node-latest_or_first}

abbrev entry : String → LeafOrderEntry
entry id = record { nodeid = id; blockid = id }

abbrev state : LayoutTreeState
state = record {
  root_node = none;
  focused_node_id = none;
  magnified_node_id = none;
  leaf_order = none;
  generation = 3;
}

-- The nodes c, b, a and b had the focus, and c is gone.
abbrev model : LayoutModel
model = record {
  tree_state = state;
  focused_node_id_stack = some "c" ∷ some "b" ∷ some "a" ∷ some "b" ∷ [];
  magnified_node_id = none;
  last_magnified_node_id = none;
  last_ephemeral_node_id = none;
  pending_tree_action = none;
  node_models = "c" ∷ "a" ∷ [];
  last_tree_state_generation = some 3;
  tree_state_atom = state;
  ephemeral_node = none;
  is_on_page = true;
}

without_duplicates :
    (validate_focused_node (entry "a" ∷ entry "b" ∷ []) model).focused_node_id_stack
    ≡ some "b" ∷ some "a" ∷ []
unfolding validate_focused_node
without_duplicates = refl

first_leaf : (validate_focused_node (entry "d" ∷ []) model).tree_state.focused_node_id ≡ some "d"
unfolding validate_focused_node
first_leaf = refl

one_model_left : (cleanup_node_models (entry "a" ∷ []) model).node_models ≡ "a" ∷ []
unfolding cleanup_node_models
one_model_left = refl

validate_focused_node-latest_or_first_example :
    let r = validate_focused_node (entry "a" ∷ entry "b" ∷ []) model in
    (r.tree_state.focused_node_id
      ≡ latest_or_first (entry "a") (entry "b" ∷ []) model.focused_node_id_stack)
    × (stack_top r.focused_node_id_stack ≡ r.tree_state.focused_node_id)
    × (has_leaf (entry "a" ∷ entry "b" ∷ []) r.tree_state.focused_node_id ≡ true)
validate_focused_node-latest_or_first_example =
    validate_focused_node-latest_or_first (entry "a") (entry "b" ∷ []) model refl refl
