-- ===== src/Layout/Tree.antt =====
-- frontend/layout/lib/layoutTree.ts: the operations on the state of a layout.
--
-- Each returns the state that it leaves, and the error if it throws. An id that is not set is the
-- empty text, which the guards `!id` treat alike; `console` calls are left out. `fresh n` is the id
-- that call number n of `crypto.randomUUID` returns within the operation.
pub mod Replace
pub mod Move
pub mod Compute
pub mod Leaves
pub mod Splits
pub mod Insertion
use starterm.Base.{
  ℕ, zero, suc, ◌+◌, String, Option, none, some, Bool, true, false, ◌||◌, ◌===◌, List, [], ◌∷◌,
  if◌then◌else◌, get_or,
}
use starterm.Base.{Result, ok, throw, Outcome, done, thrown, run, type_error, ◌>>=◌}
use starterm.Base.Int.{ℤ, pos, ◌+ℤ◌, ltb_ℤ, is_negative}
use starterm.Layout.Types.Nodes.{
  FlexDirection, row, column, flex_eq, TabLayoutData, LayoutNode, leaf, branch, Nodes, nil, cons,
  id_of, flex_of, size_of, with_size, count_nodes, set_at, node_at, insert_at, index_of,
}
use starterm.Layout.Node.{
  new_layout_node, add_child_at, remove_child, find_node, find_parent, write_node,
}
use starterm.Layout.Node.Location.{
  default_max_children, find_next_insert_location, find_insert_location_from_index_arr,
}

pub record LeafOrderEntry : Type 0 where
  pub nodeid : String
  pub blockid : String

-- LayoutTreeState; `pendingBackendActions` belongs to the model that runs them.
pub record LayoutTreeState : Type 0 where
  pub root_node : Option LayoutNode
  pub focused_node_id : Option String
  pub magnified_node_id : Option String
  pub leaf_order : Option (List LeafOrderEntry)
  pub generation : ℕ

abbrev pub is_unset : String → Bool
is_unset s = s === ""

abbrev pub is_id : Option String → String → Bool
is_id none s = false
is_id (some t) s = t === s

-- `layoutState.generation++`
abbrev pub bump : LayoutTreeState → LayoutTreeState
bump s = record s { generation = s.generation + 1 }

abbrev pub with_root : LayoutNode → LayoutTreeState → LayoutTreeState
with_root t s = record s { root_node = some t }

-- `if (action.focused) layoutState.focusedNodeId = id`
abbrev pub focus_if : Bool → String → LayoutTreeState → LayoutTreeState
focus_if false id s = s
focus_if true id s = record s { focused_node_id = some id }

abbrev pub magnify_if : Bool → String → LayoutTreeState → LayoutTreeState
magnify_if false id s = s
magnify_if true id s = record s { magnified_node_id = some id; focused_node_id = some id }

-- addChildAt on a node of the tree: the tree with the node as it is afterwards.
unfoldable pub add_below :
    (ℕ → String) → LayoutNode → LayoutNode → ℤ → LayoutNode → Result LayoutNode
unfolding add_child_at write_node
add_below fresh root parent idx n = do
  p ← add_child_at fresh parent idx (cons n nil)
  ok (write_node root (id_of parent) p)

unfoldable pub insert_node :
    (ℕ → String) → LayoutTreeState → Option LayoutNode → Bool → Bool → Outcome LayoutTreeState
insert_node fresh s none magnified focused = done s
insert_node fresh s (some n) magnified focused = elim s.root_node [
  | none ↦ done (bump (focus_if focused (id_of n) (with_root n s)))
  | some root ↦ elim (find_next_insert_location root default_max_children) [
    | none ↦ thrown type_error s
    | some l ↦ run s (add_below fresh root l.node (pos l.index) n) λ t.
        done (bump (focus_if focused (id_of n) (magnify_if magnified (id_of n) (with_root t s))))
  ]
]

unfoldable pub insert_node_at_index :
    (ℕ → String)
    → LayoutTreeState
    → Option LayoutNode
    → Option (List ℤ)
    → Bool
    → Bool
    → Outcome LayoutTreeState
insert_node_at_index fresh s none arr magnified focused = done s
insert_node_at_index fresh s (some n) none magnified focused = done s
insert_node_at_index fresh s (some n) (some arr) magnified focused = elim s.root_node [
  | none ↦ done (bump (focus_if focused (id_of n) (with_root n s)))
  | some root ↦ run s (find_insert_location_from_index_arr root arr) λ loc. elim loc [
    | none ↦ done s
    | some (parent, idx) ↦ run s (add_below fresh root parent (idx +ℤ pos 1) n) λ t.
        done (bump (focus_if focused (id_of n) (magnify_if magnified (id_of n) (with_root t s))))
  ]
]

-- `parent.children[k] = n`, for the parent with the given id; nothing if the tree has lost it.
unfoldable pub set_child : LayoutNode → String → ℕ → LayoutNode → LayoutNode
unfolding find_node write_node
set_child t pid k n = elim (find_node t pid) [
  | none ↦ t
  | some (leaf i d) ↦ t
  | some (branch i d cs) ↦ write_node t pid (branch i d (set_at k n cs))
]

-- The child of a parent with an id, and its index: `findIndex` and the element there.
unfoldable pub child_with_id : LayoutNode → String → Option (ℕ × LayoutNode)
child_with_id (leaf i d) id = none
child_with_id (branch i d cs) id = elim (index_of id cs) [
  | none ↦ none
  | some k ↦ elim (node_at cs k) [ none ↦ none | some c ↦ some (k, c) ]
]

-- A parent and the child of it that has the id; a TypeError where there is no parent.
unfoldable pub parent_and_child : LayoutNode → String → Result (LayoutNode × ℕ × LayoutNode)
unfolding child_with_id find_parent
parent_and_child root id = elim (find_parent root id) [
  | none ↦ throw type_error
  | some p ↦ elim (child_with_id p id) [ none ↦ throw type_error | some (k, c) ↦ ok (p, k, c) ]
]

-- The tree after the two assignments of swapNode, sizes exchanged.
unfoldable pub swap_in : LayoutNode → String → String → Result LayoutNode
unfolding parent_and_child set_child
swap_in root id1 id2 = do
  (p1, k1, n1) ← parent_and_child root id1
  (p2, k2, n2) ← parent_and_child root id2
  let t = set_child root (id_of p1) k1 (with_size (size_of n1) n2)
  ok (set_child t (id_of p2) k2 (with_size (size_of n2) n1))

unfoldable pub swap_node : LayoutTreeState → String → String → Outcome LayoutTreeState
unfolding swap_in
swap_node s id1 id2 = if is_unset id1 || is_unset id2 then done s else elim s.root_node [
  | none ↦ thrown type_error s
  | some root ↦
      if id1 === id_of root || id2 === id_of root || id1 === id2
      then done s
      else run s (swap_in root id1 id2) (λ t. done (bump (with_root t s)))
]

-- The tree after `removeChild(parent, node)`; the tree itself where there is no parent.
unfoldable pub delete_in : LayoutNode → String → Option LayoutNode
unfolding find_parent remove_child write_node
delete_in root id = elim (find_parent root id) [
  | none ↦ none
  | some p ↦ some (write_node root (id_of p) (remove_child p id (pos 0)))
]

unfoldable pub delete_node : LayoutTreeState → String → Outcome LayoutTreeState
unfolding delete_in
delete_node s id = if is_unset id then done s else elim s.root_node [
  | none ↦ done s
  | some root ↦
      if id_of root === id
      then done (bump (record s { root_node = none }))
      else elim (delete_in root id) [
        | none ↦ done (bump s)
        | some t ↦
            if is_id s.focused_node_id id
            then done (bump (record (with_root t s) { focused_node_id = none }))
            else done (bump (with_root t s))
      ]
]

pub record ResizeNodeOperation : Type 0 where
  pub node_id : String
  pub size : ℤ

abbrev pub is_bad_resize : ResizeNodeOperation → Bool
is_bad_resize op = is_unset op.node_id || (is_negative op.size || ltb_ℤ (pos 100) op.size)

abbrev find_in_root : Option LayoutNode → String → Option LayoutNode
find_in_root none id = none
find_in_root (some root) id = find_node root id

abbrev write_root : Option LayoutNode → String → LayoutNode → Option LayoutNode
write_root none id n = none
write_root (some root) id n = some (write_node root id n)

-- The loop of resizeNode. What it has written stays written when it returns early or throws.
unfoldable pub resize_from : LayoutTreeState → List ResizeNodeOperation → Outcome LayoutTreeState
unfolding find_node write_node
resize_from s [] = done (bump s)
resize_from s (op ∷ ops) =
    let rest = λ (n : LayoutNode).
      resize_from (record s { root_node = write_root s.root_node op.node_id (with_size op.size n) })
        ops in
    if is_bad_resize op
    then done s
    else elim (find_in_root s.root_node op.node_id) [ none ↦ thrown type_error s | some n ↦ rest n ]

unfoldable pub resize_node :
    LayoutTreeState → Option (List ResizeNodeOperation) → Outcome LayoutTreeState
unfolding resize_from
resize_node s none = thrown type_error s
resize_node s (some ops) = resize_from s ops

unfoldable pub focus_node : LayoutTreeState → String → Outcome LayoutTreeState
focus_node s id =
    if is_unset id then done s else done (bump (record s { focused_node_id = some id }))

unfoldable pub magnify_node_toggle : LayoutTreeState → String → Outcome LayoutTreeState
magnify_node_toggle s id = if is_unset id then done s else elim s.root_node [
  | none ↦ thrown type_error s
  | some root ↦
      if id_of root === id
      then done s
      else if is_id s.magnified_node_id id
      then done (bump (record s { magnified_node_id = none }))
      else done (bump (record s { magnified_node_id = some id; focused_node_id = some id }))
]

unfoldable pub clear_tree : LayoutTreeState → Outcome LayoutTreeState
clear_tree s = done (
    bump (record s {
      root_node = none;
      leaf_order = none;
      focused_node_id = none;
      magnified_node_id = none;
    }))
