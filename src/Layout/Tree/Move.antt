-- ===== src/Layout/Tree/Move.antt =====
-- moveNode of frontend/layout/lib/layoutTree.ts.
use starterm.Base.{
  ℕ, String, Option, none, some, Bool, true, false, ◌===◌, ◌&&◌, is_defined, if◌then◌else◌, get_or,
  Outcome, done, thrown, run, Result, ok, throw, type_error, invalid_insert, ◌>>=◌,
}
use starterm.Base.Int.{ℤ, pos, negsuc, ◌+ℤ◌, leb_ℤ}
use starterm.Layout.Types.Nodes.{
  FlexDirection, flex_eq, reverse_flex_direction, LayoutNode, leaf, branch, nil, cons, id_of,
  flex_of, with_flex, with_size, default_node_size, index_of,
}
use starterm.Layout.Node.{
  add_intermediate_node, add_child_at, remove_child, find_node, find_parent, write_node,
}
use starterm.Layout.Tree.{LayoutTreeState, bump, with_root, add_below}

-- A move action. `node` is not set in an action that computeMoveNode makes without an operation.
pub record MoveAction : Type 0 where
  pub node : Option LayoutNode
  pub index : ℤ
  pub parent_id : Option String
  pub insert_at_root : Bool

abbrev find_opt : LayoutNode → Option String → Option LayoutNode
find_opt root none = none
find_opt root (some id) = find_node root id

-- `parent.children!.indexOf(node)`
abbrev pub index_in : LayoutNode → String → ℤ
index_in (leaf i d) id = negsuc 0
index_in (branch i d cs) id = elim (index_of id cs) [ none ↦ negsuc 0 | some k ↦ pos k ]

abbrev is_same_node : Option LayoutNode → Option LayoutNode → Bool
is_same_node (some a) (some b) = id_of a === id_of b
is_same_node _ _ = false

-- Where the search for the old place starts.
unfoldable pub starting_index : Option LayoutNode → Option LayoutNode → String → ℤ → ℤ
starting_index old_parent none id index = pos 0
starting_index old_parent (some p) id index =
    if is_same_node old_parent (some p) && leb_ℤ index (index_in p id)
    then index +ℤ pos 1
    else pos 0

-- The node as it is inserted: a node that changes its parent loses its size.
unfoldable pub resized : Option LayoutNode → Option LayoutNode → LayoutNode → LayoutNode
resized old_parent parent n =
    if is_defined old_parent && is_defined parent
    then (if is_same_node old_parent parent then n else with_size default_node_size n)
    else n

-- The insertion at the root: a root that is a leaf first gets an intermediate node.
insert_at_root_in : (ℕ → String) → LayoutNode → ℤ → LayoutNode → Result LayoutNode
unfolding add_intermediate_node add_child_at
insert_at_root_in fresh (leaf i d) index n = do
  root ← add_intermediate_node fresh (leaf i d)
  add_child_at fresh root index (cons n nil)
insert_at_root_in fresh (branch i d cs) index n =
    add_child_at fresh (branch i d cs) index (cons n nil)

unfoldable pub insert_moved :
    (ℕ → String) → LayoutNode → Option LayoutNode → Bool → ℤ → LayoutNode → Result LayoutNode
unfolding insert_at_root_in add_below
insert_moved fresh root (some p) at_root index n = add_below fresh root p index n
insert_moved fresh root none true index n = insert_at_root_in fresh root index n
insert_moved fresh root none false index n = throw invalid_insert

-- `removeChild(oldParent, node, startingIndex)`, where the tree still holds the old parent.
unfoldable pub remove_moved : LayoutNode → Option LayoutNode → String → ℤ → LayoutNode
unfolding find_node remove_child write_node
remove_moved t none id start = t
remove_moved t (some p) id start = elim (find_node t (id_of p)) [
  | none ↦ t
  | some q ↦ write_node t (id_of p) (remove_child q id start)
]

-- addChildAt turns a leaf that has the direction of its new parent; the leaf is one object, so its
-- old place shows that too.
unfoldable pub turned_for : FlexDirection → LayoutNode → LayoutNode
turned_for f (leaf i d) =
    if flex_eq i.flex_direction f then with_flex (reverse_flex_direction f) (leaf i d) else leaf i d
turned_for f (branch i d cs) = branch i d cs

-- The node as both its places show it.
unfoldable pub moved_node :
    LayoutNode → Option LayoutNode → Option LayoutNode → LayoutNode → LayoutNode
unfolding turned_for resized
moved_node root old_parent parent n =
    turned_for (flex_of (get_or parent root)) (resized old_parent parent n)

-- The tree after a move to a parent that is not the node itself.
unfoldable pub move_in :
    (ℕ → String) → LayoutNode → LayoutNode → ℤ → Option String → Bool → Result LayoutNode
unfolding insert_moved remove_moved moved_node starting_index find_parent write_node
move_in fresh root action_node index parent_id at_root =
    let id = id_of action_node in
    let parent = find_opt root parent_id in
    let old_parent = find_parent root id in
    let node = moved_node root old_parent parent (get_or (find_node root id) action_node) in
    let tree = write_node root id node in
    do
      t ← insert_moved fresh tree (find_opt tree parent_id) at_root index node
      ok (remove_moved t old_parent id (starting_index old_parent parent id index))

-- The truth of `action.parentId`.
abbrev is_set : Option String → Bool
is_set none = false
is_set (some s) = if s === "" then false else true

unfoldable pub move_node : (ℕ → String) → LayoutTreeState → MoveAction → Outcome LayoutTreeState
unfolding move_in
move_node fresh s a = if is_set a.parent_id && a.insert_at_root then done s else elim a.node [
  | none ↦ thrown type_error s
  | some n ↦ elim s.root_node [
    | none ↦ thrown type_error s
    | some root ↦
        run s (move_in fresh root n a.index a.parent_id a.insert_at_root)
          λ t. done (bump (with_root t s))
  ]
]
