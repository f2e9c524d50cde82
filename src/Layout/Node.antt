-- ===== src/Layout/Node.antt =====
-- frontend/layout/lib/layoutNode.ts: operations on one node and its subtree.
--
-- An operation that mutates its node returns the node as it is afterwards. `crypto.randomUUID` is
-- not the program's: `fresh n` is the id that its call number n returns within one operation.
pub mod Shape
pub mod Find
pub mod Leaves
pub mod Balance
pub mod Location
use starterm.Base.{
  ℕ, zero, suc, ◌+◌, ◌-◌, ◌^◌, String, Option, none, some, Bool, true, false, not, ◌&&◌, ◌===◌,
  List, [], ◌∷◌, ◌++◌, leb, ltb, if◌then◌else◌, or_else, is_defined, get_or,
}
use starterm.Base.{Result, ok, throw, invalid_node, type_error, ◌>>=◌}
use starterm.Base.Int.{ℤ, pos, negsuc}
use starterm.Layout.Types.Nodes.{
  FlexDirection, row, reverse_flex_direction, flex_eq, TabLayoutData, Info, LayoutNode, leaf,
  branch, Nodes, nil, cons, default_node_size, info, id_of, with_info, with_flex, children_of,
  count_nodes, ◌+++◌, insert_at, remove_at, index_of,
}

-- validateNode: exactly one of children and data, and no empty array of children.
unfoldable pub validate_node : LayoutNode → Bool
validate_node (leaf i none) = false
validate_node (leaf i (some d)) = true
validate_node (branch i (some d) cs) = false
validate_node (branch i none nil) = false
validate_node (branch i none (cons c cs)) = true

abbrev build : Info → Option Nodes → Option TabLayoutData → LayoutNode
build i none d = leaf i d
build i (some cs) d = branch i d cs

-- newLayoutNode, with the id that `randomUUID` gives it.
unfoldable pub new_layout_node :
    String
    → Option FlexDirection
    → Option ℤ
    → Option Nodes
    → Option TabLayoutData
    → Result LayoutNode
unfolding validate_node
new_layout_node uuid flex size children data' =
    let n =
      build
        (record {
          id = uuid;
          flex_direction = get_or flex row;
          size = get_or size default_node_size;
        })
        children data' in
    if validate_node n then ok n else throw invalid_node

abbrev with_id : String → Info → Info
with_id u i = record i { id = u }

-- addIntermediateNode: the node keeps its place and gives its id to the intermediate node.
unfoldable pub add_intermediate_node : (ℕ → String) → LayoutNode → Result LayoutNode
unfolding new_layout_node
add_intermediate_node fresh (leaf i (some d)) = do
  inter ←
      new_layout_node (fresh 0) (some (reverse_flex_direction i.flex_direction)) none none (some d)
  ok (branch (with_id (fresh 0) i) none (cons (with_info (with_id i.id (info inter)) inter) nil))
add_intermediate_node fresh (branch i (some d) cs) = do
  inter ←
      new_layout_node (fresh 0) (some (reverse_flex_direction i.flex_direction)) none none (some d)
  ok (branch (with_id (fresh 0) i) none (cons (with_info (with_id i.id (info inter)) inter) nil))
add_intermediate_node fresh (leaf i none) =
    new_layout_node (fresh 0) (some i.flex_direction) none none none
add_intermediate_node fresh (branch i none cs) = do
  inner ← new_layout_node (fresh 0) (some i.flex_direction) none (some cs) none
  inter ←
      new_layout_node (fresh 1) (some (reverse_flex_direction i.flex_direction)) none
        (some (cons inner nil)) none
  ok (branch (with_id (fresh 1) i) none (cons (with_info (with_id i.id (info inter)) inter) nil))

-- The flatMap of addChildAt over one child.
abbrev pub to_add : FlexDirection → LayoutNode → Nodes
to_add f (leaf i d) =
    if flex_eq i.flex_direction f
    then cons (with_flex (reverse_flex_direction f) (leaf i d)) nil
    else cons (leaf i d) nil
to_add f (branch i d cs) = if flex_eq i.flex_direction f then cs else cons (branch i d cs) nil

abbrev pub children_to_add : FlexDirection → Nodes → Nodes
children_to_add f nil = nil
children_to_add f (cons c cs) = to_add f c +++ children_to_add f cs

-- push at an index past the end, splice within, nothing at a negative index.
unfoldable pub place : ℤ → Nodes → Nodes → Nodes
place (negsuc k) ds cs = cs
place (pos i) ds cs = if leb (count_nodes cs) i then cs +++ ds else insert_at i ds cs

-- The end of addChildAt, on a node that has children.
abbrev pub add_children : ℤ → Nodes → LayoutNode → Result LayoutNode
add_children idx ds (leaf i d) = throw type_error
add_children idx ds (branch i d cs) =
    ok (branch i d (place idx (children_to_add i.flex_direction ds) cs))

-- addChildAt
unfoldable pub add_child_at : (ℕ → String) → LayoutNode → ℤ → Nodes → Result LayoutNode
unfolding add_intermediate_node place
add_child_at fresh n idx nil = ok n
add_child_at fresh (leaf i d) idx (cons c cs) = do
  n ← add_intermediate_node fresh (leaf i d)
  add_children idx (cons c cs) n
add_child_at fresh (branch i d ds) idx (cons c cs) = add_children idx (cons c cs) (branch i d ds)

-- indexOf(childToRemove, startingIndex): a negative start counts from the end.
abbrev from_index : ℕ → ℤ → ℕ
from_index len (pos i) = i
from_index len (negsuc i) = len - suc i

abbrev remove_from : String → ℕ → Nodes → Nodes
remove_from id start nil = nil
remove_from id zero (cons c cs) =
    let rest = remove_from id zero cs in if id_of c === id then cs else cons c rest
remove_from id (suc start) (cons c cs) = cons c (remove_from id start cs)

-- removeChild; the child is given by its id.
unfoldable pub remove_child : LayoutNode → String → ℤ → LayoutNode
remove_child (leaf i d) id start = leaf i d
remove_child (branch i d cs) id start =
    branch i d (remove_from id (from_index (count_nodes cs) start) cs)

-- findNode; `undefined` is `none`.
unfoldable mutual
  pub find_node : LayoutNode → String → Option LayoutNode
  find_node (leaf i d) id = if i.id === id then some (leaf i d) else none
  find_node (branch i d cs) id =
      let rest = find_nodes cs id in if i.id === id then some (branch i d cs) else rest

  pub find_nodes : Nodes → String → Option LayoutNode
  find_nodes nil id = none
  find_nodes (cons c cs) id = let rest = find_nodes cs id in or_else (find_node c id) rest

-- findParent
unfoldable mutual
  pub find_parent : LayoutNode → String → Option LayoutNode
  find_parent (leaf i d) id = none
  find_parent (branch i d cs) id =
      let rest = find_in_children (branch i d cs) cs id in if i.id === id then none else rest

  pub find_in_children : LayoutNode → Nodes → String → Option LayoutNode
  find_in_children n nil id = none
  find_in_children n (cons c cs) id =
      let rest = find_in_children n cs id in
      let below = find_parent c id in if id_of c === id then some n else or_else below rest

-- An assignment to the object that `find_node` finds: the first node with the id is replaced.
unfoldable mutual
  pub write_node : LayoutNode → String → LayoutNode → LayoutNode
  write_node (leaf i d) id n = if i.id === id then n else leaf i d
  write_node (branch i d cs) id n =
      let rest = write_nodes cs id n in if i.id === id then n else branch i d rest

  pub write_nodes : Nodes → String → LayoutNode → Nodes
  write_nodes nil id n = nil
  write_nodes (cons c cs) id n =
      let rest = write_nodes cs id n in
      let here = write_node c id n in
      if is_defined (find_node c id) then cons here cs else cons c rest
