-- ===== src/Layout/Tree/Compute.antt =====
-- computeMoveNode of frontend/layout/lib/layoutTree.ts: from a drop on a node to an action.
use starterm.Base.{
  ℕ, String, Option, none, some, Bool, true, false, ◌===◌, ◌&&◌, ◌||◌, if◌then◌else◌, Result, ok,
  throw, type_error, ◌>>=◌, nat_eq, nat_eq,
}
use starterm.Base.Int.{ℤ, pos, negsuc, ◌+ℤ◌}
use starterm.Layout.Types.Nodes.{FlexDirection, row, column, flex_eq, LayoutNode, id_of, flex_of}
use starterm.Layout.Node.{find_node, find_parent}
use starterm.Layout.Tree.{is_unset}
use starterm.Layout.Tree.Move.{MoveAction, index_in}

-- DropDirection of types.ts, in its order.
pub data DropDirection : Type 0 where
  top right bottom left : DropDirection
  outer_top outer_right outer_bottom outer_left center : DropDirection

-- MoveOperation; its node is always the node to move.
pub record MoveOperation : Type 0 where
  pub parent_id : Option String
  pub index : ℤ
  pub insert_at_root : Bool

-- What computeMoveNode returns: `undefined`, a swap of two ids, or a move.
pub data Computed : Type 0 where
  nothing : Computed
  swap : String → String → Computed
  move : MoveAction → Computed

-- The children of a node of the tree that the switch reads: the node, its place, and the root test.
pub record Site : Type 0 where
  pub root : LayoutNode
  pub node : LayoutNode

abbrev parent_of : Site → Option LayoutNode
parent_of s = find_parent s.root (id_of s.node)

-- `grandparent()`: reading the id of a parent that is not there is a TypeError.
abbrev grandparent_of : Site → Result (Option LayoutNode)
grandparent_of s = elim (parent_of s) [
  | none ↦ throw type_error
  | some p ↦ ok (find_parent s.root (id_of p))
]

abbrev into : LayoutNode → ℤ → MoveOperation
into p k = record { parent_id = some (id_of p); index = k; insert_at_root = false }

-- The place beside a node in its parent, `offset` further on.
abbrev beside : Option LayoutNode → LayoutNode → ℤ → Option MoveOperation
beside none n offset = none
beside (some p) n offset = some (into p (index_in p (id_of n) +ℤ offset))

-- The cases Top, Bottom, Left and Right: inside the node at `inner`, if it runs along `f`; else
-- beside it in its parent; else, for Top and Bottom, at the root.
unfoldable pub near : Site → FlexDirection → Bool → ℕ → Option MoveOperation
unfolding find_parent
near s f may_root inner =
    if flex_eq (flex_of s.node) f
    then some (into s.node (pos inner))
    else elim (beside (parent_of s) s.node (pos inner)) [
      | some op ↦ some op
      | none ↦
          if may_root && (id_of s.root === id_of s.node)
          then some (record { parent_id = none; index = pos inner; insert_at_root = true })
          else none
    ]

-- The outer cases: beside the parent in the grandparent, if there is one and the node runs along
-- `f`; else the case below falls through.
unfoldable pub outer : Site → FlexDirection → Bool → ℕ → Result (Option MoveOperation)
unfolding near find_parent
outer s f may_root inner =
    if flex_eq (flex_of s.node) f
    then (do
      g ← grandparent_of s
      elim g [
        | none ↦ ok (near s f may_root inner)
        | some gp ↦ elim (parent_of s) [
          | none ↦ throw type_error
          | some p ↦ ok (some (into gp (index_in gp (id_of p) +ℤ pos inner)))
        ]
      ])
    else ok (near s f may_root inner)

-- The switch, but for Center.
unfoldable pub operation : Site → DropDirection → Result (Option MoveOperation)
unfolding near outer
operation s top = ok (near s column true 0)
operation s bottom = ok (near s column true 1)
operation s left = ok (near s row false 0)
operation s right = ok (near s row false 1)
operation s outer_top = outer s column true 0
operation s outer_bottom = outer s column true 1
operation s outer_left = outer s row false 0
operation s outer_right = outer s row false 1
operation s center = ok none

abbrev same_id : Option String → Option LayoutNode → Bool
same_id none none = true
same_id none (some p) = false
same_id (some s) none = false
same_id (some s) (some p) = s === id_of p

abbrev eq_ℤ : ℤ → ℤ → Bool
eq_ℤ (pos a) (pos b) = nat_eq a b
eq_ℤ (negsuc a) (negsuc b) = nat_eq a b
eq_ℤ _ _ = false

abbrev to_move : LayoutNode → MoveOperation → MoveAction
to_move n op = record {
  node = some n;
  index = op.index;
  parent_id = op.parent_id;
  insert_at_root = op.insert_at_root;
}

-- The action without an operation: `{ type: Move }`.
abbrev pub empty_move : MoveAction
empty_move = record { node = none; index = pos 0; parent_id = none; insert_at_root = false }

-- The test at the end: no action where the node would stay in its place. Without an operation and
-- without a parent of the node to move it reads the index of `undefined`.
unfoldable pub conclude : LayoutNode → LayoutNode → Option MoveOperation → Result Computed
unfolding find_parent
conclude root n none = elim (find_parent root (id_of n)) [
  | none ↦ throw type_error
  | some p ↦ ok (move empty_move)
]
conclude root n (some op) =
    let old = find_parent root (id_of n) in
    elim old [
      | none ↦ ok (move (to_move n op))
      | some p ↦
          let k = index_in p (id_of n) in
          if same_id op.parent_id (some p) && (eq_ℤ op.index k || eq_ℤ op.index (k +ℤ pos 1))
          then ok nothing
          else ok (move (to_move n op))
    ]

-- computeMoveNode, for a direction that is given.
unfoldable pub compute_move_node : LayoutNode → String → String → DropDirection → Result Computed
unfolding operation conclude find_node
compute_move_node root node_id node_to_move_id direction =
    if is_unset node_id || is_unset node_to_move_id || node_id === node_to_move_id
    then ok nothing
    else elim (find_node root node_id) [
      | none ↦ ok nothing
      | some node ↦ elim (find_node root node_to_move_id) [
        | none ↦ ok nothing
        | some n ↦ elim direction [
          | center ↦
              if node_id === id_of root || node_to_move_id === id_of root
              then conclude root n none
              else ok (swap node_id node_to_move_id)
          | other ↦ operation (record { root = root; node = node }) other >>= conclude root n
        ]
      ]
    ]
