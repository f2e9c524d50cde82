-- ===== src/Layout/Tree/Replace.antt =====
-- replaceNode, splitHorizontal and splitVertical of frontend/layout/lib/layoutTree.ts.
use starterm.Base.{
  ℕ, suc, String, Option, none, some, Bool, ◌===◌, if◌then◌else◌, Outcome, done, thrown, run,
  Result, ok, type_error, ◌>>=◌,
}
use starterm.Layout.Types.Nodes.{
  FlexDirection, row, column, flex_eq, LayoutNode, leaf, branch, Nodes, nil, cons, id_of, flex_of,
  size_of, with_size, insert_at, set_at,
}
use starterm.Layout.Node.{new_layout_node, find_node, find_parent, write_node}
use starterm.Layout.Tree.{LayoutTreeState, bump, with_root, focus_if, child_with_id}

-- `parent.children[k] = n` on the parent itself.
abbrev pub set_in : LayoutNode → ℕ → LayoutNode → LayoutNode
set_in (leaf i d) k n = leaf i d
set_in (branch i d cs) k n = branch i d (set_at k n cs)

-- `parent.children.splice(k, 0, n)`
abbrev pub splice_in : LayoutNode → ℕ → LayoutNode → LayoutNode
splice_in (leaf i d) k n = leaf i d
splice_in (branch i d cs) k n = branch i d (insert_at k (cons n nil) cs)

-- The branch of replaceNode below the root; `none` is its early return.
unfoldable pub replace_in : LayoutNode → String → LayoutNode → Option LayoutNode
unfolding find_parent child_with_id write_node
replace_in root target n = elim (find_parent root target) [
  | none ↦ none
  | some p ↦ elim (child_with_id p target) [
    | none ↦ none
    | some (k, c) ↦ some (write_node root (id_of p) (set_in p k (with_size (size_of c) n)))
  ]
]

unfoldable pub replace_node : LayoutTreeState → String → LayoutNode → Bool → Outcome LayoutTreeState
unfolding replace_in
replace_node s target n focused = elim s.root_node [
  | none ↦ thrown type_error s
  | some root ↦
      if id_of root === target
      then done (bump (focus_if focused (id_of n) (with_root (with_size (size_of root) n) s)))
      else elim (replace_in root target n) [
        | none ↦ done s
        | some t ↦ done (bump (focus_if focused (id_of n) (with_root t s)))
      ]
]

pub data Position : Type 0 where
  before after : Position

-- `[newNode, targetNode]` or `[targetNode, newNode]`
abbrev pub ordered : Position → LayoutNode → LayoutNode → Nodes
ordered before n target = cons n (cons target nil)
ordered after n target = cons target (cons n nil)

abbrev pub insert_index : Position → ℕ → ℕ
insert_index before k = k
insert_index after k = suc k

abbrev with_children : Nodes → LayoutNode → LayoutNode
with_children cs (leaf i d) = branch i d cs
with_children cs (branch i d _) = branch i d cs

-- The group node that takes the target's place.
unfoldable pub group_node :
    (ℕ → String) → FlexDirection → LayoutNode → LayoutNode → Position → Result LayoutNode
unfolding new_layout_node
group_node fresh f target n position = do
  g ← new_layout_node (fresh 0) (some f) (some (size_of target)) (some (cons target nil)) none
  ok (with_children (ordered position n target) g)

-- splitHorizontal is the split along rows, and splitVertical that along columns: the two functions
-- differ in nothing else. `ok none` is an early return.
unfoldable pub split_in :
    FlexDirection
    → (ℕ → String)
    → LayoutNode
    → LayoutNode
    → String
    → LayoutNode
    → Position
    → Result (Option LayoutNode)
unfolding find_parent child_with_id write_node
split_in f fresh root target id n position = elim (find_parent root id) [
  | none ↦ do g ← group_node fresh f target n position; ok (some g)
  | some p ↦
      if flex_eq (flex_of p) f
      then elim (child_with_id p id) [
        | none ↦ ok none
        | some (k, c) ↦
            ok (some (write_node root (id_of p) (splice_in p (insert_index position k) n)))
      ]
      else do
        g ← group_node fresh f target n position
        elim (child_with_id p id) [
          | none ↦ ok none
          | some (k, c) ↦ ok (some (write_node root (id_of p) (set_in p k g)))
        ]
]

unfoldable pub split :
    FlexDirection
    → (ℕ → String)
    → LayoutTreeState
    → String
    → LayoutNode
    → Position
    → Bool
    → Outcome LayoutTreeState
unfolding split_in find_node
split f fresh s id n position focused = elim s.root_node [
  | none ↦ done s
  | some root ↦ elim (find_node root id) [
    | none ↦ done s
    | some target ↦ run s (split_in f fresh root target id n position) λ r. elim r [
      | none ↦ done s
      | some t ↦ done (bump (focus_if focused (id_of n) (with_root t s)))
    ]
  ]
]

unfoldable pub split_horizontal :
    (ℕ → String) → LayoutTreeState → String → LayoutNode → Position → Bool → Outcome LayoutTreeState
unfolding split
split_horizontal = split row

unfoldable pub split_vertical :
    (ℕ → String) → LayoutTreeState → String → LayoutNode → Position → Bool → Outcome LayoutTreeState
unfolding split
split_vertical = split column
