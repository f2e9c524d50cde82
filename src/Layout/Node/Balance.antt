-- ===== src/Layout/Node/Balance.antt =====
-- balanceNode of frontend/layout/lib/layoutNode.ts, with the walk of walkNodes.
--
-- The walk rewrites the children of a node, goes down to the rewritten children, and cleans the
-- node up on the way back. The callbacks of the caller are not called here.
pub mod Leaves
pub mod Normal
pub mod Alternation
use starterm.Base.{
  String, Option, none, some, if◌then◌else◌, Result, ok, throw, invalid_node, ◌>>=◌,
}
use starterm.Layout.Types.Nodes.{
  FlexDirection, flex_eq, reverse_flex_direction, TabLayoutData, Info, LayoutNode, leaf, branch,
  Nodes, nil, cons, flex_of, ◌+++◌,
}
use starterm.Layout.Node.{validate_node}

-- The direction that the walk leaves to a child with direction `g` below a node with direction `f`.
abbrev pub child_direction : FlexDirection → FlexDirection → FlexDirection
child_direction f g = if flex_eq g f then reverse_flex_direction f else g

-- The callback after the walk: a node whose only child is a leaf becomes that leaf.
abbrev pub collapse : Info → Option TabLayoutData → Nodes → LayoutNode
collapse i d (cons (leaf j e) nil) = leaf (record i { id = j.id }) e
collapse i d cs = branch i d cs

abbrev pub turned : FlexDirection → Info → Info
turned f i = record i { flex_direction = f }

-- `walk f n` is the walk of a node whose direction has been set to `f`; `walk_children f` that of
-- the children of a node with direction `f`; `walk_spliced` that of grandchildren which have taken
-- the place of a child, and keep their direction.
unfoldable mutual
  pub walk : FlexDirection → LayoutNode → Result LayoutNode
  walk f (leaf i d) =
      if validate_node (leaf i d) then ok (leaf (turned f i) d) else throw invalid_node
  walk f (branch i d cs) =
      let rest = walk_children f cs in
      if validate_node (branch i d cs)
      then rest >>= (λ ds. ok (collapse (turned f i) d ds))
      else throw invalid_node

  pub walk_children : FlexDirection → Nodes → Result Nodes
  walk_children f nil = ok nil
  walk_children f (cons (branch i d nil) cs) = walk_children f cs
  walk_children f (cons (branch i d (cons (branch j e gs) nil)) cs) = do
    hs ← walk_spliced gs
    ds ← walk_children f cs
    ok (hs +++ ds)
  walk_children f (cons (branch i d (cons (leaf j e) nil)) cs) = do
    c ← walk (child_direction f i.flex_direction) (branch i d (cons (leaf j e) nil))
    ds ← walk_children f cs
    ok (cons c ds)
  walk_children f (cons (branch i d (cons b (cons b' bs))) cs) = do
    c ← walk (child_direction f i.flex_direction) (branch i d (cons b (cons b' bs)))
    ds ← walk_children f cs
    ok (cons c ds)
  walk_children f (cons (leaf i d) cs) = do
    c ← walk (child_direction f i.flex_direction) (leaf i d)
    ds ← walk_children f cs
    ok (cons c ds)

  pub walk_spliced : Nodes → Result Nodes
  walk_spliced nil = ok nil
  walk_spliced (cons g gs) = do c ← walk (flex_of g) g; ds ← walk_spliced gs; ok (cons c ds)

-- balanceNode
unfoldable pub balance_node : LayoutNode → Result LayoutNode
unfolding walk
balance_node n = walk (flex_of n) n
