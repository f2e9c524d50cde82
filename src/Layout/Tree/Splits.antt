-- ===== src/Layout/Tree/Splits.antt =====
-- What a split does to the leafs of the layout.
use starterm.Base.{
  ℕ, ◌+◌, String, Option, some, Bool, true, ◌===◌, List, ◌++◌, ◌≡◌, refl, sym, ap, ◌∙◌, arith,
  Bool-cases, Option-cases, inl, inr, append-nil, eq_iff, some_inj,
}
use mathlib.Core.Path.{subst}
use starterm.Base.{done, Result, ok}
use starterm.Layout.Types.Nodes.{
  FlexDirection, flex_eq, LayoutNode, nil, cons, id_of, flex_of, insert_at,
}
use starterm.Layout.Node.{find_node, find_parent, write_node}
use starterm.Layout.Node.Find.{HasUniqueIds}
use starterm.Layout.Node.Find.Parent.{IsParentOf, find_parent-elem, find_self}
use starterm.Layout.Node.Find.Child.{Below, node-Below}
use starterm.Layout.Node.Leaves.{Entry, leafs, leafs_of, Within, Within-self}
use starterm.Layout.Node.Leaves.Children.{leafs_of-insert_before, leafs_of-insert_behind}
use starterm.Layout.Tree.{LayoutTreeState, bump, with_root, focus_if}
use starterm.Layout.Tree.Leaves.{
  child_with_id_lem, set_in-Within, through_parent, root-focus_if, generation-focus_if,
}
use starterm.Layout.Tree.Replace.{
  Position, before, after, ordered, insert_index, set_in, splice_in, group_node, split_in, split,
}

-- The leafs of the new node before those of the target, or behind them.
abbrev pub joined : Position → List Entry → List Entry → List Entry
joined before new old = new ++ old
joined after new old = old ++ new

leafs_of-ordered :
    (position : Position) (n target : LayoutNode)
    → leafs_of (ordered position n target) ≡ joined position (leafs n) (leafs target)
unfolding leafs
leafs_of-ordered before n target = ap (λ l. leafs n ++ l) (append-nil (leafs target))
leafs_of-ordered after n target = ap (λ l. leafs target ++ l) (append-nil (leafs n))

module _ (fresh : ℕ → String) (f : FlexDirection) (n : LayoutNode) (position : Position) where
  group_node_lem :
      (target : LayoutNode)
      → (g : LayoutNode) × (group_node fresh f target n position ≡ ok g)
        × (leafs g ≡ joined position (leafs n) (leafs target))
  unfolding group_node leafs
  group_node_lem target = (_, refl, leafs_of-ordered position n target)

  splice_in-Within :
      (p : LayoutNode) (s : String) (q : IsParentOf p s)
      → Within
          (leafs q.child)
          (joined position (leafs n) (leafs q.child))
          (leafs p)
          (leafs (splice_in p (insert_index position q.index) n))
  unfolding leafs
  splice_in-Within p s q =
      rw q.shape
        (elim position
          as (λ o.
            Within (leafs q.child) (joined o (leafs n) (leafs q.child)) (leafs_of q.children)
              (leafs_of (insert_at (insert_index o q.index) (cons n nil) q.children))) [
                | before ↦ leafs_of-insert_before q.children q.index q.child n q.is_child
                | after ↦ leafs_of-insert_behind q.children q.index q.child n q.is_child
              ])

  -- The tree that a split leaves, and its leafs.
  abbrev SplitOf : LayoutNode → LayoutNode → Result (Option LayoutNode) → Type 0
  SplitOf root target r =
      (t : LayoutNode) × (r ≡ ok (some t))
      × Within (leafs target) (joined position (leafs n) (leafs target)) (leafs root) (leafs t)

  split_in-Below :
      {root : LayoutNode} {s : String} {c : LayoutNode} (b : Below root s c)
      → SplitOf root c (split_in f fresh root c s n position)
  unfolding split_in
  split_in-Below {root} {s} {c} b = elim (Bool-cases (flex_eq (flex_of b.parent) f)) [
    | inl e ↦ (
      write_node root (id_of b.parent) (splice_in b.parent (insert_index position b.spot.index) n),
      rw (b.parent_eq, split_in) (rw e (rw (child_with_id_lem b.parent s b.spot) refl)),
      through_parent b _ (
          subst
            (λ x.
              Within (leafs b.spot.child) (joined position (leafs n) (leafs x)) (leafs b.parent)
                (leafs (splice_in b.parent (insert_index position b.spot.index) n)))
            b.child_eq (splice_in-Within b.parent s b.spot)),
    )
    | inr e ↦
        let (g, eq, same) = group_node_lem c in
        (
          write_node root (id_of b.parent) (set_in b.parent b.spot.index g),
          rw (b.parent_eq, split_in) (rw e (rw eq (rw (child_with_id_lem b.parent s b.spot) refl))),
          rw (← same) (through_parent b _ (set_in-Within b.parent s b.spot g)),
        )
  ]

  split_in_root :
      (root : LayoutNode) (s : String) (c : LayoutNode)
      → find_node root s ≡ some c
      → (id_of root === s) ≡ true
      → SplitOf root c (split_in f fresh root c s n position)
  unfolding split_in
  split_in_root root s c h e = elim (Option-cases (find_parent root s)) [
    | inl none' ↦
        let (g, eq, same) = group_node_lem c in
        let target_eq : root ≡ c =
          some_inj (sym (find_self root) ∙ ap (find_node root) ((eq_iff (id_of root) s).0 e) ∙ h) in
        (g, rw (none', split_in) (rw eq refl), rw (target_eq, ← same) Within-self)
    | inr (p, eq) ↦ absurd (ground (arith, find_parent-elem root s))
  ]

-- A split of any node of a tree with unique ids puts the leafs of the new node just before those of
-- the target, or just behind them, as its position says, and keeps all others, in their order. The
-- generation grows by one. This holds in both directions, with and without a new group.
pub split-Within :
    (f : FlexDirection) (fresh : ℕ → String) (st : LayoutTreeState) (root : LayoutNode) (s : String)
    (target n : LayoutNode) (position : Position) (focused : Bool)
    → st.root_node ≡ some root
    → HasUniqueIds root
    → find_node root s ≡ some target
    → (st' : LayoutTreeState) × (t : LayoutNode) × (split f fresh st s n position focused
        ≡ done st')
      × (st'.root_node ≡ some t)
      × Within (leafs target) (joined position (leafs n) (leafs target)) (leafs root) (leafs t)
      × (st'.generation ≡ st.generation + 1)
unfolding split
split-Within f fresh st root s target n position focused e u h =
    let (t, eq, w) : SplitOf fresh f n position root target
        (split_in f fresh root target s n position) =
      elim (Bool-cases (id_of root === s)) [
        | inl here ↦ split_in_root fresh f n position root s target h here
        | inr below ↦ split_in-Below fresh f n position (node-Below root s target u h below)
      ] in
    (
      bump (focus_if focused (id_of n) (with_root t st)),
      t,
      ground arith,
      root-focus_if focused (id_of n) (with_root t st),
      w,
      generation-focus_if focused (id_of n) (with_root t st),
    )
