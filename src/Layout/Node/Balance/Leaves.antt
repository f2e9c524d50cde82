-- ===== src/Layout/Node/Balance/Leaves.antt =====
-- Balancing keeps the leafs.
use starterm.Base.{
  Option, none, some, ◌++◌, ◌≡◌, refl, sym, ap, ◌∙◌, append-nil, Bool-cases, inl, inr,
}
use starterm.Base.{ok, returned, ok_inj, throw_ne_ok}
use mathlib.Core.Path.{ap₂}
use starterm.Layout.Types.Nodes.{
  FlexDirection, TabLayoutData, Info, LayoutNode, leaf, branch, Nodes, nil, cons, flex_of,
}
use starterm.Layout.Node.{validate_node}
use starterm.Layout.Node.Leaves.{leafs, leafs_of, leafs_of-+++}
use starterm.Layout.Node.Balance.{
  turned, child_direction, collapse, walk, walk_children, walk_spliced, balance_node,
}

leafs-collapse :
    (i : Info) (d : Option TabLayoutData) (cs : Nodes) → leafs (collapse i d cs) ≡ leafs_of cs
unfolding leafs
leafs-collapse i d nil = refl
leafs-collapse i d (cons (leaf j none) nil) = refl
leafs-collapse i d (cons (leaf j (some e)) nil) = refl
leafs-collapse i d (cons (branch j e cs) nil) = refl
leafs-collapse i d (cons (leaf j e) (cons c cs)) = refl
leafs-collapse i d (cons (branch j e bs) (cons c cs)) = refl

leafs-turned :
    (f : FlexDirection) (i : Info) (d : Option TabLayoutData)
    → leafs (leaf (turned f i) d) ≡ leafs (leaf i d)
unfolding leafs
leafs-turned f i none = refl
leafs-turned f i (some d) = refl

mutual
  unfolding walk leafs

  leafs-walk :
      (f : FlexDirection) (n : LayoutNode) (n' : LayoutNode) → walk f n ≡ ok n' → leafs n' ≡ leafs n
  leafs-walk f (leaf i d) n' h = elim (Bool-cases (validate_node (leaf i d))) [
    | inl e ↦ ap leafs (sym (ok_inj (rw e at h))) ∙ leafs-turned f i d
    | inr e ↦ absurd (throw_ne_ok (rw e at h))
  ]
  leafs-walk f (branch i d cs) n' h = elim (Bool-cases (validate_node (branch i d cs))) [
    | inl e ↦
        let (ds, p, q) = returned (walk_children f cs) _ (rw e at h) in
        ap leafs (sym (ok_inj q)) ∙ leafs-collapse _ d ds ∙ leafs-walk_children f cs ds p
    | inr e ↦ absurd (throw_ne_ok (rw e at h))
  ]

  leafs-walk_children :
      (f : FlexDirection) (cs : Nodes) (ds : Nodes)
      → walk_children f cs ≡ ok ds
      → leafs_of ds ≡ leafs_of cs
  leafs-walk_children f nil ds h = ap leafs_of (sym (ok_inj h))
  leafs-walk_children f (cons (branch i d nil) cs) ds h = leafs-walk_children f cs ds h
  leafs-walk_children f (cons (branch i d (cons (branch j e gs) nil)) cs) ds h =
      let (hs, p, q) = returned (walk_spliced gs) _ h in
      let (rest, r, s) = returned (walk_children f cs) _ q in
      ap leafs_of (sym (ok_inj s))
      ∙ leafs_of-+++ hs rest
      ∙ ap₂ ◌++◌ (leafs-walk_spliced gs hs p ∙ sym (append-nil _)) (leafs-walk_children f cs rest r)
  leafs-walk_children f (cons (branch i d (cons (leaf j e) nil)) cs) ds h =
      let (c, p, q) =
        returned (walk (child_direction f i.flex_direction) (branch i d (cons (leaf j e) nil))) _
          h in
      let (rest, r, s) = returned (walk_children f cs) _ q in
      ap leafs_of (sym (ok_inj s))
      ∙ ap₂ ◌++◌ (leafs-walk _ (branch i d (cons (leaf j e) nil)) c p)
          (leafs-walk_children f cs rest r)
  leafs-walk_children f (cons (branch i d (cons b (cons b' bs))) cs) ds h =
      let (c, p, q) =
        returned (walk (child_direction f i.flex_direction) (branch i d (cons b (cons b' bs)))) _
          h in
      let (rest, r, s) = returned (walk_children f cs) _ q in
      ap leafs_of (sym (ok_inj s))
      ∙ ap₂ ◌++◌ (leafs-walk _ (branch i d (cons b (cons b' bs))) c p)
          (leafs-walk_children f cs rest r)
  leafs-walk_children f (cons (leaf i d) cs) ds h =
      let (c, p, q) = returned (walk (child_direction f i.flex_direction) (leaf i d)) _ h in
      let (rest, r, s) = returned (walk_children f cs) _ q in
      ap leafs_of (sym (ok_inj s))
      ∙ ap₂ ◌++◌ (leafs-walk _ (leaf i d) c p) (leafs-walk_children f cs rest r)

  leafs-walk_spliced :
      (gs : Nodes) (hs : Nodes) → walk_spliced gs ≡ ok hs → leafs_of hs ≡ leafs_of gs
  leafs-walk_spliced nil hs h = ap leafs_of (sym (ok_inj h))
  leafs-walk_spliced (cons g gs) hs h =
      let (c, p, q) = returned (walk (flex_of g) g) _ h in
      let (rest, r, s) = returned (walk_spliced gs) _ q in
      ap leafs_of (sym (ok_inj s))
      ∙ ap₂ ◌++◌ (leafs-walk (flex_of g) g c p) (leafs-walk_spliced gs rest r)

-- Balancing a tree keeps its leafs: the same node ids with the same data, in the same order.
pub leafs-balance_node :
    (n : LayoutNode) {n' : LayoutNode} → balance_node n ≡ ok n' → leafs n' ≡ leafs n
unfolding balance_node
leafs-balance_node n {n'} h = leafs-walk (flex_of n) n n' h
