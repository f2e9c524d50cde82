-- ===== src/Layout/Node/Balance/Alternation.antt =====
-- Balancing keeps the alternation of directions.
use starterm.Base.{Option, ◌≡◌, refl, sym, ap, ◌∙◌, Bool-cases, inl, inr}
use mathlib.Core.Path.{subst}
use starterm.Base.{ok, returned, ok_inj, throw_ne_ok}
use starterm.Layout.Types.Nodes.{
  FlexDirection, row, column, reverse_flex_direction, TabLayoutData, Info, LayoutNode, leaf, branch,
  Nodes, nil, cons, flex_of, ◌+++◌,
}
use starterm.Layout.Node.{validate_node}
use starterm.Layout.Node.Shape.{IsAlternating, AreAlternating}
use starterm.Layout.Node.Balance.{
  turned, child_direction, collapse, walk, walk_children, walk_spliced, balance_node,
}

AreAlternating-+++ :
    (f : FlexDirection) (cs ds : Nodes)
    → AreAlternating f cs
    → AreAlternating f ds
    → AreAlternating f (cs +++ ds)
AreAlternating-+++ f nil ds h k = k
AreAlternating-+++ f (cons c cs) ds (e, p, h) k = (e, p, AreAlternating-+++ f cs ds h k)

child_direction-eq-reverse : (f g : FlexDirection) → child_direction f g ≡ reverse_flex_direction f
child_direction-eq-reverse row row = refl
child_direction-eq-reverse row column = refl
child_direction-eq-reverse column row = refl
child_direction-eq-reverse column column = refl

reverse_twice : (f : FlexDirection) → reverse_flex_direction (reverse_flex_direction f) ≡ f
reverse_twice row = refl
reverse_twice column = refl

collapse-IsAlternating :
    (f : FlexDirection) (i : Info) (d : Option TabLayoutData) (cs : Nodes)
    → AreAlternating (reverse_flex_direction f) cs
    → (flex_of (collapse (turned f i) d cs) ≡ f) × IsAlternating (collapse (turned f i) d cs)
collapse-IsAlternating f i d nil h = (refl, tt)
collapse-IsAlternating f i d (cons (leaf j e) nil) h = (refl, tt)
collapse-IsAlternating f i d (cons (branch j e bs) nil) h = (refl, h)
collapse-IsAlternating f i d (cons (leaf j e) (cons c cs)) h = (refl, h)
collapse-IsAlternating f i d (cons (branch j e bs) (cons c cs)) h = (refl, h)

mutual
  unfolding walk

  walk-IsAlternating :
      (f : FlexDirection) (n : LayoutNode) (n' : LayoutNode)
      → flex_of n ≡ f
      → IsAlternating n
      → walk f n ≡ ok n'
      → (flex_of n' ≡ f) × IsAlternating n'
  walk-IsAlternating f (leaf i d) n' e a h = elim (Bool-cases (validate_node (leaf i d))) [
    | inl v ↦ subst (λ t. (flex_of t ≡ f) × IsAlternating t) (ok_inj (rw v at h)) (refl, tt)
    | inr v ↦ absurd (throw_ne_ok (rw v at h))
  ]
  walk-IsAlternating f (branch i d cs) n' e a h =
      elim (Bool-cases (validate_node (branch i d cs))) [
        | inl v ↦
            let (ds, p, q) = returned (walk_children f cs) _ (rw v at h) in
            subst (λ t. (flex_of t ≡ f) × IsAlternating t) (ok_inj q)
              (collapse-IsAlternating f i d ds (
                walk_children-IsAlternating f cs ds
                  (subst (λ g. AreAlternating (reverse_flex_direction g) cs) e a) p))
        | inr v ↦ absurd (throw_ne_ok (rw v at h))
      ]

  walk_children-IsAlternating :
      (f : FlexDirection) (cs : Nodes) (ds : Nodes)
      → AreAlternating (reverse_flex_direction f) cs
      → walk_children f cs ≡ ok ds
      → AreAlternating (reverse_flex_direction f) ds
  walk_children-IsAlternating f nil ds a h =
      subst (AreAlternating (reverse_flex_direction f)) (ok_inj h) tt
  walk_children-IsAlternating f (cons (branch i d nil) cs) ds a h =
      walk_children-IsAlternating f cs ds a.2 h
  walk_children-IsAlternating f (cons (branch i d (cons (branch j e gs) nil)) cs) ds a h =
      let (hs, p, q) = returned (walk_spliced gs) _ h in
      let (rest, r, s) = returned (walk_children f cs) _ q in
      let turned_twice : reverse_flex_direction j.flex_direction ≡ reverse_flex_direction f =
        ap reverse_flex_direction (a.1.0 ∙ ap reverse_flex_direction a.0 ∙ reverse_twice f) in
      subst (AreAlternating (reverse_flex_direction f)) (ok_inj s) (
        AreAlternating-+++ _ hs rest
          (walk_spliced-IsAlternating (reverse_flex_direction f) gs hs
            (subst (λ g. AreAlternating g gs) turned_twice a.1.1) p)
          (walk_children-IsAlternating f cs rest a.2 r))
  walk_children-IsAlternating f (cons (branch i d (cons (leaf j e) nil)) cs) ds a h =
      let (c, p, q) =
        returned (walk (child_direction f i.flex_direction) (branch i d (cons (leaf j e) nil))) _
          h in
      let (rest, r, s) = returned (walk_children f cs) _ q in
      let (e', k) =
        walk-IsAlternating (child_direction f i.flex_direction) (branch i d (cons (leaf j e) nil)) c
          (a.0 ∙ sym (child_direction-eq-reverse f i.flex_direction)) a.1 p in
      subst (AreAlternating (reverse_flex_direction f)) (ok_inj s) (
        e' ∙ child_direction-eq-reverse f i.flex_direction,
        k,
        walk_children-IsAlternating f cs rest a.2 r,
      )
  walk_children-IsAlternating f (cons (branch i d (cons b (cons b' bs))) cs) ds a h =
      let (c, p, q) =
        returned (walk (child_direction f i.flex_direction) (branch i d (cons b (cons b' bs)))) _
          h in
      let (rest, r, s) = returned (walk_children f cs) _ q in
      let (e', k) =
        walk-IsAlternating (child_direction f i.flex_direction) (branch i d (cons b (cons b' bs))) c
          (a.0 ∙ sym (child_direction-eq-reverse f i.flex_direction)) a.1 p in
      subst (AreAlternating (reverse_flex_direction f)) (ok_inj s) (
        e' ∙ child_direction-eq-reverse f i.flex_direction,
        k,
        walk_children-IsAlternating f cs rest a.2 r,
      )
  walk_children-IsAlternating f (cons (leaf i d) cs) ds a h =
      let (c, p, q) = returned (walk (child_direction f i.flex_direction) (leaf i d)) _ h in
      let (rest, r, s) = returned (walk_children f cs) _ q in
      let (e', k) =
        walk-IsAlternating (child_direction f i.flex_direction) (leaf i d) c
          (a.0 ∙ sym (child_direction-eq-reverse f i.flex_direction)) a.1 p in
      subst (AreAlternating (reverse_flex_direction f)) (ok_inj s) (
        e' ∙ child_direction-eq-reverse f i.flex_direction,
        k,
        walk_children-IsAlternating f cs rest a.2 r,
      )

  walk_spliced-IsAlternating :
      (f : FlexDirection) (gs : Nodes) (hs : Nodes)
      → AreAlternating f gs
      → walk_spliced gs ≡ ok hs
      → AreAlternating f hs
  walk_spliced-IsAlternating f nil hs a h = subst (AreAlternating f) (ok_inj h) tt
  walk_spliced-IsAlternating f (cons g gs) hs a h =
      let (c, p, q) = returned (walk (flex_of g) g) _ h in
      let (rest, r, s) = returned (walk_spliced gs) _ q in
      let (e', k) = walk-IsAlternating (flex_of g) g c refl a.1 p in
      subst (AreAlternating f) (ok_inj s) (e' ∙ a.0, k, walk_spliced-IsAlternating f gs rest a.2 r)

-- If the directions of a tree change at every level, balancing keeps that, and the root's
-- direction.
pub balance_node-IsAlternating :
    (n : LayoutNode) {n' : LayoutNode}
    → IsAlternating n
    → balance_node n ≡ ok n'
    → (flex_of n' ≡ flex_of n) × IsAlternating n'
unfolding balance_node
balance_node-IsAlternating n {n'} a h = walk-IsAlternating (flex_of n) n n' refl a h
