-- ===== src/Layout/Node/Leaves.antt =====
-- The abstract view of a layout: its leafs from left to right, each with its node id and data.
pub mod Insertion
pub mod Children
use starterm.Base.{
  ℕ, zero, suc, ◌+◌, ◌≤◌, String, Option, none, some, Bool, true, false, ◌===◌, List, [], ◌∷◌, ◌++◌,
  if◌then◌else◌, ◌≡◌, refl, sym, ap, ◌∙◌, append_assoc, append-nil, arith, leb, Bool-cases, inl,
  inr, Option-cases, eq_iff,
}
use mathlib.Core.Path.{subst}
use starterm.Base.{some_inj, none_ne_some}
use starterm.Base.{Result, ok, throw, ◌>>=◌}
use starterm.Base.Int.{ℤ, pos, negsuc}
use starterm.Layout.Types.Nodes.{
  FlexDirection, reverse_flex_direction, flex_eq, TabLayoutData, Info, LayoutNode, leaf, branch,
  Nodes, nil, cons, info, id_of, with_flex, with_info, count_nodes, ◌+++◌, insert_at, size_of,
  with_size,
}
use starterm.Layout.Node.{
  find_node, find_nodes, write_node, write_nodes, to_add, children_to_add, place, add_children,
  add_child_at, add_intermediate_node, validate_node,
}

abbrev pub Entry : Type 0
Entry = String × TabLayoutData

unfoldable mutual
  pub leafs : LayoutNode → List Entry
  leafs (leaf i none) = []
  leafs (leaf i (some d)) = (i.id, d) ∷ []
  leafs (branch i d cs) = leafs_of cs

  pub leafs_of : Nodes → List Entry
  leafs_of nil = []
  leafs_of (cons c cs) = leafs c ++ leafs_of cs

-- How often a block is shown by the leafs.
unfoldable pub tally : String → List Entry → ℕ
tally b [] = 0
tally b ((i, d) ∷ es) = (if d.block_id === b then 1 else 0) + tally b es

pub tally-append : (b : String) (xs ys : List Entry) → tally b (xs ++ ys) ≡ tally b xs + tally b ys
unfolding tally
tally-append b [] ys = omega arith
tally-append b (x ∷ xs) ys = omega (arith, tally-append b xs ys)

pub leafs_of-+++ : (cs ds : Nodes) → leafs_of (cs +++ ds) ≡ leafs_of cs ++ leafs_of ds
unfolding leafs
leafs_of-+++ nil ds = refl
leafs_of-+++ (cons c cs) ds = rw (leafs_of-+++ cs ds) (sym (append_assoc (leafs c) _ _))

pub leafs-with_flex : (f : FlexDirection) (n : LayoutNode) → leafs (with_flex f n) ≡ leafs n
unfolding leafs
leafs-with_flex f (leaf i none) = refl
leafs-with_flex f (leaf i (some d)) = refl
leafs-with_flex f (branch i d cs) = refl

pub leafs-with_size : (s : ℤ) (n : LayoutNode) → leafs (with_size s n) ≡ leafs n
unfolding leafs
leafs-with_size s (leaf i none) = refl
leafs-with_size s (leaf i (some d)) = refl
leafs-with_size s (branch i d cs) = refl

pub leafs-to_add : (f : FlexDirection) (n : LayoutNode) → leafs_of (to_add f n) ≡ leafs n
unfolding leafs
leafs-to_add f (leaf i none) = elim (Bool-cases (flex_eq i.flex_direction f)) [
  | inl e ↦ rw e
  | inr e ↦ rw e
]
leafs-to_add f (leaf i (some d)) = elim (Bool-cases (flex_eq i.flex_direction f)) [
  | inl e ↦ rw e
  | inr e ↦ rw e
]
leafs-to_add f (branch i d cs) = elim (Bool-cases (flex_eq i.flex_direction f)) [
  | inl e ↦ rw e
  | inr e ↦ rw e (append-nil (leafs_of cs))
]

pub leafs-children_to_add :
    (f : FlexDirection) (cs : Nodes) → leafs_of (children_to_add f cs) ≡ leafs_of cs
unfolding leafs
leafs-children_to_add f nil = refl
leafs-children_to_add f (cons c cs) =
    rw (
      leafs_of-+++ (to_add f c) (children_to_add f cs),
      leafs-to_add f c,
      leafs-children_to_add f cs,
    )

-- What a write to the node found with an id does to the leafs: it acts inside a fixed context.
pub record Within (old new whole whole' : List Entry) : Type 0 where
  pub before : List Entry
  pub after : List Entry
  pub was : whole ≡ before ++ (old ++ after)
  pub becomes : whole' ≡ before ++ (new ++ after)

pub Within-self : {old new : List Entry} → Within old new old new
Within-self = record {
  before = [];
  after = [];
  was = sym (append-nil _);
  becomes = sym (append-nil _);
}

pub Within-left :
    {old new xs ys : List Entry} (front : List Entry)
    → Within old new xs ys
    → Within old new (front ++ xs) (front ++ ys)
Within-left front w = record {
  before = front ++ w.before;
  after = w.after;
  was = ap (λ l. front ++ l) w.was ∙ sym (append_assoc front _ _);
  becomes = ap (λ l. front ++ l) w.becomes ∙ sym (append_assoc front _ _);
}

regroup : (a b c d : List Entry) → (a ++ (b ++ c)) ++ d ≡ a ++ (b ++ (c ++ d))
regroup a b c d = simp append_assoc

regroup_both : (a b c d e : List Entry) → a ++ ((b ++ (c ++ d)) ++ e) ≡ (a ++ b) ++ (c ++ (d ++ e))
regroup_both a b c d e = simp append_assoc

pub Within-right :
    {old new xs ys : List Entry} (back : List Entry)
    → Within old new xs ys
    → Within old new (xs ++ back) (ys ++ back)
Within-right back w = record {
  before = w.before;
  after = w.after ++ back;
  was = ap (λ l. l ++ back) w.was ∙ regroup w.before _ _ back;
  becomes = ap (λ l. l ++ back) w.becomes ∙ regroup w.before _ _ back;
}

mutual
  unfolding find_node write_node leafs

  write_node-Within' :
      (t : LayoutNode) (id : String) (n m : LayoutNode)
      → find_node t id ≡ some n
      → Within (leafs n) (leafs m) (leafs t) (leafs (write_node t id m))
  write_node-Within' (leaf i d) id n m h = elim (Bool-cases (i.id === id)) [
    | inl e ↦ rw e (
        subst (λ k. Within (leafs k) (leafs m) (leafs (leaf i d)) (leafs m)) (some_inj (rw e at h))
          Within-self)
    | inr e ↦ absurd (none_ne_some (rw e at h))
  ]
  write_node-Within' (branch i d cs) id n m h = elim (Bool-cases (i.id === id)) [
    | inl e ↦ rw e (
        subst (λ k. Within (leafs k) (leafs m) (leafs_of cs) (leafs m)) (some_inj (rw e at h))
          Within-self)
    | inr e ↦ rw e (write_nodes-Within' cs id n m (rw e at h))
  ]

  write_nodes-Within' :
      (ts : Nodes) (id : String) (n m : LayoutNode)
      → find_nodes ts id ≡ some n
      → Within (leafs n) (leafs m) (leafs_of ts) (leafs_of (write_nodes ts id m))
  write_nodes-Within' nil id n m h = cc
  write_nodes-Within' (cons c cs) id n m h = elim (Option-cases (find_node c id)) [
    | inl e ↦ rw e (Within-left (leafs c) (write_nodes-Within' cs id n m (rw e at h)))
    | inr (k, e) ↦ rw e (Within-right (leafs_of cs) (write_node-Within' c id n m (e ∙ (rw e at h))))
  ]

-- A write to the object that `find_node` finds acts on its leafs, in place, and on no other.
pub write_node-Within :
    (t : LayoutNode) (id : String) (n m : LayoutNode)
    → find_node t id ≡ some n
    → Within (leafs n) (leafs m) (leafs t) (leafs (write_node t id m))
write_node-Within = write_node-Within'

pub tally-Within :
    (b : String) {old new xs ys : List Entry}
    → Within old new xs ys
    → tally b ys + tally b old ≡ tally b xs + tally b new
tally-Within b {old} {new} {xs} {ys} w = omega (
  arith,
  ap (tally b) w.was,
  ap (tally b) w.becomes,
  tally-append b w.before (old ++ w.after),
  tally-append b w.before (new ++ w.after),
  tally-append b old w.after,
  tally-append b new w.after,
)

-- What `place` inserts: everything at its index or at the end, and nothing at a negative index.
leafs_of-insert_at :
    (i : ℕ) (ds cs : Nodes) → Within [] (leafs_of ds) (leafs_of cs) (leafs_of (insert_at i ds cs))
unfolding leafs
leafs_of-insert_at zero ds cs = record {
  before = [];
  after = leafs_of cs;
  was = refl;
  becomes = leafs_of-+++ ds cs;
}
leafs_of-insert_at (suc i) ds nil = record {
  before = [];
  after = [];
  was = refl;
  becomes = sym (append-nil _);
}
leafs_of-insert_at (suc i) ds (cons c cs) = Within-left (leafs c) (leafs_of-insert_at i ds cs)

pub leafs_of-place :
    (i : ℕ) (ds cs : Nodes) → Within [] (leafs_of ds) (leafs_of cs) (leafs_of (place (pos i) ds cs))
unfolding place
leafs_of-place i ds cs = elim (Bool-cases (leb (count_nodes cs) i)) [
  | inl e ↦ rw e (record {
    before = leafs_of cs;
    after = [];
    was = sym (append-nil _);
    becomes = leafs_of-+++ cs ds ∙ ap (λ l. leafs_of cs ++ l) (sym (append-nil _));
  })
  | inr e ↦ rw e (leafs_of-insert_at i ds cs)
]

-- A context inside a context.
pub Within-trans :
    {old new xs ys whole whole' : List Entry}
    → Within old new xs ys
    → Within xs ys whole whole'
    → Within old new whole whole'
Within-trans {old} {new} v w = record {
  before = w.before ++ v.before;
  after = v.after ++ w.after;
  was =
      w.was
      ∙ ap (λ l. w.before ++ (l ++ w.after)) v.was
      ∙ regroup_both w.before v.before old v.after w.after;
  becomes =
      w.becomes
      ∙ ap (λ l. w.before ++ (l ++ w.after)) v.becomes
      ∙ regroup_both w.before v.before new v.after w.after;
}
