-- ===== src/Layout/Node/Leaves/Children.antt =====
-- Assignments to the children of a node, on the leafs.
use starterm.Base.{
  ℕ, zero, suc, String, some, [], ◌++◌, ◌≡◌, refl, sym, append_assoc, Bool-cases, inl, inr,
  some_inj, none_ne_some, ◌===◌, next_index-eq-zero, next_index-eq-suc, arith,
}
use mathlib.Core.Path.{subst}
use starterm.Layout.Types.Nodes.{
  LayoutNode, Nodes, nil, cons, id_of, set_at, node_at, insert_at, index_of,
}
use starterm.Layout.Node.{remove_from}
use starterm.Layout.Node.Leaves.{leafs, leafs_of, Within, Within-left, Within-right, Within-self}

pub leafs_of-set_at :
    (cs : Nodes) (k : ℕ) (c n : LayoutNode)
    → node_at cs k ≡ some c
    → Within (leafs c) (leafs n) (leafs_of cs) (leafs_of (set_at k n cs))
unfolding leafs
leafs_of-set_at nil k c n h = absurd (none_ne_some h)
leafs_of-set_at (cons b cs) zero c n h =
    subst (λ x. Within (leafs x) (leafs n) (leafs b ++ leafs_of cs) (leafs n ++ leafs_of cs))
      (some_inj h) (Within-right (leafs_of cs) Within-self)
leafs_of-set_at (cons b cs) (suc k) c n h = Within-left (leafs b) (leafs_of-set_at cs k c n h)

-- Splicing before a child, and behind it.
pub leafs_of-insert_before :
    (cs : Nodes) (k : ℕ) (c n : LayoutNode)
    → node_at cs k ≡ some c
    → Within (leafs c) (leafs n ++ leafs c) (leafs_of cs) (leafs_of (insert_at k (cons n nil) cs))
unfolding leafs
leafs_of-insert_before nil k c n h = absurd (none_ne_some h)
leafs_of-insert_before (cons b cs) zero c n h =
    subst
      (λ x.
        Within (leafs x) (leafs n ++ leafs x) (leafs b ++ leafs_of cs)
          (leafs n ++ (leafs b ++ leafs_of cs)))
      (some_inj h)
      (record {
        before = [];
        after = leafs_of cs;
        was = refl;
        becomes = sym (append_assoc (leafs n) _ _);
      })
leafs_of-insert_before (cons b cs) (suc k) c n h =
    Within-left (leafs b) (leafs_of-insert_before cs k c n h)

pub leafs_of-insert_behind :
    (cs : Nodes) (k : ℕ) (c n : LayoutNode)
    → node_at cs k ≡ some c
    → Within
        (leafs c)
        (leafs c ++ leafs n)
        (leafs_of cs)
        (leafs_of (insert_at (suc k) (cons n nil) cs))
unfolding leafs
leafs_of-insert_behind nil k c n h = absurd (none_ne_some h)
leafs_of-insert_behind (cons b cs) zero c n h =
    subst
      (λ x.
        Within (leafs x) (leafs x ++ leafs n) (leafs b ++ leafs_of cs)
          (leafs b ++ (leafs n ++ leafs_of cs)))
      (some_inj h)
      (record {
        before = [];
        after = leafs_of cs;
        was = refl;
        becomes = sym (append_assoc (leafs b) _ _);
      })
leafs_of-insert_behind (cons b cs) (suc k) c n h =
    Within-left (leafs b) (leafs_of-insert_behind cs k c n h)

zero_ne_suc : {k : ℕ} → some 0 ≡ some (suc k) → ⊥
zero_ne_suc h = absurd (ground arith)

-- Removing the first child with an id.
pub leafs_of-remove_from :
    (cs : Nodes) (s : String) (k : ℕ) (c : LayoutNode)
    → index_of s cs ≡ some k
    → node_at cs k ≡ some c
    → Within (leafs c) [] (leafs_of cs) (leafs_of (remove_from s zero cs))
unfolding leafs
leafs_of-remove_from nil s k c p h = absurd (none_ne_some p)
leafs_of-remove_from (cons b cs) s zero c p h = elim (Bool-cases (id_of b === s)) [
  | inl e ↦ rw e (
      subst (λ x. Within (leafs x) [] (leafs b ++ leafs_of cs) (leafs_of cs)) (some_inj h)
        (record { before = []; after = leafs_of cs; was = refl; becomes = refl }))
  | inr e ↦ absurd (next_index-eq-zero (index_of s cs) (rw e at p))
]
leafs_of-remove_from (cons b cs) s (suc k) c p h = elim (Bool-cases (id_of b === s)) [
  | inl e ↦ absurd (zero_ne_suc (rw e at p))
  | inr e ↦ rw e (
      Within-left (leafs b)
        (leafs_of-remove_from cs s k c (next_index-eq-suc (index_of s cs) k (rw e at p)) h))
]
