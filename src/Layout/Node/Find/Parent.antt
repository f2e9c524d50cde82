-- ===== src/Layout/Node/Find/Parent.antt =====
-- The parent that findParent finds, and its children.
use starterm.Base.{
  ℕ, zero, suc, String, Option, some, true, not, ◌&&◌, ◌===◌, eq_iff, eq_refl, ◌≡◌, refl, sym, ◌∙◌,
  arith, Bool-cases, Option-cases, inl, inr, is_defined, some_inj, none_ne_some, ◌⊎◌,
}
use mathlib.Core.Path.{subst}
use starterm.Layout.Types.Nodes.{
  Info, TabLayoutData, LayoutNode, leaf, branch, Nodes, nil, cons, id_of, index_of, node_at,
}
use starterm.Layout.Node.{find_node, find_nodes, find_parent, find_in_children}
use starterm.Layout.Node.Find.{
  ids, ids_of, elem, unique, elem-append, unique-append, elem-ids, elem-ids_of, HasUniqueIds,
}

-- `p` has a child with the id `s`; `child` is the first one, at `index`.
pub record IsParentOf (p : LayoutNode) (s : String) : Type 0 where
  pub node_info : Info
  pub node_data : Option TabLayoutData
  pub children : Nodes
  pub index : ℕ
  pub child : LayoutNode
  pub shape : p ≡ branch node_info node_data children
  pub at_index : index_of s children ≡ some index
  pub is_child : node_at children index ≡ some child
  pub has_id : id_of child ≡ s

abbrev FirstChild : Nodes → String → Type 0
FirstChild cs s =
    (k : ℕ) × (c : LayoutNode) × (index_of s cs ≡ some k) × (node_at cs k ≡ some c) × (id_of c ≡ s)

FirstChild-cons :
    (b : LayoutNode) (cs : Nodes) (s : String) → FirstChild cs s → FirstChild (cons b cs) s
FirstChild-cons b cs s (k, c, p, q, r) = elim (Bool-cases (id_of b === s)) [
  | inl e ↦ (zero, b, rw e refl, refl, (eq_iff (id_of b) s).0 e)
  | inr e ↦ (suc k, c, rw (e, p) refl, q, r)
]

-- The first child with the id, if the walk of the children stops at one.
abbrev Stop : Nodes → String → LayoutNode → LayoutNode → Type 0
Stop cs s n p = (p ≡ n) × FirstChild cs s ⊎ IsParentOf p s

mutual
  unfolding find_parent

  find_parent-IsParentOf' :
      (t : LayoutNode) (s : String) (p : LayoutNode) → find_parent t s ≡ some p → IsParentOf p s
  find_parent-IsParentOf' (leaf i d) s p h = absurd (none_ne_some h)
  find_parent-IsParentOf' (branch i d cs) s p h = elim (Bool-cases (i.id === s)) [
    | inl e ↦ absurd (none_ne_some (rw e at h))
    | inr e ↦ elim (find_in_children-Stop (branch i d cs) cs s p (rw e at h)) [
      | inl (same, (k, c, q, r, o)) ↦ record {
        node_info = i;
        node_data = d;
        children = cs;
        index = k;
        child = c;
        shape = same;
        at_index = q;
        is_child = r;
        has_id = o;
      }
      | inr below ↦ below
    ]
  ]

  find_in_children-Stop :
      (n : LayoutNode) (cs : Nodes) (s : String) (p : LayoutNode)
      → find_in_children n cs s ≡ some p
      → Stop cs s n p
  find_in_children-Stop n nil s p h = absurd (none_ne_some h)
  find_in_children-Stop n (cons c cs) s p h = elim (Bool-cases (id_of c === s)) [
    | inl e ↦ inl (sym (some_inj (rw e at h)), (zero, c, rw e refl, refl, (eq_iff (id_of c) s).0 e))
    | inr e ↦ elim (Option-cases (find_parent c s)) [
      | inl none' ↦ elim (find_in_children-Stop n cs s p (rw (e, none') at h)) [
        | inl (same, found) ↦ inl (same, FirstChild-cons c cs s found)
        | inr below ↦ inr below
      ]
      | inr (q, here) ↦ inr (find_parent-IsParentOf' c s p (here ∙ (rw (e, here) at h)))
    ]
  ]

pub find_parent-IsParentOf :
    (t : LayoutNode) (s : String) (p : LayoutNode) → find_parent t s ≡ some p → IsParentOf p s
find_parent-IsParentOf = find_parent-IsParentOf'

elem_self : (n : LayoutNode) (s : String) → (id_of n === s) ≡ true → elem s (ids n) ≡ true
unfolding elem ids
elem_self (leaf i d) s e = ground arith
elem_self (branch i d cs) s e = ground arith

mutual
  unfolding find_parent ids elem

  find_parent-elem' :
      (t : LayoutNode) (s : String)
      → is_defined (find_parent t s) ≡ (not (id_of t === s) && elem s (ids t))
  find_parent-elem' (leaf i d) s = ground arith
  find_parent-elem' (branch i d cs) s = elim (Bool-cases (i.id === s)) [
    | inl e ↦ rw e refl
    | inr e ↦ rw e (find_in_children-elem (branch i d cs) cs s)
  ]

  find_in_children-elem :
      (n : LayoutNode) (cs : Nodes) (s : String)
      → is_defined (find_in_children n cs s) ≡ elem s (ids_of cs)
  find_in_children-elem n nil s = refl
  find_in_children-elem n (cons c cs) s = elim (Bool-cases (id_of c === s)) [
    | inl e ↦ ground (arith, elem-append s (ids c) (ids_of cs), elem_self c s)
    | inr e ↦ ground (
      arith,
      elem-append s (ids c) (ids_of cs),
      find_parent-elem' c s,
      find_in_children-elem n cs s,
    )
  ]

-- With unique ids, what findParent finds is what findNode finds for its id.
mutual
  unfolding find_parent find_node ids unique elem

  find_node-find_parent' :
      (t : LayoutNode) (s : String) (p : LayoutNode)
      → unique (ids t) ≡ true
      → find_parent t s ≡ some p
      → find_node t (id_of p) ≡ some p
  find_node-find_parent' (leaf i d) s p u h = absurd (none_ne_some h)
  find_node-find_parent' (branch i d cs) s p u h = elim (Bool-cases (i.id === s)) [
    | inl e ↦ absurd (none_ne_some (rw e at h))
    | inr e ↦ elim (find_nodes-find_in_children (branch i d cs) cs s p (ground arith) (rw e at h)) [
      | inl same ↦ rw (same, eq_refl i.id) refl
      | inr below ↦ ground (arith, elem-ids_of cs (id_of p), eq_iff i.id (id_of p))
    ]
  ]

  find_nodes-find_in_children :
      (n : LayoutNode) (cs : Nodes) (s : String) (p : LayoutNode)
      → unique (ids_of cs) ≡ true
      → find_in_children n cs s ≡ some p
      → (p ≡ n) ⊎ (find_nodes cs (id_of p) ≡ some p)
  find_nodes-find_in_children n nil s p u h = absurd (none_ne_some h)
  find_nodes-find_in_children n (cons c cs) s p u h =
      let (uc, us, apart) = unique-append (ids c) (ids_of cs) u in
      elim (Bool-cases (id_of c === s)) [
        | inl e ↦ inl (sym (some_inj (rw e at h)))
        | inr e ↦ elim (Option-cases (find_parent c s)) [
          | inl none' ↦ elim (find_nodes-find_in_children n cs s p us (rw (e, none') at h)) [
            | inl same ↦ inl same
            | inr below ↦
                inr
                  (ground (arith, elem-ids c (id_of p), elem-ids_of cs (id_of p), apart (id_of p)))
          ]
          | inr (q, here) ↦
              inr (rw (find_node-find_parent' c s p uc (here ∙ (rw (e, here) at h))) refl)
        ]
      ]

pub find_node-find_parent :
    (t : LayoutNode) (s : String) (p : LayoutNode)
    → HasUniqueIds t
    → find_parent t s ≡ some p
    → find_node t (id_of p) ≡ some p
find_node-find_parent = find_node-find_parent'

-- findParent finds a node exactly if the id is in the tree and is not the root's.
pub find_parent-elem :
    (t : LayoutNode) (s : String)
    → is_defined (find_parent t s) ≡ (not (id_of t === s) && elem s (ids t))
find_parent-elem = find_parent-elem'

pub find_self : (n : LayoutNode) → find_node n (id_of n) ≡ some n
unfolding find_node
find_self (leaf i d) = rw (eq_refl i.id) refl
find_self (branch i d cs) = rw (eq_refl i.id) refl

-- Where ids are unique, the first child with an id is the node that findNode finds for it.
pub child-found :
    (cs : Nodes) (s : String) (k : ℕ) (c : LayoutNode)
    → unique (ids_of cs) ≡ true
    → node_at cs k ≡ some c
    → id_of c ≡ s
    → find_nodes cs s ≡ some c
unfolding find_node ids
child-found nil s k c u h e = absurd (none_ne_some h)
child-found (cons b cs) s zero c u h e =
    subst (λ x. find_nodes (cons b cs) x ≡ some c) e
      (subst (λ n. find_nodes (cons n cs) (id_of c) ≡ some c) (sym (some_inj h))
        (rw (find_self c) refl))
child-found (cons b cs) s (suc k) c u h e =
    let (ub, us, apart) = unique-append (ids b) (ids_of cs) u in
    let below = child-found cs s k c us h e in
    ground (arith, elem-ids b s, elem-ids_of cs s, apart s)

mutual
  unfolding find_node ids elem unique

  find_node_trans' :
      (t : LayoutNode) (q s : String) (p c : LayoutNode)
      → unique (ids t) ≡ true
      → find_node t q ≡ some p
      → find_node p s ≡ some c
      → find_node t s ≡ some c
  find_node_trans' (leaf i d) q s p c u h k = elim (Bool-cases (i.id === q)) [
    | inl e ↦ subst (λ n. find_node n s ≡ some c) (sym (some_inj (rw e at h))) k
    | inr e ↦ absurd (none_ne_some (rw e at h))
  ]
  find_node_trans' (branch i d cs) q s p c u h k = elim (Bool-cases (i.id === q)) [
    | inl e ↦ subst (λ n. find_node n s ≡ some c) (sym (some_inj (rw e at h))) k
    | inr e ↦
        let below = find_nodes_trans cs q s p c (ground arith) (rw e at h) k in
        ground (arith, elem-ids_of cs s, eq_iff i.id s)
  ]

  find_nodes_trans :
      (ts : Nodes) (q s : String) (p c : LayoutNode)
      → unique (ids_of ts) ≡ true
      → find_nodes ts q ≡ some p
      → find_node p s ≡ some c
      → find_nodes ts s ≡ some c
  find_nodes_trans nil q s p c u h k = absurd (none_ne_some h)
  find_nodes_trans (cons b ts) q s p c u h k =
      let (ub, us, apart) = unique-append (ids b) (ids_of ts) u in
      elim (Option-cases (find_node b q)) [
        | inl e ↦
            let below = find_nodes_trans ts q s p c us (rw e at h) k in
            ground (arith, elem-ids b s, elem-ids_of ts s, apart s)
        | inr (n, e) ↦ rw (find_node_trans' b q s p c ub (e ∙ (rw e at h)) k) refl
      ]

-- Where ids are unique, a node found below a node found is found from the root.
pub find_node_trans :
    (t : LayoutNode) (q s : String) (p c : LayoutNode)
    → HasUniqueIds t
    → find_node t q ≡ some p
    → find_node p s ≡ some c
    → find_node t s ≡ some c
find_node_trans = find_node_trans'
