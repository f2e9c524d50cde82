-- ===== src/Layout/Node/Location/Found.antt =====
-- A free place of a tree with unique ids belongs to a node of the tree.
use starterm.Base.{
  ℕ, suc, some, true, eq_iff, [], ◌∷◌, ltb, ◌≡◌, refl, ap, arith, Bool-cases, inl, inr,
}
use mathlib.Core.List.{Memᴰ}
use starterm.Base.Lists.{Memᴰ-split}
use starterm.Layout.Types.Nodes.{LayoutNode, leaf, branch, Nodes, nil, cons, count_nodes, id_of}
use starterm.Layout.Node.{find_node, find_nodes}
use starterm.Layout.Node.Find.{ids, ids_of, unique, unique-append, elem-ids, elem-ids_of}
use starterm.Layout.Node.Find.Parent.{find_self}
use starterm.Layout.Node.Location.{Location, own_location}
use starterm.Layout.Node.Location.Best.{places, places_of}

own_location-node :
    (max depth : ℕ) (n : LayoutNode) (k : ℕ) (l : Location)
    → Memᴰ l (own_location max depth n k)
    → l.node ≡ n
own_location-node max depth n k l m = elim (Bool-cases (ltb k max)) [
  | inl e ↦ only l (rw e at m)
  | inr e ↦ elim (rw e at m) [ ]
]
  where
    only : (r : Location) → Memᴰ r (record { node = n; index = k; depth = depth } ∷ []) → r.node ≡ n
    only r (Memᴰ.head e) = ap (λ (x : Location). x.node) e
    only r (Memᴰ.tail m) = elim m [ ]

mutual
  unfolding find_node ids unique

  places-found :
      (max depth : ℕ) (n : LayoutNode) (l : Location)
      → unique (ids n) ≡ true
      → Memᴰ l (places max depth n)
      → find_node n (id_of l.node) ≡ some l.node
  places-found max depth (leaf i d) l u (Memᴰ.head e) = rw e (find_self (leaf i d))
  places-found max depth (leaf i d) l u (Memᴰ.tail m) = elim m [ ]
  places-found max depth (branch i d cs) l u m =
      elim (Memᴰ-split (own_location max depth (branch i d cs) (count_nodes cs)) m) [
        | inl here ↦
            rw (own_location-node max depth (branch i d cs) (count_nodes cs) l here)
              (find_self (branch i d cs))
        | inr there ↦
            let below = places_of-found max (suc depth) cs l (ground arith) there in
            ground (arith, elem-ids_of cs (id_of l.node), eq_iff i.id (id_of l.node))
      ]

  places_of-found :
      (max depth : ℕ) (ns : Nodes) (l : Location)
      → unique (ids_of ns) ≡ true
      → Memᴰ l (places_of max depth ns)
      → find_nodes ns (id_of l.node) ≡ some l.node
  places_of-found max depth nil l u m = elim m [ ]
  places_of-found max depth (cons c cs) l u m =
      let (uc, us, apart) = unique-append (ids c) (ids_of cs) u in
      elim (Memᴰ-split (places_of max depth cs) m) [
        | inl below ↦
            let found = places_of-found max depth cs l us below in
            ground (
              arith,
              elem-ids c (id_of l.node),
              elem-ids_of cs (id_of l.node),
              apart (id_of l.node),
            )
        | inr here ↦ rw (places-found max depth c l uc here) refl
      ]

pub place-found :
    (max depth : ℕ) (n : LayoutNode) (l : Location)
    → unique (ids n) ≡ true
    → Memᴰ l (places max depth n)
    → find_node n (id_of l.node) ≡ some l.node
place-found = places-found
