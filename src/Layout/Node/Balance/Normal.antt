-- ===== src/Layout/Node/Balance/Normal.antt =====
-- Balancing a well-formed tree succeeds, and gives a normal one.
use starterm.Base.{ℕ, suc, ◌≤◌, ◌<◌, ◌+◌, none, some, ◌≡◌, refl, arith}
use starterm.Base.{Result, ok, throw, ◌>>=◌}
use starterm.Layout.Types.Nodes.{
  FlexDirection, Info, LayoutNode, leaf, branch, Nodes, nil, cons, flex_of, ◌+++◌, count_nodes,
}
use starterm.Layout.Node.{validate_node}
use starterm.Layout.Node.Shape.{IsWellFormed, AreWellFormed, IsNormal, AreNormal}
use starterm.Layout.Node.Balance.{
  turned, child_direction, collapse, walk, walk_children, walk_spliced, balance_node,
}

count_nodes-+++ : (cs ds : Nodes) → count_nodes (cs +++ ds) ≡ count_nodes cs + count_nodes ds
count_nodes-+++ nil ds = omega arith
count_nodes-+++ (cons c cs) ds = omega (arith, count_nodes-+++ cs ds)

AreNormal-+++ : (cs ds : Nodes) → AreNormal cs → AreNormal ds → AreNormal (cs +++ ds)
AreNormal-+++ nil ds h k = k
AreNormal-+++ (cons c cs) ds (p, h) k = (p, AreNormal-+++ cs ds h k)

collapse-IsNormal :
    (i : Info) (cs : Nodes) → AreNormal cs → 0 < count_nodes cs → IsNormal (collapse i none cs)
collapse-IsNormal i nil h k = elim k [ ]
collapse-IsNormal i (cons (leaf j none) nil) h k = h.0
collapse-IsNormal i (cons (leaf j (some e)) nil) h k = tt
collapse-IsNormal i (cons (branch j e bs) nil) h k = h.0
collapse-IsNormal i (cons (leaf j e) (cons c cs)) h k = (h.0, h.1.0, h.1.1)
collapse-IsNormal i (cons (branch j e bs) (cons c cs)) h k = (h.0, h.1.0, h.1.1)

-- The result of a walk that returns, and what is known of it.
abbrev Balanced : Result LayoutNode → Type 0
Balanced r = (n : LayoutNode) × (r ≡ ok n) × IsNormal n

abbrev BalancedList : ℕ → Result Nodes → Type 0
BalancedList k r = (ns : Nodes) × (r ≡ ok ns) × AreNormal ns × (k ≤ count_nodes ns)

BalancedList-cons :
    {k : ℕ} (r : Result LayoutNode) (s : Result Nodes)
    → Balanced r
    → BalancedList k s
    → BalancedList (suc k) (r >>= λ c. s >>= λ ds. ok (cons c ds))
BalancedList-cons (throw e) s (c, p, h) _ = cc
BalancedList-cons (ok b) (throw e) _ (ds, q, hs, le) = cc
BalancedList-cons (ok b) (ok bs) (c, p, h) (ds, q, hs, le) = (cons c ds, cc, (h, hs), omega arith)

BalancedList-+++ :
    {k : ℕ} (r s : Result Nodes)
    → BalancedList 1 r
    → BalancedList k s
    → BalancedList (suc k) (r >>= λ hs. s >>= λ ds. ok (hs +++ ds))
BalancedList-+++ (throw e) s (cs, p, h, le) _ = cc
BalancedList-+++ (ok b) (throw e) _ (ds, q, hs, le) = cc
BalancedList-+++ (ok b) (ok bs) (cs, p, h, some') (ds, q, hs, le) =
    (cs +++ ds, cc, AreNormal-+++ cs ds h hs, omega (arith, count_nodes-+++ cs ds))

collapse-Balanced :
    (i : Info) (r : Result Nodes) {k : ℕ}
    → BalancedList (suc k) r
    → Balanced (r >>= λ ds. ok (collapse i none ds))
collapse-Balanced i (throw e) (ds, p, h, le) = cc
collapse-Balanced i (ok bs) (ds, p, h, le) =
    (collapse i none ds, cc, collapse-IsNormal i ds h (omega arith))

mutual
  unfolding walk validate_node

  walk-Balanced : (f : FlexDirection) (n : LayoutNode) → IsWellFormed n → Balanced (walk f n)
  walk-Balanced f (leaf i none) h = absurd h
  walk-Balanced f (leaf i (some d)) h = (leaf (turned f i) (some d), refl, tt)
  walk-Balanced f (branch i (some d) cs) h = absurd h
  walk-Balanced f (branch i none nil) h = absurd h
  walk-Balanced f (branch i none (cons c cs)) h =
      collapse-Balanced (turned f i) (walk_children f (cons c cs))
        (walk_children-Balanced f (cons c cs) h)

  walk_children-Balanced :
      (f : FlexDirection) (cs : Nodes)
      → AreWellFormed cs
      → BalancedList (count_nodes cs) (walk_children f cs)
  walk_children-Balanced f nil h = (nil, refl, tt, omega arith)
  walk_children-Balanced f (cons (branch i none nil) cs) h = absurd h.0
  walk_children-Balanced f (cons (branch i (some d) nil) cs) h = absurd h.0
  walk_children-Balanced f (cons (branch i (some d) (cons (branch j e gs) nil)) cs) h = absurd h.0
  walk_children-Balanced f (cons (branch i none (cons (branch j (some e) gs) nil)) cs) h =
      absurd h.0.0
  walk_children-Balanced f (cons (branch i none (cons (branch j none nil) nil)) cs) h = absurd h.0.0
  walk_children-Balanced f (cons (branch i none (cons (branch j none (cons g gs)) nil)) cs) h =
      let (ns, p, q, le) = walk_spliced-Balanced (cons g gs) h.0.0 in
      BalancedList-+++ (walk_spliced (cons g gs)) (walk_children f cs) (ns, p, q, omega arith)
        (walk_children-Balanced f cs h.1)
  walk_children-Balanced f (cons (branch i d (cons (leaf j e) nil)) cs) h =
      BalancedList-cons
        (walk (child_direction f i.flex_direction) (branch i d (cons (leaf j e) nil)))
        (walk_children f cs) (walk-Balanced _ (branch i d (cons (leaf j e) nil)) h.0)
        (walk_children-Balanced f cs h.1)
  walk_children-Balanced f (cons (branch i d (cons b (cons b' bs))) cs) h =
      BalancedList-cons
        (walk (child_direction f i.flex_direction) (branch i d (cons b (cons b' bs))))
        (walk_children f cs) (walk-Balanced _ (branch i d (cons b (cons b' bs))) h.0)
        (walk_children-Balanced f cs h.1)
  walk_children-Balanced f (cons (leaf i d) cs) h =
      BalancedList-cons (walk (child_direction f i.flex_direction) (leaf i d)) (walk_children f cs)
        (walk-Balanced _ (leaf i d) h.0) (walk_children-Balanced f cs h.1)

  walk_spliced-Balanced :
      (gs : Nodes) → AreWellFormed gs → BalancedList (count_nodes gs) (walk_spliced gs)
  walk_spliced-Balanced nil h = (nil, refl, tt, omega arith)
  walk_spliced-Balanced (cons g gs) h =
      BalancedList-cons (walk (flex_of g) g) (walk_spliced gs) (walk-Balanced (flex_of g) g h.0)
        (walk_spliced-Balanced gs h.1)

-- A tree in which every node has data or else a non-empty array of children is balanced without an
-- error, and the result is so too, with no node whose only child is a leaf.
pub balance_node-IsNormal :
    (n : LayoutNode) → IsWellFormed n → (n' : LayoutNode) × (balance_node n ≡ ok n') × IsNormal n'
unfolding balance_node
balance_node-IsNormal n h = walk-Balanced (flex_of n) n h
