-- ===== src/Layout/Node/Location.antt =====
-- findNextInsertLocation and findInsertLocationFromIndexArr of frontend/layout/lib/layoutNode.ts:
-- where the next node goes.
--
-- `Array.prototype.sort` is stable; it is an insertion sort here. The powers that it compares are
-- exact, where the program's are doubles.
pub mod Best
pub mod Found
use starterm.Base.{
  ℕ, zero, suc, ◌+◌, ◌-◌, ◌^◌, Option, none, some, Bool, true, false, List, [], ◌∷◌, ◌++◌, ltb, leb,
  if◌then◌else◌, Result, ok, throw, type_error,
}
use starterm.Base.Int.{ℤ, pos, negsuc, ◌-ℤ◌, ltb_ℤ, leb_ℤ}
use starterm.Layout.Types.Nodes.{LayoutNode, leaf, branch, Nodes, nil, cons, count_nodes, node_at}

pub record Location : Type 0 where
  pub node : LayoutNode
  pub index : ℕ
  pub depth : ℕ

-- Math.pow(depth, index + maxChildren)
abbrev pub sort_key : ℕ → Location → ℕ
sort_key max l = l.depth ^ (l.index + max)

unfoldable pub sorted_insert : ℕ → Location → List Location → List Location
sorted_insert max l [] = l ∷ []
sorted_insert max l (m ∷ ms) =
    let rest = sorted_insert max l ms in
    if leb (sort_key max l) (sort_key max m) then l ∷ m ∷ ms else m ∷ rest

unfoldable pub sort_locations : ℕ → List Location → List Location
unfolding sorted_insert
sort_locations max [] = []
sort_locations max (l ∷ ls) = sorted_insert max l (sort_locations max ls)

abbrev pub first : List Location → Option Location
first [] = none
first (l ∷ ls) = some l

-- filter((a) => a) over one entry.
abbrev pub truthy : Option Location → List Location
truthy none = []
truthy (some l) = l ∷ []

-- The location in the node itself, if it has room.
abbrev pub own_location : ℕ → ℕ → LayoutNode → ℕ → List Location
own_location max depth n len =
    if ltb len max then record { node = n; index = len; depth = depth } ∷ [] else []

-- findNextInsertLocationHelper; `child_locations` is its loop over the children, last to first.
unfoldable mutual
  pub next_location : ℕ → ℕ → LayoutNode → Option Location
  next_location max depth (leaf i d) = some (record { node = leaf i d; index = 1; depth = depth })
  next_location max depth (branch i d cs) = first (
      sort_locations max (
        own_location max depth (branch i d cs) (count_nodes cs)
        ++ child_locations max (suc depth) cs))

  pub child_locations : ℕ → ℕ → Nodes → List Location
  child_locations max depth nil = []
  child_locations max depth (cons c cs) =
      child_locations max depth cs ++ truthy (next_location max depth c)

-- DEFAULT_MAX_CHILDREN of layoutTree.ts
abbrev pub default_max_children : ℕ
default_max_children = 5

unfoldable pub find_next_insert_location : LayoutNode → ℕ → Option Location
unfolding next_location sort_locations
find_next_insert_location n max = next_location max 1 n

-- `node.children?.length ?? 1`
abbrev pub children_length : LayoutNode → ℕ
children_length (leaf i d) = 1
children_length (branch i d cs) = count_nodes cs

abbrev max_ℤ : ℤ → ℤ → ℤ
max_ℤ a b = if ltb_ℤ a b then b else a

abbrev min_ℤ : ℤ → ℤ → ℤ
min_ℤ a b = if ltb_ℤ b a then b else a

-- normalizeIndex
unfoldable pub normalize_index : LayoutNode → ℤ → ℤ
normalize_index n (negsuc k) =
    let len = pos (children_length n) in len -ℤ max_ℤ (negsuc k) (pos 0 -ℤ len)
normalize_index n (pos k) = min_ℤ (pos k) (pos (children_length n) -ℤ pos 1)

abbrev child_at : LayoutNode → ℤ → Option LayoutNode
child_at (leaf i d) k = none
child_at (branch i d cs) (pos k) = node_at cs k
child_at (branch i d cs) (negsuc k) = none

-- The rounds after the first: `indices` is not empty where the source goes on, and a child that is
-- not there is a TypeError in `normalizeIndex`.
descend : Option LayoutNode → List ℤ → Result (Option (LayoutNode × ℤ))
unfolding normalize_index
descend n [] = ok none
descend none (k ∷ ks) = throw type_error
descend (some (leaf i d)) (k ∷ ks) = ok (some (leaf i d, normalize_index (leaf i d) k))
descend (some (branch i d cs)) (k ∷ []) =
    ok (some (branch i d cs, normalize_index (branch i d cs) k))
descend (some (branch i d cs)) (k ∷ l ∷ ks) =
    descend (child_at (branch i d cs) (normalize_index (branch i d cs) k)) (l ∷ ks)

unfoldable pub find_insert_location_from_index_arr :
    LayoutNode → List ℤ → Result (Option (LayoutNode × ℤ))
unfolding descend
find_insert_location_from_index_arr n ks = descend (some n) ks
