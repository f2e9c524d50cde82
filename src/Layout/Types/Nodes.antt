-- ===== src/Layout/Types/Nodes.antt =====
-- Layout nodes, and the operations of JavaScript arrays on lists of them.
use starterm.Base.{
  ℕ, zero, suc, String, Option, none, some, Bool, true, false, ◌===◌, if◌then◌else◌, next_index,
}
use starterm.Base.Int.{ℤ, pos}

pub data FlexDirection : Type 0 where
  row column : FlexDirection

abbrev pub reverse_flex_direction : FlexDirection → FlexDirection
reverse_flex_direction row = column
reverse_flex_direction column = row

abbrev pub flex_eq : FlexDirection → FlexDirection → Bool
flex_eq row row = true
flex_eq column column = true
flex_eq _ _ = false

pub record TabLayoutData : Type 0 where
  pub block_id : String

-- The fields of a node beside `data` and `children`.
pub record Info : Type 0 where
  pub id : String
  pub flex_direction : FlexDirection
  pub size : ℤ

-- `leaf` has no `children`; `branch` has an array of them.
mutual
  pub data LayoutNode : Type 0 where
    leaf : Info → Option TabLayoutData → LayoutNode
    branch : Info → Option TabLayoutData → Nodes → LayoutNode

  pub data Nodes : Type 0 where
    nil : Nodes
    cons : LayoutNode → Nodes → Nodes

abbrev pub default_node_size : ℤ
default_node_size = pos 10

abbrev pub info : LayoutNode → Info
info (leaf i d) = i
info (branch i d cs) = i

abbrev pub id_of : LayoutNode → String
id_of n = (info n).id

abbrev pub flex_of : LayoutNode → FlexDirection
flex_of n = (info n).flex_direction

abbrev pub size_of : LayoutNode → ℤ
size_of n = (info n).size

abbrev pub children_of : LayoutNode → Option Nodes
children_of (leaf i d) = none
children_of (branch i d cs) = some cs

abbrev pub with_info : Info → LayoutNode → LayoutNode
with_info j (leaf i d) = leaf j d
with_info j (branch i d cs) = branch j d cs

abbrev pub with_flex : FlexDirection → LayoutNode → LayoutNode
with_flex f n = with_info (record (info n) { flex_direction = f }) n

abbrev pub with_size : ℤ → LayoutNode → LayoutNode
with_size s n = with_info (record (info n) { size = s }) n

-- Arrays of nodes.
abbrev pub count_nodes : Nodes → ℕ
count_nodes nil = 0
count_nodes (cons c cs) = suc (count_nodes cs)

infixr 65 ◌+++◌
abbrev pub ◌+++◌ : Nodes → Nodes → Nodes
nil +++ ds = ds
(cons c cs) +++ ds = cons c (cs +++ ds)

-- splice(i, 0, ...ds), for an index within the array.
abbrev pub insert_at : ℕ → Nodes → Nodes → Nodes
insert_at zero ds cs = ds +++ cs
insert_at (suc i) ds nil = ds
insert_at (suc i) ds (cons c cs) = cons c (insert_at i ds cs)

-- splice(i, 1)
abbrev pub remove_at : ℕ → Nodes → Nodes
remove_at i nil = nil
remove_at zero (cons c cs) = cs
remove_at (suc i) (cons c cs) = cons c (remove_at i cs)

-- cs[i] = n, for an index within the array.
abbrev pub set_at : ℕ → LayoutNode → Nodes → Nodes
set_at i n nil = nil
set_at zero n (cons c cs) = cons n cs
set_at (suc i) n (cons c cs) = cons c (set_at i n cs)

abbrev pub node_at : Nodes → ℕ → Option LayoutNode
node_at nil i = none
node_at (cons c cs) zero = some c
node_at (cons c cs) (suc i) = node_at cs i

-- findIndex(child => child.id === id), from the first element on.
abbrev pub index_of : String → Nodes → Option ℕ
index_of id nil = none
index_of id (cons c cs) =
    let rest = index_of id cs in if id_of c === id then some zero else next_index rest
