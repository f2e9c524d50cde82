-- ===== src/Layout/Tests.antt =====
-- Concrete layouts, and the theorems of the layout applied to them.
use Prim.Native.Char.{code}
use starterm.Base.{
  ℕ, zero, suc, ◌+◌, ◌≤◌, ◌^◌, String, none, some, Bool, true, false, List, [], ◌∷◌, if◌then◌else◌,
  ltb, ◌≡◌, refl, arith,
}
use mathlib.Core.List.{Memᴰ, Permᴰ}
use starterm.Base.{done, thrown, type_error, ok, state_of}
use starterm.Base.Int.{pos}
use starterm.Base.Lists.{All}
use starterm.Layout.Types.Nodes.{
  FlexDirection, row, column, LayoutNode, leaf, branch, Nodes, nil, cons, flex_of,
}
use starterm.Layout.Node.{validate_node, find_node, add_child_at}
use starterm.Layout.Node.Find.{ids, unique, HasUniqueIds}
use starterm.Layout.Node.Leaves.{leafs, leafs_of, Within}
use starterm.Layout.Node.Leaves.Insertion.{add_child_at-Within}
use starterm.Layout.Node.Location.{Location, find_next_insert_location}
use starterm.Layout.Node.Location.Best.{places, find_next_insert_location-Least}
use starterm.Layout.Node.Shape.{IsWellFormed, IsNormal, IsAlternating}
use starterm.Layout.Node.Shape.Added.{add_child_at-WellFormed}
use starterm.Layout.Node.Balance.{balance_node}
use starterm.Layout.Node.Balance.Leaves.{leafs-balance_node}
use starterm.Layout.Node.Balance.Normal.{balance_node-IsNormal}
use starterm.Layout.Node.Balance.Alternation.{balance_node-IsAlternating}
use starterm.Layout.Tree.{
  LeafOrderEntry, focus_node, LayoutTreeState, insert_node, delete_node, is_id,
}
use starterm.Layout.Drop.{direction_at}
use starterm.Layout.Drop.Mirror.{mirrored_if_any, direction_at_mirrored}
use starterm.Layout.Tree.Leaves.{delete_node-Within, replace_node-Within}
use starterm.Layout.Tree.Insertion.{insert_node-Within}
use starterm.Layout.Model.{
  LayoutModel, on_tree, insert, replace, cleanup_node_models, set_tree_state_atom,
}
use starterm.Layout.Model.Update.{update_tree, update_without_balance, walked, get_leaf_order}
use starterm.Layout.Model.Order.{entries}
use starterm.Layout.Model.Reducer.{tree_reducer}
use starterm.Layout.Model.Operations.{
  close_temporary, close_node, focus_node_of, switch_node_focus_by_block_num,
}
use starterm.Layout.Model.Temporary.{new_ephemeral_node, add_ephemeral_node_to_layout}
use starterm.Layout.Model.Insertion.{tree_reducer-insert}
use starterm.Layout.Tree.Splits.{joined, split-Within}
use starterm.Layout.Tree.Replace.{before, split, replace_node}

abbrev tile : String → FlexDirection → String → LayoutNode
tile id f b =
    leaf (record { id = id; flex_direction = f; size = pos 10 }) (some (record { block_id = b }))

abbrev group : String → FlexDirection → Nodes → LayoutNode
group id f cs = branch (record { id = id; flex_direction = f; size = pos 10 }) none cs

-- A row of a tile and a column of two.
abbrev root : LayoutNode
root = group "r" row (
    cons (tile "a" column "A")
      (cons (group "g" column (cons (tile "b" row "B") (cons (tile "c" row "C") nil))) nil))

-- A row around a column around a row: balancing takes two levels out.
abbrev nested : LayoutNode
nested = group "r" row (
    cons (tile "a" column "A") (
      cons
        (group "g" column
          (cons (group "h" row (cons (tile "b" column "B") (cons (tile "c" column "C") nil))) nil))
        nil))

abbrev state : LayoutTreeState
state = record {
  root_node = some root;
  focused_node_id = some "b";
  magnified_node_id = none;
  leaf_order = none;
  generation = 7;
}

abbrev uuid : ℕ → String
uuid n = "u"

abbrev new_tile : LayoutNode
new_tile = tile "n" row "N"

flat : LayoutNode
flat =
    group "r" row
      (cons (tile "a" column "A") (cons (tile "b" column "B") (cons (tile "c" column "C") nil)))

balance_nested : balance_node nested ≡ ok flat
unfolding balance_node validate_node flat
balance_nested = refl

root_unique : HasUniqueIds root
unfolding unique ids
root_unique = refl

find_b : find_node root "b" ≡ some (tile "b" row "B")
unfolding find_node
find_b = refl

nested-IsAlternating : IsAlternating nested
nested-IsAlternating = ((refl, tt, (refl, (refl, (refl, tt, (refl, tt, tt)), tt), tt)))

balance_node-IsNormal_example : (n : LayoutNode) × (balance_node nested ≡ ok n) × IsNormal n
balance_node-IsNormal_example = balance_node-IsNormal nested (omega arith)

leafs-balance_node_example : leafs flat ≡ leafs nested
leafs-balance_node_example = leafs-balance_node nested balance_nested

balance_node-IsAlternating_example : (flex_of flat ≡ flex_of nested) × IsAlternating flat
balance_node-IsAlternating_example =
    balance_node-IsAlternating nested nested-IsAlternating balance_nested

widened : LayoutNode
widened = group "r" row (
    cons (tile "a" column "A") (
      cons (tile "n" column "N")
        (cons (group "g" column (cons (tile "b" row "B") (cons (tile "c" row "C") nil))) nil)))

add_child_at_root : add_child_at uuid root (pos 1) (cons new_tile nil) ≡ ok widened
unfolding add_child_at widened
add_child_at_root = refl

add_child_at-Within_example : Within [] (leafs_of (cons new_tile nil)) (leafs root) (leafs widened)
add_child_at-Within_example = add_child_at-Within uuid root 1 (cons new_tile nil) add_child_at_root

add_child_at-WellFormed_example :
    (n : LayoutNode) × (add_child_at uuid root (pos 0) (cons new_tile nil) ≡ ok n) × IsWellFormed n
add_child_at-WellFormed_example =
    add_child_at-WellFormed uuid root (pos 0) new_tile (omega arith) (omega arith)

find_next_insert_location-Least_example :
    (l : Location) × (find_next_insert_location root 2 ≡ some l)
    × Memᴰ l (places 2 1 root)
    × All (λ m. l.depth ^ (l.index + 2) ≤ m.depth ^ (m.index + 2)) (places 2 1 root)
find_next_insert_location-Least_example = find_next_insert_location-Least root 2 (omega arith)

insert_node-Within_example :
    (st' : LayoutTreeState) × (t : LayoutNode) × (insert_node uuid state (some new_tile) true false
      ≡ done st')
    × (st'.root_node ≡ some t)
    × Within [] (leafs new_tile) (leafs root) (leafs t)
    × IsWellFormed t
    × (st'.generation ≡ 7 + 1)
insert_node-Within_example =
    insert_node-Within uuid state root new_tile true false refl root_unique (omega arith)
      (omega arith)

delete_node-Within_example :
    (st' : LayoutTreeState) × (t : LayoutNode) × (delete_node state "b" ≡ done st')
    × (st'.root_node ≡ some t)
    × Within (leafs (tile "b" row "B")) [] (leafs root) (leafs t)
    × (is_id st'.focused_node_id "b" ≡ false)
    × (st'.generation ≡ 7 + 1)
delete_node-Within_example =
    delete_node-Within state root "b" (tile "b" row "B") refl root_unique find_b refl refl

replace_node-Within_example :
    (st' : LayoutTreeState) × (t : LayoutNode) × (replace_node state "b" new_tile true ≡ done st')
    × (st'.root_node ≡ some t)
    × Within (leafs (tile "b" row "B")) (leafs new_tile) (leafs root) (leafs t)
    × (st'.generation ≡ 7 + 1)
replace_node-Within_example =
    replace_node-Within state root "b" (tile "b" row "B") new_tile true refl root_unique find_b refl

split-Within_example :
    (st' : LayoutTreeState) × (t : LayoutNode) × (split row uuid state "b" new_tile before true
      ≡ done st')
    × (st'.root_node ≡ some t)
    × Within
        (leafs (tile "b" row "B"))
        (joined before (leafs new_tile) (leafs (tile "b" row "B")))
        (leafs root)
        (leafs t)
    × (st'.generation ≡ 7 + 1)
split-Within_example =
    split-Within row uuid state root "b" (tile "b" row "B") new_tile before true refl root_unique
      find_b

direction_at_mirrored_example :
    direction_at 100 50 90 25 ≡ mirrored_if_any (direction_at 100 50 10 25)
direction_at_mirrored_example = direction_at_mirrored 100 50 10 90 25 (omega arith)

abbrev digits : ℕ → String
digits zero = "0"
digits (suc zero) = "1"
digits (suc (suc n)) = "2"

-- The order of texts by their characters.
abbrev by_code : String → String → Bool
by_code String.[] t = true
by_code (String.◌∷◌ c s) String.[] = false
by_code (String.◌∷◌ c s) (String.◌∷◌ d t) =
    let rest = by_code s t in
    if ltb (code c) (code d) then true else if ltb (code d) (code c) then false else rest

abbrev model : LayoutModel
model = record {
  tree_state = state;
  focused_node_id_stack = [];
  magnified_node_id = none;
  last_magnified_node_id = none;
  last_ephemeral_node_id = none;
  pending_tree_action = none;
  node_models = [];
  last_tree_state_generation = some 7;
  tree_state_atom = state;
  ephemeral_node = none;
  is_on_page = true;
}

-- The keys of the third and the eleventh child of the root: the eleventh comes first.
eleventh_first :
    get_leaf_order by_code (
      (record { nodeid = "c"; blockid = "C" }, "02")
      ∷ (record { nodeid = "k"; blockid = "K" }, "010")
      ∷ [])
    ≡ record { nodeid = "k"; blockid = "K" } ∷ record { nodeid = "c"; blockid = "C" } ∷ []
unfolding get_leaf_order
eleventh_first = refl

-- A replacement of the focused node that does not ask for the focus leaves the focus on the node that is
-- gone: the focus has not changed, so that it is not checked.
focus_on_replaced :
    (state_of (
      tree_reducer digits by_code uuid false
        (record model { focused_node_id_stack = some "b" ∷ [] })
        (on_tree (replace "b" new_tile false)))).tree_state.focused_node_id
    ≡ some "b"
unfolding tree_reducer update_tree validate_node cleanup_node_models replace_node find_node
focus_on_replaced = refl

-- Closing the focused node: its data is handed on, and the focus goes to the node that had it before.
abbrev focused_before : LayoutModel
focused_before = record model { focused_node_id_stack = some "b" ∷ some "c" ∷ [] }

close_focused :
    let (m, ds) = state_of (close_node digits by_code uuid focused_before "b") in
    (m.tree_state.focused_node_id ≡ some "c") × (ds ≡ some (record { block_id = "B" }) ∷ [])
unfolding close_node update_tree validate_node cleanup_node_models delete_node set_tree_state_atom
close_focused = (refl, refl)

switch_to_third :
    (state_of (
      switch_node_focus_by_block_num digits by_code uuid
        (entries (leafs root))
        focused_before
        3)).tree_state.focused_node_id
    ≡ some "c"
unfolding switch_node_focus_by_block_num update_tree validate_node cleanup_node_models find_node
    leafs focus_node set_tree_state_atom
switch_to_third = refl

tree_reducer-insert_example :
    (m' : LayoutModel) × (t : LayoutNode) × (los : List LeafOrderEntry) × (tree_reducer digits
        by_code uuid true model
        (on_tree (insert (some new_tile) true false))
      ≡ done m')
    × (m'.tree_state.root_node ≡ some t)
    × Within [] (leafs new_tile) (leafs root) (leafs t)
    × IsNormal t
    × (m'.tree_state.leaf_order ≡ some los)
    × Permᴰ los (entries (leafs t))
    × (m'.tree_state_atom ≡ m'.tree_state)
    × (m'.tree_state.generation ≡ 7 + 2)
    × (m'.last_tree_state_generation ≡ some m'.tree_state.generation)
tree_reducer-insert_example =
    tree_reducer-insert digits by_code uuid model root new_tile true false refl refl refl refl
      root_unique (omega arith) (omega arith)

-- A temporary node comes first in the order, and closing it hands its data on.
abbrev with_temporary : LayoutModel
with_temporary = record model {
  ephemeral_node = some new_tile;
  focused_node_id_stack = some "n" ∷ some "c" ∷ [];
}

close_temporary_node :
    let (m, ds) = state_of (close_node digits by_code uuid with_temporary "n") in
    (m.tree_state.focused_node_id ≡ some "c")
    × (ds ≡ some (record { block_id = "N" }) ∷ [])
    × (m.tree_state.leaf_order ≡ some (entries (leafs root)))
unfolding close_node close_temporary update_without_balance walked get_leaf_order validate_node
    cleanup_node_models find_node leafs set_tree_state_atom
close_temporary_node = (refl, refl, refl)

not_on_page :
    update_tree digits by_code (record model { is_on_page = false })
    ≡ ok (record model { is_on_page = false })
unfolding update_tree
not_on_page = refl

temporary_first :
    (state_of (
      focus_node_of digits by_code uuid
        (record with_temporary { focused_node_id_stack = [] })
        "n")).tree_state.leaf_order
    ≡ some (record { nodeid = "n"; blockid = "N" } ∷ entries (leafs root))
unfolding focus_node_of update_tree validate_node cleanup_node_models find_node leafs focus_node
    set_tree_state_atom
temporary_first = refl

-- A new temporary node takes the place of the old one, whose data is handed on, and gets the focus.
new_temporary_node :
    let (m, ds) = state_of (new_ephemeral_node digits by_code uuid with_temporary "M") in
    (m.tree_state.focused_node_id ≡ some "u") × (ds ≡ some (record { block_id = "N" }) ∷ [])
unfolding new_ephemeral_node close_node close_temporary focus_node_of update_without_balance walked
    get_leaf_order update_tree validate_node cleanup_node_models find_node leafs focus_node
    set_tree_state_atom
new_temporary_node = (refl, refl)

missing_temporary : add_ephemeral_node_to_layout digits by_code uuid model ≡ thrown type_error model
unfolding add_ephemeral_node_to_layout
missing_temporary = refl
