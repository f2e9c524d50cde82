-- ===== src/Layout/Model/Order.antt =====
-- The order of the leafs holds exactly the leafs of the tree.
use starterm.Base.{
  ℕ, suc, ◌+◌, ◌≤◌, String, Option, none, some, Bool, List, [], ◌∷◌, ◌++◌, append-nil, Result, ok,
  throw, ◌>>=◌, ◌≡◌, refl, sym, ap, ◌∙◌, arith, if_both, true, if◌then◌else◌,
}
use mathlib.Core.Path.{subst, ap₂}
use mathlib.Core.List.{Permᴰ}
use mathlib.Core.List.Permᴰ
use starterm.Base.Lists.{length, length-append}
use starterm.Base.Texts.{concat}
use starterm.Layout.Types.Nodes.{LayoutNode, leaf, branch, Nodes, nil, cons, count_nodes}
use starterm.Layout.Node.Shape.{IsWellFormed, AreWellFormed}
use starterm.Layout.Node.Leaves.{leafs, leafs_of, Entry}
use starterm.Layout.Tree.{LeafOrderEntry}
use starterm.Layout.Node.Balance.Normal.{balance_node-IsNormal}
use starterm.Layout.Node.Balance.Leaves.{leafs-balance_node}
use starterm.Layout.Node.Shape.{IsNormal}
use starterm.Layout.Model.{
  LayoutModel, is_same, stack_top, validate_focused_node, validate_magnified_node,
  cleanup_node_models,
}
use starterm.Layout.Model.Update.{
  Keyed, temporary, if_any, both_lists, keyed, keyed_children, keyed_spliced, insert_by_key,
  sort_by_key, firsts, get_leaf_order, with_order, with_balanced, check_order, update_root,
  update_tree,
}

abbrev pub entries : List Entry → List LeafOrderEntry
entries [] = []
entries ((i, d) ∷ es) = record { nodeid = i; blockid = d.block_id } ∷ entries es

entries-append : (xs ys : List Entry) → entries (xs ++ ys) ≡ entries xs ++ entries ys
entries-append [] ys = refl
entries-append (x ∷ xs) ys =
    ap (λ es. record { nodeid = x.0; blockid = x.1.block_id } ∷ es) (entries-append xs ys)

firsts-append : (xs ys : List Keyed) → firsts (xs ++ ys) ≡ firsts xs ++ firsts ys
firsts-append [] ys = refl
firsts-append (x ∷ xs) ys = ap (λ es. x.0 ∷ es) (firsts-append xs ys)

-- A walk that returns at least so many leafs, which are those of a list.
abbrev Collects : ℕ → Result (List Keyed) → List Entry → Type 0
Collects n r ls = (es : List Keyed) × (r ≡ ok es) × (firsts es ≡ entries ls) × (n ≤ length es)

both_lists-Collects :
    (n : ℕ) (r s : Result (List Keyed)) (xs ys : List Entry)
    → Collects 1 r xs
    → Collects n s ys
    → Collects (suc n) (both_lists r s) (xs ++ ys)
both_lists-Collects n (throw e) s xs ys (es, p, h, le) _ = cc
both_lists-Collects n (ok b) (throw e) xs ys _ (fs, q, k, le) = cc
both_lists-Collects n (ok b) (ok c) xs ys (es, p, h, le) (fs, q, k, le') = (
  es ++ fs,
  cc,
  firsts-append es fs ∙ ap₂ ◌++◌ h k ∙ sym (entries-append xs ys),
  omega (arith, length-append es fs),
)

if_any-Collects :
    (r : Result (List Keyed)) (ls : List Entry) → Collects 1 r ls → Collects 1 (r >>= if_any) ls
if_any-Collects (throw e) ls (es, p, h, le) = cc
if_any-Collects (ok []) ls ([], p, h, le) = absurd (omega (arith, le))
if_any-Collects (ok []) ls (e ∷ es, p, h, le) = cc
if_any-Collects (ok (x ∷ xs)) ls (es, p, h, le) = (es, p, h, le)

fewer-Collects :
    (m n : ℕ) (r : Result (List Keyed)) (xs ys : List Entry)
    → xs ≡ ys
    → n ≤ m
    → Collects m r xs
    → Collects n r ys
fewer-Collects m n r xs ys e le (es, p, h, k) = (es, p, h ∙ ap entries e, omega (arith, k))

module _ (digits : ℕ → String) where
  mutual
    unfolding keyed leafs

    keyed-Collects :
        (k : String) (n : LayoutNode) → IsWellFormed n → Collects 1 (keyed digits k n) (leafs n)
    keyed-Collects k (leaf i none) h = absurd h
    keyed-Collects k (leaf i (some d)) h =
        ((record { nodeid = i.id; blockid = d.block_id }, k) ∷ [], refl, refl, omega arith)
    keyed-Collects k (branch i (some d) cs) h = absurd h
    keyed-Collects k (branch i none nil) h = absurd h
    keyed-Collects k (branch i none (cons c cs)) h =
        if_any-Collects (keyed_children digits k 0 (cons c cs)) (leafs_of (cons c cs)) (
          fewer-Collects (count_nodes (cons c cs)) 1 (keyed_children digits k 0 (cons c cs))
            (leafs_of (cons c cs)) (leafs_of (cons c cs)) refl (omega arith)
            (keyed_children-Collects k 0 (cons c cs) h))

    keyed_children-Collects :
        (k : String) (n : ℕ) (cs : Nodes)
        → AreWellFormed cs
        → Collects (count_nodes cs) (keyed_children digits k n cs) (leafs_of cs)
    keyed_children-Collects k n nil h = ([], refl, refl, omega arith)
    keyed_children-Collects k n (cons (branch i none nil) cs) h = absurd h.0
    keyed_children-Collects k n (cons (branch i (some d) nil) cs) h = absurd h.0
    keyed_children-Collects k n (cons (branch i (some d) (cons (branch j e gs) nil)) cs) h =
        absurd h.0
    keyed_children-Collects k n (cons (branch i none (cons (branch j (some e) gs) nil)) cs) h =
        absurd h.0.0
    keyed_children-Collects k n (cons (branch i none (cons (branch j none nil) nil)) cs) h =
        absurd h.0.0
    keyed_children-Collects k n (cons (branch i none (cons (branch j none (cons g gs)) nil)) cs) h =
        both_lists-Collects (count_nodes cs) (keyed_spliced digits k n (cons g gs))
          (keyed_children digits k (n + count_nodes (cons g gs)) cs) (leafs_of (cons g gs) ++ [])
          (leafs_of cs)
          (fewer-Collects (count_nodes (cons g gs)) 1 (keyed_spliced digits k n (cons g gs))
            (leafs_of (cons g gs)) (leafs_of (cons g gs) ++ []) (sym (append-nil _)) (omega arith)
            (keyed_spliced-Collects k n (cons g gs) h.0.0))
          (keyed_children-Collects k (n + count_nodes (cons g gs)) cs h.1)
    keyed_children-Collects k n (cons (branch i d (cons (leaf j e) nil)) cs) h =
        both_lists-Collects (count_nodes cs)
          (keyed digits (concat k (digits n)) (branch i d (cons (leaf j e) nil)))
          (keyed_children digits k (n + 1) cs) (leafs (branch i d (cons (leaf j e) nil)))
          (leafs_of cs)
          (keyed-Collects (concat k (digits n)) (branch i d (cons (leaf j e) nil)) h.0)
          (keyed_children-Collects k (n + 1) cs h.1)
    keyed_children-Collects k n (cons (branch i d (cons b (cons b' bs))) cs) h =
        both_lists-Collects (count_nodes cs)
          (keyed digits (concat k (digits n)) (branch i d (cons b (cons b' bs))))
          (keyed_children digits k (n + 1) cs) (leafs (branch i d (cons b (cons b' bs))))
          (leafs_of cs)
          (keyed-Collects (concat k (digits n)) (branch i d (cons b (cons b' bs))) h.0)
          (keyed_children-Collects k (n + 1) cs h.1)
    keyed_children-Collects k n (cons (leaf i d) cs) h =
        both_lists-Collects (count_nodes cs) (keyed digits (concat k (digits n)) (leaf i d))
          (keyed_children digits k (n + 1) cs) (leafs (leaf i d)) (leafs_of cs)
          (keyed-Collects (concat k (digits n)) (leaf i d) h.0)
          (keyed_children-Collects k (n + 1) cs h.1)

    keyed_spliced-Collects :
        (k : String) (n : ℕ) (gs : Nodes)
        → AreWellFormed gs
        → Collects (count_nodes gs) (keyed_spliced digits k n gs) (leafs_of gs)
    keyed_spliced-Collects k n nil h = ([], refl, refl, omega arith)
    keyed_spliced-Collects k n (cons g gs) h =
        both_lists-Collects (count_nodes gs) (keyed digits (concat k (digits n)) g)
          (keyed_spliced digits k (n + 1) gs) (leafs g) (leafs_of gs)
          (keyed-Collects (concat k (digits n)) g h.0) (keyed_spliced-Collects k (n + 1) gs h.1)

-- Sorting keeps the leafs.
module _ (before : String → String → Bool) where
  insert_by_key-Permᴰ :
      (e : Keyed) (fs : List Keyed) → Permᴰ (firsts (insert_by_key before e fs)) (e.0 ∷ firsts fs)
  insert_by_key-Permᴰ e [] = Permᴰ.cons refl Permᴰ.nil
  insert_by_key-Permᴰ e (f ∷ fs) =
      if_both (λ (ks : List Keyed). Permᴰ (firsts ks) (e.0 ∷ f.0 ∷ firsts fs)) (before e.1 f.1)
        (λ _. Permᴰ.refl (e.0 ∷ f.0 ∷ firsts fs))
        (λ _. Permᴰ.trans (Permᴰ.cons refl (insert_by_key-Permᴰ e fs)) (Permᴰ.swap refl refl))

  sort_by_key-Permᴰ : (es : List Keyed) → Permᴰ (firsts (sort_by_key before es)) (firsts es)
  sort_by_key-Permᴰ [] = Permᴰ.nil
  sort_by_key-Permᴰ (e ∷ es) =
      Permᴰ.trans (insert_by_key-Permᴰ e (sort_by_key before es))
        (Permᴰ.cons refl (sort_by_key-Permᴰ es))

-- The checks keep the tree, the order and the generation.
abbrev Keeps : List LeafOrderEntry → Option LayoutNode → ℕ → LayoutModel → Type 0
Keeps leafs r g m =
    (m.tree_state.leaf_order ≡ some leafs)
    × (m.tree_state.root_node ≡ r)
    × (m.tree_state.generation ≡ g)

validate_magnified_node-Keeps :
    (los leafs : List LeafOrderEntry) (r : Option LayoutNode) (g : ℕ) (m : LayoutModel)
    → Keeps leafs r g m
    → Keeps leafs r g (validate_magnified_node los m)
unfolding validate_magnified_node
validate_magnified_node-Keeps [] leafs r g m h = h
validate_magnified_node-Keeps (e ∷ []) leafs r g m h = h
validate_magnified_node-Keeps (e ∷ f ∷ es) leafs r g m h = h

check_order-Keeps :
    (leafs : List LeafOrderEntry) (m : LayoutModel)
    → Keeps leafs m.tree_state.root_node m.tree_state.generation (check_order leafs m)
unfolding cleanup_node_models validate_focused_node
check_order-Keeps leafs m =
    validate_magnified_node-Keeps leafs leafs m.tree_state.root_node m.tree_state.generation
      (validate_focused_node leafs (with_order leafs m))
      (if_both (Keeps leafs m.tree_state.root_node m.tree_state.generation)
        (is_same m.tree_state.focused_node_id (stack_top m.focused_node_id_stack))
        (λ _. (refl, refl, refl)) (λ _. (refl, refl, refl)))

-- An update of a well-formed layout that is on the page, without a temporary node, succeeds: its tree is
-- balanced, without a node whose only child is a leaf, and keeps its leafs, and the new order holds exactly
-- these, each with its block, in some order. The generation stays.
pub update_tree-Permᴰ :
    (digits : ℕ → String) (before : String → String → Bool) (m : LayoutModel) (root : LayoutNode)
    → m.is_on_page ≡ true
    → m.ephemeral_node ≡ none
    → m.tree_state.root_node ≡ some root
    → IsWellFormed root
    → (m' : LayoutModel) × (update_tree digits before m ≡ ok m')
      × ((t : LayoutNode) × (m'.tree_state.root_node ≡ some t)
          × IsNormal t
          × (leafs t ≡ leafs root))
      × ((los : List LeafOrderEntry) × (m'.tree_state.leaf_order ≡ some los)
          × Permᴰ los (entries (leafs root)))
      × (m'.tree_state.generation ≡ m.tree_state.generation)
unfolding update_tree get_leaf_order
update_tree-Permᴰ digits before m root page alone e w =
    let (t, b, normal) = balance_node-IsNormal root w in
    let (es, q, h, le) = keyed-Collects digits "0" root w in
    let los = get_leaf_order before es in
    let (k, r, g) = check_order-Keeps los (with_balanced (some t) m) in
    (
      check_order los (with_balanced (some t) m),
      ap (λ (b : Bool). if b then update_root digits before m m.tree_state.root_node else ok m) page
          ∙ ap (update_root digits before m) e
          ∙ ap (λ c. c >>= λ t. keyed digits "0" root >>= λ es. ordered t es) b
          ∙ ap (λ c. c >>= λ es. ordered t es) q
          ∙ ap
              (λ o. temporary o >>= λ fs.
                ok (check_order (get_leaf_order before (es ++ fs)) (with_balanced (some t) m)))
              alone
          ∙ ap (λ fs. ok (check_order (get_leaf_order before fs) (with_balanced (some t) m)))
              (append-nil es),
      (t, r, normal, leafs-balance_node root b),
      (los, k, subst (Permᴰ los) h (sort_by_key-Permᴰ before es)),
      g,
    )
  where
    ordered : LayoutNode → List Keyed → Result LayoutModel
    ordered t es = temporary m.ephemeral_node >>= λ fs.
        ok (check_order (get_leaf_order before (es ++ fs)) (with_balanced (some t) m))
