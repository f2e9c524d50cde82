-- ===== src/Layout/Node/Find.antt =====
-- What findNode and findParent find.
pub mod Parent
pub mod Child
use starterm.Base.{
  ℕ, String, Option, none, some, Bool, true, false, not, ◌&&◌, ◌||◌, ◌===◌, eq_iff, eq_refl, List,
  [], ◌∷◌, ◌++◌, if◌then◌else◌, ◌≡◌, refl, sym, ap, ◌∙◌, arith, Bool-cases, Option-cases, inl, inr,
  or_else, is_defined, some_inj, none_ne_some, ◌≢◌, ◌⊎◌,
}
use starterm.Layout.Types.Nodes.{
  Info, TabLayoutData, LayoutNode, leaf, branch, Nodes, nil, cons, id_of,
}
use starterm.Layout.Node.{find_node, find_nodes}

-- The ids of a tree, a node before its children.
unfoldable mutual
  pub ids : LayoutNode → List String
  ids (leaf i d) = i.id ∷ []
  ids (branch i d cs) = i.id ∷ ids_of cs

  pub ids_of : Nodes → List String
  ids_of nil = []
  ids_of (cons c cs) = ids c ++ ids_of cs

unfoldable pub elem : String → List String → Bool
elem s [] = false
elem s (t ∷ ts) = (t === s) || elem s ts

unfoldable pub unique : List String → Bool
unfolding elem
unique [] = true
unique (t ∷ ts) = not (elem t ts) && unique ts

-- No two nodes of the tree have one id.
abbrev pub HasUniqueIds : LayoutNode → Type 0
HasUniqueIds n = unique (ids n) ≡ true

pub elem-append : (s : String) (xs ys : List String) → elem s (xs ++ ys) ≡ (elem s xs || elem s ys)
unfolding elem
elem-append s [] ys = refl
elem-append s (x ∷ xs) ys = ground (arith, elem-append s xs ys)

pub unique-append :
    (xs ys : List String)
    → unique (xs ++ ys) ≡ true
    → (unique xs ≡ true)
      × (unique ys ≡ true)
      × ((s : String) → elem s xs ≡ true → elem s ys ≡ false)
unfolding unique
unique-append [] ys h = (refl, h, λ s e. cc)
unique-append (x ∷ xs) ys h =
    let (p, q, r) = unique-append xs ys (ground (arith, elem-append x xs ys)) in
    (
      ground (arith, elem-append x xs ys),
      q,
      λ s e. ground (arith, elem-append x xs ys, r s, eq_iff x s),
    )

mutual
  unfolding find_node ids elem

  elem-ids' : (n : LayoutNode) (s : String) → is_defined (find_node n s) ≡ elem s (ids n)
  elem-ids' (leaf i d) s = ground arith
  elem-ids' (branch i d cs) s = elim (Bool-cases (i.id === s)) [
    | inl e ↦ rw e
    | inr e ↦ rw e (elem-ids_of' cs s)
  ]

  elem-ids_of' : (ns : Nodes) (s : String) → is_defined (find_nodes ns s) ≡ elem s (ids_of ns)
  elem-ids_of' nil s = refl
  elem-ids_of' (cons c cs) s =
      ground (arith, elem-append s (ids c) (ids_of cs), elem-ids' c s, elem-ids_of' cs s)

pub elem-ids : (n : LayoutNode) (s : String) → is_defined (find_node n s) ≡ elem s (ids n)
elem-ids = elem-ids'

pub elem-ids_of : (ns : Nodes) (s : String) → is_defined (find_nodes ns s) ≡ elem s (ids_of ns)
elem-ids_of = elem-ids_of'

mutual
  unfolding find_node

  find_node-id' :
      (t : LayoutNode) (s : String) (n : LayoutNode) → find_node t s ≡ some n → id_of n ≡ s
  find_node-id' (leaf i d) s n h = ground (arith, eq_iff i.id s)
  find_node-id' (branch i d cs) s n h = elim (Bool-cases (i.id === s)) [
    | inl e ↦ ap id_of (sym (some_inj (rw e at h))) ∙ (eq_iff i.id s).0 e
    | inr e ↦ find_nodes-id' cs s n (rw e at h)
  ]

  find_nodes-id' :
      (ts : Nodes) (s : String) (n : LayoutNode) → find_nodes ts s ≡ some n → id_of n ≡ s
  find_nodes-id' nil s n h = absurd (none_ne_some h)
  find_nodes-id' (cons c cs) s n h = elim (Option-cases (find_node c s)) [
    | inl e ↦ find_nodes-id' cs s n (rw e at h)
    | inr (k, e) ↦ find_node-id' c s n (e ∙ (rw e at h))
  ]

pub find_node-id :
    (t : LayoutNode) (s : String) (n : LayoutNode) → find_node t s ≡ some n → id_of n ≡ s
find_node-id = find_node-id'

defined_some {ℓ} : {A : Type ℓ} (o : Option A) → is_defined o ≡ true → (a : A) × (o ≡ some a)
defined_some none h = cc
defined_some (some a) h = (a, refl)

-- findNode finds a node exactly if some node of the tree has the id, and the node found has it.
pub find_node-iff-elem :
    (t : LayoutNode) (s : String)
    → (elem s (ids t) ≡ true → (n : LayoutNode) × (find_node t s ≡ some n) × (id_of n ≡ s))
      × (elem s (ids t) ≡ false → find_node t s ≡ none)
find_node-iff-elem t s = (
  λ e. let (n, p) = defined_some (find_node t s) (elem-ids t s ∙ e) in (n, p, find_node-id t s n p),
  λ e. ground (arith, elem-ids t s),
)
