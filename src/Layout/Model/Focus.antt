-- ===== src/Layout/Model/Focus.antt =====
-- Where the focus goes when the focused node is gone.
use starterm.Base.{
  String, Option, none, some, Bool, true, false, not, ◌&&◌, ◌||◌, List, [], ◌∷◌, ◌++◌,
  if◌then◌else◌, ◌≡◌, refl, sym, ap, ◌∙◌, if_both, eq_refl,
}
use mathlib.Core.Path.{subst}
use starterm.Layout.Tree.{LeafOrderEntry}
use starterm.Layout.Model.{
  LayoutModel, is_same, has_leaf, includes, without_stale, next_focus, refocus, with_focus,
  stack_top, validate_focused_node,
}

-- The first of the stack that is still a leaf, and else the first leaf.
abbrev pub latest_or_first :
    LeafOrderEntry → List LeafOrderEntry → List (Option String) → Option String
latest_or_first e es [] = some e.nodeid
latest_or_first e es (o ∷ os) = if has_leaf (e ∷ es) o then o else latest_or_first e es os

-- What the loop has kept first stays first.
next_focus-without_stale :
    (leafs : List LeafOrderEntry) (unset o : Option String) (os new : List (Option String))
    → (next_focus leafs unset (without_stale leafs os (o ∷ new))).0 ≡ o
next_focus-without_stale leafs unset o [] new = refl
next_focus-without_stale leafs unset o (p ∷ os) new =
    if_both
      (λ (ns : List (Option String)). (next_focus leafs unset (without_stale leafs os ns)).0 ≡ o)
      (has_leaf leafs p && not (includes (o ∷ new) p))
      (λ _. next_focus-without_stale leafs unset o os (new ++ p ∷ []))
      (λ _. next_focus-without_stale leafs unset o os new)

keep_test : (b : Bool) → (b && not false) ≡ b
keep_test true = refl
keep_test false = refl

next_focus-latest_or_first :
    (e : LeafOrderEntry) (es : List LeafOrderEntry) (unset : Option String)
    (os : List (Option String))
    → (next_focus (e ∷ es) unset (without_stale (e ∷ es) os [])).0 ≡ latest_or_first e es os
next_focus-latest_or_first e es unset [] = refl
next_focus-latest_or_first e es unset (o ∷ os) =
    ap
      (λ (b : Bool).
        (next_focus (e ∷ es) unset (without_stale (e ∷ es) os (if b then o ∷ [] else []))).0)
      (keep_test (has_leaf (e ∷ es) o))
    ∙ both (has_leaf (e ∷ es) o) (next_focus-latest_or_first e es unset os)
  where
    both :
        (b : Bool)
        → (next_focus (e ∷ es) unset (without_stale (e ∷ es) os [])).0 ≡ latest_or_first e es os
        → (next_focus (e ∷ es) unset (without_stale (e ∷ es) os (if b then o ∷ [] else []))).0
          ≡ (if b then o else latest_or_first e es os)
    both true h = next_focus-without_stale (e ∷ es) unset o os []
    both false h = h

has_leaf-latest_or_first :
    (e : LeafOrderEntry) (es : List LeafOrderEntry) (os : List (Option String))
    → has_leaf (e ∷ es) (latest_or_first e es os) ≡ true
has_leaf-latest_or_first e es [] = ap (λ b. b || has_leaf es (some e.nodeid)) (eq_refl e.nodeid)
has_leaf-latest_or_first e es (o ∷ os) =
    if_both (λ (p : Option String). has_leaf (e ∷ es) p ≡ true) (has_leaf (e ∷ es) o) (λ h. h)
      (λ _. has_leaf-latest_or_first e es os)

-- Where no node is focused any more, one was before, and there are leafs, the focus goes to the leaf
-- that had it last, or to the first leaf if none of those that had it is left; it is on top of the
-- stack, and it is a leaf of the layout.
pub validate_focused_node-latest_or_first :
    (e : LeafOrderEntry) (es : List LeafOrderEntry) (m : LayoutModel)
    → m.tree_state.focused_node_id ≡ none
    → is_same none (stack_top m.focused_node_id_stack) ≡ false
    → let r = validate_focused_node (e ∷ es) m in
      (r.tree_state.focused_node_id ≡ latest_or_first e es m.focused_node_id_stack)
      × (stack_top r.focused_node_id_stack ≡ r.tree_state.focused_node_id)
      × (has_leaf (e ∷ es) r.tree_state.focused_node_id ≡ true)
unfolding validate_focused_node
validate_focused_node-latest_or_first e es m gone was =
    let stack = m.focused_node_id_stack in
    let o = next_focus (e ∷ es) none (without_stale (e ∷ es) stack []) in
    subst
      (λ (r : LayoutModel).
        (r.tree_state.focused_node_id ≡ latest_or_first e es stack)
        × (stack_top r.focused_node_id_stack ≡ r.tree_state.focused_node_id)
        × (has_leaf (e ∷ es) r.tree_state.focused_node_id ≡ true))
      (sym (
        ap
          (λ (f : Option String).
            if is_same f (stack_top stack)
            then m
            else with_focus m (refocus (e ∷ es) f (without_stale (e ∷ es) stack [])))
          gone
        ∙ ap (λ (b : Bool). if b then m else with_focus m o) was))
      (
        next_focus-latest_or_first e es none stack,
        refl,
        ap (has_leaf (e ∷ es)) (next_focus-latest_or_first e es none stack)
            ∙ has_leaf-latest_or_first e es stack,
      )
