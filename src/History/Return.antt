-- ===== src/History/Return.antt =====
-- Going forward after going back.
use starterm.Base.{
  ◌≤◌, String, Option, some, Bool, List, [], ◌∷◌, ◌++◌, get_or, ◌≡◌, refl, ap, arith,
}
use starterm.Base.Lists.{length}
use starterm.History.{CurValKey, init, last, shift_excess, go_history_back, go_history_forward}
use starterm.History.Bounds.{navigate, back, forward}

init-last : (x : String) (xs : List String) → init (x ∷ xs) ++ last x xs ∷ [] ≡ x ∷ xs
init-last x [] = refl
init-last x (y ∷ ys) = ap (λ zs. x ∷ zs) (init-last y ys)

shift_excess_short : (xs : List String) → length xs ≤ 20 → shift_excess xs ≡ xs
shift_excess_short [] h = refl
shift_excess_short (x ∷ xs) h = ground arith

-- Where something lies behind, at most twenty values, going back and then forward shows the same value
-- again, with the same values behind and ahead.
pub navigate-back :
    (k : CurValKey) (shown x : String) (xs : List String) (m : Option (List String))
    (to_parent : Bool)
    → length (x ∷ xs) ≤ 20
    → navigate k forward (
        navigate k (back to_parent) (record {
          shown = shown;
          meta = record { history = some (x ∷ xs); history_forward = m };
        }))
      ≡ record {
        shown = shown;
        meta = record { history = some (x ∷ xs); history_forward = some (get_or m []) };
      }
unfolding go_history_back go_history_forward
navigate-back k shown x xs m to_parent h = rw (init-last x xs, shift_excess_short (x ∷ xs) h) refl
