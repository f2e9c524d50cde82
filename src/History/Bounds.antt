-- ===== src/History/Bounds.antt =====
-- A block's history under any sequence of moves.
use starterm.Base.{
  ℕ, zero, suc, ◌+◌, ◌≤◌, String, Option, none, some, Bool, true, false, ◌===◌, List, [], ◌∷◌, ◌++◌,
  get_or, or_else, ◌≡◌, refl, arith, Bool-cases, inl, inr,
}
use starterm.Base.Lists.{length, length-append}
use starterm.History.{
  CurValKey, Meta, MetaUpdate, init, pop_excess, shift_excess, step_back, step_forward,
  go_history_back, go_history_forward, go_history, get_parent_directory,
}

-- The shown value with the metadata, and the update merged into both by key.
pub record View : Type 0 where
  pub shown : String
  pub meta : Meta

abbrev pub merge : View → Option MetaUpdate → View
merge w none = w
merge w (some u) = record {
  shown = u.value;
  meta = record {
    history = or_else u.new_history w.meta.history;
    history_forward = some u.new_forward;
  };
}

pub data Navigation : Type 0 where
  back : Bool → Navigation
  forward : Navigation
  visit : String → Navigation

abbrev pub navigate : CurValKey → Navigation → View → View
navigate k (back to_parent) w = merge w (go_history_back k w.shown w.meta to_parent)
navigate k forward w = merge w (go_history_forward k w.shown w.meta)
navigate k (visit new) w = merge w (go_history k w.shown new w.meta)

abbrev pub navigate_all : CurValKey → List Navigation → View → View
navigate_all k [] w = w
navigate_all k (n ∷ ns) w = navigate_all k ns (navigate k n w)

abbrev pub behind : View → List String
behind w = get_or w.meta.history []

abbrev pub ahead : View → List String
ahead w = get_or w.meta.history_forward []

abbrev pub size : View → ℕ
size w = length (behind w) + length (ahead w)

length-init : (x : String) (xs : List String) → length (init (x ∷ xs)) + 1 ≡ length (x ∷ xs)
length-init x [] = refl
length-init x (y ∷ ys) = omega (arith, length-init y ys)

length-pop_excess : (n : ℕ) (xs : List String) → length xs ≤ n + 20 → length (pop_excess n xs) ≤ 20
length-pop_excess zero xs h = h
length-pop_excess (suc n) [] h = ground arith
length-pop_excess (suc n) (x ∷ xs) h =
    ground (arith, length-init x xs, length-pop_excess n (init (x ∷ xs)))

length-shift_excess : (xs : List String) → length xs ≤ 21 → length (shift_excess xs) ≤ 20
length-shift_excess [] h = omega arith
length-shift_excess (x ∷ xs) h = ground arith

shift_excess_shrinks : (xs : List String) → length (shift_excess xs) ≤ length xs
shift_excess_shrinks [] = omega arith
shift_excess_shrinks (x ∷ xs) = ground arith

length-snoc : (xs : List String) (v : String) → length (xs ++ v ∷ []) ≡ length xs + 1
length-snoc xs v = length-append xs (v ∷ [])

back_size :
    (k : CurValKey) (w : View) (parent : String) (xs ys : List String) (to_parent : Bool)
    → behind w ≡ xs
    → ahead w ≡ ys
    → length xs + length ys ≤ 20
    → size (merge w (step_back k w.shown parent xs ys to_parent)) ≤ 20
back_size k w parent [] ys false b a h = rw (b, a) h
back_size k w parent [] ys true b a h = elim (Bool-cases (parent === w.shown)) [
  | inl same ↦ rw (same, b, a) h
  | inr other ↦
      rw (other, b)
        (omega (arith, length-pop_excess (length (w.shown ∷ ys)) (w.shown ∷ ys) (omega arith)))
]
back_size k w parent (x ∷ xs) ys to_parent b a h = omega (arith, length-init x xs)

forward_size :
    (k : CurValKey) (w : View) (xs ys : List String)
    → behind w ≡ xs
    → ahead w ≡ ys
    → length xs + length ys ≤ 20
    → size (merge w (step_forward k w.shown xs ys)) ≤ 20
forward_size k w xs [] b a h = rw (b, a) h
forward_size k w xs (y ∷ ys) b a h =
    omega (arith, shift_excess_shrinks (xs ++ w.shown ∷ []), length-snoc xs w.shown)

-- If a block has at most twenty values behind and ahead together, then so it is after any sequence of
-- going back, also to the parent directory, forward, and to new values.
pub size-navigate_all :
    (k : CurValKey) (ns : List Navigation) (w : View)
    → size w ≤ 20
    → size (navigate_all k ns w) ≤ 20
unfolding go_history_back go_history_forward go_history
size-navigate_all k [] w h = h
size-navigate_all k (back to_parent ∷ ns) w h =
    size-navigate_all k ns (navigate k (back to_parent) w)
      (back_size k w (get_parent_directory w.shown) (behind w) (ahead w) to_parent refl refl h)
size-navigate_all k (forward ∷ ns) w h =
    size-navigate_all k ns (navigate k forward w)
      (forward_size k w (behind w) (ahead w) refl refl h)
size-navigate_all k (visit new ∷ ns) w h = size-navigate_all k ns (navigate k (visit new) w) (
    omega (
      arith,
      length-shift_excess (behind w ++ w.shown ∷ [])
          (omega (arith, length-snoc (behind w) w.shown)),
    ))
