-- ===== src/Json/Frame.antt =====
-- A write leaves alone what other paths read.
use starterm.Base.{
  ℕ, String, Option, none, some, Bool, false, eq_refl, eq_false_of_ne, List, [], ◌∷◌, ◌≡◌, ◌≢◌,
  refl, sym, ap, ◌∙◌, Result, ok, ok_inj, ◌⊎◌, inl, inr,
}
use mathlib.Core.Path.{subst}
use starterm.Base.Int.{pos, negsuc}
use starterm.Json.{
  PathPart, key, index, get_path, step_into, as_object, as_array, set_path_internal,
}
use starterm.Json.Values.{
  Json, null, bool, num, str, arr, obj, Items, Fields, nil, end, lookup, put, item_at, set_item,
  lookup-put, item_at-set_item, item_at-set_item_ne,
}
use starterm.Json.Laws.{
  Combine, writing, negative_throws, set_path_internal-key, set_path_internal-index,
}

-- Two parts that no container reads alike.
abbrev pub AreApart : PathPart → PathPart → Type 0
AreApart (key k) (key j) = k ≢ j
AreApart (index (pos i)) (index (pos j)) = i ≢ j
AreApart (index (negsuc i)) q = ⊥
AreApart p q = Unit {0}

-- Two paths that part at some point.
abbrev pub Diverge : List PathPart → List PathPart → Type 0
Diverge [] qs = ⊥
Diverge (p ∷ ps) [] = ⊥
Diverge (p ∷ ps) (q ∷ qs) = AreApart p q ⊎ ((p ≡ q) × Diverge ps qs)

get_path-null : (qs : List PathPart) → get_path null qs ≡ null
unfolding get_path
get_path-null [] = refl
get_path-null (q ∷ qs) = get_path-null qs

-- What an object or an array reads, before and after an unforced write made it one.
as_object-step :
    (c : Combine) (v : Json) (fs : Fields) (q : PathPart)
    → as_object v (writing false c) ≡ ok (some fs)
    → step_into (obj fs) q ≡ step_into v q
unfolding as_object lookup
as_object-step c null fs (key k) h = ap (λ o. step_into (obj (the o)) (key k)) (sym (ok_inj h))
  where
    the : Option Fields → Fields
    the none = end
    the (some gs) = gs
as_object-step c null fs (index i) h = refl
as_object-step c (obj gs) fs q h = ap (λ o. step_into (obj (the o)) q) (sym (ok_inj h))
  where
    the : Option Fields → Fields
    the none = end
    the (some hs) = hs
as_object-step c (bool b) fs q h = cc
as_object-step c (num n) fs q h = cc
as_object-step c (str s) fs q h = cc
as_object-step c (arr xs) fs q h = cc

as_array-step :
    (c : Combine) (v : Json) (xs : Items) (q : PathPart)
    → as_array v (writing false c) ≡ ok (some xs)
    → step_into (arr xs) q ≡ step_into v q
unfolding as_array
as_array-step c null xs (key k) h = refl
as_array-step c null xs (index (negsuc i)) h = refl
as_array-step c null xs (index (pos i)) h =
    ap (λ o. step_into (arr (the o)) (index (pos i))) (sym (ok_inj h))
  where
    the : Option Items → Items
    the none = nil
    the (some ys) = ys
as_array-step c (arr ys) xs q h = ap (λ o. step_into (arr (the o)) q) (sym (ok_inj h))
  where
    the : Option Items → Items
    the none = nil
    the (some zs) = zs
as_array-step c (bool b) xs q h = cc
as_array-step c (num n) xs q h = cc
as_array-step c (str s) xs q h = cc
as_array-step c (obj fs) xs q h = cc

step-put :
    (k : String) (w : Json) (fs : Fields) (q : PathPart)
    → AreApart (key k) q
    → step_into (obj (put k w fs)) q ≡ step_into (obj fs) q
step-put k w fs (key j) h = rw (lookup-put k j w fs, eq_false_of_ne k j h) refl
step-put k w fs (index i) h = refl

step-set_item :
    (i : ℕ) (w : Json) (xs : Items) (q : PathPart)
    → AreApart (index (pos i)) q
    → step_into (arr (set_item i w xs)) q ≡ step_into (arr xs) q
step-set_item i w xs (key j) h = refl
step-set_item i w xs (index (pos j)) h = item_at-set_item_ne i j w xs h
step-set_item i w xs (index (negsuc j)) h = refl

-- After a write without `force` that succeeds, plain or with a combine function, every path that parts from the written one
-- reads what it read before.
pub get_path-frame :
    (c : Combine) (v x : Json) (ps qs : List PathPart) {v' : Json}
    → Diverge ps qs
    → set_path_internal v ps x (writing false c) ≡ ok v'
    → get_path v' qs ≡ get_path v qs
unfolding get_path
get_path-frame c v x [] qs d h = absurd d
get_path-frame c v x (p ∷ ps) [] d h = absurd d
get_path-frame c v x (index (negsuc i) ∷ ps) (q ∷ qs) d h =
    absurd (negative_throws v x i ps false c h)
get_path-frame c v x (key k ∷ ps) (q ∷ qs) (inl d) h =
    let (fs, w, p, r, s) = set_path_internal-key v x k ps false c h in
    ap (λ t. get_path t qs)
      (ap (λ t. step_into t q) (sym s) ∙ step-put k w fs q d ∙ as_object-step c v fs q p)
get_path-frame c v x (key k ∷ ps) (q ∷ qs) {v'} (inr (e, d)) h =
    let (fs, w, p, r, s) = set_path_internal-key v x k ps false c h in
    subst (λ t. get_path v' (t ∷ qs) ≡ get_path v (t ∷ qs)) e
      (subst (λ t. get_path t (key k ∷ qs) ≡ get_path v (key k ∷ qs)) s
        (ap (λ t. get_path t qs) (rw (lookup-put k k w fs, eq_refl k) refl)
          ∙ get_path-frame c (lookup k fs) x ps qs d r
          ∙ ap (λ t. get_path t qs) (as_object-step c v fs (key k) p)))
get_path-frame c v x (index (pos i) ∷ ps) (q ∷ qs) (inl d) h =
    let (xs, w, p, r, s) = set_path_internal-index v x i ps false c h in
    ap (λ t. get_path t qs)
      (ap (λ t. step_into t q) (sym s) ∙ step-set_item i w xs q d ∙ as_array-step c v xs q p)
get_path-frame c v x (index (pos i) ∷ ps) (q ∷ qs) {v'} (inr (e, d)) h =
    let (xs, w, p, r, s) = set_path_internal-index v x i ps false c h in
    subst (λ t. get_path v' (t ∷ qs) ≡ get_path v (t ∷ qs)) e
      (subst (λ t. get_path t (index (pos i) ∷ qs) ≡ get_path v (index (pos i) ∷ qs)) s
        (ap (λ t. get_path t qs) (item_at-set_item i w xs)
          ∙ get_path-frame c (item_at xs i) x ps qs d r
          ∙ ap (λ t. get_path t qs) (as_array-step c v xs (index (pos i)) p)))

-- A write with a combine function and without `force` leaves at the path what the function makes
-- of what was read there before.
pub get_path-combine :
    (f : Json → Json → Bool → Result Json) (v x : Json) (ps : List PathPart) {v' : Json}
    → set_path_internal v ps x (writing false (some f)) ≡ ok v'
    → f (get_path v ps) x false ≡ ok (get_path v' ps)
unfolding get_path set_path_internal
get_path-combine f v x [] h = h
get_path-combine f v x (index (negsuc i) ∷ ps) h =
    absurd (negative_throws v x i ps false (some f) h)
get_path-combine f v x (key k ∷ ps) h =
    let (fs, w, p, r, s) = set_path_internal-key v x k ps false (some f) h in
    subst (λ t. f (get_path (step_into v (key k)) ps) x false ≡ ok (get_path t (key k ∷ ps))) s
      (rw (lookup-put k k w fs, eq_refl k)
        (rw (← as_object-step (some f) v fs (key k) p) (get_path-combine f (lookup k fs) x ps r)))
get_path-combine f v x (index (pos i) ∷ ps) h =
    let (xs, w, p, r, s) = set_path_internal-index v x i ps false (some f) h in
    subst
      (λ t.
        f (get_path (step_into v (index (pos i))) ps) x false
        ≡ ok (get_path t (index (pos i) ∷ ps)))
      s
      (rw (item_at-set_item i w xs) (
        rw (← as_array-step (some f) v xs (index (pos i)) p)
          (get_path-combine f (item_at xs i) x ps r)))
