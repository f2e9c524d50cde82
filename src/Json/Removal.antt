-- ===== src/Json/Removal.antt =====
-- What a removal leaves at its path.
use starterm.Base.{
  ℕ, zero, suc, ◌+◌, ◌≤◌, String, Option, none, some, true, false, eq_refl, List, [], ◌∷◌, leb,
  nat_eq, ◌≡◌, refl, sym, ap, ◌∙◌, arith, ok, ok_inj, throw_ne_ok, returned, Bool-cases, inl, inr,
}
use starterm.Base.Int.{pos, negsuc}
use starterm.Json.{
  PathPart, key, index, get_path, step_into, SetPathOpts, null_if_empty, drop_last, remove_from_arr,
  as_object, as_array, set_in_fields, set_in_items, store_field, store_item, set_path_internal,
}
use starterm.Json.Values.{
  Json, null, bool, num, str, arr, obj, Items, nil, cons, Fields, end, field, lookup, delete,
  item_at, count_items, lookup-put, lookup-delete, item_at-set_item,
}

-- The options of a removal.
abbrev pub removing : SetPathOpts
removing = record { force = false; remove = true; combinefn = none }

get_path-null : (qs : List PathPart) → get_path null qs ≡ null
unfolding get_path
get_path-null [] = refl
get_path-null (q ∷ qs) = get_path-null qs

step-null_if_empty-obj :
    (fs : Fields) (k : String) → step_into (null_if_empty (obj fs)) (key k) ≡ lookup k fs
unfolding lookup
step-null_if_empty-obj end k = refl
step-null_if_empty-obj (field j v fs) k = refl

step-null_if_empty-arr :
    (xs : Items) (i : ℕ) → step_into (null_if_empty (arr xs)) (index (pos i)) ≡ item_at xs i
step-null_if_empty-arr nil i = refl
step-null_if_empty-arr (cons x xs) i = refl

lookup_deleted : (k : String) (fs : Fields) → lookup k (delete k fs) ≡ null
lookup_deleted k fs = rw (lookup-delete k k fs, eq_refl k) refl

item_past_end : (xs : Items) (i : ℕ) → count_items xs ≤ i → item_at xs i ≡ null
item_past_end nil i h = refl
item_past_end (cons x xs) zero h = elim h [ ]
item_past_end (cons x xs) (suc i) h = item_past_end xs i (omega arith)

item_dropped : (xs : Items) (i : ℕ) → i + 1 ≡ count_items xs → item_at (drop_last xs) i ≡ null
unfolding drop_last
item_dropped nil i h = refl
item_dropped (cons x nil) i h = refl
item_dropped (cons x (cons y ys)) zero h = absurd (omega arith)
item_dropped (cons x (cons y ys)) (suc i) h = item_dropped (cons y ys) i (omega arith)

step-remove_from_arr :
    (xs : Items) (i : ℕ) → step_into (remove_from_arr xs i) (index (pos i)) ≡ null
unfolding remove_from_arr
step-remove_from_arr xs i = elim (Bool-cases (leb (count_items xs) i)) [
  | inl e ↦ rw e (item_past_end xs i (ground arith))
  | inr e ↦ elim (Bool-cases (nat_eq (i + 1) (count_items xs))) [
    | inl last ↦
        rw e (rw last (step-null_if_empty-arr (drop_last xs) i ∙ item_dropped xs i (ground arith)))
    | inr within ↦ rw e (rw within (item_at-set_item i null xs))
  ]
]

-- After storing what is left below a key or an index, that is what is read there.
step-store_field :
    (k : String) (fs : Fields) (w : Json) → step_into (store_field removing k fs w) (key k) ≡ w
step-store_field k fs null = step-null_if_empty-obj (delete k fs) k ∙ lookup_deleted k fs
step-store_field k fs (bool b) = rw (lookup-put k k (bool b) fs, eq_refl k) refl
step-store_field k fs (num n) = rw (lookup-put k k (num n) fs, eq_refl k) refl
step-store_field k fs (str s) = rw (lookup-put k k (str s) fs, eq_refl k) refl
step-store_field k fs (arr xs) = rw (lookup-put k k (arr xs) fs, eq_refl k) refl
step-store_field k fs (obj gs) = rw (lookup-put k k (obj gs) fs, eq_refl k) refl

step-store_item :
    (i : ℕ) (xs : Items) (w : Json) → step_into (store_item removing i xs w) (index (pos i)) ≡ w
step-store_item i xs null = step-remove_from_arr xs i
step-store_item i xs (bool b) = item_at-set_item i (bool b) xs
step-store_item i xs (num n) = item_at-set_item i (num n) xs
step-store_item i xs (str s) = item_at-set_item i (str s) xs
step-store_item i xs (arr ys) = item_at-set_item i (arr ys) xs
step-store_item i xs (obj fs) = item_at-set_item i (obj fs) xs

-- After a removal that succeeds nothing is read from the path.
pub get_path-removed :
    (v : Json) (ps : List PathPart) {v' : Json}
    → set_path_internal v ps null removing ≡ ok v'
    → get_path v' ps ≡ null
unfolding get_path set_path_internal
get_path-removed v [] h = sym (ok_inj h)
get_path-removed v (index (negsuc i) ∷ ps) h = absurd (throw_ne_ok h)
get_path-removed v (key k ∷ []) {v'} h =
    let (o, p, q) = returned (as_object v removing) _ h in below o q
  where
    below :
        (o : Option Fields)
        → set_in_fields removing k true (λ w. set_path_internal w [] null removing) o ≡ ok v'
        → get_path v' (key k ∷ []) ≡ null
    below none q = ap (λ t. get_path t (key k ∷ [])) (sym (ok_inj q))
    below (some fs) q =
        ap (λ t. get_path t (key k ∷ [])) (sym (ok_inj q))
        ∙ step-null_if_empty-obj (delete k fs) k
        ∙ lookup_deleted k fs
get_path-removed v (key k ∷ r ∷ ps) {v'} h =
    let (o, p, q) = returned (as_object v removing) _ h in
    below (λ w w'. get_path-removed w (r ∷ ps) {v' = w'}) o q
  where
    below :
        ((w w' : Json)
          → set_path_internal w (r ∷ ps) null removing ≡ ok w'
          → get_path w' (r ∷ ps) ≡ null)
        → (o : Option Fields)
        → set_in_fields removing k false (λ w. set_path_internal w (r ∷ ps) null removing) o ≡ ok v'
        → get_path v' (key k ∷ r ∷ ps) ≡ null
    below ih none q = ap (λ t. get_path t (key k ∷ r ∷ ps)) (sym (ok_inj q)) ∙ get_path-null ps
    below ih (some fs) q =
        let (w, a, b) = returned (set_path_internal (lookup k fs) (r ∷ ps) null removing) _ q in
        ap (λ t. get_path t (key k ∷ r ∷ ps)) (sym (ok_inj b))
        ∙ ap (λ t. get_path t (r ∷ ps)) (step-store_field k fs w)
        ∙ ih (lookup k fs) w a
get_path-removed v (index (pos i) ∷ []) {v'} h =
    let (o, p, q) = returned (as_array v removing) _ h in below o q
  where
    below :
        (o : Option Items)
        → set_in_items removing i true (λ w. set_path_internal w [] null removing) o ≡ ok v'
        → get_path v' (index (pos i) ∷ []) ≡ null
    below none q = ap (λ t. get_path t (index (pos i) ∷ [])) (sym (ok_inj q))
    below (some xs) q =
        ap (λ t. get_path t (index (pos i) ∷ [])) (sym (ok_inj q)) ∙ step-remove_from_arr xs i
get_path-removed v (index (pos i) ∷ r ∷ ps) {v'} h =
    let (o, p, q) = returned (as_array v removing) _ h in
    below (λ w w'. get_path-removed w (r ∷ ps) {v' = w'}) o q
  where
    below :
        ((w w' : Json)
          → set_path_internal w (r ∷ ps) null removing ≡ ok w'
          → get_path w' (r ∷ ps) ≡ null)
        → (o : Option Items)
        → set_in_items removing i false (λ w. set_path_internal w (r ∷ ps) null removing) o ≡ ok v'
        → get_path v' (index (pos i) ∷ r ∷ ps) ≡ null
    below ih none q =
        ap (λ t. get_path t (index (pos i) ∷ r ∷ ps)) (sym (ok_inj q)) ∙ get_path-null ps
    below ih (some xs) q =
        let (w, a, b) = returned (set_path_internal (item_at xs i) (r ∷ ps) null removing) _ q in
        ap (λ t. get_path t (index (pos i) ∷ r ∷ ps)) (sym (ok_inj b))
        ∙ ap (λ t. get_path t (r ∷ ps)) (step-store_item i xs w)
        ∙ ih (item_at xs i) w a
