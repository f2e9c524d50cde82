-- ===== src/Json/Laws.antt =====
-- What a successful write leaves at its path, and which writes succeed.
use starterm.Base.{
  ℕ, String, Option, none, some, Bool, true, false, eq_refl, List, [], ◌∷◌, ◌≡◌, refl, sym, ap, ◌∙◌,
  Result, ok, returned, ok_inj, throw_ne_ok,
}
use mathlib.Core.Path.{subst}
use starterm.Base.Int.{pos, negsuc}
use starterm.Json.{
  PathPart, key, index, get_path, SetPathOpts, as_object, as_array, set_path_internal, is_last,
  set_in_fields, set_in_items,
}
use starterm.Json.Values.{
  Json, null, bool, num, str, arr, obj, Items, Fields, nil, end, lookup, put, item_at, set_item,
  lookup-put, item_at-set_item,
}

-- The options of a write that removes nothing; a plain one has no combine function.
abbrev pub Combine : Type 0
Combine = Option (Json → Json → Bool → Result Json)

abbrev pub writing : Bool → Combine → SetPathOpts
writing f c = record { force = f; remove = false; combinefn = c }

as_object-writing :
    (v : Json) (f : Bool) (c : Combine) (o : Option Fields)
    → as_object v (writing f c) ≡ ok o
    → (fs : Fields) × (o ≡ some fs)
unfolding as_object
as_object-writing null f c o h = (end, sym (ok_inj h))
as_object-writing (obj fs) f c o h = (fs, sym (ok_inj h))
as_object-writing (bool b) true c o h = (end, sym (ok_inj h))
as_object-writing (bool b) false c o h = cc
as_object-writing (num n) true c o h = (end, sym (ok_inj h))
as_object-writing (num n) false c o h = cc
as_object-writing (str s) true c o h = (end, sym (ok_inj h))
as_object-writing (str s) false c o h = cc
as_object-writing (arr xs) true c o h = (end, sym (ok_inj h))
as_object-writing (arr xs) false c o h = cc

as_array-writing :
    (v : Json) (f : Bool) (c : Combine) (o : Option Items)
    → as_array v (writing f c) ≡ ok o
    → (xs : Items) × (o ≡ some xs)
unfolding as_array
as_array-writing null f c o h = (nil, sym (ok_inj h))
as_array-writing (arr xs) f c o h = (xs, sym (ok_inj h))
as_array-writing (bool b) true c o h = (nil, sym (ok_inj h))
as_array-writing (bool b) false c o h = cc
as_array-writing (num n) true c o h = (nil, sym (ok_inj h))
as_array-writing (num n) false c o h = cc
as_array-writing (str s) true c o h = (nil, sym (ok_inj h))
as_array-writing (str s) false c o h = cc
as_array-writing (obj fs) true c o h = (nil, sym (ok_inj h))
as_array-writing (obj fs) false c o h = cc

-- Inversion of a write below a key, and below an index.
pub set_path_internal-key :
    (v x : Json) (k : String) (ps : List PathPart) (f : Bool) (c : Combine) {v' : Json}
    → set_path_internal v (key k ∷ ps) x (writing f c) ≡ ok v'
    → (fs : Fields) × (w : Json) × (as_object v (writing f c) ≡ ok (some fs))
      × (set_path_internal (lookup k fs) ps x (writing f c) ≡ ok w)
      × (obj (put k w fs) ≡ v')
unfolding set_path_internal
set_path_internal-key v x k ps f c {v'} h =
    let (o, p, q) =
      returned (as_object v (writing f c))
        (set_in_fields (writing f c) k (is_last ps) (λ w. set_path_internal w ps x (writing f c)))
        h in
    let (fs, e) = as_object-writing v f c o p in
    let q' =
      subst
        (λ t.
          set_in_fields (writing f c) k (is_last ps) (λ w. set_path_internal w ps x (writing f c)) t
          ≡ ok v')
        e q in
    let (w, r, s) = returned (set_path_internal (lookup k fs) ps x (writing f c)) _ q' in
    (fs, w, p ∙ ap ok e, r, ok_inj s)

pub set_path_internal-index :
    (v x : Json) (i : ℕ) (ps : List PathPart) (f : Bool) (c : Combine) {v' : Json}
    → set_path_internal v (index (pos i) ∷ ps) x (writing f c) ≡ ok v'
    → (xs : Items) × (w : Json) × (as_array v (writing f c) ≡ ok (some xs))
      × (set_path_internal (item_at xs i) ps x (writing f c) ≡ ok w)
      × (arr (set_item i w xs) ≡ v')
unfolding set_path_internal
set_path_internal-index v x i ps f c {v'} h =
    let (o, p, q) =
      returned (as_array v (writing f c))
        (set_in_items (writing f c) i (is_last ps) (λ w. set_path_internal w ps x (writing f c)))
        h in
    let (xs, e) = as_array-writing v f c o p in
    let q' =
      subst
        (λ t.
          set_in_items (writing f c) i (is_last ps) (λ w. set_path_internal w ps x (writing f c)) t
          ≡ ok v')
        e q in
    let (w, r, s) = returned (set_path_internal (item_at xs i) ps x (writing f c)) _ q' in
    (xs, w, p ∙ ap ok e, r, ok_inj s)

pub negative_throws :
    (v x : Json) (i : ℕ) (ps : List PathPart) (f : Bool) (c : Combine) {v' : Json}
    → set_path_internal v (index (negsuc i) ∷ ps) x (writing f c) ≡ ok v'
    → ⊥
unfolding set_path_internal
negative_throws v x i ps f c h = throw_ne_ok h

-- After a plain write that succeeds, with or without `force`, reading the path gives the value
-- that was written, whatever was there before.
pub get_path-set_path_internal :
    (v x : Json) (ps : List PathPart) (f : Bool) {v' : Json}
    → set_path_internal v ps x (writing f none) ≡ ok v'
    → get_path v' ps ≡ x
unfolding get_path set_path_internal
get_path-set_path_internal v x [] f h = sym (ok_inj h)
get_path-set_path_internal v x (key k ∷ ps) f h =
    let (fs, w, p, r, s) = set_path_internal-key v x k ps f none h in
    subst (λ t. get_path t (key k ∷ ps) ≡ x) s
      (rw (lookup-put k k w fs, eq_refl k) (get_path-set_path_internal (lookup k fs) x ps f r))
get_path-set_path_internal v x (index (negsuc i) ∷ ps) f h =
    absurd (negative_throws v x i ps f none h)
get_path-set_path_internal v x (index (pos i) ∷ ps) f h =
    let (xs, w, p, r, s) = set_path_internal-index v x i ps f none h in
    subst (λ t. get_path t (index (pos i) ∷ ps) ≡ x) s
      (rw (item_at-set_item i w xs) (get_path-set_path_internal (item_at xs i) x ps f r))

-- No index of the path is negative.
abbrev pub HasValidIndices : List PathPart → Type 0
HasValidIndices [] = Unit {0}
HasValidIndices (key k ∷ ps) = HasValidIndices ps
HasValidIndices (index (pos i) ∷ ps) = HasValidIndices ps
HasValidIndices (index (negsuc i) ∷ ps) = ⊥

forced_object : (v : Json) → (fs : Fields) × (as_object v (writing true none) ≡ ok (some fs))
unfolding as_object
forced_object null = (end, refl)
forced_object (obj fs) = (fs, refl)
forced_object (bool b) = (end, refl)
forced_object (num n) = (end, refl)
forced_object (str s) = (end, refl)
forced_object (arr xs) = (end, refl)

forced_array : (v : Json) → (xs : Items) × (as_array v (writing true none) ≡ ok (some xs))
unfolding as_array
forced_array null = (nil, refl)
forced_array (arr xs) = (xs, refl)
forced_array (bool b) = (nil, refl)
forced_array (num n) = (nil, refl)
forced_array (str s) = (nil, refl)
forced_array (obj fs) = (nil, refl)

forced_write :
    (v x : Json) (ps : List PathPart)
    → HasValidIndices ps
    → (v' : Json) × (set_path_internal v ps x (writing true none) ≡ ok v')
unfolding set_path_internal
forced_write v x [] h = (x, refl)
forced_write v x (key k ∷ ps) h =
    let (fs, e) = forced_object v in
    let (w, r) = forced_write (lookup k fs) x ps h in (obj (put k w fs), rw e (rw r refl))
forced_write v x (index (negsuc i) ∷ ps) h = absurd h
forced_write v x (index (pos i) ∷ ps) h =
    let (xs, e) = forced_array v in
    let (w, r) = forced_write (item_at xs i) x ps h in (arr (set_item i w xs), rw e (rw r refl))

-- With `force` a plain write along a path with no negative index always succeeds, and the value is
-- then read back from the path.
pub set_path_internal-force :
    (v x : Json) (ps : List PathPart)
    → HasValidIndices ps
    → (v' : Json) × (set_path_internal v ps x (writing true none) ≡ ok v') × (get_path v' ps ≡ x)
set_path_internal-force v x ps h =
    let (v', e) = forced_write v x ps h in (v', e, get_path-set_path_internal v x ps true e)
