-- ===== src/Json.antt =====
-- frontend/util/ijson.ts: reading and changing JSON values by a path, and the commands that do so.
--
-- `null` stands for `undefined` too: the code only ever tests `== null`. A number is an integer,
-- and an object has its own keys alone. The code changes its argument in place and returns it; a
-- call here returns the value as it is afterwards.
pub mod Values
pub mod Laws
pub mod Frame
pub mod Removal
pub mod Commands
mod Tests
use starterm.Base.{
  ℕ, zero, suc, String, Option, none, some, Bool, true, false, ◌&&◌, ◌||◌, not, ◌===◌, List, [],
  ◌∷◌, if◌then◌else◌, nat_eq, leb, ◌+◌, Result, ok, throw, ◌>>=◌,
}
use starterm.Base.{
  invalid_path, not_an_object, not_an_array, not_appendable, set_and_remove, invalid_command,
}
use starterm.Base.Int.{ℤ, pos, negsuc}
use starterm.Json.Values.{
  Json, null, bool, num, str, arr, obj, Items, nil, cons, Fields, end, field, item_at, set_item,
  count_items, append_item, lookup, put, delete,
}

-- One part of a path.
pub data PathPart : Type 0 where
  key : String → PathPart
  index : ℤ → PathPart

abbrev pub is_null : Json → Bool
is_null null = true
is_null _ = false

-- getPath
abbrev pub step_into : Json → PathPart → Json
step_into (obj fs) (key k) = lookup k fs
step_into (arr xs) (index (pos i)) = item_at xs i
step_into _ _ = null

unfoldable pub get_path : Json → List PathPart → Json
get_path v [] = v
get_path v (p ∷ ps) = get_path (step_into v p) ps

-- SetPathOpts; the combine function gets the old value, the new one and `force`.
pub record SetPathOpts : Type 0 where
  pub force : Bool
  pub remove : Bool
  pub combinefn : Option (Json → Json → Bool → Result Json)

-- combineFn_arrayAppend
unfoldable pub combine_array_append : Json → Json → Bool → Result Json
combine_array_append null v force = ok (arr (cons v nil))
combine_array_append (arr xs) v force = ok (arr (append_item xs v))
combine_array_append other v true = ok (arr (cons v nil))
combine_array_append other v false = throw not_appendable

-- isEmpty
abbrev pub is_empty : Json → Bool
is_empty null = true
is_empty (arr nil) = true
is_empty (obj end) = true
is_empty _ = false

abbrev pub null_if_empty : Json → Json
null_if_empty v = if is_empty v then null else v

-- removeFromArr: a hole within, a pop at the end, and `null` for an array that gets empty.
unfoldable pub drop_last : Items → Items
drop_last nil = nil
drop_last (cons x nil) = nil
drop_last (cons x (cons y ys)) = cons x (drop_last (cons y ys))

unfoldable pub remove_from_arr : Items → ℕ → Json
unfolding drop_last
remove_from_arr xs i =
    if leb (count_items xs) i
    then arr xs
    else if nat_eq (i + 1) (count_items xs)
    then null_if_empty (arr (drop_last xs))
    else arr (set_item i null xs)

-- The object or the array that a part of a path goes into; `none` where there is nothing to remove.
unfoldable pub as_object : Json → SetPathOpts → Result (Option Fields)
as_object null opts = ok (if opts.remove then none else some end)
as_object (obj fs) opts = ok (some fs)
as_object _ opts = if opts.force then ok (some end) else throw not_an_object

unfoldable pub as_array : Json → SetPathOpts → Result (Option Items)
as_array null opts = ok (if opts.remove then none else some nil)
as_array (arr xs) opts = ok (some xs)
as_array _ opts = if opts.force then ok (some nil) else throw not_an_array

abbrev pub is_last : List PathPart → Bool
is_last [] = true
is_last (p ∷ ps) = false

-- What is left of a container when the value below it is known.
abbrev pub store_field : SetPathOpts → String → Fields → Json → Json
store_field opts k fs v =
    if opts.remove && is_null v then null_if_empty (obj (delete k fs)) else obj (put k v fs)

abbrev pub store_item : SetPathOpts → ℕ → Items → Json → Json
store_item opts i xs v =
    if opts.remove && is_null v then remove_from_arr xs i else arr (set_item i v xs)

-- The two kinds of containers, with the call for the rest of the path.
abbrev pub set_in_fields :
    SetPathOpts → String → Bool → (Json → Result Json) → Option Fields → Result Json
set_in_fields opts k last rest none = ok null
set_in_fields opts k last rest (some fs) =
    if opts.remove && last
    then ok (null_if_empty (obj (delete k fs)))
    else rest (lookup k fs) >>= λ v. ok (store_field opts k fs v)

abbrev pub set_in_items : SetPathOpts → ℕ → Bool → (Json → Result Json) → Option Items → Result Json
set_in_items opts i last rest none = ok null
set_in_items opts i last rest (some xs) =
    if opts.remove && last
    then ok (remove_from_arr xs i)
    else rest (item_at xs i) >>= λ v. ok (store_item opts i xs v)

abbrev pub combine : SetPathOpts → Json → Json → Result Json
combine opts old v = elim opts.combinefn [ none ↦ ok v | some f ↦ f old v opts.force ]

-- setPathInternal
unfoldable pub set_path_internal : Json → List PathPart → Json → SetPathOpts → Result Json
unfolding as_object as_array remove_from_arr
set_path_internal v [] x opts = combine opts v x
set_path_internal v (key k ∷ ps) x opts =
    as_object v opts >>= set_in_fields opts k (is_last ps) (λ w. set_path_internal w ps x opts)
set_path_internal v (index (negsuc i) ∷ ps) x opts = throw invalid_path
set_path_internal v (index (pos i) ∷ ps) x opts =
    as_array v opts >>= set_in_items opts i (is_last ps) (λ w. set_path_internal w ps x opts)

abbrev pub plain : SetPathOpts
plain = record { force = false; remove = false; combinefn = none }

-- setPath, with a path that `checkPath` has accepted.
unfoldable pub set_path : Json → List PathPart → Json → SetPathOpts → Result Json
unfolding set_path_internal
set_path v ps x opts =
    if opts.remove && not (is_null x) then throw set_and_remove else set_path_internal v ps x opts
