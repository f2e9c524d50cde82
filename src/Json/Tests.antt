-- ===== src/Json/Tests.antt =====
-- Concrete JSON values and commands, and the theorems about paths applied to them.
use starterm.Base.{none, some, true, false, List, [], ◌∷◌, ◌≡◌, refl, ok, ne_of_eq_false, inl}
use starterm.Base.Int.{pos, negsuc}
use starterm.Json.{PathPart, key, index, get_path, set_path_internal, combine_array_append}
use starterm.Json.Values.{
  Json, null, num, str, arr, obj, nil, cons, end, field, lookup, put, delete,
}
use starterm.Json.Laws.{writing, get_path-set_path_internal, set_path_internal-force}
use starterm.Json.Frame.{Diverge, get_path-frame, get_path-combine}
use starterm.Json.Removal.{removing, get_path-removed}
use starterm.Json.Commands.{command, effect, apply_command, apply_command-effect}

abbrev data' : Json
data' = obj (
    field "a" (arr (cons (num (pos 1)) (cons (obj (field "b" (str "x") end)) nil)))
      (field "c" (num (negsuc 4)) end))

-- data'["a"][1]["b"]
abbrev path : List PathPart
path = key "a" ∷ index (pos 1) ∷ key "b" ∷ []

abbrev changed : Json
changed = obj (
    field "a" (arr (cons (num (pos 1)) (cons (obj (field "b" (num (pos 9)) end)) nil)))
      (field "c" (num (negsuc 4)) end))

set_test : set_path_internal data' path (num (pos 9)) (writing false none) ≡ ok changed
unfolding set_path_internal lookup put
set_test = refl

del_test :
    set_path_internal data' path null removing
    ≡ ok (obj (field "a" (arr (cons (num (pos 1)) nil)) (field "c" (num (negsuc 4)) end)))
unfolding set_path_internal lookup delete put
del_test = refl

append_test :
    set_path_internal data' (key "a" ∷ []) null (writing false (some combine_array_append))
    ≡ ok (
        obj (
          field "a"
            (arr (cons (num (pos 1)) (cons (obj (field "b" (str "x") end)) (cons null nil))))
            (field "c" (num (negsuc 4)) end)))
unfolding set_path_internal lookup combine_array_append put
append_test = refl

get_path-set_path_internal_example : get_path changed path ≡ num (pos 9)
get_path-set_path_internal_example =
    get_path-set_path_internal data' (num (pos 9)) path false set_test

set_path_internal-force_example :
    (v' : Json) × (set_path_internal (str "x") path (num (pos 9)) (writing true none) ≡ ok v')
    × (get_path v' path ≡ num (pos 9))
set_path_internal-force_example = set_path_internal-force (str "x") (num (pos 9)) path tt

elsewhere : Diverge path (key "c" ∷ [])
elsewhere = inl (ne_of_eq_false "a" "c" refl)

get_path-frame_example : get_path changed (key "c" ∷ []) ≡ get_path data' (key "c" ∷ [])
get_path-frame_example =
    get_path-frame none data' (num (pos 9)) path (key "c" ∷ []) elsewhere set_test

-- Appending at a path that leads to nothing makes a new array.
append_new :
    set_path_internal null (key "c" ∷ []) (num (pos 9)) (writing false (some combine_array_append))
    ≡ ok (obj (field "c" (arr (cons (num (pos 9)) nil)) end))
unfolding set_path_internal lookup combine_array_append put
append_new = refl

get_path-combine_example :
    combine_array_append (get_path null (key "c" ∷ [])) (num (pos 9)) false
    ≡ ok (get_path (obj (field "c" (arr (cons (num (pos 9)) nil)) end)) (key "c" ∷ []))
get_path-combine_example =
    get_path-combine combine_array_append null (num (pos 9)) (key "c" ∷ []) append_new

get_path-removed_example :
    get_path (obj (field "a" (arr (cons (num (pos 1)) nil)) (field "c" (num (negsuc 4)) end))) path
    ≡ null
get_path-removed_example = get_path-removed data' path del_test

set_command : apply_command data' (command "set" path (num (pos 9))) ≡ ok changed
unfolding apply_command set_path_internal lookup put
set_command = refl

apply_command-effect_example :
    effect "set" (get_path data' path) (num (pos 9)) ≡ ok (get_path changed path)
apply_command-effect_example =
    apply_command-effect data' (num (pos 9)) "set" path changed set_command
