-- ===== src/Json/Commands.antt =====
-- applyCommand of frontend/util/ijson.ts: a command is a JSON value itself.
use starterm.Base.{
  String, Option, none, some, false, ◌===◌, List, [], ◌∷◌, if◌then◌else◌, ◌≡◌, refl, sym, ap, ◌∙◌,
  Result, ok, throw, ◌>>=◌, invalid_command, invalid_path, Bool-cases, inl, inr, throw_ne_ok,
}
use starterm.Json.{PathPart, key, index, get_path, plain, combine_array_append, set_path, is_null}
use starterm.Json.Values.{Json, null, num, str, arr, obj, Items, nil, cons, end, field, lookup}
use starterm.Json.Laws.{get_path-set_path_internal, writing}
use starterm.Json.Frame.{get_path-combine}
use starterm.Json.Removal.{removing, get_path-removed}

-- checkPath: every part is a text or a number.
abbrev pub prepend : PathPart → Option (List PathPart) → Option (List PathPart)
prepend p none = none
prepend p (some ps) = some (p ∷ ps)

abbrev pub parts_of : Items → Option (List PathPart)
parts_of nil = some []
parts_of (cons (str s) xs) = prepend (key s) (parts_of xs)
parts_of (cons (num n) xs) = prepend (index n) (parts_of xs)
parts_of (cons x xs) = none

-- getCommandPath, then checkPath.
unfoldable pub command_path : Json → Result (List PathPart)
command_path null = ok []
command_path (arr xs) = elim (parts_of xs) [ none ↦ throw invalid_path | some ps ↦ ok ps ]
command_path _ = throw invalid_path

-- The switch over the type of the command.
unfoldable pub run_command : Json → Json → List PathPart → Json → Result Json
unfolding set_path combine_array_append
run_command data' (str t) ps value =
    if t === "set"
    then set_path data' ps value plain
    else if t === "del"
    then set_path data' ps null removing
    else if t === "append"
    then set_path data' ps value (writing false (some combine_array_append))
    else throw invalid_command
run_command data' _ ps value = throw invalid_command

unfoldable pub apply_command : Json → Json → Result Json
unfolding lookup command_path run_command
apply_command data' (obj fs) =
    if is_null (lookup "type" fs)
    then throw invalid_command
    else command_path (lookup "path" fs) >>= λ ps.
        run_command data' (lookup "type" fs) ps (lookup "value" fs)
apply_command data' _ = throw invalid_command

-- The command that a sender builds for a path.
abbrev pub path_items : List PathPart → Items
path_items [] = nil
path_items (key k ∷ ps) = cons (str k) (path_items ps)
path_items (index n ∷ ps) = cons (num n) (path_items ps)

abbrev pub command : String → List PathPart → Json → Json
command t ps v =
    obj (field "type" (str t) (field "path" (arr (path_items ps)) (field "value" v end)))

parts_of-path_items : (ps : List PathPart) → parts_of (path_items ps) ≡ some ps
parts_of-path_items [] = refl
parts_of-path_items (key k ∷ ps) = rw (parts_of-path_items ps) refl
parts_of-path_items (index n ∷ ps) = rw (parts_of-path_items ps) refl

apply_command-command :
    (v x : Json) (t : String) (ps : List PathPart)
    → apply_command v (command t ps x) ≡ run_command v (str t) ps x
unfolding apply_command
apply_command-command v x t ps = rw (parts_of-path_items ps, command_path) refl

-- What a command of each type makes of the value that its path leads to.
abbrev pub effect : String → Json → Json → Result Json
effect t old x =
    if t === "set"
    then ok x
    else if t === "del"
    then ok null
    else if t === "append"
    then combine_array_append old x false
    else throw invalid_command

-- A command that succeeds leaves at its path what its type makes of the value that was there: a set
-- its own value, a del nothing, and an append the old array with its value behind it.
pub apply_command-effect :
    (v x : Json) (t : String) (ps : List PathPart) (v' : Json)
    → apply_command v (command t ps x) ≡ ok v'
    → effect t (get_path v ps) x ≡ ok (get_path v' ps)
unfolding run_command
apply_command-effect v x t ps v' h =
    let run = sym (apply_command-command v x t ps) ∙ h in
    elim (Bool-cases (t === "set")) [
      | inl is_set ↦
          rw is_set (ap ok (sym (get_path-set_path_internal v x ps false (rw is_set at run))))
      | inr e ↦ elim (Bool-cases (t === "del")) [
        | inl is_del ↦ rw (e, is_del) (ap ok (sym (get_path-removed v ps (rw (e, is_del) at run))))
        | inr e' ↦ elim (Bool-cases (t === "append")) [
          | inl is_append ↦
              rw (e, e', is_append)
                (get_path-combine combine_array_append v x ps (rw (e, e', is_append) at run))
          | inr e'' ↦ absurd (throw_ne_ok (rw (e, e', e'') at run))
        ]
      ]
    ]
