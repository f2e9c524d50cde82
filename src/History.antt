-- ===== src/History.antt =====
-- frontend/util/historyutil.ts: the values that a block has shown, behind and ahead of the current one.
--
-- A text is a list of characters; the `history` entries of the block's metadata may be missing.
pub mod Bounds
pub mod Return
mod Tests
use Prim.Native.String.{String}
use starterm.Base.{
  ℕ, zero, suc, Option, none, some, Bool, true, false, ◌===◌, List, [], ◌∷◌, ◌++◌, if◌then◌else◌,
  ltb, nat_eq, get_or,
}
use starterm.Base.Lists.{length}
use starterm.Base.Texts.{split_on, join_with}

abbrev pub max_history : ℕ
max_history = 20

pub data CurValKey : Type 0 where
  url file : CurValKey

pub record Meta : Type 0 where
  pub history : Option (List String)
  pub history_forward : Option (List String)

-- What the functions return: the new value of a key, and the lists; no `history` leaves it alone.
pub record MetaUpdate : Type 0 where
  pub val_key : CurValKey
  pub value : String
  pub new_history : Option (List String)
  pub new_forward : List String

-- pop: the list without its last element, and that element.
abbrev pub init {ℓ} : {A : Type ℓ} → List A → List A
init [] = []
init (x ∷ []) = []
init (x ∷ y ∷ ys) = x ∷ init (y ∷ ys)

abbrev pub last {ℓ} : {A : Type ℓ} → A → List A → A
last x [] = x
last x (y ∷ ys) = last y ys

abbrev pub is_root : List String → Bool
is_root (s ∷ []) = s === ""
is_root _ = false

-- The first test of getParentDirectory compares a Boolean with null, and never holds.
unfoldable pub get_parent_directory : String → String
unfolding split_on
get_parent_directory path =
    let parts = init (split_on 47 path) in
    if path === "/" then "/" else if is_root parts then "/" else join_with "/" parts

-- The loop that pops while the list is too long, at most as often as it has elements.
abbrev pub pop_excess : ℕ → List String → List String
pop_excess zero xs = xs
pop_excess (suc n) xs =
    let rest = pop_excess n (init xs) in if ltb max_history (length xs) then rest else xs

abbrev pub shift_excess : List String → List String
shift_excess [] = []
shift_excess (x ∷ xs) = if ltb max_history (length (x ∷ xs)) then xs else x ∷ xs

abbrev pub back_to : CurValKey → String → String → List String → Bool → Option MetaUpdate
back_to k v parent ahead false = none
back_to k v parent ahead true =
    if parent === v
    then none
    else some (record {
      val_key = k;
      value = parent;
      new_history = none;
      new_forward = pop_excess (length (v ∷ ahead)) (v ∷ ahead);
    })

abbrev pub step_back :
    CurValKey → String → String → List String → List String → Bool → Option MetaUpdate
step_back k v parent [] ahead to_parent = back_to k v parent ahead to_parent
step_back k v parent (x ∷ xs) ahead to_parent = some (record {
  val_key = k;
  value = last x xs;
  new_history = some (init (x ∷ xs));
  new_forward = v ∷ ahead;
})

unfoldable pub go_history_back : CurValKey → String → Meta → Bool → Option MetaUpdate
unfolding get_parent_directory
go_history_back k v m to_parent =
    step_back k v (get_parent_directory v) (get_or m.history []) (get_or m.history_forward [])
      to_parent

abbrev pub step_forward : CurValKey → String → List String → List String → Option MetaUpdate
step_forward k v behind [] = none
step_forward k v behind (x ∷ xs) = some (record {
  val_key = k;
  value = x;
  new_history = some (shift_excess (behind ++ v ∷ []));
  new_forward = xs;
})

unfoldable pub go_history_forward : CurValKey → String → Meta → Option MetaUpdate
go_history_forward k v m = step_forward k v (get_or m.history []) (get_or m.history_forward [])

unfoldable pub go_history : CurValKey → String → String → Meta → Option MetaUpdate
go_history k v new m = some (record {
  val_key = k;
  value = new;
  new_history = some (shift_excess (get_or m.history [] ++ v ∷ []));
  new_forward = [];
})
