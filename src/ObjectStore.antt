-- ===== src/ObjectStore.antt =====
-- frontend/app/store/wos.ts: the cache of the server's objects.
--
-- An object of the cache is shared: hooks and promises hold it by reference, so `values` is a heap
-- and the cache gives addresses of it. A null text is `none`, also as a key of the cache. Times are
-- arguments. The requests to the server are effects, and their answers are events.
pub mod Steps
pub mod WellFormed
pub mod Writes
pub mod Versions
pub mod Order
pub mod Orefs
pub mod Pinned
mod Tests
use starterm.Base.{
  ℕ, zero, suc, ◌+◌, ◌-◌, ◌≤◌, String, Option, none, some, Bool, true, false, not, ◌&&◌, ◌||◌, List,
  [], ◌∷◌, ◌++◌, if◌then◌else◌, ltb, leb, nat_eq, get_or, is_blank, ◌===◌, Result, ok, throw, ◌>>=◌,
  type_error, invalid_oref, wrong_type, wrong_id, call_failed,
}
use starterm.Base.Texts.{split_on, concat}

pub record StarObj : Type 0 where
  pub otype : Option String
  pub oid : Option String
  pub version : Option ℕ
  pub content : String

-- The object of the cache: `pending` is that its first request is not answered.
pub record StarObjectValue : Type 0 where
  pub pending : Bool
  pub value : Option StarObj
  pub loading : Bool
  pub ref_count : ℕ
  pub hold_time : ℕ

pub record Store : Type 0 where
  pub cache : Option String → Option ℕ
  pub values : ℕ → StarObjectValue
  pub next : ℕ

-- The two calls of GetObject, for the object at an address.
pub data Request : Type 0 where
  fetched reloaded : ℕ → Option String → Request

pub data Effect : Type 0 where
  get_object : Request → Effect
  update_object : StarObj → Effect

pub record StarObjUpdate : Type 0 where
  pub updatetype : String
  pub otype : Option String
  pub oid : Option String
  pub obj : Option StarObj

abbrev pub parts_of : List String → Result (String × String)
parts_of [] = throw invalid_oref
parts_of (a ∷ []) = throw invalid_oref
parts_of (a ∷ b ∷ []) = ok (a, b)
parts_of (a ∷ b ∷ c ∷ cs) = throw invalid_oref

-- A null reference has no `split`.
unfoldable pub split_oref : Option String → Result (String × String)
unfolding split_on
split_oref none = throw type_error
split_oref (some oref) = parts_of (split_on 58 oref)

abbrev is_blank_num : Option ℕ → Bool
is_blank_num none = true
is_blank_num (some n) = nat_eq n 0

abbrev pub is_valid_star_obj : Option StarObj → Bool
is_valid_star_obj none = false
is_valid_star_obj (some o) = not (is_blank o.otype || is_blank o.oid || is_blank_num o.version)

unfoldable pub make_oref : Option String → Option String → Option String
make_oref otype oid =
    if is_blank otype || is_blank oid
    then none
    else some (concat (get_or otype "") (concat ":" (get_or oid "")))

abbrev pub same_oref : Option String → Option String → Bool
same_oref none none = true
same_oref none (some b) = false
same_oref (some a) none = false
same_oref (some a) (some b) = a === b

-- An assignment to the object at an address.
abbrev pub write_at : ℕ → StarObjectValue → Store → Store
write_at i v s = record s { values = λ j. if nat_eq i j then v else s.values j }

abbrev pub default_hold_time : ℕ
default_hold_time = 5000

pub record Found : Type 0 where
  pub store : Store
  pub address : ℕ
  pub effects : List Effect

abbrev pub create_star_value_object : Option String → Bool → ℕ → Store → Found
create_star_value_object oref should_fetch now s = record {
  store =
      record (write_at s.next
        (record {
          pending = should_fetch;
          value = none;
          loading = true;
          ref_count = 0;
          hold_time = now + 5000;
        })
        s) { next = suc s.next };
  address = s.next;
  effects = if should_fetch then get_object (fetched s.next oref) ∷ [] else [];
}

abbrev pub set_entry : Option String → Found → Found
set_entry oref f = record f {
  store = record f.store {
    cache = λ k. if same_oref oref k then some f.address else f.store.cache k;
  };
}

abbrev pub found_or_created : Option String → ℕ → Store → Option ℕ → Found
found_or_created oref now s none = set_entry oref (create_star_value_object oref true now s)
found_or_created oref now s (some i) = record { store = s; address = i; effects = [] }

-- getStarObjectValue with createIfMissing; without it, it is the field `cache`.
unfoldable pub get_star_object_value : Option String → ℕ → Store → Found
get_star_object_value oref now s = found_or_created oref now s (s.cache oref)

-- globalStore.set(wov.dataAtom, { value, loading: false })
abbrev pub set_data : ℕ → Option StarObj → Store → Store
set_data i v s = write_at i (record (s.values i) { value = v; loading = false }) s

abbrev pub set_hold_time : ℕ → ℕ → Store → Store
set_hold_time i t s = write_at i (record (s.values i) { hold_time = t }) s

abbrev pub version_of : Option StarObj → ℕ
version_of none = 0
version_of (some o) = get_or o.version 0

-- The test for an update that is not newer, which a missing value always is older than.
abbrev pub is_outdated : Option StarObj → StarObj → Bool
is_outdated none o = false
is_outdated (some c) o = leb (get_or o.version 0) (get_or c.version 0)

abbrev pub write_newer : ℕ → ℕ → Option StarObj → Store → Store
write_newer i now none s = s
write_newer i now (some o) s =
    if not (is_valid_star_obj (some o))
    then s
    else if is_outdated (s.values i).value o
    then s
    else set_hold_time i (now + default_hold_time) (set_data i (some o) s)

abbrev pub write_update : ℕ → ℕ → StarObjUpdate → Store → Store
write_update i now u s =
    if u.updatetype === "delete"
    then set_hold_time i (now + default_hold_time) (set_data i none s)
    else write_newer i now u.obj s

unfoldable pub update_star_object : ℕ → Option StarObjUpdate → Store → Store × List Effect
unfolding make_oref get_star_object_value
update_star_object now none s = (s, [])
update_star_object now (some u) s =
    let f = get_star_object_value (make_oref u.otype u.oid) now s in
    (write_update f.address now u f.store, f.effects)

unfoldable pub update_star_objects : ℕ → List (Option StarObjUpdate) → Store → Store × List Effect
unfolding update_star_object
update_star_objects now [] s = (s, [])
update_star_objects now (u ∷ us) s =
    let (t, es) = update_star_object now u s in
    let (v, fs) = update_star_objects now us t in (v, es ++ fs)

-- The check of an answer: a null object is accepted, and another one must be what was asked for.
abbrev pub check_answer : Option String → Option StarObj → Result (Option StarObj)
unfolding split_oref
check_answer oref none = split_oref oref >>= λ p. ok none
check_answer oref (some o) = split_oref oref >>= λ (otype, oid).
    if not (same_oref o.otype (some otype))
    then throw wrong_type
    else if not (same_oref o.oid (some oid))
    then throw wrong_id
    else ok (some o)

abbrev settle : ℕ → Store → Option StarObj → Store
settle i s v = write_at i (record (s.values i) { pending = false; value = v; loading = false }) s

-- What the promises of createStarValueObject and reloadStarObject do with their answer.
unfoldable pub answered : Request → Option StarObj → Store → Result Store
unfolding check_answer
answered (fetched i oref) v s =
    if not (s.values i).pending then ok s else check_answer oref v >>= λ w. ok (settle i s w)
answered (reloaded i oref) v s = ok (set_data i v s)

abbrev pub reload_at : Option String → ℕ → Store → Option ℕ → Store × List Effect
reload_at oref now s none =
    let f = set_entry oref (create_star_value_object oref true now s) in (f.store, f.effects)
reload_at oref now s (some i) = (s, get_object (reloaded i oref) ∷ [])

unfoldable pub reload_star_object : Option String → ℕ → Store → Store × List Effect
reload_star_object oref now s = reload_at oref now s (s.cache oref)

abbrev pub count_up : ℕ → Store → Store
count_up i s = write_at i (record (s.values i) { ref_count = (s.values i).ref_count + 1 }) s

-- The end of a use, which follows its begin.
abbrev pub count_down : ℕ → Store → Store
count_down i s = write_at i (record (s.values i) { ref_count = (s.values i).ref_count - 1 }) s

-- The promise of a pinned object: that of the first request, or the value that is there.
pub data Loading : Type 0 where
  awaits : ℕ → Loading
  resolves : Option StarObj → Loading

unfoldable pub load_and_pin_star_object : Option String → ℕ → Store → Store × Loading × List Effect
unfolding get_star_object_value
load_and_pin_star_object oref now s =
    let f = get_star_object_value oref now s in
    let v = f.store.values f.address in
    (
      count_up f.address f.store,
      if v.pending then awaits f.address else resolves v.value,
      f.effects,
    )

abbrev pub kept : ℕ → Store → Option ℕ → Option ℕ
kept now s none = none
kept now s (some i) =
    if nat_eq (s.values i).ref_count 0 && ltb (s.values i).hold_time now then none else some i

unfoldable pub clean_star_object_cache : ℕ → Store → Store
clean_star_object_cache now s = record s { cache = λ k. kept now s (s.cache k) }

abbrev pub clear_star_object_cache : Store → Store
clear_star_object_cache s = record s { cache = λ k. none }

unfoldable pub get_object_value : Option String → ℕ → Store → Store × Option StarObj × List Effect
unfolding get_star_object_value
get_object_value oref now s =
    let f = get_star_object_value oref now s in
    (f.store, (f.store.values f.address).value, f.effects)

abbrev pub set_found : StarObj → Bool → Store → Option ℕ → Store × List Effect
set_found o push s none = (s, [])
set_found o push s (some i) = (set_data i (some o) s, if push then update_object o ∷ [] else [])

unfoldable pub set_object_value : StarObj → Bool → Store → Store × List Effect
unfolding make_oref
set_object_value o push s = set_found o push s (s.cache (make_oref o.otype o.oid))

-- The answer of the server to a call.
pub record WebReturn : Type 0 where
  pub updates : Option (List (Option StarObjUpdate))
  pub error : Option String
  pub data_of : Option StarObj

abbrev pub updates_of : WebReturn → List (Option StarObjUpdate)
updates_of r = get_or r.updates []

abbrev pub outcome_of : Option String → Option StarObj → Result (Option StarObj)
outcome_of none v = ok v
outcome_of (some e) v = throw call_failed

-- callBackendService on a response that is ok: the updates are made also where it is an error.
unfoldable pub returned :
    ℕ → Option WebReturn → Store → (Store × List Effect) × Result (Option StarObj)
unfolding update_star_objects
returned now none s = ((s, []), ok none)
returned now (some r) s = (update_star_objects now (updates_of r) s, outcome_of r.error r.data_of)
