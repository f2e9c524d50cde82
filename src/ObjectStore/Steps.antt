-- ===== src/ObjectStore/Steps.antt =====
-- The cache over every list of events: updates, answers, uses of its objects, and the clean-up.
use starterm.Base.{ℕ, String, Option, Bool, List, [], ◌∷◌, Result, ok, throw}
use starterm.ObjectStore.{
  StarObj, StarObjUpdate, Store, Request, update_star_objects, answered, load_and_pin_star_object,
  get_star_object_value, reload_star_object, clean_star_object_cache, set_object_value,
  clear_star_object_cache, count_up, count_down,
}

-- What happens to the cache. A hook counts on the address that it found when it was rendered.
pub data Event : Type 0 where
  updated : ℕ → List (Option StarObjUpdate) → Event
  answer : Request → Option StarObj → Event
  pinned used reload : Option String → ℕ → Event
  mounted unmounted : ℕ → Event
  cleaned : ℕ → Event
  cleared : Event
  assigned : StarObj → Bool → Event

abbrev pub if_ok : Store → Result Store → Store
if_ok s (ok t) = t
if_ok s (throw e) = s

unfoldable pub step : Store → Event → Store
unfolding get_star_object_value
step s (updated now us) = (update_star_objects now us s).0
step s (answer r v) = if_ok s (answered r v s)
step s (pinned oref now) = (load_and_pin_star_object oref now s).0
step s (used oref now) = (get_star_object_value oref now s).store
step s (reload oref now) = (reload_star_object oref now s).0
step s (mounted i) = count_up i s
step s (unmounted i) = count_down i s
step s (cleaned now) = clean_star_object_cache now s
step s cleared = clear_star_object_cache s
step s (assigned o push) = (set_object_value o push s).0

unfoldable pub steps : Store → List Event → Store
unfolding step
steps s [] = s
steps s (e ∷ es) = steps (step s e) es
