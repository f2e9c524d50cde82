-- ===== src/ObjectStore/Tests.antt =====
-- Runs of the cache, with small objects.
use starterm.Base.{
  ℕ, Option, none, some, false, List, [], ◌∷◌, ◌≡◌, refl, arith, ok, throw, invalid_oref, wrong_id,
  none_ne_some,
}
use starterm.ObjectStore.{
  StarObj, StarObjUpdate, Store, fetched, split_oref, make_oref, update_star_objects,
  get_star_object_value, answered, load_and_pin_star_object, clean_star_object_cache,
}
use starterm.ObjectStore.Steps.{
  Event, updated, answer, pinned, used, unmounted, mounted, cleaned, step, steps,
}
use starterm.ObjectStore.WellFormed.{IsWellFormed, steps-IsWellFormed}
use starterm.ObjectStore.Writes.{version_at}
use starterm.ObjectStore.Versions.{version_after_all, version_at-update_star_objects}
use starterm.ObjectStore.Pinned.{cache-steps}
use starterm.ObjectStore.Orefs.{split_oref-make_oref}

abbrev empty : Store
empty = record {
  cache = λ k. none;
  values =
      λ i. record { pending = false; value = none; loading = false; ref_count = 0; hold_time = 0 };
  next = 0;
}

empty-IsWellFormed : IsWellFormed empty
empty-IsWellFormed = ((λ a i e. absurd (none_ne_some e)), (λ a b i e f. absurd (none_ne_some e)))

abbrev tab : ℕ → StarObj
tab v = record { otype = some "tab"; oid = some "t1"; version = some v; content = "" }

abbrev write : ℕ → Option StarObjUpdate
write v =
    some (record { updatetype = "update"; otype = some "tab"; oid = some "t1"; obj = some (tab v) })

abbrev deletion : Option StarObjUpdate
deletion = some (record { updatetype = "delete"; otype = some "tab"; oid = some "t1"; obj = none })

-- An old version does not replace a new one, but after a deletion it brings the object back.
old_update : version_at (some "tab:t1") (update_star_objects 0 (write 3 ∷ write 2 ∷ []) empty).0 ≡ 3
unfolding update_star_objects
old_update = refl

back_again :
    version_at (some "tab:t1") (update_star_objects 0 (write 3 ∷ deletion ∷ write 2 ∷ []) empty).0
    ≡ 2
unfolding update_star_objects
back_again = refl

-- The first request may be answered with an older version than the updates brought meanwhile.
late_answer :
    version_at (some "tab:t1") (
      steps empty (
        used (some "tab:t1") 0
        ∷ updated 1 (write 3 ∷ [])
        ∷ answer (fetched 0 (some "tab:t1")) (some (tab 2))
        ∷ []))
    ≡ 2
unfolding steps step update_star_objects answered
late_answer = refl

wrong_answer :
    answered
      (fetched 0 (some "tab:t2"))
      (some (tab 2))
      (get_star_object_value (some "tab:t2") 0 empty).store
    ≡ throw wrong_id
unfolding answered get_star_object_value
wrong_answer = refl

no_oref : split_oref (some "tab") ≡ throw invalid_oref
unfolding split_oref
no_oref = refl

abbrev life : List Event
life = updated 0 (write 3 ∷ []) ∷ mounted 0 ∷ cleaned 9000 ∷ unmounted 0 ∷ cleaned 9001 ∷ []

dropped : (steps empty life).cache (some "tab:t1") ≡ none
unfolding steps step update_star_objects clean_star_object_cache
dropped = refl

steps-IsWellFormed_example : IsWellFormed (steps empty life)
steps-IsWellFormed_example = steps-IsWellFormed empty life empty-IsWellFormed

version_at-update_star_objects_example :
    version_at (some "tab:t1") (update_star_objects 0 (write 3 ∷ write 2 ∷ []) empty).0
    ≡ version_after_all (some "tab:t1") (write 3 ∷ write 2 ∷ []) 0
version_at-update_star_objects_example =
    version_at-update_star_objects (some "tab:t1") 0 (write 3 ∷ write 2 ∷ []) empty
      empty-IsWellFormed

held-IsWellFormed :
    IsWellFormed (steps empty (pinned (some "tab:t1") 0 ∷ pinned (some "tab:t1") 0 ∷ []))
held-IsWellFormed =
    steps-IsWellFormed empty (pinned (some "tab:t1") 0 ∷ pinned (some "tab:t1") 0 ∷ [])
      empty-IsWellFormed

abbrev after_two : List Event
after_two = unmounted 0 ∷ cleaned 9000 ∷ updated 9001 (write 4 ∷ []) ∷ []

cache-steps_example :
    (steps (steps empty (pinned (some "tab:t1") 0 ∷ pinned (some "tab:t1") 0 ∷ [])) after_two).cache
      (some "tab:t1")
    ≡ some 0
unfolding steps step load_and_pin_star_object
cache-steps_example =
    cache-steps (some "tab:t1") 0
      (steps empty (pinned (some "tab:t1") 0 ∷ pinned (some "tab:t1") 0 ∷ [])) after_two
      held-IsWellFormed refl (omega arith) (tt, (tt, (tt, tt)))

split_oref-make_oref_example : split_oref (make_oref (some "tab") (some "t1")) ≡ ok ("tab", "t1")
split_oref-make_oref_example =
    split_oref-make_oref "tab" "t1" refl (refl, (refl, (refl, tt))) (refl, (refl, tt))
