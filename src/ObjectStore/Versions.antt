-- ===== src/ObjectStore/Versions.antt =====
-- Updates against their specification: the greatest version wins.
use starterm.Base.{
  ℕ, ◌+◌, String, Option, none, some, true, false, List, [], ◌∷◌, if◌then◌else◌, ◌≡◌, refl, sym, ap,
  ◌∙◌, arith, if_both, ◌===◌,
}
use starterm.ObjectStore.{
  StarObjUpdate, Store, same_oref, found_or_created, get_star_object_value, write_update,
  update_star_object, update_star_objects, make_oref,
}
use starterm.ObjectStore.Writes.{
  version_in, version_at, raised, version_in-write_at-other, version_in-write_at,
  version_in-write_update, write_update-KeepsOthers,
}
use starterm.ObjectStore.WellFormed.{
  same_oref_refl, same_oref-eq, IsWellFormed, get_star_object_value-IsWellFormed,
  update_star_object-IsWellFormed,
}

abbrev pub version_after : Option String → Option StarObjUpdate → ℕ → ℕ
version_after oref none v = v
version_after oref (some u) v =
    if same_oref (make_oref u.otype u.oid) oref
    then if u.updatetype === "delete" then 0 else raised u.obj v
    else v

abbrev pub version_after_all : Option String → List (Option StarObjUpdate) → ℕ → ℕ
version_after_all oref [] v = v
version_after_all oref (u ∷ us) v = version_after_all oref us (version_after oref u v)

-- A new object has no version, and the other references keep theirs.
version_at-found_or_created :
    (k oref : Option String) (now : ℕ) (s : Store) (o : Option ℕ)
    → IsWellFormed s
    → s.cache oref ≡ o
    → version_at k (found_or_created oref now s o).store ≡ version_at k s
version_at-found_or_created k oref now s (some i) h e = refl
version_at-found_or_created k oref now s none (below, apart) e =
    if_both (λ o. version_in (found_or_created oref now s none).store o ≡ version_at k s)
      (same_oref oref k)
      (λ same.
        version_in-write_at s s.next (record {
          pending = true;
          value = none;
          loading = true;
          ref_count = 0;
          hold_time = now + 5000;
        })
        ∙ ap (version_in s) (sym e ∙ ap s.cache (same_oref-eq oref k same)))
      (λ other.
        version_in-write_at-other s s.next
          (record {
            pending = true;
            value = none;
            loading = true;
            ref_count = 0;
            hold_time = now + 5000;
          })
          (s.cache k) (λ at. omega (arith, below k s.next at)))

-- The address that is found is that of the reference.
cache-found_or_created :
    (oref : Option String) (now : ℕ) (s : Store) (o : Option ℕ)
    → s.cache oref ≡ o
    → (found_or_created oref now s o).store.cache oref
      ≡ some (found_or_created oref now s o).address
cache-found_or_created oref now s (some i) e = e
cache-found_or_created oref now s none e =
    ap (λ b. if b then some s.next else s.cache oref) (same_oref_refl oref)

-- One update to an object that is cached.
version_at-write_update :
    (k oref : Option String) (i now : ℕ) (u : StarObjUpdate) (s : Store)
    → IsWellFormed s
    → s.cache oref ≡ some i
    → version_at k (write_update i now u s) ≡ (
        if same_oref oref k
        then if u.updatetype === "delete" then 0 else raised u.obj (version_at k s)
        else version_at k s)
version_at-write_update k oref i now u s (below, apart) at =
    let (same_cache, others) = write_update-KeepsOthers i now u s in
    let t = write_update i now u s in
    let new = if u.updatetype === "delete" then 0 else raised u.obj (version_at k s) in
    ap (λ (c : Option String → Option ℕ). version_in t (c k)) same_cache
    ∙ if_both (λ (n : ℕ). version_in t (s.cache k) ≡ n) (same_oref oref k)
        (λ same.
          let here = ap s.cache (sym (same_oref-eq oref k same)) ∙ at in
          ap (version_in t) here
          ∙ version_in-write_update i now u s
          ∙ ap (λ v. if u.updatetype === "delete" then 0 else raised u.obj v)
              (sym (ap (version_in s) here)))
        (λ other. others (s.cache k) (λ here.
          true_ne_false
            (sym (same_oref_refl oref) ∙ ap (same_oref oref) (apart oref k i at here) ∙ other)))
  where
    true_ne_false : true ≡ false → ⊥
    true_ne_false h = cc

version_at-update_star_object :
    (k : Option String) (now : ℕ) (u : Option StarObjUpdate) (s : Store)
    → IsWellFormed s
    → version_at k (update_star_object now u s).0 ≡ version_after k u (version_at k s)
unfolding update_star_object get_star_object_value
version_at-update_star_object k now none s h = refl
version_at-update_star_object k now (some u) s h =
    let oref = make_oref u.otype u.oid in
    let f = found_or_created oref now s (s.cache oref) in
    version_at-write_update k oref f.address now u f.store
      (get_star_object_value-IsWellFormed oref now s h)
      (cache-found_or_created oref now s (s.cache oref) refl)
    ∙ ap (λ v. version_after k (some u) v)
        (version_at-found_or_created k oref now s (s.cache oref) h refl)

-- After a list of updates of a well-formed cache the version under each reference is what the
-- updates of that reference make of it in their order: the greatest valid version since the last
-- deletion, whatever else is updated between.
pub version_at-update_star_objects :
    (k : Option String) (now : ℕ) (us : List (Option StarObjUpdate)) (s : Store)
    → IsWellFormed s
    → version_at k (update_star_objects now us s).0 ≡ version_after_all k us (version_at k s)
unfolding update_star_objects
version_at-update_star_objects k now [] s h = refl
version_at-update_star_objects k now (u ∷ us) s h =
    version_at-update_star_objects k now us (update_star_object now u s).0
      (update_star_object-IsWellFormed now u s h)
    ∙ ap (version_after_all k us) (version_at-update_star_object k now u s h)
