-- ===== src/ObjectStore/Pinned.antt =====
-- What is in use stays in the cache.
use starterm.Base.{
  ℕ, suc, ◌+◌, ◌-◌, ◌<◌, ◌≤◌, String, Option, none, some, Bool, true, false, not, ◌&&◌, List, [],
  ◌∷◌, if◌then◌else◌, ltb, nat_eq, ◌≡◌, refl, sym, ap, ◌∙◌, arith, if_both, eq_of_nat_eq,
  none_ne_some, ◌===◌, Result, ok, throw, ◌>>=◌,
}
use mathlib.Core.Path.{subst}
use starterm.Base.Lists.{All}
use starterm.ObjectStore.{
  StarObj, StarObjUpdate, Store, StarObjectValue, Request, fetched, reloaded, same_oref, write_at,
  found_or_created, get_star_object_value, write_newer, write_update, is_outdated,
  is_valid_star_obj, set_data, set_hold_time, update_star_object, update_star_objects, make_oref,
  answered, check_answer, settle, reload_at, reload_star_object, count_up, count_down,
  load_and_pin_star_object, clean_star_object_cache, kept, set_found, set_object_value,
}
use starterm.ObjectStore.WellFormed.{
  IsWellFormed, same_oref-eq, update_star_object-IsWellFormed, step-IsWellFormed,
}
use starterm.ObjectStore.Steps.{
  Event, updated, answer, pinned, used, reload, mounted, unmounted, cleaned, cleared, assigned,
  if_ok, step, steps,
}

-- The reference has the object at the address, which is counted at least so often.
abbrev Holds : Option String → ℕ → ℕ → Store → Type 0
Holds a i c s = (s.cache a ≡ some i) × (c ≤ (s.values i).ref_count)

write_at-Holds :
    (a : Option String) (i c j : ℕ) (v : StarObjectValue) (s : Store)
    → (c ≤ (s.values j).ref_count → c ≤ v.ref_count)
    → Holds a i c s
    → Holds a i c (write_at j v s)
write_at-Holds a i c j v s up (h, k) = (
  h,
  if_both (λ (w : StarObjectValue). c ≤ w.ref_count) (nat_eq j i)
      (λ e. up (subst (λ n. c ≤ (s.values n).ref_count) (sym (eq_of_nat_eq j i e)) k)) (λ e. k),
)

found_or_created-Holds :
    (a oref : Option String) (i c now : ℕ) (s : Store) (o : Option ℕ)
    → IsWellFormed s
    → s.cache oref ≡ o
    → Holds a i c s
    → Holds a i c (found_or_created oref now s o).store
found_or_created-Holds a oref i c now s (some j) w e h = h
found_or_created-Holds a oref i c now s none (below, apart) e (h, k) = (
  if_both (λ o. o ≡ some i) (same_oref oref a)
      (λ same. absurd (none_ne_some (sym e ∙ ap s.cache (same_oref-eq oref a same) ∙ h)))
      (λ other. h),
  if_both (λ (v : StarObjectValue). c ≤ v.ref_count) (nat_eq s.next i)
      (λ same. absurd (omega (arith, eq_of_nat_eq s.next i same, below a i h))) (λ other. k),
)

write_update-Holds :
    (a : Option String) (i c j now : ℕ) (u : StarObjUpdate) (s : Store)
    → Holds a i c s
    → Holds a i c (write_update j now u s)
write_update-Holds a i c j now u s h =
    if_both (Holds a i c) (u.updatetype === "delete") (λ _. twice none) (λ _. newer u.obj)
  where
    twice : (v : Option StarObj) → Holds a i c (set_hold_time j (now + 5000) (set_data j v s))
    twice v =
        write_at-Holds a i c j (record ((set_data j v s).values j) { hold_time = now + 5000 })
          (set_data j v s) (λ k. k)
          (write_at-Holds a i c j (record (s.values j) { value = v; loading = false }) s (λ k. k) h)

    newer : (o : Option StarObj) → Holds a i c (write_newer j now o s)
    newer none = h
    newer (some o) =
        if_both (Holds a i c) (not (is_valid_star_obj (some o))) (λ _. h)
          (λ _.
            if_both (Holds a i c) (is_outdated (s.values j).value o) (λ _. h) (λ _. twice (some o)))

update_star_object-Holds :
    (a : Option String) (i c now : ℕ) (u : Option StarObjUpdate) (s : Store)
    → IsWellFormed s
    → Holds a i c s
    → Holds a i c (update_star_object now u s).0
unfolding update_star_object get_star_object_value
update_star_object-Holds a i c now none s w h = h
update_star_object-Holds a i c now (some u) s w h =
    let oref = make_oref u.otype u.oid in
    let f = found_or_created oref now s (s.cache oref) in
    write_update-Holds a i c f.address now u f.store
      (found_or_created-Holds a oref i c now s (s.cache oref) w refl h)

update_star_objects-Holds :
    (a : Option String) (i c now : ℕ) (us : List (Option StarObjUpdate)) (s : Store)
    → IsWellFormed s
    → Holds a i c s
    → Holds a i c (update_star_objects now us s).0
unfolding update_star_objects
update_star_objects-Holds a i c now [] s w h = h
update_star_objects-Holds a i c now (u ∷ us) s w h =
    update_star_objects-Holds a i c now us (update_star_object now u s).0
      (update_star_object-IsWellFormed now u s w) (update_star_object-Holds a i c now u s w h)

answered-Holds :
    (a : Option String) (i c : ℕ) (r : Request) (v : Option StarObj) (s : Store)
    → Holds a i c s
    → Holds a i c (if_ok s (answered r v s))
unfolding answered
answered-Holds a i c (reloaded j oref) v s h =
    write_at-Holds a i c j (record (s.values j) { value = v; loading = false }) s (λ k. k) h
answered-Holds a i c (fetched j oref) v s h =
    if_both (λ r. Holds a i c (if_ok s r)) (not (s.values j).pending) (λ _. h)
      (λ _. settled (check_answer oref v))
  where
    settled : (r : Result (Option StarObj)) → Holds a i c (if_ok s (r >>= λ w. ok (settle j s w)))
    settled (throw e) = h
    settled (ok w) =
        write_at-Holds a i c j (record (s.values j) { pending = false; value = w; loading = false })
          s (λ k. k) h

-- The ends of uses of an object that an event brings.
abbrev ends_in : ℕ → Event → ℕ
ends_in i (unmounted j) = if nat_eq j i then 1 else 0
ends_in i (updated now us) = 0
ends_in i (answer r v) = 0
ends_in i (pinned oref now) = 0
ends_in i (used oref now) = 0
ends_in i (reload oref now) = 0
ends_in i (mounted j) = 0
ends_in i (cleaned now) = 0
ends_in i cleared = 0
ends_in i (assigned o push) = 0

abbrev pub ends : ℕ → List Event → ℕ
ends i [] = 0
ends i (e ∷ es) = ends_in i e + ends i es

-- The event does not drop the whole cache.
abbrev pub IsGentle : Event → Type 0
IsGentle cleared = ⊥
IsGentle (unmounted j) = Unit {0}
IsGentle (updated now us) = Unit {0}
IsGentle (answer r v) = Unit {0}
IsGentle (pinned oref now) = Unit {0}
IsGentle (used oref now) = Unit {0}
IsGentle (reload oref now) = Unit {0}
IsGentle (mounted j) = Unit {0}
IsGentle (cleaned now) = Unit {0}
IsGentle (assigned o push) = Unit {0}

kept-counted : (now i : ℕ) (s : Store) → 1 ≤ (s.values i).ref_count → kept now s (some i) ≡ some i
kept-counted now i s h =
    if_both (λ o. o ≡ some i) (nat_eq (s.values i).ref_count 0 && ltb (s.values i).hold_time now)
      (λ e. absurd (ground arith)) (λ _. refl)

count_down-Holds :
    (a : Option String) (i c j : ℕ) (s : Store)
    → Holds a i (ends_in i (unmounted j) + c) s
    → Holds a i c (count_down j s)
count_down-Holds a i c j s (h, k) = (h, counted (nat_eq j i) refl k)
  where
    counted :
        (b : Bool)
        → nat_eq j i ≡ b
        → (if b then 1 else 0) + c ≤ (s.values i).ref_count
        → c
          ≤ (if b
              then record (s.values j) { ref_count = (s.values j).ref_count - 1 }
              else s.values i).ref_count
    counted true e k =
        omega (arith, subst (λ n. 1 + c ≤ (s.values n).ref_count) (sym (eq_of_nat_eq j i e)) k)
    counted false e k = omega (arith, k)

no_end : (a : Option String) (i c : ℕ) (s : Store) → Holds a i (0 + c) s → Holds a i c s
no_end a i c s (h, k) = (h, omega (arith, k))

step-Holds :
    (a : Option String) (i c : ℕ) (s : Store) (e : Event)
    → IsGentle e
    → IsWellFormed s
    → Holds a i (ends_in i e + suc c) s
    → Holds a i (suc c) (step s e)
unfolding step load_and_pin_star_object get_star_object_value reload_star_object set_object_value
    clean_star_object_cache
step-Holds a i c s (updated now us) g w h =
    update_star_objects-Holds a i (suc c) now us s w (no_end a i (suc c) s h)
step-Holds a i c s (answer r v) g w h = answered-Holds a i (suc c) r v s (no_end a i (suc c) s h)
step-Holds a i c s (used oref now) g w h =
    found_or_created-Holds a oref i (suc c) now s (s.cache oref) w refl (no_end a i (suc c) s h)
step-Holds a i c s (pinned oref now) g w h =
    let f = found_or_created oref now s (s.cache oref) in
    count_up-Holds f.address f.store
      (found_or_created-Holds a oref i (suc c) now s (s.cache oref) w refl (no_end a i (suc c) s h))
  where
    count_up-Holds : (j : ℕ) (t : Store) → Holds a i (suc c) t → Holds a i (suc c) (count_up j t)
    count_up-Holds j t =
        write_at-Holds a i (suc c) j
          (record (t.values j) { ref_count = (t.values j).ref_count + 1 }) t (λ k. omega arith)
step-Holds a i c s (reload oref now) g w h = reloads (s.cache oref) refl
  where
    reloads : (o : Option ℕ) → s.cache oref ≡ o → Holds a i (suc c) (reload_at oref now s o).0
    reloads none e = found_or_created-Holds a oref i (suc c) now s none w e (no_end a i (suc c) s h)
    reloads (some j) e = no_end a i (suc c) s h
step-Holds a i c s (mounted j) g w h =
    write_at-Holds a i (suc c) j (record (s.values j) { ref_count = (s.values j).ref_count + 1 }) s
      (λ k. omega arith) (no_end a i (suc c) s h)
step-Holds a i c s (unmounted j) g w h = count_down-Holds a i (suc c) j s h
step-Holds a i c s (cleaned now) g w (h, k) =
    (ap (kept now s) h ∙ kept-counted now i s (omega (arith, k)), omega (arith, k))
step-Holds a i c s cleared g w h = absurd g
step-Holds a i c s (assigned o push) g w h = assigns (s.cache (make_oref o.otype o.oid))
  where
    assigns : (r : Option ℕ) → Holds a i (suc c) (set_found o push s r).0
    assigns none = no_end a i (suc c) s h
    assigns (some j) =
        write_at-Holds a i (suc c) j (record (s.values j) { value = some o; loading = false }) s
          (λ k. k) (no_end a i (suc c) s h)

-- In a well-formed cache an object that is in use more often than uses of it end stays under its
-- reference, whatever else happens short of clearing the whole cache: no clean-up drops it.
pub cache-steps :
    (a : Option String) (i : ℕ) (s : Store) (es : List Event)
    → IsWellFormed s
    → s.cache a ≡ some i
    → ends i es < (s.values i).ref_count
    → All IsGentle es
    → (steps s es).cache a ≡ some i
unfolding steps
cache-steps a i s [] w h k g = h
cache-steps a i s (e ∷ es) w h k (g, gs) =
    let (h', k') = step-Holds a i (ends i es) s e g w (h, omega arith) in
    cache-steps a i (step s e) es (step-IsWellFormed s e w) h' (omega arith) gs
