-- ===== src/ObjectStore/WellFormed.antt =====
-- Two references never share an object of the cache.
use starterm.Base.{
  ℕ, suc, ◌<◌, String, Option, none, some, Bool, true, false, not, ◌&&◌, List, [], ◌∷◌,
  if◌then◌else◌, ltb, nat_eq, ◌≡◌, refl, sym, ap, ◌∙◌, arith, if_both, none_ne_some, some_inj,
  ◌===◌, eq_iff, eq_refl, Result, ok, throw, ◌>>=◌,
}
use starterm.ObjectStore.{
  StarObj, StarObjUpdate, Store, Request, fetched, reloaded, same_oref, found_or_created,
  get_star_object_value, write_newer, write_update, is_outdated, is_valid_star_obj,
  update_star_object, update_star_objects, make_oref, answered, check_answer, settle, reload_at,
  reload_star_object, load_and_pin_star_object, clean_star_object_cache, kept, set_found,
  set_object_value,
}
use starterm.ObjectStore.Steps.{
  Event, updated, answer, pinned, used, reload, mounted, unmounted, cleaned, cleared, assigned,
  if_ok, step, steps,
}

pub same_oref_refl : (a : Option String) → same_oref a a ≡ true
same_oref_refl none = refl
same_oref_refl (some a) = eq_refl a

pub same_oref-eq : (a b : Option String) → same_oref a b ≡ true → a ≡ b
same_oref-eq none none h = refl
same_oref-eq none (some b) h = cc
same_oref-eq (some a) none h = cc
same_oref-eq (some a) (some b) h = ap some ((eq_iff a b).0 h)

-- Every address of the cache is in use, and two references have different addresses.
abbrev pub IsWellFormed : Store → Type 0
IsWellFormed s =
    ((a : Option String) (i : ℕ) → s.cache a ≡ some i → i < s.next)
    × ((a b : Option String) (i : ℕ) → s.cache a ≡ some i → s.cache b ≡ some i → a ≡ b)

-- What a cache holds after an entry is set.
abbrev entry : ℕ → Bool → Option ℕ → Option ℕ
entry n b o = if b then some n else o

entry-below :
    (s : Store) (a : Option String) (i : ℕ) (b : Bool)
    → IsWellFormed s
    → entry s.next b (s.cache a) ≡ some i
    → i < suc s.next
entry-below s a i true h e = omega (arith, some_inj e)
entry-below s a i false (below, apart) e = omega (arith, below a i e)

entry-apart :
    (s : Store) (oref a b : Option String) (i : ℕ) (p q : Bool)
    → IsWellFormed s
    → same_oref oref a ≡ p
    → same_oref oref b ≡ q
    → entry s.next p (s.cache a) ≡ some i
    → entry s.next q (s.cache b) ≡ some i
    → a ≡ b
entry-apart s oref a b i true true h p q e f = sym (same_oref-eq oref a p) ∙ same_oref-eq oref b q
entry-apart s oref a b i true false (below, apart) p q e f =
    absurd (omega (arith, some_inj e, below b i f))
entry-apart s oref a b i false true (below, apart) p q e f =
    absurd (omega (arith, some_inj f, below a i e))
entry-apart s oref a b i false false (below, apart) p q e f = apart a b i e f

found_or_created-IsWellFormed :
    (oref : Option String) (now : ℕ) (s : Store) (o : Option ℕ)
    → IsWellFormed s
    → IsWellFormed (found_or_created oref now s o).store
found_or_created-IsWellFormed oref now s (some i) h = h
found_or_created-IsWellFormed oref now s none h = (
  (λ a i. entry-below s a i (same_oref oref a) h),
  (λ a b i. entry-apart s oref a b i (same_oref oref a) (same_oref oref b) h refl refl),
)

pub get_star_object_value-IsWellFormed :
    (oref : Option String) (now : ℕ) (s : Store)
    → IsWellFormed s
    → IsWellFormed (get_star_object_value oref now s).store
unfolding get_star_object_value
get_star_object_value-IsWellFormed oref now s h =
    found_or_created-IsWellFormed oref now s (s.cache oref) h

write_update-IsWellFormed :
    (i now : ℕ) (u : StarObjUpdate) (s : Store)
    → IsWellFormed s
    → IsWellFormed (write_update i now u s)
write_update-IsWellFormed i now u s h =
    if_both IsWellFormed (u.updatetype === "delete") (λ _. h) (λ _. newer u.obj)
  where
    newer : (o : Option StarObj) → IsWellFormed (write_newer i now o s)
    newer none = h
    newer (some o) =
        if_both IsWellFormed (not (is_valid_star_obj (some o))) (λ _. h)
          (λ _. if_both IsWellFormed (is_outdated (s.values i).value o) (λ _. h) (λ _. h))

pub update_star_object-IsWellFormed :
    (now : ℕ) (u : Option StarObjUpdate) (s : Store)
    → IsWellFormed s
    → IsWellFormed (update_star_object now u s).0
unfolding update_star_object
update_star_object-IsWellFormed now none s h = h
update_star_object-IsWellFormed now (some u) s h =
    let f = get_star_object_value (make_oref u.otype u.oid) now s in
    write_update-IsWellFormed f.address now u f.store
      (get_star_object_value-IsWellFormed (make_oref u.otype u.oid) now s h)

update_star_objects-IsWellFormed :
    (now : ℕ) (us : List (Option StarObjUpdate)) (s : Store)
    → IsWellFormed s
    → IsWellFormed (update_star_objects now us s).0
unfolding update_star_objects
update_star_objects-IsWellFormed now [] s h = h
update_star_objects-IsWellFormed now (u ∷ us) s h =
    update_star_objects-IsWellFormed now us (update_star_object now u s).0
      (update_star_object-IsWellFormed now u s h)

answered-IsWellFormed :
    (r : Request) (v : Option StarObj) (s : Store)
    → IsWellFormed s
    → IsWellFormed (if_ok s (answered r v s))
unfolding answered
answered-IsWellFormed (reloaded i oref) v s h = h
answered-IsWellFormed (fetched i oref) v s h =
    if_both (λ r. IsWellFormed (if_ok s r)) (not (s.values i).pending) (λ _. h)
      (λ _. settled (check_answer oref v))
  where
    settled : (r : Result (Option StarObj)) → IsWellFormed (if_ok s (r >>= λ w. ok (settle i s w)))
    settled (ok w) = h
    settled (throw e) = h

reload_at-IsWellFormed :
    (oref : Option String) (now : ℕ) (s : Store) (o : Option ℕ)
    → IsWellFormed s
    → IsWellFormed (reload_at oref now s o).0
reload_at-IsWellFormed oref now s none h = found_or_created-IsWellFormed oref now s none h
reload_at-IsWellFormed oref now s (some i) h = h

-- What is kept was there.
pub kept-some : (now : ℕ) (s : Store) (o : Option ℕ) (i : ℕ) → kept now s o ≡ some i → o ≡ some i
kept-some now s none i = λ e. e
kept-some now s (some j) i =
    if_both (λ o. o ≡ some i → some j ≡ some i)
      (nat_eq (s.values j).ref_count 0 && ltb (s.values j).hold_time now)
      (λ _. λ e. absurd (none_ne_some e)) (λ _. λ e. e)

clean_star_object_cache-IsWellFormed :
    (now : ℕ) (s : Store) → IsWellFormed s → IsWellFormed (clean_star_object_cache now s)
unfolding clean_star_object_cache
clean_star_object_cache-IsWellFormed now s (below, apart) = (
  (λ a i e. below a i (kept-some now s (s.cache a) i e)),
  (λ a b i e f. apart a b i (kept-some now s (s.cache a) i e) (kept-some now s (s.cache b) i f)),
)

set_found-IsWellFormed :
    (v : StarObj) (push : Bool) (s : Store) (o : Option ℕ)
    → IsWellFormed s
    → IsWellFormed (set_found v push s o).0
set_found-IsWellFormed v push s none h = h
set_found-IsWellFormed v push s (some i) h = h

pub step-IsWellFormed : (s : Store) (e : Event) → IsWellFormed s → IsWellFormed (step s e)
unfolding step load_and_pin_star_object reload_star_object set_object_value
step-IsWellFormed s (updated now us) h = update_star_objects-IsWellFormed now us s h
step-IsWellFormed s (answer r v) h = answered-IsWellFormed r v s h
step-IsWellFormed s (pinned oref now) h = get_star_object_value-IsWellFormed oref now s h
step-IsWellFormed s (used oref now) h = get_star_object_value-IsWellFormed oref now s h
step-IsWellFormed s (reload oref now) h = reload_at-IsWellFormed oref now s (s.cache oref) h
step-IsWellFormed s (mounted i) h = h
step-IsWellFormed s (unmounted i) h = h
step-IsWellFormed s (cleaned now) h = clean_star_object_cache-IsWellFormed now s h
step-IsWellFormed s cleared h =
    ((λ a i e. absurd (none_ne_some e)), (λ a b i e f. absurd (none_ne_some e)))
step-IsWellFormed s (assigned o push) h =
    set_found-IsWellFormed o push s (s.cache (make_oref o.otype o.oid)) h

-- Whatever happens to the cache, every address in it is in use and two references never share an
-- object, once this holds.
pub steps-IsWellFormed : (s : Store) (es : List Event) → IsWellFormed s → IsWellFormed (steps s es)
unfolding steps
steps-IsWellFormed s [] h = h
steps-IsWellFormed s (e ∷ es) h = steps-IsWellFormed (step s e) es (step-IsWellFormed s e h)
