-- ===== src/ObjectStore/Writes.antt =====
-- The versions in the cache, and what one assignment or one update does to them.
use Prim.Native.Nat.{max}
use starterm.Base.{
  ℕ, ◌+◌, ◌≤◌, String, Option, none, some, Bool, true, false, not, if◌then◌else◌, nat_eq, get_or,
  ◌≡◌, refl, sym, ap, ◌∙◌, arith, if_both, eq_of_nat_eq, ◌===◌,
}
use starterm.ObjectStore.{
  StarObj, StarObjUpdate, Store, StarObjectValue, write_at, write_newer, write_update, is_outdated,
  is_valid_star_obj, set_data, set_hold_time, version_of,
}

-- The version of what is cached under a reference, zero where nothing is.
abbrev pub version_in : Store → Option ℕ → ℕ
version_in s none = 0
version_in s (some i) = version_of (s.values i).value

abbrev pub version_at : Option String → Store → ℕ
version_at oref s = version_in s (s.cache oref)

-- What an update makes of a version: a deletion forgets it, and a valid object raises it.
abbrev pub raised : Option StarObj → ℕ → ℕ
raised none v = v
raised (some o) v = if is_valid_star_obj (some o) then max v (get_or o.version 0) else v

-- An assignment to an address changes no version but that of the object there.
pub version_in-write_at-other :
    (s : Store) (i : ℕ) (v : StarObjectValue) (o : Option ℕ)
    → (o ≡ some i → ⊥)
    → version_in (write_at i v s) o ≡ version_in s o
version_in-write_at-other s i v none h = refl
version_in-write_at-other s i v (some j) h =
    if_both (λ (w : StarObjectValue). version_of w.value ≡ version_of (s.values j).value)
      (nat_eq i j) (λ e. absurd (h (ap some (sym (eq_of_nat_eq i j e))))) (λ e. refl)

pub version_in-write_at :
    (s : Store) (i : ℕ) (v : StarObjectValue)
    → version_in (write_at i v s) (some i) ≡ version_of v.value
version_in-write_at s i v =
    if_both (λ (w : StarObjectValue). version_of w.value ≡ version_of v.value) (nat_eq i i)
      (λ e. refl) (λ e. absurd (not_equal i e))
  where
    not_equal : (a : ℕ) → nat_eq a a ≡ false → ⊥
    not_equal a h = ground arith

-- The object at an address after it is written twice.
version_in-set_hold_time :
    (s : Store) (i t : ℕ) (v : Option StarObj)
    → version_in (set_hold_time i t (set_data i v s)) (some i) ≡ version_of v
version_in-set_hold_time s i t v =
    version_in-write_at (set_data i v s) i (record ((set_data i v s).values i) { hold_time = t })
    ∙ version_in-write_at s i (record (s.values i) { value = v; loading = false })

outdated_le :
    (c : Option StarObj) (o : StarObj) → is_outdated c o ≡ true → get_or o.version 0 ≤ version_of c
outdated_le none o h = cc
outdated_le (some c) o h = ground arith

newer_le :
    (c : Option StarObj) (o : StarObj) → is_outdated c o ≡ false → version_of c ≤ get_or o.version 0
newer_le none o h = omega arith
newer_le (some c) o h = ground arith

if_not :
    {A : Type 0} (b c : Bool) (x y : A) → not b ≡ c → (if b then x else y) ≡ (if c then y else x)
if_not true true x y h = cc
if_not true false x y h = refl
if_not false true x y h = refl
if_not false false x y h = cc

version_in-write_newer :
    (i now : ℕ) (o : Option StarObj) (s : Store)
    → version_in (write_newer i now o s) (some i) ≡ raised o (version_in s (some i))
version_in-write_newer i now none s = refl
version_in-write_newer i now (some o) s =
    if_both (λ (r : Store). version_in r (some i) ≡ raised (some o) v) (not valid)
      (λ bad. sym (if_not valid true (max v n) v bad))
      (λ good.
        if_both (λ (r : Store). version_in r (some i) ≡ raised (some o) v)
          (is_outdated (s.values i).value o)
          (λ old.
            omega (arith, outdated_le (s.values i).value o old)
            ∙ sym (if_not valid false (max v n) v good))
          (λ new.
            version_in-set_hold_time s i (now + 5000) (some o)
            ∙ omega (arith, newer_le (s.values i).value o new)
            ∙ sym (if_not valid false (max v n) v good)))
  where
    v : ℕ
    v = version_of (s.values i).value

    n : ℕ
    n = get_or o.version 0

    valid : Bool
    valid = is_valid_star_obj (some o)

pub version_in-write_update :
    (i now : ℕ) (u : StarObjUpdate) (s : Store)
    → version_in (write_update i now u s) (some i)
      ≡ (if u.updatetype === "delete" then 0 else raised u.obj (version_in s (some i)))
version_in-write_update i now u s =
    both (u.updatetype === "delete") (set_hold_time i (now + 5000) (set_data i none s))
      (write_newer i now u.obj s) (version_in-set_hold_time s i (now + 5000) none)
      (version_in-write_newer i now u.obj s)
  where
    both :
        (b : Bool) (x y : Store) {m n : ℕ}
        → version_in x (some i) ≡ m
        → version_in y (some i) ≡ n
        → version_in (if b then x else y) (some i) ≡ (if b then m else n)
    both true x y h k = h
    both false x y h k = k

-- An update leaves the cache and every other object alone.
abbrev pub KeepsOthers : ℕ → Store → Store → Type 0
KeepsOthers i s t =
    (t.cache ≡ s.cache) × ((o : Option ℕ) → (o ≡ some i → ⊥) → version_in t o ≡ version_in s o)

set_hold_time-KeepsOthers :
    (i t : ℕ) (v : Option StarObj) (s : Store)
    → KeepsOthers i s (set_hold_time i t (set_data i v s))
set_hold_time-KeepsOthers i t v s = (
  refl,
  λ o h.
      version_in-write_at-other (set_data i v s) i
        (record ((set_data i v s).values i) { hold_time = t }) o h
      ∙ version_in-write_at-other s i (record (s.values i) { value = v; loading = false }) o h,
)

pub write_update-KeepsOthers :
    (i now : ℕ) (u : StarObjUpdate) (s : Store) → KeepsOthers i s (write_update i now u s)
write_update-KeepsOthers i now u s =
    if_both (KeepsOthers i s) (u.updatetype === "delete")
      (λ _. set_hold_time-KeepsOthers i (now + 5000) none s) (λ _. newer u.obj)
  where
    newer : (o : Option StarObj) → KeepsOthers i s (write_newer i now o s)
    newer none = (refl, λ o h. refl)
    newer (some v) =
        if_both (KeepsOthers i s) (not (is_valid_star_obj (some v))) (λ _. (refl, λ o h. refl))
          (λ _.
            if_both (KeepsOthers i s) (is_outdated (s.values i).value v) (λ _. (refl, λ o h. refl))
              (λ _. set_hold_time-KeepsOthers i (now + 5000) (some v) s))
