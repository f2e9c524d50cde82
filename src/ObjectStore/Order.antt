-- ===== src/ObjectStore/Order.antt =====
-- The order in which updates come in.
use Prim.Native.Nat.{max}
use starterm.Base.{
  ℕ, String, Option, none, some, Bool, true, false, List, if◌then◌else◌, get_or, ◌≡◌, refl, sym, ap,
  ◌∙◌, arith, ◌===◌,
}
use mathlib.Core.Path.{subst}
use mathlib.Core.List.{Permᴰ}
use starterm.Base.Lists.{All}
use starterm.ObjectStore.{
  StarObj, StarObjUpdate, Store, same_oref, is_valid_star_obj, update_star_objects, make_oref,
}
use starterm.ObjectStore.WellFormed.{IsWellFormed}
use starterm.ObjectStore.Writes.{version_at, raised}
use starterm.ObjectStore.Versions.{version_after, version_after_all, version_at-update_star_objects}

-- The update deletes nothing.
abbrev pub IsWrite : Option StarObjUpdate → Type 0
IsWrite none = Unit {0}
IsWrite (some u) = (u.updatetype === "delete") ≡ false

-- The version that an update asks for, zero where it is not valid or of another reference.
abbrev asked : Option StarObj → ℕ
asked none = 0
asked (some o) = if is_valid_star_obj (some o) then get_or o.version 0 else 0

abbrev asked_for : Option String → Option StarObjUpdate → ℕ
asked_for k none = 0
asked_for k (some u) = if same_oref (make_oref u.otype u.oid) k then asked u.obj else 0

raised-max : (o : Option StarObj) (v : ℕ) → raised o v ≡ max v (asked o)
raised-max none v = omega arith
raised-max (some o) v = pick (is_valid_star_obj (some o))
  where
    n : ℕ
    n = get_or o.version 0

    pick : (b : Bool) → (if b then max v n else v) ≡ max v (if b then n else 0)
    pick true = refl
    pick false = omega arith

version_after-max :
    (k : Option String) (u : Option StarObjUpdate) (v : ℕ)
    → IsWrite u
    → version_after k u v ≡ max v (asked_for k u)
version_after-max k none v h = omega arith
version_after-max k (some u) v h =
    pick (same_oref (make_oref u.otype u.oid) k) (u.updatetype === "delete") h
  where
    pick :
        (b d : Bool)
        → d ≡ false
        → (if b then if d then 0 else raised u.obj v else v) ≡ max v (if b then asked u.obj else 0)
    pick true true h = cc
    pick false true h = cc
    pick true false h = raised-max u.obj v
    pick false false h = omega arith

All-Permᴰ : {A : Type 0} (P : A → Type 0) {xs ys : List A} → Permᴰ xs ys → All P xs → All P ys
All-Permᴰ P Permᴰ.nil h = h
All-Permᴰ P (Permᴰ.cons e p) (h, k) = (subst P e h, All-Permᴰ P p k)
All-Permᴰ P (Permᴰ.swap e f) (h, (j, k)) = (subst P f j, (subst P e h, k))
All-Permᴰ P (Permᴰ.trans p q) h = All-Permᴰ P q (All-Permᴰ P p h)

version_after_all-Permᴰ :
    (k : Option String) {us ws : List (Option StarObjUpdate)} (v : ℕ)
    → Permᴰ us ws
    → All IsWrite us
    → version_after_all k us v ≡ version_after_all k ws v
version_after_all-Permᴰ k v Permᴰ.nil h = refl
version_after_all-Permᴰ k v (Permᴰ.cons {a = a} {l₂ = l} e p) (h, hs) =
    version_after_all-Permᴰ k (version_after k a v) p hs
    ∙ ap (λ u. version_after_all k l (version_after k u v)) e
version_after_all-Permᴰ k v (Permᴰ.swap {a = a} {b = b} {a' = c} {l = l} e f) (h, (j, hs)) =
    ap (version_after_all k l) (
      swapped
      ∙ ap (λ u. version_after k a (version_after k u v)) f
      ∙ ap (λ u. version_after k u (version_after k c v)) e)
  where
    swapped : version_after k b (version_after k a v) ≡ version_after k a (version_after k b v)
    swapped = omega (
      arith,
      version_after-max k a v h,
      version_after-max k b v j,
      version_after-max k b (version_after k a v) j,
      version_after-max k a (version_after k b v) h,
    )
version_after_all-Permᴰ k v (Permᴰ.trans p q) h =
    version_after_all-Permᴰ k v p h ∙ version_after_all-Permᴰ k v q (All-Permᴰ IsWrite p h)

-- Updates without a deletion give the same versions in whatever order they come in.
pub version_at-update_star_objects-Permᴰ :
    (k : Option String) (now later : ℕ) (us ws : List (Option StarObjUpdate)) (s : Store)
    → IsWellFormed s
    → Permᴰ us ws
    → All IsWrite us
    → version_at k (update_star_objects now us s).0
      ≡ version_at k (update_star_objects later ws s).0
version_at-update_star_objects-Permᴰ k now later us ws s h p w =
    version_at-update_star_objects k now us s h
    ∙ version_after_all-Permᴰ k (version_at k s) p w
    ∙ sym (version_at-update_star_objects k later ws s h)
