-- ===== src/ObjectStore/Orefs.antt =====
-- References as texts.
use Prim.Native.Char.{code}
use starterm.Base.{
  ℕ, String, none, some, Bool, true, false, ◌||◌, [], ◌∷◌, if◌then◌else◌, nat_eq, is_blank, ◌≡◌,
  refl, ap, ◌∙◌, ok,
}
use starterm.Base.Texts.{split_on, onto_first, concat}
use starterm.ObjectStore.{split_oref, make_oref, parts_of}

-- The text has no character of the code.
abbrev pub IsWithout : ℕ → String → Type 0
IsWithout sep String.[] = Unit {0}
IsWithout sep (String.◌∷◌ c s) = (nat_eq (code c) sep ≡ false) × IsWithout sep s

if_false : {A : Type 0} (b : Bool) (x y : A) → b ≡ false → (if b then x else y) ≡ y
if_false true x y h = cc
if_false false x y h = refl

split_on-IsWithout : (sep : ℕ) (s : String) → IsWithout sep s → split_on sep s ≡ s ∷ []
unfolding split_on
split_on-IsWithout sep String.[] h = refl
split_on-IsWithout sep (String.◌∷◌ c s) (h, k) =
    if_false (nat_eq (code c) sep) (String.[] ∷ split_on sep s) (onto_first c (split_on sep s)) h
    ∙ ap (onto_first c) (split_on-IsWithout sep s k)

split_on-concat :
    (s t : String) → IsWithout 58 s → split_on 58 (concat s (concat ":" t)) ≡ s ∷ split_on 58 t
unfolding split_on
split_on-concat String.[] t h = refl
split_on-concat (String.◌∷◌ c s) t (h, k) =
    if_false (nat_eq (code c) 58) (String.[] ∷ split_on 58 (concat s (concat ":" t)))
      (onto_first c (split_on 58 (concat s (concat ":" t)))) h
    ∙ ap (onto_first c) (split_on-concat s t k)

-- A type and an id that are not blank and have no colon are read back from the reference that is
-- made of them.
pub split_oref-make_oref :
    (otype oid : String)
    → (is_blank (some otype) || is_blank (some oid)) ≡ false
    → IsWithout 58 otype
    → IsWithout 58 oid
    → split_oref (make_oref (some otype) (some oid)) ≡ ok (otype, oid)
unfolding split_oref make_oref
split_oref-make_oref otype oid b h k =
    ap split_oref (
      if_false (is_blank (some otype) || is_blank (some oid)) none
        (some (concat otype (concat ":" oid))) b)
    ∙ ap parts_of
        (split_on-concat otype oid h ∙ ap (λ ps. otype ∷ ps) (split_on-IsWithout 58 oid k))
