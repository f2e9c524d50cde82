-- ===== src/Keys/Modifiers.antt =====
-- The modifiers of descriptions and of events agree on what a platform's keys are.
use Prim.Native.String.{String}
use starterm.Base.{
  Bool, true, false, not, ◌&&◌, ◌===◌, List, [], ◌∷◌, if◌then◌else◌, ◌≡◌, refl, arith, Bool-cases,
  inl, inr,
}
use starterm.Base.Texts.{split_on, is_single, is_upper_letter}
use starterm.Keys.{
  KeyType, Mods, KeyPressDecl, with_cmd, with_option, with_alt, with_meta, with_key, is_by_key,
  parse_key, add_key, add_keys, parse_key_description, without_parens, no_mods, check_key_pressed,
  not_mod, compared_keys, is_same, NativeKeyEvent, adapt_from_react_or_native_key_event,
}

-- On macOS Cmd is Meta and Option is Alt; elsewhere Cmd is Alt and Option is Meta.
abbrev pub IsConsistent : Bool → Mods → Type 0
IsConsistent mac m =
    (m.cmd_mod ≡ (if mac then m.meta_mod else m.alt_mod))
    × (m.option_mod ≡ (if mac then m.alt_mod else m.meta_mod))

with_key-IsConsistent :
    (mac : Bool) (k : String) (p : String × KeyType) (d : KeyPressDecl)
    → IsConsistent mac d.mods
    → IsConsistent mac ((with_key k p d).mods)
with_key-IsConsistent mac k (parsed, t) d h = elim (Bool-cases (is_by_key t && is_single k)) [
  | inl one ↦ elim (Bool-cases (is_upper_letter k)) [
    | inl upper ↦ rw (one, upper) h
    | inr lower ↦ elim (Bool-cases (k === " ")) [
      | inl space ↦ rw (one, lower, space) h
      | inr other ↦ rw (one, lower, other) h
    ]
  ]
  | inr long ↦ rw long h
]

with_cmd-IsConsistent :
    (mac : Bool) (m : Mods) → IsConsistent mac m → IsConsistent mac (with_cmd mac m)
with_cmd-IsConsistent true m h = (refl, h.1)
with_cmd-IsConsistent false m h = (refl, h.1)

with_option-IsConsistent :
    (mac : Bool) (m : Mods) → IsConsistent mac m → IsConsistent mac (with_option mac m)
with_option-IsConsistent true m h = (h.0, refl)
with_option-IsConsistent false m h = (h.0, refl)

with_alt-IsConsistent :
    (mac : Bool) (m : Mods) → IsConsistent mac m → IsConsistent mac (with_alt mac m)
with_alt-IsConsistent true m h = (h.0, refl)
with_alt-IsConsistent false m h = (refl, h.1)

with_meta-IsConsistent :
    (mac : Bool) (m : Mods) → IsConsistent mac m → IsConsistent mac (with_meta mac m)
with_meta-IsConsistent true m h = (refl, h.1)
with_meta-IsConsistent false m h = (h.0, refl)

-- A predicate that holds of both branches holds of the conditional.
either_way {ℓ κ} :
    {A : Type ℓ} (P : A → Type κ) (b : Bool) {x y : A} → P x → P y → P (if b then x else y)
either_way P true p q = p
either_way P false p q = q

add_key-IsConsistent :
    (mac : Bool) (k : String) (d : KeyPressDecl)
    → IsConsistent mac d.mods
    → IsConsistent mac ((add_key mac k d).mods)
unfolding add_key
add_key-IsConsistent mac k d h =
    let P = (λ (e : KeyPressDecl). IsConsistent mac e.mods) in
    either_way P (k === "Cmd") (with_cmd-IsConsistent mac d.mods h) (
      either_way P (k === "Shift") h (
        either_way P (k === "Ctrl") h (
          either_way P (k === "Option") (with_option-IsConsistent mac d.mods h) (
            either_way P (k === "Alt") (with_alt-IsConsistent mac d.mods h) (
              either_way P (k === "Meta") (with_meta-IsConsistent mac d.mods h)
                (with_key-IsConsistent mac k (parse_key k) d h))))))

add_keys-IsConsistent :
    (mac : Bool) (ks : List String) (d : KeyPressDecl)
    → IsConsistent mac d.mods
    → IsConsistent mac ((add_keys mac ks d).mods)
add_keys-IsConsistent mac [] d h = h
add_keys-IsConsistent mac (k ∷ ks) d h =
    add_keys-IsConsistent mac ks (add_key mac k d) (add_key-IsConsistent mac k d h)

-- Whatever a description says, its modifiers agree with each other as the platform has it: on macOS
-- Cmd goes with Meta and Option with Alt, elsewhere Cmd goes with Alt and Option with Meta.
pub parse_key_description-IsConsistent :
    (mac : Bool) (desc : String) → IsConsistent mac ((parse_key_description mac desc).mods)
unfolding parse_key_description
parse_key_description-IsConsistent mac desc =
    add_keys-IsConsistent mac (split_on 58 (without_parens desc)) _ (none_consistent mac)
  where
    none_consistent : (mac : Bool) → IsConsistent mac no_mods
    none_consistent true = (refl, refl)
    none_consistent false = (refl, refl)

-- The four modifiers that differ between platforms, told apart by Meta and Alt alone.
abbrev pub fits : Mods → NativeKeyEvent → Bool
fits m e =
    not (not_mod m.alt_mod e.alt_key)
    && not (not_mod m.meta_mod e.meta_key)
    && not (not_mod m.shift_mod e.shift_key)
    && not (not_mod m.ctrl_mod e.ctrl_key)

-- The tests in the order of the code come to four tests, if the modifiers are consistent.
modifiers_match :
    (mac cmd option shift control alt meta : Bool) (ctrl_key shift_key alt_key meta_key rest : Bool)
    → cmd ≡ (if mac then meta else alt)
    → option ≡ (if mac then alt else meta)
    → (if not_mod option (if mac then alt_key else meta_key)
        then false
        else if not_mod cmd (if mac then meta_key else alt_key)
        then false
        else if not_mod shift shift_key
        then false
        else if not_mod control ctrl_key
        then false
        else if not_mod alt alt_key
        then false
        else if not_mod meta meta_key
        then false
        else rest)
      ≡ ((not (not_mod alt alt_key)
            && not (not_mod meta meta_key)
            && not (not_mod shift shift_key)
            && not (not_mod control ctrl_key))
          && rest)
modifiers_match true cmd option shift control alt meta ck sk ak mk rest h h' =
    rw (h, h') (ground arith)
modifiers_match false cmd option shift control alt meta ck sk ak mk rest h h' =
    rw (h, h') (ground arith)

-- An event of the browser matches a description exactly if its own four modifier keys are those of the
-- description and the compared keys are the same: Cmd and Option rule nothing out.
pub check_key_pressed-adapt_from_react_or_native_key_event :
    (mac : Bool) (lower : String → String) (e : NativeKeyEvent) (desc : String)
    → check_key_pressed mac lower (adapt_from_react_or_native_key_event mac e) desc ≡ (
        fits ((parse_key_description mac desc).mods) e
        && is_same (
            compared_keys lower
              (adapt_from_react_or_native_key_event mac e)
              (parse_key_description mac desc)))
unfolding check_key_pressed adapt_from_react_or_native_key_event
check_key_pressed-adapt_from_react_or_native_key_event mac lower e desc =
    let m = (parse_key_description mac desc).mods in
    let (same_cmd, same_option) = parse_key_description-IsConsistent mac desc in
    modifiers_match mac m.cmd_mod m.option_mod m.shift_mod m.ctrl_mod m.alt_mod m.meta_mod
      e.ctrl_key e.shift_key e.alt_key e.meta_key _ same_cmd same_option
