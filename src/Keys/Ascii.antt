-- ===== src/Keys/Ascii.antt =====
-- keyboardEventToASCII of frontend/util/keyutil.ts: what a key sends to a terminal, as the codes of
-- its characters.
use Prim.Native.Char.{code}
use Prim.Native.String.{String}
use starterm.Base.{
  ℕ, ◌-◌, ◌≤◌, Option, none, some, Bool, true, false, not, ◌&&◌, ◌||◌, ◌===◌, List, [], ◌∷◌,
  if◌then◌else◌, leb, ltb, ◌≡◌, refl, arith, Bool-cases, inl, inr, sym, eq_iff,
}
use mathlib.Core.Path.{subst}
use starterm.Base.Texts.{is_single, first_code}
use starterm.Keys.{StarKeyboardEvent}

abbrev pub codes : String → List ℕ
codes String.[] = []
codes (String.◌∷◌ c s) = code c ∷ codes s

-- keyMap; 27 is the escape character.
abbrev pub key_map : List (String × List ℕ)
key_map =
    ("Enter", 13 ∷ [])
    ∷ ("Backspace", 127 ∷ [])
    ∷ ("Tab", 9 ∷ [])
    ∷ ("Escape", 27 ∷ [])
    ∷ ("ArrowUp", 27 ∷ codes "[A")
    ∷ ("ArrowDown", 27 ∷ codes "[B")
    ∷ ("ArrowRight", 27 ∷ codes "[C")
    ∷ ("ArrowLeft", 27 ∷ codes "[D")
    ∷ ("Insert", 27 ∷ codes "[2~")
    ∷ ("Delete", 27 ∷ codes "[3~")
    ∷ ("Home", 27 ∷ codes "[1~")
    ∷ ("End", 27 ∷ codes "[4~")
    ∷ ("PageUp", 27 ∷ codes "[5~")
    ∷ ("PageDown", 27 ∷ codes "[6~")
    ∷ []

unfoldable pub sequence_of : String → List (String × List ℕ) → Option (List ℕ)
sequence_of k [] = none
sequence_of k ((j, s) ∷ m) = if j === k then some s else sequence_of k m

-- The two tests for a letter: the second one has no test of the length, so that only the first
-- character of the key counts, but for texts that begin with z.
abbrev pub is_capital : String → Bool
is_capital k = is_single k && (leb 65 (first_code k) && leb (first_code k) 90)

abbrev pub is_small : String → Bool
is_small k = leb 97 (first_code k) && (ltb (first_code k) 122 || (k === "z"))

-- The first code of key.toUpperCase(), for a key that passes one of the tests.
abbrev pub upper_code : String → ℕ
upper_code k = if leb 97 (first_code k) then first_code k - 32 else first_code k

abbrev pub control_code : StarKeyboardEvent → List ℕ
control_code e =
    if e.control
    then if is_capital e.key || is_small e.key then (upper_code e.key - 64) ∷ [] else []
    else []

abbrev pub unless_meta : StarKeyboardEvent → List ℕ
unless_meta e = if e.meta || e.alt then [] else control_code e

unfoldable pub keyboard_event_to_ascii : StarKeyboardEvent → List ℕ
unfolding sequence_of
keyboard_event_to_ascii e =
    if not e.alt && (not e.control && not e.meta)
    then if e.key === "" then [] else elim (sequence_of e.key key_map) [
      | some s ↦ s
      | none ↦ if is_single e.key then codes e.key else unless_meta e
    ]
    else unless_meta e

-- At most one code, of a control character that stands for a letter.
abbrev pub IsControl : List ℕ → Type 0
IsControl [] = Unit {0}
IsControl (c ∷ []) = (1 ≤ c) × (c ≤ 26)
IsControl (c ∷ d ∷ cs) = ⊥

control_bounds :
    (k : String)
    → (is_capital k || is_small k) ≡ true
    → (1 ≤ upper_code k - 64) × (upper_code k - 64 ≤ 26)
control_bounds k h = elim (Bool-cases (k === "z")) [
  | inl is_z ↦
      subst (λ t. (1 ≤ upper_code t - 64) × (upper_code t - 64 ≤ 26)) (sym ((eq_iff k "z").0 is_z))
        (omega arith, omega arith)
  | inr other ↦ (ground arith, ground arith)
]

control_only : (b c : Bool) → (not b && (not true && c)) ≡ false
control_only true c = refl
control_only false c = refl

-- With the control key an event sends nothing, or the one code from 1 to 26 of a letter.
pub keyboard_event_to_ascii-IsControl :
    (e : StarKeyboardEvent) → e.control ≡ true → IsControl (keyboard_event_to_ascii e)
unfolding keyboard_event_to_ascii
keyboard_event_to_ascii-IsControl e h =
    rw (h, control_only e.alt (not e.meta))
      (elim (Bool-cases (e.meta || e.alt)) [
        | inl meta ↦ rw meta tt
        | inr plain ↦ elim (Bool-cases (is_capital e.key || is_small e.key)) [
          | inl letter ↦ rw (plain, letter) (control_bounds e.key letter)
          | inr other ↦ rw (plain, other) tt
        ]
      ])
