-- ===== src/Keys.antt =====
-- frontend/util/keyutil.ts: descriptions of keys, and the events that they match.
--
-- PLATFORM is the argument `mac`, true on macOS. Texts have no line breaks.
pub mod Modifiers
pub mod Ascii
mod Tests
use Prim.Native.Char.{Char, code}
use Prim.Native.String.{String}
use starterm.Base.{
  ℕ, Option, none, some, Bool, true, false, not, ◌&&◌, ◌||◌, ◌===◌, List, [], ◌∷◌, ◌++◌,
  if◌then◌else◌, nat_eq, leb,
}
use starterm.Base.Texts.{split_on, concat, join_with, is_single, first_code, is_upper_letter}

pub record StarKeyboardEvent : Type 0 where
  pub kind : String
  pub key : String
  pub key_code : String
  pub control : Bool
  pub shift : Bool
  pub cmd : Bool
  pub option : Bool
  pub meta : Bool
  pub alt : Bool
  pub is_repeat : Bool
  pub location : ℕ

abbrev pub token : Bool → String → List String
token true s = s ∷ []
token false s = []

abbrev pub key_token : String → String → String
key_token k c = if k === "" then concat "c{" (concat c "}") else if k === " " then "Space" else k

unfoldable pub star_event_to_key_desc : StarKeyboardEvent → String
star_event_to_key_desc e = join_with ":" (
    token e.cmd "Cmd"
    ++ token e.option "Option"
    ++ token e.meta "Meta"
    ++ token e.control "Ctrl"
    ++ token e.shift "Shift"
    ++ key_token e.key e.key_code ∷ [])

pub data KeyType : Type 0 where
  unset by_key by_code : KeyType

-- KeyPressDecl, with its mods.
pub record Mods : Type 0 where
  pub cmd_mod : Bool
  pub option_mod : Bool
  pub shift_mod : Bool
  pub ctrl_mod : Bool
  pub alt_mod : Bool
  pub meta_mod : Bool

pub record KeyPressDecl : Type 0 where
  pub desc_key : String
  pub key_type : KeyType
  pub mods : Mods

-- The match of c{(.*)}: from the first c{ to the last }.
abbrev pub before_last_brace : String → Option String
before_last_brace String.[] = none
before_last_brace (String.◌∷◌ c s) = elim (before_last_brace s) [
  | some t ↦ some (String.◌∷◌ c t)
  | none ↦ if nat_eq (code c) 125 then some String.[] else none
]

unfoldable pub match_code : String → Option String
match_code String.[] = none
match_code (String.◌∷◌ c String.[]) = none
match_code (String.◌∷◌ c (String.◌∷◌ d s)) =
    let later = match_code (String.◌∷◌ d s) in
    if nat_eq (code c) 99 && nat_eq (code d) 123
    then elim (before_last_brace s) [ some t ↦ some t | none ↦ later ]
    else later

unfoldable pub parse_key : String → String × KeyType
unfolding match_code
parse_key k = elim (match_code k) [ some c ↦ (c, by_code) | none ↦ (k, by_key) ]

abbrev pub no_mods : Mods
no_mods = record {
  cmd_mod = false;
  option_mod = false;
  shift_mod = false;
  ctrl_mod = false;
  alt_mod = false;
  meta_mod = false;
}

-- Each modifier of a description, with the one that it is on the platform.
abbrev pub with_cmd : Bool → Mods → Mods
with_cmd mac m = record {
  cmd_mod = true;
  option_mod = m.option_mod;
  shift_mod = m.shift_mod;
  ctrl_mod = m.ctrl_mod;
  alt_mod = not mac || m.alt_mod;
  meta_mod = mac || m.meta_mod;
}

abbrev pub with_shift : Mods → Mods
with_shift m = record {
  cmd_mod = m.cmd_mod;
  option_mod = m.option_mod;
  shift_mod = true;
  ctrl_mod = m.ctrl_mod;
  alt_mod = m.alt_mod;
  meta_mod = m.meta_mod;
}

abbrev pub with_ctrl : Mods → Mods
with_ctrl m = record {
  cmd_mod = m.cmd_mod;
  option_mod = m.option_mod;
  shift_mod = m.shift_mod;
  ctrl_mod = true;
  alt_mod = m.alt_mod;
  meta_mod = m.meta_mod;
}

abbrev pub with_option : Bool → Mods → Mods
with_option mac m = record {
  cmd_mod = m.cmd_mod;
  option_mod = true;
  shift_mod = m.shift_mod;
  ctrl_mod = m.ctrl_mod;
  alt_mod = mac || m.alt_mod;
  meta_mod = not mac || m.meta_mod;
}

abbrev pub with_alt : Bool → Mods → Mods
with_alt mac m = record {
  cmd_mod = not mac || m.cmd_mod;
  option_mod = mac || m.option_mod;
  shift_mod = m.shift_mod;
  ctrl_mod = m.ctrl_mod;
  alt_mod = true;
  meta_mod = m.meta_mod;
}

abbrev pub with_meta : Bool → Mods → Mods
with_meta mac m = record {
  cmd_mod = mac || m.cmd_mod;
  option_mod = not mac || m.option_mod;
  shift_mod = m.shift_mod;
  ctrl_mod = m.ctrl_mod;
  alt_mod = m.alt_mod;
  meta_mod = true;
}

abbrev pub with_mods : KeyPressDecl → Mods → KeyPressDecl
with_mods d m = record { desc_key = d.desc_key; key_type = d.key_type; mods = m }

-- The last branch: the key itself, where a single capital letter implies the shift key.
abbrev pub is_by_key : KeyType → Bool
is_by_key by_key = true
is_by_key _ = false

abbrev pub with_key : String → String × KeyType → KeyPressDecl → KeyPressDecl
with_key k (parsed, t) d =
    if is_by_key t && is_single k
    then if is_upper_letter k
      then record { desc_key = parsed; key_type = t; mods = with_shift d.mods }
      else if k === " "
      then record { desc_key = "Space"; key_type = t; mods = d.mods }
      else record { desc_key = parsed; key_type = t; mods = d.mods }
    else record { desc_key = parsed; key_type = t; mods = d.mods }

unfoldable pub add_key : Bool → String → KeyPressDecl → KeyPressDecl
unfolding parse_key
add_key mac k d =
    if k === "Cmd"
    then with_mods d (with_cmd mac d.mods)
    else if k === "Shift"
    then with_mods d (with_shift d.mods)
    else if k === "Ctrl"
    then with_mods d (with_ctrl d.mods)
    else if k === "Option"
    then with_mods d (with_option mac d.mods)
    else if k === "Alt"
    then with_mods d (with_alt mac d.mods)
    else if k === "Meta"
    then with_mods d (with_meta mac d.mods)
    else with_key k (parse_key k) d

abbrev pub add_keys : Bool → List String → KeyPressDecl → KeyPressDecl
add_keys mac [] d = d
add_keys mac (k ∷ ks) d = add_keys mac ks (add_key mac k d)

-- replace(/[()]/g, "")
abbrev pub without_parens : String → String
without_parens String.[] = String.[]
without_parens (String.◌∷◌ c s) =
    let rest = without_parens s in
    if nat_eq (code c) 40 || nat_eq (code c) 41 then rest else String.◌∷◌ c rest

unfoldable pub parse_key_description : Bool → String → KeyPressDecl
unfolding add_key split_on
parse_key_description mac desc =
    add_keys mac (split_on 58 (without_parens desc))
      (record { desc_key = ""; key_type = unset; mods = no_mods })

abbrev pub not_mod : Bool → Bool → Bool
not_mod pressed wanted = (pressed && not wanted) || (wanted && not pressed)

-- The key of the description and of the event, as they are compared in the end; `lower` is
-- toLocaleLowerCase.
abbrev pub compared_keys : (String → String) → StarKeyboardEvent → KeyPressDecl → String × String
compared_keys lower e d = elim d.key_type [
  | unset ↦ (d.desc_key, "")
  | by_code ↦ (d.desc_key, e.key_code)
  | by_key ↦
      if is_upper_letter e.key
      then (lower d.desc_key, lower e.key)
      else if e.key === " "
      then (d.desc_key, "Space")
      else (d.desc_key, e.key)
]

abbrev pub is_same : String × String → Bool
is_same (s, t) = s === t

unfoldable pub check_key_pressed : Bool → (String → String) → StarKeyboardEvent → String → Bool
unfolding parse_key_description
check_key_pressed mac lower e desc =
    let d = parse_key_description mac desc in
    if not_mod d.mods.option_mod e.option
    then false
    else if not_mod d.mods.cmd_mod e.cmd
    then false
    else if not_mod d.mods.shift_mod e.shift
    then false
    else if not_mod d.mods.ctrl_mod e.control
    then false
    else if not_mod d.mods.alt_mod e.alt
    then false
    else if not_mod d.mods.meta_mod e.meta
    then false
    else is_same (compared_keys lower e d)

-- The events of the browser and of Electron.
pub record NativeKeyEvent : Type 0 where
  pub event_type : String
  pub pressed_key : String
  pub pressed_code : String
  pub ctrl_key : Bool
  pub shift_key : Bool
  pub meta_key : Bool
  pub alt_key : Bool
  pub repeated : Bool
  pub at_location : ℕ

unfoldable pub adapt_from_react_or_native_key_event : Bool → NativeKeyEvent → StarKeyboardEvent
adapt_from_react_or_native_key_event mac e = record {
  kind =
      if (e.event_type === "keydown") || (e.event_type === "keyup") || (e.event_type === "keypress")
      then e.event_type
      else "unknown";
  key = e.pressed_key;
  key_code = e.pressed_code;
  control = e.ctrl_key;
  shift = e.shift_key;
  cmd = if mac then e.meta_key else e.alt_key;
  option = if mac then e.alt_key else e.meta_key;
  meta = e.meta_key;
  alt = e.alt_key;
  is_repeat = e.repeated;
  location = e.at_location;
}

unfoldable pub adapt_from_electron_key_event : Bool → NativeKeyEvent → StarKeyboardEvent
adapt_from_electron_key_event mac e = record {
  kind =
      if e.event_type === "keyUp"
      then "keyup"
      else if e.event_type === "keyDown"
      then "keydown"
      else "unknown";
  key = e.pressed_key;
  key_code = e.pressed_code;
  control = e.ctrl_key;
  shift = e.shift_key;
  cmd = if mac then e.meta_key else e.alt_key;
  option = if mac then e.alt_key else e.meta_key;
  meta = e.meta_key;
  alt = e.alt_key;
  is_repeat = e.repeated;
  location = e.at_location;
}
