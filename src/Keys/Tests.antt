-- ===== src/Keys/Tests.antt =====
-- Concrete descriptions and key events, and the theorems about modifiers applied to them.
use starterm.Base.{String, true, false, [], ◌∷◌, ◌&&◌, ◌≡◌, refl}
use starterm.Keys.{
  NativeKeyEvent, adapt_from_react_or_native_key_event, check_key_pressed, parse_key_description,
  star_event_to_key_desc, compared_keys, is_same,
}
use starterm.Keys.Ascii.{keyboard_event_to_ascii}
use starterm.Keys.Modifiers.{
  IsConsistent, fits, parse_key_description-IsConsistent,
  check_key_pressed-adapt_from_react_or_native_key_event,
}

abbrev cmd_e : NativeKeyEvent
cmd_e = record {
  event_type = "keydown";
  pressed_key = "e";
  pressed_code = "KeyE";
  ctrl_key = false;
  shift_key = false;
  meta_key = true;
  alt_key = false;
  repeated = false;
  at_location = 0;
}

abbrev same_text : String → String
same_text s = s

matches_test :
    check_key_pressed true same_text (adapt_from_react_or_native_key_event true cmd_e) "Cmd:e"
    ≡ true
unfolding check_key_pressed adapt_from_react_or_native_key_event
matches_test = refl

code_test : (parse_key_description false "Ctrl:Shift:c{Digit1}").desc_key ≡ "Digit1"
unfolding parse_key_description
code_test = refl

desc_test : star_event_to_key_desc (adapt_from_react_or_native_key_event true cmd_e) ≡ "Cmd:Meta:e"
unfolding star_event_to_key_desc adapt_from_react_or_native_key_event
desc_test = refl

parse_key_description-IsConsistent_example :
    IsConsistent true ((parse_key_description true "Cmd:e").mods)
parse_key_description-IsConsistent_example = parse_key_description-IsConsistent true "Cmd:e"

check_key_pressed-adapt_from_react_or_native_key_event_example :
    check_key_pressed true same_text (adapt_from_react_or_native_key_event true cmd_e) "Cmd:e" ≡ (
      fits ((parse_key_description true "Cmd:e").mods) cmd_e
      && is_same (
          compared_keys same_text
            (adapt_from_react_or_native_key_event true cmd_e)
            (parse_key_description true "Cmd:e")))
check_key_pressed-adapt_from_react_or_native_key_event_example =
    check_key_pressed-adapt_from_react_or_native_key_event true same_text cmd_e "Cmd:e"

abbrev ctrl_c : NativeKeyEvent
ctrl_c = record {
  event_type = "keydown";
  pressed_key = "c";
  pressed_code = "KeyC";
  ctrl_key = true;
  shift_key = false;
  meta_key = false;
  alt_key = false;
  repeated = false;
  at_location = 0;
}

ascii_test : keyboard_event_to_ascii (adapt_from_react_or_native_key_event true ctrl_c) ≡ 3 ∷ []
unfolding keyboard_event_to_ascii adapt_from_react_or_native_key_event
ascii_test = refl
