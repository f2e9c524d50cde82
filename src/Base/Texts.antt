-- ===== src/Base/Texts.antt =====
-- Texts taken apart and put together at a separator, and tests on single characters.
use Prim.Native.Nat.{ℕ}
use Prim.Native.Char.{Char, code}
use Prim.Native.String.{String}
use mathlib.Core.Bool.{Bool, false, ◌&&◌}
use mathlib.Core.List.{List, [], ◌∷◌}
use starterm.Base.Tests.{if◌then◌else◌, nat_eq, leb, ltb}

abbrev pub onto_first : Char → List String → List String
onto_first c [] = (String.◌∷◌ c String.[]) ∷ []
onto_first c (s ∷ ss) = (String.◌∷◌ c s) ∷ ss

-- s.split(sep), for the code of a character.
unfoldable pub split_on : ℕ → String → List String
split_on sep String.[] = String.[] ∷ []
split_on sep (String.◌∷◌ c s) =
    let rest = split_on sep s in if nat_eq (code c) sep then String.[] ∷ rest else onto_first c rest

abbrev pub concat : String → String → String
concat String.[] t = t
concat (String.◌∷◌ c s) t = String.◌∷◌ c (concat s t)

-- ss.join(sep)
abbrev pub join_with : String → List String → String
join_with sep [] = ""
join_with sep (s ∷ []) = s
join_with sep (s ∷ t ∷ ts) = concat s (concat sep (join_with sep (t ∷ ts)))

-- s.length == 1, which counts UTF-16 units.
abbrev pub is_single : String → Bool
is_single String.[] = false
is_single (String.◌∷◌ c String.[]) = ltb (code c) 65536
is_single (String.◌∷◌ c (String.◌∷◌ d s)) = false

abbrev pub first_code : String → ℕ
first_code String.[] = 0
first_code (String.◌∷◌ c s) = code c

-- A single letter from A to Z.
abbrev pub is_upper_letter : String → Bool
is_upper_letter s = is_single s && leb 65 (first_code s) && leb (first_code s) 90
