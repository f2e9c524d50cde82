-- ===== src/Events/Server.antt =====
-- pkg/wps/wps.go and pkg/util/utilfn/utilfn.go: how the server matches the scopes that were asked for
-- with those of an event.
use starterm.Base.{
  String, Bool, true, false, not, ◌&&◌, ◌||◌, ◌===◌, List, [], ◌∷◌, if◌then◌else◌, get_or, ◌≡◌, ap,
}
use starterm.Base.Texts.{split_on}
use starterm.Events.{StarEvent, SubCommand, eventsub, eventunsub, in_scopes}

abbrev has_star_part : List String → Bool
has_star_part [] = false
has_star_part (p ∷ ps) = (p === "*" || p === "**") || has_star_part ps

-- scopeHasStarMatch
unfoldable pub scope_has_star : String → Bool
unfolding split_on
scope_has_star s = has_star_part (split_on 58 s)

abbrev is_last : List String → Bool
is_last [] = true
is_last (p ∷ ps) = false

-- The loop over the parts of a pattern and of a text.
unfoldable match_parts : List String → List String → Bool
match_parts [] [] = true
match_parts [] (s ∷ ss) = false
match_parts (p ∷ ps) [] = if p === "**" then is_last ps else false
match_parts (p ∷ ps) (s ∷ ss) =
    let rest = match_parts ps ss in
    if p === "**" then is_last ps else if not (p === "*") && not (p === s) then false else rest

-- StarMatchString, with ":"
unfoldable pub star_match_string : String → String → Bool
unfolding match_parts split_on
star_match_string pattern s = match_parts (split_on 58 pattern) (split_on 58 s)

abbrev is_some_matched : String → List String → Bool
is_some_matched pattern [] = false
is_some_matched pattern (s ∷ ss) = star_match_string pattern s || is_some_matched pattern ss

-- A scope that was asked for: a pattern where it has a star, and else one of the event's scopes.
unfoldable pub asked_in : StarEvent → String → Bool
unfolding scope_has_star star_match_string
asked_in e s =
    if scope_has_star s then is_some_matched s (get_or e.scopes []) else in_scopes e.scopes s

pub asked_in-plain :
    (e : StarEvent) (s : String) → scope_has_star s ≡ false → asked_in e s ≡ in_scopes e.scopes s
unfolding asked_in
asked_in-plain e s h =
    ap (λ (b : Bool). if b then is_some_matched s (get_or e.scopes []) else in_scopes e.scopes s) h

abbrev pub is_listed : StarEvent → List String → Bool
is_listed e [] = false
is_listed e (s ∷ ss) = asked_in e s || is_listed e ss

-- Whether getMatchingRouteIds finds the one who has sent the command.
abbrev pub asks_for : SubCommand → StarEvent → Bool
asks_for (eventunsub t) e = false
asks_for (eventsub r) e = (r.asked === e.event) && (r.allscopes || is_listed e r.listed)
