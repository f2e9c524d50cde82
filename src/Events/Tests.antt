-- ===== src/Events/Tests.antt =====
-- Concrete subscriptions and events, and the theorem about unsubscribing applied to one.
use starterm.Base.{ℕ, String, none, some, true, false, List, [], ◌∷◌, ◌≡◌, refl}
use starterm.Base.Maps.{get, set}
use starterm.Events.{
  StarEvent, make_star_re_sub_command, Subjects, StarEventSubscription, eventsub,
  star_event_subscribe, star_event_unsubscribe, handle_star_event, collect,
}
use starterm.Base.Texts.{split_on}
use starterm.Events.Server.{scope_has_star, asked_in, star_match_string, asks_for}
use starterm.Events.Restored.{HasNoEmpty, IsFresh, star_event_unsubscribe-star_event_subscribe}

abbrev uuid : ℕ → String
uuid n = "u"

-- One subject of the whole of "config", and one of "controller" for a block.
abbrev wanted : List StarEventSubscription
wanted =
    record { callback = some 1; only = none; event_type = "config" }
    ∷ record { callback = some 2; only = some "block:b"; event_type = "controller" }
    ∷ []

abbrev both : Subjects
both =
    ("config", record { id = "u"; handler = 1; scope = none } ∷ [])
    ∷ ("controller", record { id = "u"; handler = 2; scope = some "block:b" } ∷ [])
    ∷ []

subscribe_test : star_event_subscribe uuid wanted [] ≡ (
  both,
  eventsub (record { asked = "config"; listed = []; allscopes = true })
      ∷ eventsub (record { asked = "controller"; listed = "block:b" ∷ []; allscopes = false })
      ∷ [],
  some (
      record { subject_id = "u"; from = "config" }
      ∷ record { subject_id = "u"; from = "controller" }
      ∷ []),
)
unfolding star_event_subscribe get set collect
subscribe_test = refl

scope_test :
    handle_star_event both (record { event = "controller"; scopes = some ("block:b" ∷ []) })
    ≡ 2 ∷ []
unfolding handle_star_event get
scope_test = refl

empty : HasNoEmpty []
unfolding get
empty t = refl

fresh : IsFresh uuid []
unfolding get
fresh t n = tt

star_event_unsubscribe-star_event_subscribe_example :
    get "config" (
      (star_event_unsubscribe
        (record { subject_id = "u"; from = "config" }
          ∷ record { subject_id = "u"; from = "controller" }
          ∷ [])
        both).0)
    ≡ get "config" []
star_event_unsubscribe-star_event_subscribe_example =
    star_event_unsubscribe-star_event_subscribe uuid wanted [] empty fresh subscribe_test "config"

-- A pattern: the server sends the events of all blocks, but no handler is called.
abbrev of_all_blocks : Subjects
of_all_blocks = ("controller", record { id = "u"; handler = 2; scope = some "block:*" } ∷ []) ∷ []

pattern_test :
    let e : StarEvent = record { event = "controller"; scopes = some ("block:b" ∷ []) } in
    (asks_for (make_star_re_sub_command of_all_blocks "controller") e ≡ true)
    × (handle_star_event of_all_blocks e ≡ [])
unfolding make_star_re_sub_command handle_star_event collect get asked_in scope_has_star
    star_match_string split_on
pattern_test = (refl, refl)

two_stars_test : star_match_string "a:**" "a:b:c" ≡ true
unfolding star_match_string split_on
two_stars_test = refl
