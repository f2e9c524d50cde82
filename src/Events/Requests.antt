-- ===== src/Events/Requests.antt =====
-- The request for an event type fits the subjects that wait for it.
use starterm.Base.{ℕ, String, Bool, true, false, ◌||◌, List, [], ◌∷◌, text_of, ◌≡◌}
use starterm.Events.{StarEvent, Subject}
use starterm.Events.Server.{scope_has_star, is_listed}

abbrev pub is_some_called : List ℕ → Bool
is_some_called [] = false
is_some_called (f ∷ fs) = true

-- A subject whose scope is no pattern.
abbrev pub HasNoStar : Subject → Type 0
HasNoStar s = scope_has_star (text_of s.scope) ≡ false

fits : StarEvent → Bool × List String → Bool
fits e (all, scopes) = all || is_listed e scopes
