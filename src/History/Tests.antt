-- ===== src/History/Tests.antt =====
-- Concrete paths and moves, and the theorems about the history applied to them.
use starterm.Base.{◌≤◌, none, some, true, false, List, [], ◌∷◌, ◌≡◌, refl, arith}
use starterm.History.{
  url, file, get_parent_directory, go_history_back, go_history_forward, go_history,
}
use starterm.History.Bounds.{
  View, Navigation, back, forward, visit, navigate, navigate_all, size, size-navigate_all,
}
use starterm.History.Return.{navigate-back}

parent_test : get_parent_directory "/home/me" ≡ "/home"
unfolding get_parent_directory
parent_test = refl

top_test : get_parent_directory "/home" ≡ "/"
unfolding get_parent_directory
top_test = refl

-- A blank path is not caught by the first test of the code, and gives a blank path.
blank_test : get_parent_directory "" ≡ ""
unfolding get_parent_directory
blank_test = refl

abbrev home : View
home = record { shown = "/home"; meta = record { history = none; history_forward = none } }

abbrev moves : List Navigation
moves = visit "/home/me" ∷ back true ∷ back true ∷ forward ∷ []

moves_test : navigate_all file moves home ≡ record {
  shown = "/home";
  meta = record { history = some ("/" ∷ []); history_forward = some ("/home/me" ∷ []) };
}
unfolding go_history_back go_history_forward go_history get_parent_directory
moves_test = refl

size-navigate_all_example : size (navigate_all file moves home) ≤ 20
size-navigate_all_example = size-navigate_all file moves home (omega arith)

navigate-back_example :
    navigate url forward (
      navigate url (back false) (record {
        shown = "b";
        meta = record { history = some ("a" ∷ []); history_forward = none };
      }))
    ≡ record { shown = "b"; meta = record { history = some ("a" ∷ []); history_forward = some [] } }
navigate-back_example = navigate-back url "b" "a" [] none false (omega arith)
