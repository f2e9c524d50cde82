-- ===== src/Window/Tests.antt =====
-- A concrete window with its events, and the theorems about the queue applied to it.
use starterm.Base.{none, some, true, false, [], ◌∷◌, ◌≡◌, refl, arith}
use starterm.Window.{
  switchtab, createtab, closetab, idle, asking, placing, creating, Window, process_action_queue,
  closed, queued, replied, view_ready, placed, step, steps, all_queued,
}
use starterm.Window.Turns.{IsServed, step-IsServed}
use starterm.Window.Placed.{steps-placed}
use starterm.Window.Stuck.{IsStuck, steps-replied}

abbrev quiet : Window
quiet = record {
  action_queue = [];
  phase = idle;
  workspace_id = "ws";
  active_tab_view = some "a";
  all_loaded_tab_views = "a" ∷ [];
  is_destroyed = false;
}

-- A switch to a tab that is created and shown, and another queued behind it.
run_test :
    steps quiet
      (queued (switchtab "b" false) ∷ queued (switchtab "c" false) ∷ view_ready false ∷ placed ∷ [])
    ≡ record quiet {
      action_queue = switchtab "c" false ∷ [];
      phase = creating "c";
      active_tab_view = some "b";
      all_loaded_tab_views = "a" ∷ "b" ∷ [];
    }
unfolding steps
run_test = refl

abbrev closing : Window
closing = record quiet { action_queue = closetab "a" ∷ createtab false ∷ []; phase = asking }

abbrev showing : Window
showing = record quiet { action_queue = switchtab "b" false ∷ []; phase = placing }

step-IsServed_example : IsServed (step closing (queued (switchtab "d" false))).0
step-IsServed_example = step-IsServed closing (queued (switchtab "d" false)) refl (omega arith, tt)

steps-placed_example :
    (step (steps showing (all_queued (createtab true ∷ switchtab "c" false ∷ []))) placed).0
    ≡ (process_action_queue showing (switchtab "c" false ∷ [])).0
steps-placed_example =
    steps-placed showing (switchtab "b" false) [] (createtab true ∷ []) (switchtab "c" false) refl
      refl (omega arith)

steps-replied_example :
    IsStuck
      (createtab false)
      (steps closing (replied (closed none) ∷ queued (switchtab "d" false) ∷ placed ∷ []))
steps-replied_example =
    steps-replied closing (closetab "a") (createtab false) [] (closed none)
      (queued (switchtab "d" false) ∷ placed ∷ []) refl refl refl
