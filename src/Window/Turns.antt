-- ===== src/Window/Turns.antt =====
-- The turns of the entries of a window's queue.
use starterm.Base.{
  ◌≤◌, String, Option, none, some, Bool, true, false, not, List, [], ◌∷◌, if◌then◌else◌, is_blank,
  ◌≡◌, refl, sym, arith, ◌&&◌, if_both, is_defined,
}
use mathlib.Core.Path.{subst}
use starterm.Base.Lists.{length}
use starterm.Window.{
  Entry, switchtab, createtab, closetab, switchworkspace, Effect, Phase, idle, asking, placing,
  creating, Window, start, waiting, process_action_queue, tail, finish, queue_action, queue_behind,
  CloseTabRtn, Reply, created, active_set, closed, switched, create_view_of, close_reply, reply_to,
  is_tab, has_view, set_tab_view_into_window, remove_tab_view, Event, queued, replied, view_ready,
  placed, failed, timer_removes, destroyed, when_asking, when_creating, when_placing, when_running,
  step, after_effects, remove_view_later,
}

-- The answers after which the code returns from the loop: there is no tab to show.
abbrev pub gives_no_tab : Entry → Reply → Bool
gives_no_tab (createtab pinned) (created none) = true
gives_no_tab (closetab t) (closed none) = true
gives_no_tab (closetab t) (closed (some r)) =
    if r.closewindow then true else is_blank r.newactivetabid
gives_no_tab (switchworkspace s) (switched none) = true
gives_no_tab (switchworkspace s) (switched (some none)) = true
gives_no_tab _ _ = false

-- A window whose queue is served: at most two entries, one of them in process where there is any,
-- unless the window is gone.
abbrev pub IsWaiting : Phase → List Entry → Bool → Type 0
IsWaiting idle [] d = Unit {0}
IsWaiting idle (e ∷ es) d = d ≡ true
IsWaiting asking [] d = ⊥
IsWaiting asking (e ∷ es) d = Unit {0}
IsWaiting placing [] d = ⊥
IsWaiting placing (e ∷ es) d = Unit {0}
IsWaiting (creating t) [] d = ⊥
IsWaiting (creating t) (e ∷ es) d = Unit {0}

abbrev pub IsServed : Window → Type 0
IsServed w = (length w.action_queue ≤ 2) × IsWaiting w.phase w.action_queue w.is_destroyed

-- The answer to what the window waits for, if it gives no tab.
abbrev pub ends_early : Window → Phase → List Entry → Event → Bool
ends_early w asking (e ∷ es) (replied r) = gives_no_tab e r
ends_early w _ _ _ = false

abbrev Waits : Phase → Type 0
Waits idle = ⊥
Waits _ = Unit {0}

Waits-at_head :
    (p : Phase) (e : Entry) (es : List Entry) (d : Bool) → Waits p → IsWaiting p (e ∷ es) d
Waits-at_head idle e es d h = absurd h
Waits-at_head asking e es d h = tt
Waits-at_head placing e es d h = tt
Waits-at_head (creating t) e es d h = tt

idle_when_gone : (es : List Entry) (d : Bool) → d ≡ true → IsWaiting idle es d
idle_when_gone [] d h = tt
idle_when_gone (e ∷ es) d h = h

abbrev Starts : Option (Phase × List Effect) → Type 0
Starts none = Unit {0}
Starts (some (p, fs)) = Waits p

start-Starts : (w : Window) (e : Entry) → Starts (start w e)
unfolding start
start-Starts w (createtab pinned) = tt
start-Starts w (switchtab t in_backend) =
    if_both Starts (is_tab w.active_tab_view t) (λ h. tt)
      (λ h. if_both Starts in_backend (λ h. tt) (λ h. tt))
start-Starts w (closetab t) = tt
start-Starts w (switchworkspace s) = tt

abbrev entry_turn :
    Window → List Entry → Entry → Option (Phase × List Effect) → Window × List Effect
entry_turn w es e o = elim o [
  | none ↦ process_action_queue w es
  | some (p, fs) ↦ (waiting w (e ∷ es) p, fs)
]

entry_turn-IsServed :
    (w : Window) (es : List Entry) (e : Entry) (o : Option (Phase × List Effect))
    → Starts o
    → length (e ∷ es) ≤ 2
    → IsServed (process_action_queue w es).0
    → IsServed (entry_turn w es e o).0
entry_turn-IsServed w es e none s h k = k
entry_turn-IsServed w es e (some (p, fs)) s h k = (h, Waits-at_head p e es w.is_destroyed s)

abbrev Served : Window × List Effect → Type 0
Served r = IsServed r.0

process_action_queue-IsServed :
    (w : Window) (es : List Entry) → length es ≤ 2 → IsServed (process_action_queue w es).0
unfolding process_action_queue
process_action_queue-IsServed w [] h = (h, tt)
process_action_queue-IsServed w (e ∷ es) h =
    if_both Served w.is_destroyed (λ gone. (omega arith, idle_when_gone es w.is_destroyed gone))
      (λ there.
        entry_turn-IsServed w es e (start w e) (start-Starts w e) h
          (process_action_queue-IsServed w es (omega arith)))

finish-IsServed : (w : Window) → length w.action_queue ≤ 2 → IsServed (finish w).0
finish-IsServed w h = process_action_queue-IsServed w (tail w.action_queue) (short w.action_queue h)
  where
    short : (es : List Entry) → length es ≤ 2 → length (tail es) ≤ 2
    short [] h = h
    short (e ∷ es) h = omega arith

abbrev Busy : List Entry → Type 0
Busy [] = ⊥
Busy (e ∷ es) = Unit {0}

busy : (p : Phase) (q : List Entry) (d : Bool) → Waits p → IsWaiting p q d → Busy q
busy idle q d h k = absurd h
busy asking [] d h k = k
busy asking (e ∷ es) d h k = tt
busy placing [] d h k = k
busy placing (e ∷ es) d h k = tt
busy (creating t) [] d h k = k
busy (creating t) (e ∷ es) d h k = tt

serves : (p : Phase) (q : List Entry) (d : Bool) → Waits p → Busy q → IsWaiting p q d
serves p [] d h k = absurd k
serves p (e ∷ es) d h k = Waits-at_head p e es d h

-- A window that is gone is served whatever it waits for.
gone_served : (p : Phase) (q : List Entry) (d : Bool) → IsWaiting p q d → IsWaiting p q true
gone_served idle [] d h = tt
gone_served idle (e ∷ es) d h = refl
gone_served asking [] d h = h
gone_served asking (e ∷ es) d h = tt
gone_served placing [] d h = h
gone_served placing (e ∷ es) d h = tt
gone_served (creating t) [] d h = h
gone_served (creating t) (e ∷ es) d h = tt

same_head :
    (p : Phase) (a : Entry) (es fs : List Entry) (d : Bool)
    → IsWaiting p (a ∷ es) d
    → IsWaiting p (a ∷ fs) d
same_head idle a es fs d h = h
same_head asking a es fs d h = h
same_head placing a es fs d h = h
same_head (creating t) a es fs d h = h

queue_action-IsServed :
    (w : Window) (e : Entry) (q : List Entry)
    → length q ≤ 2
    → IsWaiting w.phase q w.is_destroyed
    → IsServed (queue_behind w e q).0
queue_action-IsServed w e [] n h = process_action_queue-IsServed w (e ∷ []) (omega arith)
queue_action-IsServed w e (a ∷ []) n h =
    (omega arith, same_head w.phase a [] (e ∷ []) w.is_destroyed h)
queue_action-IsServed w e (a ∷ b ∷ es) n h =
    (n, same_head w.phase a (b ∷ es) (e ∷ es) w.is_destroyed h)

create_view_of-IsServed :
    (w : Window) (o : Option String)
    → length w.action_queue ≤ 2
    → Busy w.action_queue
    → is_defined o ≡ true
    → IsServed (create_view_of w o).0
create_view_of-IsServed w none n b d = cc
create_view_of-IsServed w (some t) n b d =
    (n, serves (creating t) w.action_queue w.is_destroyed tt b)

after_effects-IsServed :
    (fs : List Effect) (r : Window × List Effect) → Served r → Served (after_effects fs r)
after_effects-IsServed fs (w, gs) h = h

defined_of_not_blank : (o : Option String) → is_blank o ≡ false → is_defined o ≡ true
defined_of_not_blank none h = cc
defined_of_not_blank (some s) h = refl

close_reply-IsServed :
    (w : Window) (t : String) (r : CloseTabRtn)
    → (if r.closewindow then true else is_blank r.newactivetabid) ≡ false
    → IsServed w
    → Busy w.action_queue
    → Served (close_reply w t (some r))
close_reply-IsServed w t r g h b =
    if_both Served r.closewindow (λ c. absurd (true_ne_false (rw c at g)))
      (λ c.
        if_both Served (is_blank r.newactivetabid) (λ k. absurd (true_ne_false (rw (c, k) at g)))
          (λ k.
            after_effects-IsServed (remove_view_later t ∷ []) (create_view_of w r.newactivetabid) (
              create_view_of-IsServed w r.newactivetabid h.0 b
                (defined_of_not_blank r.newactivetabid k))))
  where
    true_ne_false : true ≡ false → ⊥
    true_ne_false e = cc

reply-IsServed :
    (w : Window) (e : Entry) (r : Reply)
    → gives_no_tab e r ≡ false
    → IsServed w
    → Busy w.action_queue
    → IsServed (reply_to w e r).0
reply-IsServed w (createtab p) (created none) g h b = cc
reply-IsServed w (createtab p) (created (some t)) g h b =
    create_view_of-IsServed w (some t) h.0 b refl
reply-IsServed w (createtab p) active_set g h b = h
reply-IsServed w (createtab p) (closed r) g h b = h
reply-IsServed w (createtab p) (switched r) g h b = h
reply-IsServed w (switchtab t i) (created o) g h b = h
reply-IsServed w (switchtab t i) active_set g h b = create_view_of-IsServed w (some t) h.0 b refl
reply-IsServed w (switchtab t i) (closed r) g h b = h
reply-IsServed w (switchtab t i) (switched r) g h b = h
reply-IsServed w (closetab t) (created o) g h b = h
reply-IsServed w (closetab t) active_set g h b = h
reply-IsServed w (closetab t) (closed none) g h b = cc
reply-IsServed w (closetab t) (closed (some r)) g h b = close_reply-IsServed w t r g h b
reply-IsServed w (closetab t) (switched r) g h b = h
reply-IsServed w (switchworkspace s) (created o) g h b = h
reply-IsServed w (switchworkspace s) active_set g h b = h
reply-IsServed w (switchworkspace s) (closed r) g h b = h
reply-IsServed w (switchworkspace s) (switched none) g h b = cc
reply-IsServed w (switchworkspace s) (switched (some none)) g h b = cc
reply-IsServed w (switchworkspace s) (switched (some (some t))) g h b =
    (h.0, serves (creating t) w.action_queue w.is_destroyed tt b)

set_tab_view_into_window-IsServed :
    (w : Window) (t : String) (initialized : Bool)
    → IsServed w
    → Busy w.action_queue
    → Served (set_tab_view_into_window w t initialized)
unfolding set_tab_view_into_window
set_tab_view_into_window-IsServed w t initialized h b =
    if_both Served (is_tab w.active_tab_view t) (λ e. finish-IsServed w h.0)
      (λ e. (h.0, serves placing w.action_queue w.is_destroyed tt b))

remove_tab_view-IsServed :
    (w : Window) (t : String) (force : Bool) → IsServed w → Served (remove_tab_view w t force)
unfolding remove_tab_view
remove_tab_view-IsServed w t force h =
    if_both Served (not force && is_tab w.active_tab_view t) (λ e. h)
      (λ e. if_both Served (has_view t w.all_loaded_tab_views) (λ f. h) (λ f. h))

when_asking-IsServed :
    (w : Window) (r : Reply) (p : Phase) (q : List Entry)
    → w.phase ≡ p
    → w.action_queue ≡ q
    → ends_early w p q (replied r) ≡ false
    → IsServed w
    → Served (when_asking w r p q)
when_asking-IsServed w r idle q e k n h = h
when_asking-IsServed w r asking [] e k n h = h
when_asking-IsServed w r asking (a ∷ q) e k n h = reply-IsServed w a r n h (subst Busy (sym k) tt)
when_asking-IsServed w r placing q e k n h = h
when_asking-IsServed w r (creating t) q e k n h = h

when_creating-IsServed :
    (w : Window) (initialized : Bool) (p : Phase)
    → w.phase ≡ p
    → IsServed w
    → Served (when_creating w initialized p)
when_creating-IsServed w initialized idle e h = h
when_creating-IsServed w initialized asking e h = h
when_creating-IsServed w initialized placing e h = h
when_creating-IsServed w initialized (creating t) e h =
    set_tab_view_into_window-IsServed w t initialized h (
      busy (creating t) w.action_queue w.is_destroyed tt
        (subst (λ p. IsWaiting p w.action_queue w.is_destroyed) e h.1))

when_placing-IsServed : (w : Window) (p : Phase) → IsServed w → Served (when_placing w p)
when_placing-IsServed w idle h = h
when_placing-IsServed w asking h = h
when_placing-IsServed w placing h = finish-IsServed w h.0
when_placing-IsServed w (creating t) h = h

when_running-IsServed : (w : Window) (p : Phase) → IsServed w → Served (when_running w p)
when_running-IsServed w idle h = h
when_running-IsServed w asking h = finish-IsServed w h.0
when_running-IsServed w placing h = finish-IsServed w h.0
when_running-IsServed w (creating t) h = finish-IsServed w h.0

-- Unless an answer comes that gives no tab, a window stays served at every event: at most two entries
-- in its queue, and none of them left waiting while nothing is in process, but in a window that is gone.
pub step-IsServed :
    (w : Window) (e : Event)
    → ends_early w w.phase w.action_queue e ≡ false
    → IsServed w
    → IsServed (step w e).0
unfolding step queue_action
step-IsServed w (queued e) n h = queue_action-IsServed w e w.action_queue h.0 h.1
step-IsServed w (replied r) n h = when_asking-IsServed w r w.phase w.action_queue refl refl n h
step-IsServed w (view_ready initialized) n h = when_creating-IsServed w initialized w.phase refl h
step-IsServed w placed n h = when_placing-IsServed w w.phase h
step-IsServed w failed n h = when_running-IsServed w w.phase h
step-IsServed w (timer_removes t) n h = remove_tab_view-IsServed w t false h
step-IsServed w destroyed n h = (h.0, gone_served w.phase w.action_queue w.is_destroyed h.1)
