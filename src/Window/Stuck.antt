-- ===== src/Window/Stuck.antt =====
-- What becomes of the entry that waits when the one in process ends early.
use starterm.Base.{
  String, none, some, true, false, not, List, [], ◌∷◌, if◌then◌else◌, is_blank, ◌≡◌, refl, sym, ap,
  ◌&&◌, if_both,
}
use mathlib.Core.Path.{subst}
use starterm.Window.{
  Entry, switchtab, createtab, closetab, switchworkspace, Effect, idle, asking, Window,
  queue_action, queue_behind, CloseTabRtn, Reply, created, active_set, closed, switched, reply_to,
  leave, tail, is_tab, has_view, remove_tab_view, Event, queued, replied, view_ready, placed,
  failed, timer_removes, destroyed, when_asking, when_creating, when_placing, when_running, step,
  steps, close_reply,
}
use starterm.Window.Turns.{gives_no_tab}

-- Nothing is in process, and an entry is at the head.
abbrev pub IsStuck : Entry → Window → Type 0
IsStuck e w = (w.phase ≡ idle) × (rest : List Entry) × (w.action_queue ≡ e ∷ rest)

abbrev StuckAfter : Entry → Window × List Effect → Type 0
StuckAfter e r = IsStuck e r.0

behind-IsStuck :
    (w : Window) (e x : Entry) (rest : List Entry)
    → w.phase ≡ idle
    → StuckAfter e (queue_behind w x (e ∷ rest))
behind-IsStuck w e x [] p = (p, (x ∷ []), refl)
behind-IsStuck w e x (b ∷ rest) p = (p, (x ∷ rest), refl)

step-IsStuck : (w : Window) (e : Entry) (v : Event) → IsStuck e w → IsStuck e (step w v).0
unfolding step queue_action remove_tab_view
step-IsStuck w e (queued x) (p, rest, q) =
    subst (λ k. StuckAfter e (queue_behind w x k)) (sym q) (behind-IsStuck w e x rest p)
step-IsStuck w e (replied r) (p, rest, q) =
    subst (λ k. StuckAfter e (when_asking w r k w.action_queue)) (sym p) (p, rest, q)
step-IsStuck w e (view_ready i) (p, rest, q) =
    subst (λ k. StuckAfter e (when_creating w i k)) (sym p) (p, rest, q)
step-IsStuck w e placed (p, rest, q) =
    subst (λ k. StuckAfter e (when_placing w k)) (sym p) (p, rest, q)
step-IsStuck w e failed (p, rest, q) =
    subst (λ k. StuckAfter e (when_running w k)) (sym p) (p, rest, q)
step-IsStuck w e (timer_removes t) (p, rest, q) =
    if_both (StuckAfter e) (not false && is_tab w.active_tab_view t) (λ h. (p, rest, q))
      (λ h.
        if_both (StuckAfter e) (has_view t w.all_loaded_tab_views) (λ f. (p, rest, q))
          (λ f. (p, rest, q)))
step-IsStuck w e destroyed (p, rest, q) = (p, rest, q)

steps-IsStuck : (w : Window) (e : Entry) (vs : List Event) → IsStuck e w → IsStuck e (steps w vs)
unfolding steps
steps-IsStuck w e [] h = h
steps-IsStuck w e (v ∷ vs) h = steps-IsStuck (step w v).0 e vs (step-IsStuck w e v h)

leaving :
    (w : Window) (a e : Entry) (rest : List Entry)
    → w.action_queue ≡ a ∷ e ∷ rest
    → IsStuck e (leave w)
leaving w a e rest q = (refl, rest, ap tail q)

close-IsStuck :
    (w : Window) (t : String) (r : CloseTabRtn) (a e : Entry) (rest : List Entry)
    → (if r.closewindow then true else is_blank r.newactivetabid) ≡ true
    → w.action_queue ≡ a ∷ e ∷ rest
    → StuckAfter e (close_reply w t (some r))
close-IsStuck w t r a e rest g q =
    if_both (StuckAfter e) r.closewindow (λ c. leaving w a e rest q)
      (λ c.
        if_both (StuckAfter e) (is_blank r.newactivetabid) (λ k. leaving w a e rest q)
          (λ k. absurd (false_ne_true (rw (c, k) at g))))
  where
    false_ne_true : false ≡ true → ⊥
    false_ne_true e = cc

reply-IsStuck :
    (w : Window) (a e : Entry) (r : Reply) (rest : List Entry)
    → gives_no_tab a r ≡ true
    → w.action_queue ≡ a ∷ e ∷ rest
    → StuckAfter e (reply_to w a r)
reply-IsStuck w (createtab p) e (created none) rest g q = leaving w (createtab p) e rest q
reply-IsStuck w (createtab p) e (created (some t)) rest g q = cc
reply-IsStuck w (createtab p) e active_set rest g q = cc
reply-IsStuck w (createtab p) e (closed r) rest g q = cc
reply-IsStuck w (createtab p) e (switched r) rest g q = cc
reply-IsStuck w (switchtab t i) e (created o) rest g q = cc
reply-IsStuck w (switchtab t i) e active_set rest g q = cc
reply-IsStuck w (switchtab t i) e (closed r) rest g q = cc
reply-IsStuck w (switchtab t i) e (switched r) rest g q = cc
reply-IsStuck w (closetab t) e (created o) rest g q = cc
reply-IsStuck w (closetab t) e active_set rest g q = cc
reply-IsStuck w (closetab t) e (closed none) rest g q = leaving w (closetab t) e rest q
reply-IsStuck w (closetab t) e (closed (some r)) rest g q =
    close-IsStuck w t r (closetab t) e rest g q
reply-IsStuck w (closetab t) e (switched r) rest g q = cc
reply-IsStuck w (switchworkspace s) e (created o) rest g q = cc
reply-IsStuck w (switchworkspace s) e active_set rest g q = cc
reply-IsStuck w (switchworkspace s) e (closed r) rest g q = cc
reply-IsStuck w (switchworkspace s) e (switched none) rest g q =
    leaving w (switchworkspace s) e rest q
reply-IsStuck w (switchworkspace s) e (switched (some none)) rest g q =
    leaving w (switchworkspace s) e rest q
reply-IsStuck w (switchworkspace s) e (switched (some (some t))) rest g q = cc

-- If the entry in process ends with an answer that gives no tab while another waits behind it, the
-- queue is stuck for good: whatever comes, that other one stays at its head, and nothing is in process.
pub steps-replied :
    (w : Window) (a e : Entry) (rest : List Entry) (r : Reply) (vs : List Event)
    → w.phase ≡ asking
    → w.action_queue ≡ a ∷ e ∷ rest
    → gives_no_tab a r ≡ true
    → IsStuck e (steps w (replied r ∷ vs))
unfolding steps step
steps-replied w a e rest r vs p q g = steps-IsStuck (step w (replied r)).0 e vs (
    subst (λ k. StuckAfter e (when_asking w r k w.action_queue)) (sym p)
      (subst (λ k. StuckAfter e (when_asking w r asking k)) (sym q)
        (reply-IsStuck w a e r rest g q)))
