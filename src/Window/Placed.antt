-- ===== src/Window/Placed.antt =====
-- What becomes of the entries that are queued while another is in process.
use starterm.Base.{◌≤◌, List, [], ◌∷◌, ◌++◌, ◌≡◌, refl, ap, ◌∙◌, arith}
use starterm.Base.Lists.{length}
use starterm.Window.{
  Entry, placing, Window, process_action_queue, queue_action, queue_behind, placed, when_placing,
  step, steps, all_queued,
}

behind_head :
    (w : Window) (a : Entry) (rest : List Entry) (e : Entry)
    → length rest ≤ 1
    → (queue_behind w e (a ∷ rest)).0 ≡ record w { action_queue = a ∷ e ∷ [] }
behind_head w a [] e n = refl
behind_head w a (b ∷ []) e n = refl
behind_head w a (b ∷ c ∷ rest) e n = absurd (omega arith)

queued_all :
    (w : Window) (a : Entry) (rest es : List Entry) (e : Entry)
    → w.action_queue ≡ a ∷ rest
    → length rest ≤ 1
    → steps w (all_queued (es ++ e ∷ [])) ≡ record w { action_queue = a ∷ e ∷ [] }
unfolding steps queue_action
queued_all w a rest [] e q n = ap (λ k. (queue_behind w e k).0) q ∙ behind_head w a rest e n
queued_all w a rest (x ∷ es) e q n =
    let once = ap (λ k. (queue_behind w x k).0) q ∙ behind_head w a rest x n in
    ap (λ v. steps v (all_queued (es ++ e ∷ []))) once
    ∙ queued_all (record w { action_queue = a ∷ x ∷ [] }) a (x ∷ []) es e refl (omega arith)

-- While the view of an entry is being put in place, with at most one other entry behind it, of all
-- that is queued meanwhile only the last stays: when the view is in place, that last one has its
-- turn, as if it had been queued alone.
pub steps-placed :
    (w : Window) (a : Entry) (rest es : List Entry) (e : Entry)
    → w.phase ≡ placing
    → w.action_queue ≡ a ∷ rest
    → length rest ≤ 1
    → (step (steps w (all_queued (es ++ e ∷ []))) placed).0 ≡ (process_action_queue w (e ∷ [])).0
unfolding step process_action_queue
steps-placed w a rest es e p q n =
    ap (λ v. (step v placed).0) (queued_all w a rest es e q n)
    ∙ ap (λ k. (when_placing (record w { action_queue = a ∷ e ∷ [] }) k).0) p
