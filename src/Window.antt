-- ===== src/Window.antt =====
-- emain/emain-window.ts: the queue of actions of a window, and the tabs that it shows.
--
-- An `async` call runs up to its next `await`; what it waits for comes back as an event, and other
-- events may come first. A tab's view is named by the id of its tab. What is called in the backend,
-- in Electron or by a timer is a list, in order. The geometry, the focus and the log are left out.
pub mod Turns
pub mod Placed
pub mod Stuck
mod Tests
use starterm.Base.{
  ℕ, suc, String, Option, none, some, Bool, true, false, not, ◌&&◌, ◌||◌, ◌===◌, List, [], ◌∷◌,
  ◌++◌, if◌then◌else◌, is_blank, ltb, get_or,
}

-- WindowActionQueueEntry
pub data Entry : Type 0 where
  switchtab : String → Bool → Entry
  createtab : Bool → Entry
  closetab : String → Entry
  switchworkspace : String → Entry

-- The calls that are made, and the views that are put into the window and out of it.
pub data Effect : Type 0 where
  create_tab : String → Bool → Effect
  set_active_tab : String → String → Effect
  close_tab : String → String → Effect
  switch_workspace : String → Effect
  get_or_create_web_view : String → Effect
  add_view show_view : String → Effect
  remove_view : String → Effect
  remove_view_later : String → Effect
  close_window : Effect

-- Where processActionQueue waits, if it runs: for the backend, for the view of a tab, or for the
-- view to be in place.
pub data Phase : Type 0 where
  idle asking placing : Phase
  creating : String → Phase

pub record Window : Type 0 where
  pub action_queue : List Entry
  pub phase : Phase
  pub workspace_id : String
  pub active_tab_view : Option String
  pub all_loaded_tab_views : List String
  pub is_destroyed : Bool

abbrev pub is_tab : Option String → String → Bool
is_tab none t = false
is_tab (some s) t = s === t

-- The start of the entry at the head: the call that it waits for. `none` is the `continue` of a
-- switch to the tab that is there already.
unfoldable pub start : Window → Entry → Option (Phase × List Effect)
start w (createtab pinned) = some (asking, create_tab w.workspace_id pinned ∷ [])
start w (switchtab t in_backend) =
    if is_tab w.active_tab_view t
    then none
    else if in_backend
    then some (asking, set_active_tab w.workspace_id t ∷ [])
    else some (creating t, get_or_create_web_view t ∷ [])
start w (closetab t) = some (asking, close_tab w.workspace_id t ∷ [])
start w (switchworkspace s) = some (asking, switch_workspace s ∷ [])

abbrev pub waiting : Window → List Entry → Phase → Window
waiting w q p = record w { action_queue = q; phase = p }

-- The loop of processActionQueue over a queue, up to the first entry that waits. `break` and
-- `continue` shift the queue too.
unfoldable pub process_action_queue : Window → List Entry → Window × List Effect
unfolding start
process_action_queue w [] = (waiting w [] idle, [])
process_action_queue w (e ∷ es) =
    let rest = process_action_queue w es in
    if w.is_destroyed
    then (waiting w es idle, [])
    else elim (start w e) [ none ↦ rest | some (p, fs) ↦ (waiting w (e ∷ es) p, fs) ]

abbrev pub tail : List Entry → List Entry
tail [] = []
tail (e ∷ es) = es

-- The end of an entry: the queue is shifted, and the loop goes on.
abbrev pub finish : Window → Window × List Effect
finish w = process_action_queue w (tail w.action_queue)

-- `return` within the loop: the queue is shifted, and nothing goes on.
abbrev pub leave : Window → Window
leave w = waiting w (tail w.action_queue) idle

-- _queueActionInternal: an entry behind the one in process takes the place of what waits there.
abbrev pub queue_behind : Window → Entry → List Entry → Window × List Effect
queue_behind w e [] = process_action_queue w (e ∷ [])
queue_behind w e (a ∷ []) = (record w { action_queue = a ∷ e ∷ [] }, [])
queue_behind w e (a ∷ b ∷ es) = (record w { action_queue = a ∷ e ∷ es }, [])

unfoldable pub queue_action : Window → Entry → Window × List Effect
unfolding process_action_queue
queue_action w e = queue_behind w e w.action_queue

pub record CloseTabRtn : Type 0 where
  pub closewindow : Bool
  pub newactivetabid : Option String

-- What a call of the backend gives: the new tab, nothing, the tab that is active now, or the
-- workspace's active tab.
pub data Reply : Type 0 where
  created : Option String → Reply
  active_set : Reply
  closed : Option CloseTabRtn → Reply
  switched : Option (Option String) → Reply

abbrev pub create_view : Window → String → Window × List Effect
create_view w t = (record w { phase = creating t }, get_or_create_web_view t ∷ [])

abbrev pub create_view_of : Window → Option String → Window × List Effect
create_view_of w none = (leave w, [])
create_view_of w (some t) = create_view w t

abbrev pub after_effects : List Effect → Window × List Effect → Window × List Effect
after_effects fs (w, gs) = (w, fs ++ gs)

abbrev pub close_reply : Window → String → Option CloseTabRtn → Window × List Effect
close_reply w t none = (leave w, [])
close_reply w t (some r) =
    if r.closewindow
    then (leave w, remove_view_later t ∷ close_window ∷ [])
    else if is_blank r.newactivetabid
    then (leave w, remove_view_later t ∷ [])
    else after_effects (remove_view_later t ∷ []) (create_view_of w r.newactivetabid)

abbrev pub remove_all : List String → List Effect
remove_all [] = []
remove_all (t ∷ ts) = remove_view t ∷ remove_all ts

abbrev pub switch_reply : Window → String → Option (Option String) → Window × List Effect
switch_reply w s none = (leave w, [])
switch_reply w s (some active) =
    after_effects (remove_all w.all_loaded_tab_views)
      (create_view_of (record w { workspace_id = s; all_loaded_tab_views = [] }) active)

-- The rest of the switch over the entry; a reply answers the entry's own call.
abbrev pub reply_to : Window → Entry → Reply → Window × List Effect
reply_to w (createtab pinned) (created t) = create_view_of w t
reply_to w (switchtab t in_backend) active_set = create_view w t
reply_to w (closetab t) (closed r) = close_reply w t r
reply_to w (switchworkspace s) (switched r) = switch_reply w s r
reply_to w _ _ = (w, [])

abbrev pub reply_to_head : Window → Reply → List Entry → Window × List Effect
reply_to_head w r [] = (w, [])
reply_to_head w r (e ∷ es) = reply_to w e r

-- Map.set on the views by tab id.
abbrev pub with_view : String → List String → List String
with_view t [] = t ∷ []
with_view t (s ∷ ss) = let rest = with_view t ss in if s === t then s ∷ ss else s ∷ rest

abbrev pub without_view : String → List String → List String
without_view t [] = []
without_view t (s ∷ ss) = let rest = without_view t ss in if s === t then ss else s ∷ rest

abbrev pub has_view : String → List String → Bool
has_view t [] = false
has_view t (s ∷ ss) = (s === t) || has_view t ss

-- setTabViewIntoWindow, up to its waiting.
unfoldable pub set_tab_view_into_window : Window → String → Bool → Window × List Effect
unfolding process_action_queue
set_tab_view_into_window w t initialized = if is_tab w.active_tab_view t then finish w else (
  record w {
    active_tab_view = some t;
    all_loaded_tab_views = with_view t w.all_loaded_tab_views;
    phase = placing;
  },
  (if initialized then show_view t else add_view t) ∷ [],
)

-- removeTabView
unfoldable pub remove_tab_view : Window → String → Bool → Window × List Effect
remove_tab_view w t force =
    if not force && is_tab w.active_tab_view t
    then (w, [])
    else if has_view t w.all_loaded_tab_views
    then (
      record w { all_loaded_tab_views = without_view t w.all_loaded_tab_views },
      remove_view t ∷ [],
    )
    else (w, [])

pub data Event : Type 0 where
  queued : Entry → Event
  replied : Reply → Event
  view_ready : Bool → Event
  placed failed : Event
  timer_removes : String → Event
  destroyed : Event

-- What comes while nothing waits for it changes nothing.
abbrev pub when_asking : Window → Reply → Phase → List Entry → Window × List Effect
when_asking w r asking q = reply_to_head w r q
when_asking w r _ q = (w, [])

abbrev pub when_creating : Window → Bool → Phase → Window × List Effect
when_creating w initialized (creating t) = set_tab_view_into_window w t initialized
when_creating w initialized _ = (w, [])

abbrev pub when_placing : Window → Phase → Window × List Effect
when_placing w placing = finish w
when_placing w _ = (w, [])

-- The `catch` of the loop.
abbrev pub when_running : Window → Phase → Window × List Effect
when_running w idle = (w, [])
when_running w _ = finish w

unfoldable pub step : Window → Event → Window × List Effect
unfolding queue_action process_action_queue set_tab_view_into_window remove_tab_view
step w (queued e) = queue_action w e
step w (replied r) = when_asking w r w.phase w.action_queue
step w (view_ready initialized) = when_creating w initialized w.phase
step w placed = when_placing w w.phase
step w failed = when_running w w.phase
step w (timer_removes t) = remove_tab_view w t false
step w destroyed = (record w { is_destroyed = true }, [])

unfoldable pub steps : Window → List Event → Window
unfolding step
steps w [] = w
steps w (e ∷ es) = steps (step w e).0 es

-- Entries that are queued one after another.
abbrev pub all_queued : List Entry → List Event
all_queued [] = []
all_queued (e ∷ es) = queued e ∷ all_queued es
