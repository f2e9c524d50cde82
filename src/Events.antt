-- ===== src/Events.antt =====
-- frontend/app/store/wps.ts: the subjects that wait for an event type, what is asked of the server
-- for them, and the delivery of an event.
--
-- A handler is a number that names the callback. The map of the module is passed along, and what a
-- call sends and which handlers it calls are lists, in order. A handler that subscribes or
-- unsubscribes while an event is delivered is left out, as are the file subjects.
pub mod Server
pub mod Requests
pub mod Restored
mod Tests
use starterm.Base.{
  ℕ, suc, ◌+◌, String, Option, none, some, Bool, true, false, ◌||◌, ◌===◌, List, [], ◌∷◌, ◌++◌,
  if◌then◌else◌, is_blank, text_of, get_or,
}
use starterm.Base.Maps.{Map, get, set, remove}

pub record StarEvent : Type 0 where
  pub event : String
  pub scopes : Option (List String)

-- StarEventSubjectContainer
pub record Subject : Type 0 where
  pub id : String
  pub handler : ℕ
  pub scope : Option String

pub record StarEventSubscription : Type 0 where
  pub callback : Option ℕ
  pub only : Option String
  pub event_type : String

pub record StarEventUnsubscribe : Type 0 where
  pub subject_id : String
  pub from : String

pub record SubscriptionRequest : Type 0 where
  pub asked : String
  pub listed : List String
  pub allscopes : Bool

-- The message for the server: eventsub or eventunsub, with its data.
pub data SubCommand : Type 0 where
  eventsub : SubscriptionRequest → SubCommand
  eventunsub : String → SubCommand

abbrev pub Subjects : Type 0
Subjects = Map (List Subject)

-- The loop over the subjects, which stops at one without a scope.
unfoldable pub collect : List Subject → List String → Bool × List String
collect [] scopes = (false, scopes)
collect (s ∷ ss) scopes =
    let rest = collect ss (scopes ++ text_of s.scope ∷ []) in
    if is_blank s.scope then (true, []) else rest

abbrev pub request : String → Bool × List String → SubscriptionRequest
request t (all, scopes) = record { asked = t; listed = scopes; allscopes = all }

abbrev pub command_for : String → Option (List Subject) → SubCommand
command_for t none = eventunsub t
command_for t (some ss) = eventsub (request t (collect ss []))

unfoldable pub make_star_re_sub_command : Subjects → String → SubCommand
make_star_re_sub_command m t = command_for t (get t m)

-- updateStarEventSub, for each type in turn.
abbrev pub update_star_event_subs : Subjects → List String → List SubCommand
update_star_event_subs m [] = []
update_star_event_subs m (t ∷ ts) = make_star_re_sub_command m t ∷ update_star_event_subs m ts

abbrev pub keys : Subjects → List String
keys [] = []
keys ((t, ss) ∷ m) = t ∷ keys m

abbrev pub wps_reconnect_handler : Subjects → List SubCommand
wps_reconnect_handler m = update_star_event_subs m (keys m)

-- eventTypeSet.add
abbrev pub add_type : String → List String → List String
add_type t [] = t ∷ []
add_type t (u ∷ us) = let rest = add_type t us in if u === t then u ∷ us else u ∷ rest

abbrev pub push_subject : String → Subject → Subjects → Subjects
push_subject t s m = set t (get_or (get t m) [] ++ s ∷ []) m

-- The loop over the subscriptions; the `n`-th call of randomUUID gives `fresh n`. It ends early at a
-- subscription without a handler, and what it pushed before stays.
unfoldable pub subscribe_from :
    (ℕ → String)
    → ℕ
    → List StarEventSubscription
    → Subjects
    → List StarEventUnsubscribe
    → List String
    → Subjects × Option (List StarEventUnsubscribe × List String)
subscribe_from fresh n [] m unsubs types = (m, some (unsubs, types))
subscribe_from fresh n (s ∷ ss) m unsubs types = elim s.callback [
  | none ↦ (m, none)
  | some f ↦
      subscribe_from fresh (suc n) ss
        (push_subject s.event_type (record { id = fresh n; handler = f; scope = s.only }) m)
        (unsubs ++ record { subject_id = fresh n; from = s.event_type } ∷ [])
        (add_type s.event_type types)
]

abbrev pub announce {ℓ} :
    {A : Type ℓ} → Subjects × Option (A × List String) → Subjects × List SubCommand × Option A
announce (m, none) = (m, [], none)
announce (m, some (a, types)) = (m, update_star_event_subs m types, some a)

-- What is sent, and the unsubscriptions that the function it returns makes.
unfoldable pub star_event_subscribe :
    (ℕ → String)
    → List StarEventSubscription
    → Subjects
    → Subjects × List SubCommand × Option (List StarEventUnsubscribe)
unfolding subscribe_from make_star_re_sub_command
star_event_subscribe fresh ss m = announce (subscribe_from fresh 0 ss m [] [])

-- findIndex and splice; `none` where no subject has the id.
unfoldable pub splice_out : String → List Subject → Option (List Subject)
splice_out i [] = none
splice_out i (s ∷ ss) =
    let rest = splice_out i ss in
    if s.id === i then some ss else elim rest [ none ↦ none | some ts ↦ some (s ∷ ts) ]

abbrev pub store : String → List Subject → Subjects → Subjects
store t [] m = remove t m
store t (s ∷ ss) m = set t (s ∷ ss) m

unfoldable pub unsubscribe_from :
    List StarEventUnsubscribe → Subjects → List String → Subjects × Option (Unit {0} × List String)
unsubscribe_from [] m types = (m, some (tt, types))
unsubscribe_from (u ∷ us) m types = elim (get u.from m) [
  | none ↦ (m, none)
  | some ss ↦ elim (splice_out u.subject_id ss) [
    | none ↦ (m, none)
    | some ts ↦ unsubscribe_from us (store u.from ts m) (add_type u.from types)
  ]
]

unfoldable pub star_event_unsubscribe :
    List StarEventUnsubscribe → Subjects → Subjects × List SubCommand × Option (Unit {0})
unfolding unsubscribe_from make_star_re_sub_command
star_event_unsubscribe us m = announce (unsubscribe_from us m [])

abbrev pub includes : List String → String → Bool
includes [] s = false
includes (x ∷ xs) s = (x === s) || includes xs s

abbrev pub in_scopes : Option (List String) → String → Bool
in_scopes none s = false
in_scopes (some xs) s = includes xs s

-- The handlers that are called, in order.
unfoldable pub notified : StarEvent → List Subject → List ℕ
notified e [] = []
notified e (s ∷ ss) =
    let rest = notified e ss in
    if is_blank s.scope
    then s.handler ∷ rest
    else if in_scopes e.scopes (text_of s.scope)
    then s.handler ∷ rest
    else rest

unfoldable pub handle_star_event : Subjects → StarEvent → List ℕ
unfolding notified
handle_star_event m e = notified e (get_or (get e.event m) [])
