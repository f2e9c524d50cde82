-- ===== src/RpcClient/Generator.antt =====
-- frontend/app/store/wshrpcutil.ts: rpcResponseGenerator, which hands on the parts of an answer.
--
-- The generator stands at `yield null`, at a `yield` of data, or waits for a message; calls of
-- `next` that come while it works wait. `is_open` is that the call has its entry in openRpcs.
use starterm.Base.{
  ℕ, String, Option, none, some, Bool, true, false, not, ◌&&◌, List, [], ◌∷◌, ◌++◌, if◌then◌else◌,
  ltb, get_or,
}
use starterm.Json.Values.{Json, null, bool, num, str, arr, obj}

pub record Message : Type 0 where
  pub command : Option String
  pub reqid : Option String
  pub resid : Option String
  pub route : Option String
  pub source : Option String
  pub cont : Bool
  pub data_of : Option Json
  pub error : Option String
  pub timeout : Option ℕ
  pub cancel : Bool

-- Where the generator stands; at data it knows whether the message has a successor.
pub data Place : Type 0 where
  at_null waiting finished : Place
  at_data : Bool → Place

pub record RpcGenerator : Type 0 where
  pub place : Place
  pub msg_queue : List Message
  pub requests : List Bool
  pub has_timer : Bool
  pub is_open : Bool

-- The answers to `next`, and the cancel message.
pub data Effect : Type 0 where
  yields : Option Json → Effect
  rejects : String → Effect
  is_done : Effect
  sends_cancel : Effect

-- The first `next` registers the call and goes on to `yield null`; its answer is thrown away.
abbrev pub start : Option ℕ → RpcGenerator
start timeout = record {
  place = at_null;
  msg_queue = [];
  requests = [];
  has_timer = ltb 0 (get_or timeout 0);
  is_open = true;
}

-- The `finally`.
abbrev pub finish : RpcGenerator → RpcGenerator
finish g = record g { place = finished; has_timer = false; is_open = false }

-- `msg.data == null`, which a null of JSON meets too.
abbrev pub is_missing : Option Json → Bool
is_missing none = true
is_missing (some null) = true
is_missing (some (bool b)) = false
is_missing (some (num n)) = false
is_missing (some (str s)) = false
is_missing (some (arr xs)) = false
is_missing (some (obj kvs)) = false

-- One message, taken from the queue, by its error.
abbrev pub take_by : Option String → Message → RpcGenerator → RpcGenerator × List Effect
take_by (some e) m g = (finish g, rejects e ∷ [])
take_by none m g =
    if not m.cont && is_missing m.data_of
    then (finish g, is_done ∷ [])
    else (record g { place = at_data m.cont }, yields m.data_of ∷ [])

abbrev pub take_message : Message → RpcGenerator → RpcGenerator × List Effect
take_message m g = take_by m.error m g

-- The loop up to its next answer, or up to `await signalPromise`.
abbrev pub run_loop : RpcGenerator → List Message → RpcGenerator × List Effect
run_loop g [] = (record g { place = waiting }, [])
run_loop g (m ∷ ms) = take_message m (record g { msg_queue = ms })

-- A call of `next` where the generator does not wait. What it passes to `yield null` is ignored.
abbrev pub resume_at : Place → Bool → RpcGenerator → RpcGenerator × List Effect
resume_at at_null b g = run_loop g g.msg_queue
resume_at (at_data cont) b g =
    if b
    then (finish g, sends_cancel ∷ is_done ∷ [])
    else if not cont
    then (finish g, is_done ∷ [])
    else run_loop g g.msg_queue
resume_at waiting b g = (record g { requests = g.requests ++ b ∷ [] }, [])
resume_at finished b g = (g, is_done ∷ [])

unfoldable pub resume : Bool → RpcGenerator → RpcGenerator × List Effect
resume b g = resume_at g.place b g

-- The calls that have waited are served in their order, until the generator waits again.
abbrev pub serve : List Bool → RpcGenerator → RpcGenerator × List Effect
unfolding resume
serve [] g = (g, [])
serve (b ∷ bs) g = let (h, es) = resume b g in let (k, fs) = serve bs h in (k, es ++ fs)

-- A message wakes the generator where it waits.
abbrev pub wake : Place → RpcGenerator → RpcGenerator × List Effect
wake waiting g =
    let (h, es) = run_loop g g.msg_queue in
    let (k, fs) = serve g.requests (record h { requests = [] }) in (k, es ++ fs)
wake at_null g = (g, [])
wake finished g = (g, [])
wake (at_data c) g = (g, [])

abbrev pub push : Message → RpcGenerator → RpcGenerator × List Effect
push m g = wake g.place (record g { msg_queue = g.msg_queue ++ m ∷ [] })

abbrev pub timeout_message : Message
timeout_message = record {
  command = none;
  reqid = none;
  resid = none;
  route = none;
  source = none;
  cont = false;
  data_of = none;
  error = some "EC-TIME: timeout waiting for response";
  timeout = none;
  cancel = false;
}

-- A message for the call reaches it through its entry.
pub data Event : Type 0 where
  next : Bool → Event
  message : Message → Event
  timed_out : Event

unfoldable pub step : RpcGenerator → Event → RpcGenerator × List Effect
unfolding resume
step g (next b) = resume b g
step g (message m) = if g.is_open then push m g else (g, [])
step g timed_out =
    if g.has_timer then push timeout_message (record g { has_timer = false }) else (g, [])

unfoldable pub steps : RpcGenerator → List Event → RpcGenerator × List Effect
unfolding step
steps g [] = (g, [])
steps g (e ∷ es) = let (h, fs) = step g e in let (k, gs) = steps h es in (k, fs ++ gs)
