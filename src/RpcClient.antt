-- ===== src/RpcClient.antt =====
-- frontend/app/store/wshclient.ts: an RPC client of the frontend, which answers commands and calls
-- others. What it hands to the router is a list in order.
--
-- A handler of a command is a method of a subclass: a parameter, with what it sends before it is
-- done, and how it ends. Its promise has been awaited.
pub mod Generator
pub mod Answers
pub mod Calls
pub mod Streams
mod Tests
use starterm.Base.{
  ℕ, String, Option, none, some, Bool, true, false, not, ◌&&◌, ◌||◌, List, [], ◌∷◌, ◌++◌,
  if◌then◌else◌, is_blank, is_defined, text_of, get_or, nat_eq, Result, ok, throw,
  no_response_stream,
}
use starterm.Base.Maps.{Map, get, set, remove}
use starterm.Base.Texts.{concat}
use starterm.Json.Values.{Json}
use starterm.RpcClient.Generator.{Message, RpcGenerator, Event, message, Effect, step, start}

pub record RpcResponseHelper : Type 0 where
  pub route_id : String
  pub reqid : Option String
  pub done : Bool

-- The constructor: no answer is due where there is no id of a request.
abbrev pub new_helper : String → Message → RpcResponseHelper
new_helper r m = record { route_id = r; reqid = m.reqid; done = not (is_defined m.reqid) }

abbrev pub no_message : Message
no_message = record {
  command = none;
  reqid = none;
  resid = none;
  route = none;
  source = none;
  cont = false;
  data_of = none;
  error = none;
  timeout = none;
  cancel = false;
}

abbrev pub message_of : Option Message → Message
message_of none = no_message
message_of (some m) = m

unfoldable pub send_response : Option Message → RpcResponseHelper → RpcResponseHelper × List Message
send_response o h = if h.done || is_blank h.reqid then (h, []) else (
  record h { done = h.done || not (message_of o).cont },
  record (message_of o) { resid = h.reqid; source = some h.route_id } ∷ [],
)

abbrev pub send_all : List (Option Message) → RpcResponseHelper → RpcResponseHelper × List Message
send_all [] h = (h, [])
send_all (o ∷ os) h =
    let (g, ms) = send_response o h in let (f, ns) = send_all os g in (f, ms ++ ns)

-- How a handler ends: with a value or with an error's message.
pub data Ending : Type 0 where
  returns : Option Json → Ending
  throws : String → Ending

pub record Handled : Type 0 where
  pub sends : List (Option Message)
  pub ending : Ending

abbrev pub unsupported : String → Message → Handled
unsupported route_id m = record {
  sends = [];
  ending = throws (
      concat "rpc command \"" (
        concat (get_or m.command "undefined")
          (concat "\" not supported by [" (concat route_id "]"))));
}

abbrev pub run_handler : String → Option (Message → Handled) → Message → Handled
run_handler route_id none m = unsupported route_id m
run_handler route_id (some f) m = f m

-- The method for the command by its name, and handle_default where there is none.
abbrev pub handler_for : (String → Option (Message → Handled)) → String → Message → Handled
handler_for handlers route_id m =
    run_handler route_id (handlers (concat "handle_" (get_or m.command "undefined"))) m

abbrev pub last_response : Ending → Option Message
last_response (returns v) = some (record no_message { data_of = v })
last_response (throws e) = some (record no_message { error = some e })

abbrev pub unless_done :
    Option Message → RpcResponseHelper × List Message → RpcResponseHelper × List Message
unless_done o (h, ms) = let (g, ns) = send_response o h in if h.done then (h, ms) else (g, ms ++ ns)

-- The last answer is the result or the error; the `finally` sends an empty one if none was sent.
unfoldable pub handle_incoming_command :
    (String → Option (Message → Handled)) → String → Message → RpcResponseHelper × List Message
unfolding send_response
handle_incoming_command handlers route_id m =
    let run = handler_for handlers route_id m in
    unless_done (some no_message)
      (unless_done (last_response run.ending) (send_all run.sends (new_helper route_id m)))

pub record WshClient : Type 0 where
  pub route_id : String
  pub open_rpcs : Map RpcGenerator

-- What a message makes the client do: hand messages to the router, or go on with a call.
pub data ClientEffect : Type 0 where
  to_router : Message → ClientEffect
  of_call : String → Effect → ClientEffect

abbrev pub all_to_router : List Message → List ClientEffect
all_to_router [] = []
all_to_router (m ∷ ms) = to_router m ∷ all_to_router ms

abbrev pub all_of_call : String → List Effect → List ClientEffect
all_of_call r [] = []
all_of_call r (e ∷ es) = of_call r e ∷ all_of_call r es

-- The entry of a call goes where its generator ends.
abbrev pub store_call : String → RpcGenerator → Map RpcGenerator → Map RpcGenerator
store_call r g m = if g.is_open then set r g m else remove r m

abbrev pub receive_for : Message → WshClient → Option String → WshClient × List ClientEffect
receive_for m c none = (c, [])
receive_for m c (some r) = elim (get r c.open_rpcs) [
  | none ↦ (c, [])
  | some g ↦
      let (h, es) = step g (message m) in
      (record c { open_rpcs = store_call r h c.open_rpcs }, all_of_call r es)
]

-- An answer that is the last deletes an entry under the id of the request, too.
abbrev pub without_answered : RpcResponseHelper → Map RpcGenerator → Map RpcGenerator
without_answered h m = if h.done && not (is_blank h.reqid) then remove (text_of h.reqid) m else m

abbrev pub answer_all : WshClient → RpcResponseHelper × List Message → WshClient × List ClientEffect
answer_all c (h, ms) = (record c { open_rpcs = without_answered h c.open_rpcs }, all_to_router ms)

unfoldable pub recv_rpc_message :
    (String → Option (Message → Handled)) → Message → WshClient → WshClient × List ClientEffect
unfolding handle_incoming_command
recv_rpc_message handlers m c =
    if is_defined m.command || is_defined m.reqid
    then answer_all c (handle_incoming_command handlers c.route_id m)
    else receive_for m c m.resid

-- The options of a call. A timeout of zero is none.
pub record RpcOpts : Type 0 where
  pub noresponse : Bool
  pub timeout : Option ℕ
  pub route : Option String

abbrev pub timeout_of : Option ℕ → Option ℕ
timeout_of none = none
timeout_of (some n) = if nat_eq n 0 then none else some n

abbrev pub route_of : Option String → Option String
route_of o = if is_blank o then none else o

abbrev pub call_message : String → Option Json → RpcOpts → Option String → WshClient → Message
call_message command d opts reqid c = record no_message {
  command = some command;
  data_of = d;
  source = some c.route_id;
  reqid = reqid;
  timeout = timeout_of opts.timeout;
  route = route_of opts.route;
}

-- sendRpcCommand: the message goes to the router before the call is entered.
abbrev pub send_rpc_command : Message → WshClient → WshClient × List ClientEffect
send_rpc_command m c = elim m.reqid [
  | none ↦ (c, to_router m ∷ [])
  | some r ↦ (record c { open_rpcs = set r (start m.timeout) c.open_rpcs }, to_router m ∷ [])
]

unfoldable pub wsh_rpc_call :
    String → Option Json → RpcOpts → String → WshClient → WshClient × List ClientEffect
wsh_rpc_call command d opts fresh c =
    let reqid = if opts.noresponse then none else some fresh in
    let (k, es) = send_rpc_command (call_message command d opts reqid c) c in
    elim reqid [
      | none ↦ (k, es)
      | some r ↦ (
        record k {
          open_rpcs =
              set r (step (start (timeout_of opts.timeout)) (Event.next true)).0 k.open_rpcs;
        },
        es,
      )
    ]

unfoldable pub wsh_rpc_stream :
    String → Option Json → RpcOpts → String → WshClient → Result (WshClient × List ClientEffect)
wsh_rpc_stream command d opts fresh c =
    if opts.noresponse
    then throw no_response_stream
    else ok (send_rpc_command (call_message command d opts (some fresh) c) c)
