-- ===== src/RpcClient/Tests.antt =====
-- Runs of a client with one handler, and of a call.
use starterm.Base.{
  String, Option, none, some, Bool, true, false, [], ◌∷◌, if◌then◌else◌, is_blank, ◌===◌, ◌≡◌, refl,
  throw, no_response_stream, List, ◌++◌,
}
use starterm.Base.Lists.{All}
use starterm.Base.Maps.{get, set}
use starterm.Json.Values.{Json}
use starterm.RpcClient.Generator.{
  Message, yields, rejects, is_done, start, resume, next, message, timed_out, step, steps, Event,
}
use starterm.RpcClient.{
  no_message, Handled, throws, send_response, handle_incoming_command, WshClient, of_call,
  recv_rpc_message, wsh_rpc_call, wsh_rpc_stream, RpcOpts,
}
use starterm.RpcClient.Answers.{IsAnswer, IsFor, handle_incoming_command-IsAnswer}
use starterm.RpcClient.Calls.{steps-call}
use starterm.RpcClient.Streams.{yielded, queued, received, IsUpToDate, steps-stream}

abbrev part : Bool → Message
part c = record no_message { cont = c; data_of = some (Json.bool true); resid = some "r1" }

-- A handler that sends a part, then throws.
abbrev handlers : String → Option (Message → Handled)
handlers name =
    if name === "handle_stream"
    then some (λ m. record { sends = some (part true) ∷ []; ending = throws "broken" })
    else none

abbrev request : String → Message
request c = record no_message { command = some c; reqid = some "r1" }

abbrev answer : Message → Message
answer m = record m { resid = some "r1"; source = some "tab:1" }

part_and_error :
    (handle_incoming_command handlers "tab:1" (request "stream")).1
    ≡ answer (part true) ∷ answer (record no_message { error = some "broken" }) ∷ []
unfolding handle_incoming_command send_response
part_and_error = refl

not_supported :
    (handle_incoming_command handlers "tab:1" (request "x")).1
    ≡ answer (record no_message { error = some "rpc command \"x\" not supported by [tab:1]" }) ∷ []
unfolding handle_incoming_command send_response
not_supported = refl

abbrev client : WshClient
client = record { route_id = "tab:1"; open_rpcs = [] }

abbrev no_opts : RpcOpts
no_opts = record { noresponse = false; timeout = none; route = none }

-- The answer of a call is handed on, and its entry stays.
call_stays :
    let c = (wsh_rpc_call "x" none no_opts "r1" client).0 in
    let r = recv_rpc_message handlers (part false) c in
    (r.1 ≡ of_call "r1" (yields (some (Json.bool true))) ∷ [])
    × (get "r1" (recv_rpc_message handlers (part false) r.0).0.open_rpcs ≡ none → ⊥)
unfolding wsh_rpc_call recv_rpc_message get set step resume
call_stays = (refl, λ h. cc)

stream_needs_response :
    wsh_rpc_stream "x" none (record no_opts { noresponse = true }) "r1" client
    ≡ throw no_response_stream
unfolding wsh_rpc_stream
stream_needs_response = refl

-- A stream: a part, the last part, and the end; and one that runs out of time.
streamed :
    (steps
      (start none)
      (next false ∷ message (part true) ∷ next false ∷ message (part false) ∷ next false ∷ [])).1
    ≡ yields (some (Json.bool true)) ∷ yields (some (Json.bool true)) ∷ is_done ∷ []
unfolding steps step resume
streamed = refl

out_of_time :
    (steps (start (some 5)) (next false ∷ timed_out ∷ message (part true) ∷ [])).1
    ≡ rejects "EC-TIME: timeout waiting for response" ∷ []
unfolding steps step resume
out_of_time = refl

handle_incoming_command-IsAnswer_example :
    let ms = (handle_incoming_command handlers "tab:1" (request "stream")).1 in
    IsAnswer (is_blank (some "r1")) ms × All (IsFor (some "r1")) ms
handle_incoming_command-IsAnswer_example =
    handle_incoming_command-IsAnswer handlers "tab:1" (request "stream")

steps-call_example :
    let r =
      steps
        (start none)
        (next true ∷ message (part false) ∷ message (part false) ∷ timed_out ∷ []) in
    (r.1 ≡ yields (some (Json.bool true)) ∷ []) × (r.0.is_open ≡ true)
steps-call_example =
    steps-call none (part false) (Json.bool true) (message (part false) ∷ timed_out ∷ []) refl refl
      (λ e. cc) (tt, (tt, tt))

-- The consumer asks twice before the first part comes, and then is behind.
abbrev stream : List Event
stream =
    next false ∷ next false ∷ message (part true) ∷ message (part true) ∷ message (part true) ∷ []

steps-stream_example :
    let r = steps (start none) stream in
    (yielded r.1 ++ queued r.0.msg_queue ≡ received stream)
    × IsUpToDate r.0.place r.0.msg_queue
    × (r.0.is_open ≡ true)
steps-stream_example =
    steps-stream none stream (refl, (refl, ((refl, refl), ((refl, refl), ((refl, refl), tt)))))
