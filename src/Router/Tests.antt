-- ===== src/Router/Tests.antt =====
-- A concrete router with its messages, and the theorems about routing applied to them.
use starterm.Base.{none, some, true, false, List, [], ◌∷◌, ◌≡◌, refl, ok}
use starterm.Base.Maps.{get, set, remove}
use starterm.Base.Lists.{All}
use starterm.Router.{
  WshRouter, RpcMessage, Effect, received, announcement, nothing, request, response, branch_of,
  recv_rpc_message, receive, client_for, register_route,
}
use starterm.Router.Steps.{Call, recv, register, call, Reaches, here, next}
use starterm.Router.Answers.{DoesNotStart, DoesNotEnd, info_of, response-request, response-response}
use starterm.Router.Announcements.{believes, has_route, believes-Reaches}

-- Client 5 asks the server, which answers in two parts while client 7 comes.
abbrev question : RpcMessage
question = record {
  command = some "getmeta";
  reqid = some "k";
  resid = none;
  route = some "stard";
  source = some "feblock:1";
  cont = false;
  payload = nothing;
}

abbrev part : RpcMessage
part = record {
  command = none;
  reqid = none;
  resid = some "k";
  route = none;
  source = none;
  cont = true;
  payload = nothing;
}

abbrev last : RpcMessage
last = record {
  command = none;
  reqid = none;
  resid = some "k";
  route = none;
  source = none;
  cont = false;
  payload = nothing;
}

abbrev idle : WshRouter
idle = record { route_map = ("feblock:1", 5) ∷ []; upstream_client = 0; rpc_map = [] }

abbrev waiting : WshRouter
waiting = record {
  route_map = ("feblock:1", 5) ∷ [];
  upstream_client = 0;
  rpc_map = ("k", info_of question "k") ∷ [];
}

abbrev joined : WshRouter
joined = record {
  route_map = ("feblock:1", 5) ∷ ("tab:1", 7) ∷ [];
  upstream_client = 0;
  rpc_map = ("k", info_of question "k") ∷ [];
}

abbrev over : WshRouter
over = record {
  route_map = ("feblock:1", 5) ∷ ("tab:1", 7) ∷ [];
  upstream_client = 0;
  rpc_map = [];
}

asks : recv_rpc_message [] idle question ≡ ok (waiting, received 0 question ∷ [])
unfolding recv_rpc_message branch_of receive set get client_for
asks = refl

joins :
    call (register "tab:1" 7) waiting
    ≡ ok (joined, received 0 (announcement "routeannounce" "tab:1") ∷ [])
unfolding call register_route set
joins = refl

first : call (recv [] part) joined ≡ ok (joined, received 5 part ∷ [])
unfolding call recv_rpc_message branch_of receive get client_for
first = refl

second : recv_rpc_message [] joined last ≡ ok (over, received 5 last ∷ [])
unfolding recv_rpc_message branch_of receive get remove client_for
second = refl

abbrev between : List Call
between = register "tab:1" 7 ∷ recv [] part ∷ []

abbrev told : List Effect
told = received 0 (announcement "routeannounce" "tab:1") ∷ received 5 part ∷ []

on_the_way : Reaches waiting between told joined
on_the_way =
    next (register "tab:1" 7) waiting joined
      (received 0 (announcement "routeannounce" "tab:1") ∷ []) joins
      (next (recv [] part) joined joined (received 5 part ∷ []) first (here joined))

starts_none : All (DoesNotStart "k") between
unfolding branch_of
starts_none = (tt, (refl, tt))

ends_none : All (DoesNotEnd "k") between
unfolding branch_of
ends_none = (tt, (refl, tt))

asks_kind : branch_of question ≡ request
unfolding branch_of
asks_kind = refl

last_kind : branch_of last ≡ response
unfolding branch_of
last_kind = refl

response-request_example :
    (r : WshRouter) × (recv_rpc_message [] joined last
      ≡ ok (r, received (client_for joined (some "feblock:1")) last ∷ []))
response-request_example =
    response-request [] [] idle waiting joined question last "k" between (received 0 question ∷ [])
      told asks_kind refl refl asks on_the_way starts_none ends_none last_kind refl

response-response_example : recv_rpc_message [] over last ≡ ok (over, [])
response-response_example =
    response-response [] [] joined over over last last "k" [] (received 5 last ∷ []) [] last_kind
      refl refl second (here over) tt last_kind refl

believes-Reaches_example :
    believes 0 "tab:1" (has_route waiting "tab:1") told ≡ has_route joined "tab:1"
believes-Reaches_example = believes-Reaches waiting joined between told on_the_way "tab:1"
