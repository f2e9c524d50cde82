-- ===== src/Router.antt =====
-- frontend/app/store/wshrouter.ts: the router of RPC messages between the clients of the frontend
-- and the one upstream.
--
-- A client is a number that names the object. What a call makes clients receive, and the handlers
-- that it calls, are a list in order; a client that calls the router back does so afterwards. The
-- constructor refuses a missing upstream client and nothing unsets it, so that it is not optional
-- here, and the later tests for it are left out.
pub mod Steps
pub mod Answers
pub mod Announcements
mod Tests
use starterm.Base.{
  ℕ, String, Option, none, some, Bool, true, false, ◌||◌, ◌===◌, List, [], ◌∷◌, if◌then◌else◌,
  is_blank, text_of, Result, ok, throw, type_error, reserved_route, no_upstream,
}
use starterm.Base.Maps.{Map, get, set, remove}
use starterm.Json.Values.{Json, null}
use starterm.Events.{StarEvent, Subjects, handle_star_event}

pub record RouteInfo : Type 0 where
  pub rpc_id : String
  pub source_route_id : Option String
  pub dest_route_id : Option String

pub data RpcData : Type 0 where
  nothing : RpcData
  route_name : String → RpcData
  star_event : StarEvent → RpcData
  other : Json → RpcData

pub record RpcMessage : Type 0 where
  pub command : Option String
  pub reqid : Option String
  pub resid : Option String
  pub route : Option String
  pub source : Option String
  pub cont : Bool
  pub payload : RpcData

pub record WshRouter : Type 0 where
  pub route_map : Map ℕ
  pub upstream_client : ℕ
  pub rpc_map : Map RouteInfo

pub data Effect : Type 0 where
  received : ℕ → RpcMessage → Effect
  called : ℕ → StarEvent → Effect

-- The constructor.
abbrev pub new_wsh_router : Option ℕ → Result WshRouter
new_wsh_router none = throw no_upstream
new_wsh_router (some u) = ok (record { route_map = []; upstream_client = u; rpc_map = [] })

abbrev pub announcement : String → String → RpcMessage
announcement c r = record {
  command = some c;
  reqid = none;
  resid = none;
  route = none;
  source = some r;
  cont = false;
  payload = route_name r;
}

unfoldable pub reannounce : ℕ → Map ℕ → List Effect
reannounce u [] = []
reannounce u ((r, c) ∷ m) = received u (announcement "routeannounce" r) ∷ reannounce u m

abbrev pub reannounce_routes : WshRouter → List Effect
reannounce_routes r = reannounce r.upstream_client r.route_map

-- The client of a route, or the one upstream.
abbrev pub find_client : Option String → Map ℕ → Option ℕ
find_client none m = none
find_client (some d) m = get d m

unfoldable pub client_for : WshRouter → Option String → ℕ
client_for r d = elim (find_client d r.route_map) [ none ↦ r.upstream_client | some c ↦ c ]

abbrev pub send_routed_message : WshRouter → RpcMessage → Option String → List Effect
send_routed_message r msg d = received (client_for r d) msg ∷ []

abbrev pub with_rpc_map : WshRouter → Map RouteInfo → WshRouter
with_rpc_map r m = record {
  route_map = r.route_map;
  upstream_client = r.upstream_client;
  rpc_map = m;
}

abbrev pub with_route_map : WshRouter → Map ℕ → WshRouter
with_route_map r m = record {
  route_map = m;
  upstream_client = r.upstream_client;
  rpc_map = r.rpc_map;
}

abbrev pub register_route_info :
    Option String → Option String → Option String → WshRouter → WshRouter
register_route_info reqid s d r =
    if is_blank reqid
    then r
    else with_rpc_map r (
        set (text_of reqid)
          (record { rpc_id = text_of reqid; source_route_id = s; dest_route_id = d }) r.rpc_map)

-- The branches of recvRpcMessage, by their tests in order.
pub data Branch : Type 0 where
  terminal event request continued response bad : Branch

abbrev pub is_command : String → Option String → Bool
is_command c none = false
is_command c (some d) = d === c

unfoldable pub branch_of : RpcMessage → Branch
branch_of msg =
    if is_command "routeannounce" msg.command || is_command "routeunannounce" msg.command
    then terminal
    else if is_command "eventrecv" msg.command
    then event
    else if is_blank msg.command
    then if is_blank msg.reqid then if is_blank msg.resid then bad else response else continued
    else request

abbrev pub calls : List ℕ → StarEvent → List Effect
calls [] e = []
calls (f ∷ fs) e = called f e ∷ calls fs e

-- handleStarEvent(msg.data): without data it fails, and other data names no event.
abbrev pub receive_event : Subjects → WshRouter → RpcData → Result (WshRouter × List Effect)
receive_event m r nothing = throw type_error
receive_event m r (route_name s) = ok (r, [])
receive_event m r (star_event e) = ok (r, calls (handle_star_event m e) e)
receive_event m r (other null) = throw type_error
receive_event m r (other v) = ok (r, [])

abbrev pub forward_request : WshRouter → RpcMessage → Option RouteInfo → WshRouter × List Effect
forward_request r msg none = (r, [])
forward_request r msg (some info) = (r, send_routed_message r msg info.dest_route_id)

abbrev pub forward_response : WshRouter → RpcMessage → Option RouteInfo → WshRouter × List Effect
forward_response r msg none = (r, [])
forward_response r msg (some info) = (
  if msg.cont then r else with_rpc_map r (remove (text_of msg.resid) r.rpc_map),
  send_routed_message r msg info.source_route_id,
)

unfoldable pub receive :
    Branch → Subjects → WshRouter → RpcMessage → Result (WshRouter × List Effect)
receive terminal m r msg = ok (r, [])
receive event m r msg = receive_event m r msg.payload
receive request m r msg =
    let r' = register_route_info msg.reqid msg.source msg.route r in
    ok (r', send_routed_message r' msg msg.route)
receive continued m r msg = ok (forward_request r msg (get (text_of msg.reqid) r.rpc_map))
receive response m r msg = ok (forward_response r msg (get (text_of msg.resid) r.rpc_map))
receive bad m r msg = ok (r, [])

unfoldable pub recv_rpc_message :
    Subjects → WshRouter → RpcMessage → Result (WshRouter × List Effect)
unfolding branch_of receive
recv_rpc_message m r msg = receive (branch_of msg) m r msg

unfoldable pub register_route : String → ℕ → WshRouter → Result (WshRouter × List Effect)
register_route id c r =
    if id === "sys"
    then throw reserved_route
    else ok (
      with_route_map r (set id c r.route_map),
      received r.upstream_client (announcement "routeannounce" id) ∷ [],
    )

unfoldable pub unregister_route : String → WshRouter → WshRouter × List Effect
unregister_route id r = (
  with_route_map r (remove id r.route_map),
  received r.upstream_client (announcement "routeunannounce" id) ∷ [],
)
