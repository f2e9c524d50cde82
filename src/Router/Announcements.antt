-- ===== src/Router/Announcements.antt =====
-- What the upstream client is told of the routes.
use starterm.Base.{
  ℕ, String, Option, none, some, Bool, true, false, ◌||◌, ◌&&◌, ◌===◌, List, [], ◌∷◌, ◌++◌, ok,
  ok_inj, if◌then◌else◌, is_defined, is_blank, nat_eq, text_of, throw_ne_ok, ◌≡◌, refl, sym, ap,
  ◌∙◌, arith, Bool-cases, inl, inr,
}
use mathlib.Core.Path.{subst}
use starterm.Base.Maps.{Map, get, get-set, get-remove}
use starterm.Json.Values.{null, bool, num, str, arr, obj}
use starterm.Events.{StarEvent, Subjects, handle_star_event}
use starterm.Router.{
  WshRouter, RpcMessage, RpcData, RouteInfo, Effect, received, called, Branch, terminal, event,
  request, continued, response, bad, branch_of, receive, receive_event, is_command,
  recv_rpc_message, register_route, unregister_route, client_for, calls, nothing, route_name,
  star_event, other, forward_request, forward_response, register_route_info, reannounce,
  announcement,
}
use starterm.Router.Steps.{Call, recv, register, unregister, reconnect, call, Reaches, here, next}

-- Whether a client believes a route to be there, after it has received what it did.
abbrev pub hears : ℕ → String → Bool → Effect → Bool
hears u k b (called f e) = b
hears u k b (received c msg) =
    if nat_eq c u && is_command k msg.source
    then if is_command "routeannounce" msg.command
      then true
      else if is_command "routeunannounce" msg.command
      then false
      else b
    else b

abbrev pub believes : ℕ → String → Bool → List Effect → Bool
believes u k b [] = b
believes u k b (e ∷ es) = believes u k (hears u k b e) es

abbrev pub has_route : WshRouter → String → Bool
has_route r k = is_defined (get k r.route_map)

believes-append :
    (u : ℕ) (k : String) (b : Bool) (es fs : List Effect)
    → believes u k b (es ++ fs) ≡ believes u k (believes u k b es) fs
believes-append u k b [] fs = refl
believes-append u k b (e ∷ es) fs = believes-append u k (hears u k b e) es fs

hears-announcement :
    (u : ℕ) (k i : String) (b : Bool)
    → hears u k b (received u (announcement "routeannounce" i)) ≡ (if i === k then true else b)
hears-announcement u k i b = ground arith

hears-withdrawal :
    (u : ℕ) (k i : String) (b : Bool)
    → hears u k b (received u (announcement "routeunannounce" i)) ≡ (if i === k then false else b)
hears-withdrawal u k i b = ground arith

believes-reannounce :
    (u : ℕ) (k : String) (b : Bool) (m : Map ℕ)
    → believes u k b (reannounce u m) ≡ (b || is_defined (get k m))
unfolding reannounce get
believes-reannounce u k b [] = ground arith
believes-reannounce u k b ((i, c) ∷ m) =
    ap (λ x. believes u k x (reannounce u m)) (hears-announcement u k i b)
    ∙ believes-reannounce u k (if i === k then true else b) m
    ∙ ground arith

-- A message that is no news of a route.
abbrev is_news : RpcMessage → Bool
is_news msg = is_command "routeannounce" msg.command || is_command "routeunannounce" msg.command

hears_other :
    (u : ℕ) (k : String) (b : Bool) (c : ℕ) (msg : RpcMessage)
    → is_news msg ≡ false
    → hears u k b (received c msg) ≡ b
hears_other u k b c msg h = ground arith

believes-calls :
    (u : ℕ) (k : String) (b : Bool) (fs : List ℕ) (e : StarEvent) → believes u k b (calls fs e) ≡ b
believes-calls u k b [] e = refl
believes-calls u k b (f ∷ fs) e = believes-calls u k b fs e

-- Calls that leave the routes and what is believed of them alone.
abbrev Leaves : WshRouter → WshRouter × List Effect → Type 0
Leaves r p =
    (p.0.route_map ≡ r.route_map)
    × (p.0.upstream_client ≡ r.upstream_client)
    × ((u : ℕ) (k : String) (b : Bool) → believes u k b p.1 ≡ b)

Leaves-event :
    (m : Subjects) (r : WshRouter) (d : RpcData) {p : WshRouter × List Effect}
    → receive_event m r d ≡ ok p
    → Leaves r p
Leaves-event m r nothing h = absurd (throw_ne_ok h)
Leaves-event m r (route_name s) h = subst (Leaves r) (ok_inj h) (refl, refl, λ u k b. refl)
Leaves-event m r (star_event e) h =
    subst (Leaves r) (ok_inj h)
      (refl, refl, λ u k b. believes-calls u k b (handle_star_event m e) e)
Leaves-event m r (other null) h = absurd (throw_ne_ok h)
Leaves-event m r (other (bool b)) h = subst (Leaves r) (ok_inj h) (refl, refl, λ u k b. refl)
Leaves-event m r (other (num n)) h = subst (Leaves r) (ok_inj h) (refl, refl, λ u k b. refl)
Leaves-event m r (other (str s)) h = subst (Leaves r) (ok_inj h) (refl, refl, λ u k b. refl)
Leaves-event m r (other (arr xs)) h = subst (Leaves r) (ok_inj h) (refl, refl, λ u k b. refl)
Leaves-event m r (other (obj fs)) h = subst (Leaves r) (ok_inj h) (refl, refl, λ u k b. refl)

Leaves-request :
    (r : WshRouter) (msg : RpcMessage) (o : Option RouteInfo)
    → is_news msg ≡ false
    → Leaves r (forward_request r msg o)
Leaves-request r msg none h = (refl, refl, λ u k b. refl)
Leaves-request r msg (some info) h =
    (refl, refl, λ u k b. hears_other u k b (client_for r info.dest_route_id) msg h)

Leaves-response :
    (r : WshRouter) (msg : RpcMessage) (o : Option RouteInfo)
    → is_news msg ≡ false
    → Leaves r (forward_response r msg o)
Leaves-response r msg none h = (refl, refl, λ u k b. refl)
Leaves-response r msg (some info) h = elim (Bool-cases msg.cont) [
  | inl open' ↦
      rw open' (refl, refl, λ u k b. hears_other u k b (client_for r info.source_route_id) msg h)
  | inr shut ↦
      rw shut (refl, refl, λ u k b. hears_other u k b (client_for r info.source_route_id) msg h)
]

register_route_info_routes :
    (r : WshRouter) (msg : RpcMessage)
    → ((register_route_info msg.reqid msg.source msg.route r).route_map ≡ r.route_map)
      × ((register_route_info msg.reqid msg.source msg.route r).upstream_client ≡ r.upstream_client)
register_route_info_routes r msg = elim (Bool-cases (is_blank msg.reqid)) [
  | inl blank ↦ rw blank (refl, refl)
  | inr named ↦ rw named (refl, refl)
]

Leaves-receive :
    (c : Branch) (m : Subjects) (r : WshRouter) (msg : RpcMessage) {p : WshRouter × List Effect}
    → is_news msg ≡ false
    → receive c m r msg ≡ ok p
    → Leaves r p
unfolding receive
Leaves-receive terminal m r msg n h = subst (Leaves r) (ok_inj h) (refl, refl, λ u k b. refl)
Leaves-receive event m r msg n h = Leaves-event m r msg.payload h
Leaves-receive request m r msg n h =
    let (same_m, same_u) = register_route_info_routes r msg in
    subst (Leaves r) (ok_inj h) (
      same_m,
      same_u,
      λ u k b.
          hears_other u k b
            (client_for (register_route_info msg.reqid msg.source msg.route r) msg.route) msg n,
    )
Leaves-receive continued m r msg n h =
    subst (Leaves r) (ok_inj h) (Leaves-request r msg (get (text_of msg.reqid) r.rpc_map) n)
Leaves-receive response m r msg n h =
    subst (Leaves r) (ok_inj h) (Leaves-response r msg (get (text_of msg.resid) r.rpc_map) n)
Leaves-receive bad m r msg n h = subst (Leaves r) (ok_inj h) (refl, refl, λ u k b. refl)

-- One call, for the upstream client.
abbrev Tells : WshRouter → WshRouter × List Effect → Type 0
Tells r p =
    (p.0.upstream_client ≡ r.upstream_client)
    × ((k : String) → believes r.upstream_client k (has_route r k) p.1 ≡ has_route p.0 k)

Tells-Leaves : (r : WshRouter) (p : WshRouter × List Effect) → Leaves r p → Tells r p
Tells-Leaves r p (same_m, same_u, quiet) = (
  same_u,
  λ k. quiet r.upstream_client k (has_route r k) ∙ ap (λ m. is_defined (get k m)) (sym same_m),
)

Tells-recv :
    (m : Subjects) (r : WshRouter) (msg : RpcMessage) {p : WshRouter × List Effect}
    → recv_rpc_message m r msg ≡ ok p
    → Tells r p
unfolding recv_rpc_message branch_of receive
Tells-recv m r msg {p} h = elim (Bool-cases (is_news msg)) [
  | inl news ↦ subst (Tells r) (ok_inj (rw news at h)) (refl, λ k. refl)
  | inr no_news ↦ Tells-Leaves r p (Leaves-receive (branch_of msg) m r msg no_news h)
]

Tells-call : (c : Call) (r : WshRouter) {p : WshRouter × List Effect} → call c r ≡ ok p → Tells r p
unfolding call register_route unregister_route
Tells-call (recv m msg) r h = Tells-recv m r msg h
Tells-call (register id c) r h = elim (Bool-cases (id === "sys")) [
  | inl reserved ↦ absurd (throw_ne_ok (rw reserved at h))
  | inr free ↦ subst (Tells r) (ok_inj (rw free at h)) (
    refl,
    λ k.
        hears-announcement r.upstream_client k id (has_route r k)
        ∙ rw (get-set id k c r.route_map) (ground arith),
  )
]
Tells-call (unregister id) r h = subst (Tells r) (ok_inj h) (
  refl,
  λ k.
      hears-withdrawal r.upstream_client k id (has_route r k)
      ∙ rw (get-remove id k r.route_map) (ground arith),
)
Tells-call reconnect r h =
    subst (Tells r) (ok_inj h) (
      refl,
      λ k. believes-reannounce r.upstream_client k (has_route r k) r.route_map ∙ ground arith,
    )

-- Whatever calls are made, one who knows the routes of the first router and listens to what the
-- upstream client receives knows the routes of the last.
pub believes-Reaches :
    (r r' : WshRouter) (cs : List Call) (es : List Effect)
    → Reaches r cs es r'
    → (k : String) → believes r.upstream_client k (has_route r k) es ≡ has_route r' k
believes-Reaches r r' cs es (here _) k = refl
believes-Reaches r r' cs es (next c _ r1 fs h {cs = ds} {fs = gs} w) k =
    let (same_u, told) = Tells-call c r h in
    believes-append r.upstream_client k (has_route r k) fs gs
    ∙ ap (λ b. believes r.upstream_client k b gs) (told k)
    ∙ ap (λ u. believes u k (has_route r1 k) gs) (sym same_u)
    ∙ believes-Reaches r1 r' ds gs w k
