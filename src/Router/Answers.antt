-- ===== src/Router/Answers.antt =====
-- The table of RPCs in flight: responses find their way back to the source of the request.
use starterm.Base.{
  String, Option, none, some, Bool, true, false, not, ◌&&◌, ◌===◌, eq_iff, eq_refl, List, [], ◌∷◌,
  ok, ok_inj, if◌then◌else◌, is_blank, text_of, throw_ne_ok, ◌≡◌, refl, sym, ap, ◌∙◌, arith,
  Bool-cases, Option-cases, inl, inr,
}
use mathlib.Core.Path.{subst}
use starterm.Base.Lists.{All}
use starterm.Base.Maps.{get, remove, get-set, get-remove}
use starterm.Json.Values.{null, bool, num, str, arr, obj}
use starterm.Events.{Subjects}
use starterm.Router.{
  WshRouter, RpcMessage, RpcData, RouteInfo, Effect, received, Branch, terminal, event, request,
  continued, response, bad, branch_of, receive, receive_event, recv_rpc_message, register_route,
  unregister_route, client_for, forward_request, nothing, route_name, star_event, other,
  forward_response, with_rpc_map, register_route_info,
}
use starterm.Router.Steps.{Call, recv, register, unregister, reconnect, call, Reaches, here, next}

abbrev pub info_of : RpcMessage → String → RouteInfo
info_of msg k = record { rpc_id = k; source_route_id = msg.source; dest_route_id = msg.route }

-- What a message of a branch makes of the entry of one RPC.
abbrev pub entry_after : String → Branch → RpcMessage → Option RouteInfo → Option RouteInfo
entry_after k request msg old =
    if is_blank msg.reqid
    then old
    else if text_of msg.reqid === k
    then some (info_of msg k)
    else old
entry_after k response msg old = if (text_of msg.resid === k) && not msg.cont then none else old
entry_after k _ msg old = old

first_of {ℓ κ} : {A : Type ℓ} {B : Type κ} {p q : A × B} → ok p ≡ ok q → p.0 ≡ q.0
first_of h = ap (λ p. p.0) (ok_inj h)

receive_event_same :
    (m : Subjects) (r : WshRouter) (d : RpcData) {p : WshRouter × List Effect}
    → receive_event m r d ≡ ok p
    → r ≡ p.0
receive_event_same m r nothing h = absurd (throw_ne_ok h)
receive_event_same m r (route_name s) h = first_of h
receive_event_same m r (star_event e) h = first_of h
receive_event_same m r (other null) h = absurd (throw_ne_ok h)
receive_event_same m r (other (bool b)) h = first_of h
receive_event_same m r (other (num n)) h = first_of h
receive_event_same m r (other (str s)) h = first_of h
receive_event_same m r (other (arr xs)) h = first_of h
receive_event_same m r (other (obj fs)) h = first_of h

forward_request_same :
    (r : WshRouter) (msg : RpcMessage) (o : Option RouteInfo) → (forward_request r msg o).0 ≡ r
forward_request_same r msg none = refl
forward_request_same r msg (some info) = refl

none_anyway {ℓ} :
    {A : Type ℓ} (b c : Bool) (x : Option A)
    → (b ≡ true → x ≡ none)
    → x ≡ (if b && c then none else x)
none_anyway true true x h = h refl
none_anyway true false x h = refl
none_anyway false c x h = refl

get-register_route_info :
    (k : String) (msg : RpcMessage) (r : WshRouter)
    → get k ((register_route_info msg.reqid msg.source msg.route r).rpc_map)
      ≡ entry_after k request msg (get k r.rpc_map)
get-register_route_info k msg r = elim (Bool-cases (is_blank msg.reqid)) [
  | inl blank ↦ rw blank refl
  | inr named ↦
      rw (named, get-set (text_of msg.reqid) k (info_of msg (text_of msg.reqid)) r.rpc_map) (same k)
]
  where
    same :
        (k : String)
        → (if text_of msg.reqid === k
            then some (info_of msg (text_of msg.reqid))
            else get k r.rpc_map)
          ≡ (if text_of msg.reqid === k then some (info_of msg k) else get k r.rpc_map)
    same k = elim (Bool-cases (text_of msg.reqid === k)) [
      | inl e ↦ rw e (ap (λ i. some (info_of msg i)) ((eq_iff (text_of msg.reqid) k).0 e))
      | inr e ↦ rw e refl
    ]

get-forward_response :
    (k : String) (msg : RpcMessage) (r : WshRouter)
    → get k ((forward_response r msg (get (text_of msg.resid) r.rpc_map)).0.rpc_map)
      ≡ entry_after k response msg (get k r.rpc_map)
get-forward_response k msg r = elim (Option-cases (get (text_of msg.resid) r.rpc_map)) [
  | inl unknown ↦ rw unknown (
      none_anyway (text_of msg.resid === k) (not msg.cont) (get k r.rpc_map)
        (λ e. subst (λ i. get i r.rpc_map ≡ none) ((eq_iff (text_of msg.resid) k).0 e) unknown))
  | inr (info, known) ↦ elim (Bool-cases msg.cont) [
    | inl open' ↦ rw (known, open') (ground arith)
    | inr shut ↦ rw (known, shut) (get-remove (text_of msg.resid) k r.rpc_map ∙ ground arith)
  ]
]

get-receive :
    (k : String) (b : Branch) (m : Subjects) (r : WshRouter) (msg : RpcMessage) {r' : WshRouter}
    {es : List Effect}
    → receive b m r msg ≡ ok (r', es)
    → get k r'.rpc_map ≡ entry_after k b msg (get k r.rpc_map)
unfolding receive
get-receive k terminal m r msg h = ap (λ q. get k q.rpc_map) (sym (first_of h))
get-receive k event m r msg h =
    ap (λ q. get k q.rpc_map) (sym (receive_event_same m r msg.payload h))
get-receive k request m r msg h =
    ap (λ q. get k q.rpc_map) (sym (first_of h)) ∙ get-register_route_info k msg r
get-receive k continued m r msg h =
    ap (λ q. get k q.rpc_map)
      (sym (first_of h) ∙ forward_request_same r msg (get (text_of msg.reqid) r.rpc_map))
get-receive k response m r msg h =
    ap (λ q. get k q.rpc_map) (sym (first_of h)) ∙ get-forward_response k msg r
get-receive k bad m r msg h = ap (λ q. get k q.rpc_map) (sym (first_of h))

-- A call that neither starts an RPC with an id nor ends it.
abbrev pub starts : String → Branch → RpcMessage → Bool
starts k request msg = text_of msg.reqid === k
starts k _ msg = false

abbrev pub ends : String → Branch → RpcMessage → Bool
ends k response msg = (text_of msg.resid === k) && not msg.cont
ends k _ msg = false

abbrev pub DoesNotStart : String → Call → Type 0
DoesNotStart k (recv m msg) = starts k (branch_of msg) msg ≡ false
DoesNotStart k _ = Unit {0}

abbrev pub DoesNotEnd : String → Call → Type 0
DoesNotEnd k (recv m msg) = ends k (branch_of msg) msg ≡ false
DoesNotEnd k _ = Unit {0}

entry_kept :
    (k : String) (b : Branch) (msg : RpcMessage) (old : Option RouteInfo)
    → starts k b msg ≡ false
    → ends k b msg ≡ false
    → entry_after k b msg old ≡ old
entry_kept k terminal msg old s e = refl
entry_kept k event msg old s e = refl
entry_kept k request msg old s e = elim (Bool-cases (is_blank msg.reqid)) [
  | inl blank ↦ rw blank refl
  | inr named ↦ rw (named, s) refl
]
entry_kept k continued msg old s e = refl
entry_kept k response msg old s e = rw e refl
entry_kept k bad msg old s e = refl

entry_gone :
    (k : String) (b : Branch) (msg : RpcMessage)
    → starts k b msg ≡ false
    → entry_after k b msg none ≡ none
entry_gone k terminal msg s = refl
entry_gone k event msg s = refl
entry_gone k request msg s = elim (Bool-cases (is_blank msg.reqid)) [
  | inl blank ↦ rw blank refl
  | inr named ↦ rw (named, s) refl
]
entry_gone k continued msg s = refl
entry_gone k response msg s = ground arith
entry_gone k bad msg s = refl

-- The entry of an RPC after one call, and after many.
get-call :
    (k : String) (c : Call) (r : WshRouter) {r' : WshRouter} {es : List Effect}
    → DoesNotStart k c
    → DoesNotEnd k c
    → call c r ≡ ok (r', es)
    → get k r'.rpc_map ≡ get k r.rpc_map
unfolding call recv_rpc_message register_route unregister_route
get-call k (recv m msg) r s e h =
    get-receive k (branch_of msg) m r msg h ∙ entry_kept k (branch_of msg) msg (get k r.rpc_map) s e
get-call k (register id c) r s e h = elim (Bool-cases (id === "sys")) [
  | inl reserved ↦ absurd (throw_ne_ok (rw reserved at h))
  | inr free ↦ ap (λ q. get k q.rpc_map) (sym (first_of (rw free at h)))
]
get-call k (unregister id) r s e h = ap (λ q. get k q.rpc_map) (sym (first_of h))
get-call k reconnect r s e h = ap (λ q. get k q.rpc_map) (sym (first_of h))

gone-call :
    (k : String) (c : Call) (r : WshRouter) {r' : WshRouter} {es : List Effect}
    → DoesNotStart k c
    → call c r ≡ ok (r', es)
    → get k r.rpc_map ≡ none
    → get k r'.rpc_map ≡ none
unfolding call recv_rpc_message register_route unregister_route
gone-call k (recv m msg) r s h g =
    get-receive k (branch_of msg) m r msg h
    ∙ ap (λ o. entry_after k (branch_of msg) msg o) g
    ∙ entry_gone k (branch_of msg) msg s
gone-call k (register id c) r s h g = elim (Bool-cases (id === "sys")) [
  | inl reserved ↦ absurd (throw_ne_ok (rw reserved at h))
  | inr free ↦ ap (λ q. get k q.rpc_map) (sym (first_of (rw free at h))) ∙ g
]
gone-call k (unregister id) r s h g = ap (λ q. get k q.rpc_map) (sym (first_of h)) ∙ g
gone-call k reconnect r s h g = ap (λ q. get k q.rpc_map) (sym (first_of h)) ∙ g

get-reached :
    (k : String) (r : WshRouter) (cs : List Call) (es : List Effect) (r' : WshRouter)
    → Reaches r cs es r'
    → All (DoesNotStart k) cs
    → All (DoesNotEnd k) cs
    → get k r'.rpc_map ≡ get k r.rpc_map
get-reached k r cs es r' (here _) s e = refl
get-reached k r cs es r' (next c _ r1 fs h {cs = ds} {fs = gs} w) (s, ss) (e, ends') =
    get-reached k r1 ds gs r' w ss ends' ∙ get-call k c r s e h

gone-reached :
    (k : String) (r : WshRouter) (cs : List Call) (es : List Effect) (r' : WshRouter)
    → Reaches r cs es r'
    → All (DoesNotStart k) cs
    → get k r.rpc_map ≡ none
    → get k r'.rpc_map ≡ none
gone-reached k r cs es r' (here _) s g = g
gone-reached k r cs es r' (next c _ r1 fs h {cs = ds} {fs = gs} w) (s, ss) g =
    gone-reached k r1 ds gs r' w ss (gone-call k c r s h g)

get-requested :
    (m : Subjects) (r : WshRouter) (q : RpcMessage) (k : String) {r' : WshRouter} {es : List Effect}
    → branch_of q ≡ request
    → q.reqid ≡ some k
    → is_blank (some k) ≡ false
    → recv_rpc_message m r q ≡ ok (r', es)
    → get k r'.rpc_map ≡ some (info_of q k)
unfolding recv_rpc_message
get-requested m r q k {r'} b i n h =
    get-receive k (branch_of q) m r q h ∙ rw (b, i, n, eq_refl k) refl

-- After a request with an id, and any calls that neither start an RPC with that id anew nor end it,
-- a response to it is received by the client of the request's source, or else upstream, and by no
-- other client.
pub response-request :
    (m m' : Subjects) (r r1 r2 : WshRouter) (q p : RpcMessage) (k : String) (cs : List Call)
    (es fs : List Effect)
    → branch_of q ≡ request
    → q.reqid ≡ some k
    → is_blank (some k) ≡ false
    → recv_rpc_message m r q ≡ ok (r1, es)
    → Reaches r1 cs fs r2
    → All (DoesNotStart k) cs
    → All (DoesNotEnd k) cs
    → branch_of p ≡ response
    → p.resid ≡ some k
    → (r3 : WshRouter) × (recv_rpc_message m' r2 p
        ≡ ok (r3, received (client_for r2 q.source) p ∷ []))
unfolding recv_rpc_message receive
response-request m m' r r1 r2 q p k cs es fs b i n h w s e b' i' =
    let known = get-reached k r1 cs fs r2 w s e ∙ get-requested m r q k b i n h in
    (
      if p.cont then r2 else with_rpc_map r2 (remove (text_of p.resid) r2.rpc_map),
      rw (b', i', known) refl,
    )

-- After the final response of an RPC, and any calls that do not start one with its id anew, a
-- response with that id is discarded: nobody receives it, and the router stays as it is.
pub response-response :
    (m m' : Subjects) (r r1 r2 : WshRouter) (p p' : RpcMessage) (k : String) (cs : List Call)
    (es fs : List Effect)
    → branch_of p ≡ response
    → p.resid ≡ some k
    → p.cont ≡ false
    → recv_rpc_message m r p ≡ ok (r1, es)
    → Reaches r1 cs fs r2
    → All (DoesNotStart k) cs
    → branch_of p' ≡ response
    → p'.resid ≡ some k
    → recv_rpc_message m' r2 p' ≡ ok (r2, [])
unfolding recv_rpc_message receive
response-response m m' r r1 r2 p p' k cs es fs b i c h w s b' i' =
    let ended = get-receive k (branch_of p) m r p h ∙ rw (b, i, c, eq_refl k) refl in
    rw (b', i', gone-reached k r1 cs fs r2 w s ended) refl
