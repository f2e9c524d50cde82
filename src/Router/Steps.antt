-- ===== src/Router/Steps.antt =====
-- frontend/app/store/wshrouter.ts: the router over any sequence of its calls that do not throw.
use starterm.Base.{ℕ, String, List, [], ◌∷◌, ◌++◌, Result, ok, ◌≡◌}
use starterm.Events.{Subjects}
use starterm.Router.{
  WshRouter, RpcMessage, Effect, recv_rpc_message, register_route, unregister_route,
  reannounce_routes,
}

pub data Call : Type 0 where
  recv : Subjects → RpcMessage → Call
  register : String → ℕ → Call
  unregister : String → Call
  reconnect : Call

unfoldable pub call : Call → WshRouter → Result (WshRouter × List Effect)
unfolding recv_rpc_message register_route unregister_route
call (recv m msg) r = recv_rpc_message m r msg
call (register id c) r = register_route id c r
call (unregister id) r = ok (unregister_route id r)
call reconnect r = ok (r, reannounce_routes r)

-- The calls that lead from one router to another, with what they made happen.
pub data Reaches : WshRouter → List Call → List Effect → WshRouter → Type 0 where
  here : (r : WshRouter) → Reaches r [] [] r
  next :
      (c : Call) (r r' : WshRouter) (es : List Effect)
      → call c r ≡ ok (r', es)
      → {cs : List Call} {fs : List Effect} {r'' : WshRouter} → Reaches r' cs fs r''
      → Reaches r (c ∷ cs) (es ++ fs) r''
