-- ===== src/Websocket.antt =====
-- frontend/app/store/ws.ts: the connection to the server, which reconnects by itself, and the queue
-- of what is sent while it is down.
--
-- Times are milliseconds. A call returns what it does, in order; timers and the socket call back as
-- events. `byte_size` is the size of the JSON text of a message. A handler for a reconnect is a number
-- with the messages that it pushes, which is all that the two that are registered do.
pub mod Sent
pub mod Delivery
pub mod Limits
pub mod Retries
mod Tests
use starterm.Base.{
  ℕ, suc, ◌+◌, ◌-◌, ◌*◌, String, Option, none, some, Bool, true, false, not, ◌&&◌, ◌||◌, List, [],
  ◌∷◌, ◌++◌, if◌then◌else◌, ltb, get_or, Result, throw, type_error,
}
use starterm.Base.Lists.{length, get_elem?}

abbrev pub max_web_socket_send_size : ℕ
max_web_socket_send_size = 5 * 1024 * 1024

abbrev pub stable_conn_time : ℕ
stable_conn_time = 2000

pub data Timer : Type 0 where
  connects resets_count runs_queue : Timer

-- What happens outside: the socket, the timers, the handlers for a reconnect, and the callback.
pub data Effect (M : Type 0) : Type 0 where
  new_socket close_socket clear_open_timer : Effect M
  send : M → Effect M
  send_ping send_pong : Effect M
  call_handler : ℕ → Effect M
  call_back : String → Effect M
  after_ms : ℕ → Timer → Effect M

pub record WsControl (M : Type 0) : Type 0 where
  pub is_open : Bool
  pub opening : Bool
  pub reconnect_times : ℕ
  pub msg_queue : List M
  pub last_reconnect_time : ℕ
  pub no_reconnect : Bool
  pub on_open_timeout : Bool

-- The constructor, whose interval sends the pings.
abbrev pub new_ws_control : {M : Type 0} → WsControl M
new_ws_control = record {
  is_open = false;
  opening = false;
  reconnect_times = 0;
  msg_queue = [];
  last_reconnect_time = 0;
  no_reconnect = false;
  on_open_timeout = false;
}

-- The parsed text of a message from the server, by its type.
pub data Incoming : Type 0 where
  no_data ping pong : Incoming
  event_data : String → Incoming

abbrev pub timeout_arr : List ℕ
timeout_arr = 0 ∷ 0 ∷ 2 ∷ 5 ∷ 10 ∷ 10 ∷ 30 ∷ 60 ∷ []

-- The seconds before an attempt, and one where the last attempt has just been made.
abbrev pub timeout_of : ℕ → ℕ → ℕ → ℕ
timeout_of times now last =
    if ltb (now - last) 500 then 1 else get_or (get_elem? timeout_arr times) 60

module _ {M : Type 0} where
  unfoldable pub connect_now : ℕ → WsControl M → WsControl M × List (Effect M)
  connect_now now w =
      if w.is_open || w.no_reconnect
      then (w, [])
      else (record w { last_reconnect_time = now; opening = true }, new_socket ∷ [])

  unfoldable pub reconnect : Bool → ℕ → WsControl M → WsControl M × List (Effect M)
  reconnect force_close now w =
      if w.no_reconnect
      then (w, [])
      else if w.is_open
      then (w, if force_close then close_socket ∷ [] else [])
      else if ltb 20 (w.reconnect_times + 1)
      then (record w { reconnect_times = w.reconnect_times + 1 }, [])
      else (
        record w { reconnect_times = w.reconnect_times + 1 },
        after_ms (timeout_of (w.reconnect_times + 1) now w.last_reconnect_time * 1000) connects
            ∷ [],
      )

  abbrev pub and_then :
      List (Effect M) → WsControl M × List (Effect M) → WsControl M × List (Effect M)
  and_then es (w, fs) = (w, es ++ fs)

  unfoldable pub onclose : ℕ → WsControl M → WsControl M × List (Effect M)
  unfolding reconnect
  onclose now w = and_then (if w.on_open_timeout then clear_open_timer ∷ [] else []) (
      if w.is_open || w.opening
      then reconnect false now (record w { is_open = false; opening = false })
      else (w, []))

  unfoldable pub onmessage : Incoming → List (Effect M)
  onmessage no_data = []
  onmessage ping = send_pong ∷ []
  onmessage pong = []
  onmessage (event_data t) = call_back t ∷ []

  unfoldable pub sends_ping : WsControl M → List (Effect M)
  sends_ping w = if w.is_open then send_ping ∷ [] else []

  unfoldable pub shutdown : WsControl M → WsControl M × List (Effect M)
  shutdown w = (record w { no_reconnect = true }, close_socket ∷ [])

module _ {M : Type 0} (byte_size : M → ℕ) where
  unfoldable pub send_message : WsControl M → M → List (Effect M)
  send_message w m =
      if not w.is_open
      then []
      else if ltb max_web_socket_send_size (byte_size m)
      then []
      else send m ∷ []

  abbrev pub shift_and_send : WsControl M → List M → WsControl M × List (Effect M)
  shift_and_send w [] = (w, [])
  shift_and_send w (m ∷ ms) =
      (record w { msg_queue = ms }, send_message w m ++ after_ms 100 runs_queue ∷ [])

  unfoldable pub run_msg_queue : WsControl M → WsControl M × List (Effect M)
  unfolding send_message
  run_msg_queue w = if not w.is_open then (w, []) else shift_and_send w w.msg_queue

  unfoldable pub push_message : M → WsControl M → WsControl M × List (Effect M)
  unfolding send_message
  push_message m w =
      if not w.is_open
      then (record w { msg_queue = w.msg_queue ++ m ∷ [] }, [])
      else (w, send_message w m)

  unfoldable pub push_all : List M → WsControl M → WsControl M × List (Effect M)
  unfolding push_message
  push_all [] w = (w, [])
  push_all (m ∷ ms) w = and_then (push_message m w).1 (push_all ms (push_message m w).0)

  -- The handlers are called in turn, and each pushes its messages.
  unfoldable pub call_handlers : List (ℕ × List M) → WsControl M → WsControl M × List (Effect M)
  unfolding push_all
  call_handlers [] w = (w, [])
  call_handlers ((h, ms) ∷ hs) w =
      and_then (call_handler h ∷ (push_all ms w).1) (call_handlers hs (push_all ms w).0)

  abbrev pub open_now : WsControl M → WsControl M
  open_now w = record w { is_open = true; opening = false; on_open_timeout = true }

  unfoldable pub onopen : List (ℕ × List M) → WsControl M → WsControl M × List (Effect M)
  unfolding run_msg_queue call_handlers
  onopen handlers w =
      let (v, es) = call_handlers handlers (open_now w) in
      and_then (after_ms stable_conn_time resets_count ∷ es) (run_msg_queue v)

  -- Before initGlobalWS a command is dropped.
  unfoldable pub send_ws_command : M → Option (WsControl M) → Option (WsControl M) × List (Effect M)
  unfolding push_message
  send_ws_command m none = (none, [])
  send_ws_command m (some w) = let (v, es) = push_message m w in (some v, es)

-- The events: the socket opens, with what each handler for a reconnect pushes, closes and brings messages; timers fire; and the program's calls.
pub data Event (M : Type 0) : Type 0 where
  opened : List (ℕ × List M) → Event M
  closed : ℕ → Event M
  arrived : Incoming → Event M
  fired : Timer → ℕ → Event M
  ping_interval : Event M
  pushed : M → Event M
  asked_to_reconnect : Bool → ℕ → Event M
  asked_to_shut_down : Event M

module _ {M : Type 0} (byte_size : M → ℕ) where
  unfoldable pub step : WsControl M → Event M → WsControl M × List (Effect M)
  unfolding onopen onclose onmessage connect_now reconnect run_msg_queue push_message sends_ping
      shutdown
  step w (opened handlers) = onopen byte_size handlers w
  step w (closed now) = onclose now w
  step w (arrived i) = (w, onmessage i)
  step w (fired connects now) = connect_now now w
  step w (fired resets_count now) = (record w { reconnect_times = 0 }, [])
  step w (fired runs_queue now) = run_msg_queue byte_size w
  step w ping_interval = (w, sends_ping w)
  step w (pushed m) = push_message byte_size m w
  step w (asked_to_reconnect force now) = reconnect force now w
  step w asked_to_shut_down = shutdown w

  unfoldable pub steps : WsControl M → List (Event M) → WsControl M × List (Effect M)
  unfolding step
  steps w [] = (w, [])
  steps w (e ∷ es) = and_then (step w e).1 (steps (step w e).0 es)

-- addWSReconnectHandler, and removeWSReconnectHandler, whose `this` is undefined in a module.
abbrev pub add_ws_reconnect_handler : ℕ → List ℕ → List ℕ
add_ws_reconnect_handler h hs = hs ++ h ∷ []

abbrev pub remove_ws_reconnect_handler : ℕ → List ℕ → Result (List ℕ)
remove_ws_reconnect_handler h hs = throw type_error
