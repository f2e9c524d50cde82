-- ===== src/Websocket/Tests.antt =====
-- Runs of the connection, with numbers for messages and ten bytes to each unit.
use starterm.Base.{
  none, ℕ, ◌*◌, ◌≤◌, false, List, [], ◌∷◌, ◌++◌, ◌≡◌, refl, arith, throw, type_error,
}
use starterm.Base.Lists.{All}
use starterm.Websocket.{
  connects, resets_count, runs_queue, new_socket, clear_open_timer, send, call_handler, after_ms,
  WsControl, new_ws_control, send_ws_command, reconnect, Event, opened, closed, fired, pushed,
  asked_to_reconnect, step, steps, onopen, onclose, run_msg_queue, push_message, send_message,
  call_handlers, push_all, connect_now, add_ws_reconnect_handler, remove_ws_reconnect_handler,
}
use starterm.Websocket.Sent.{sent, rounds, all_pushed}
use starterm.Websocket.Delivery.{sent-steps, fire_rounds, Fits}
use starterm.Websocket.Limits.{sent-Fits}
use starterm.Websocket.Retries.{attempts, attempts-steps}

abbrev size : ℕ → ℕ
size m = 10 * m

abbrev down : WsControl ℕ
down = new_ws_control

abbrev events : List (Event ℕ)
events =
    asked_to_reconnect false 1000
    ∷ fired connects 1000
    ∷ closed 1001
    ∷ fired connects 2001
    ∷ pushed 7
    ∷ opened ((1, 8 ∷ []) ∷ [])
    ∷ pushed 900000
    ∷ closed 3000
    ∷ []

-- The first attempt is made at once, the next after a second since the last one is recent.
events_effects :
    (steps size down events).1
    ≡ after_ms 0 connects
      ∷ new_socket
      ∷ after_ms 1000 connects
      ∷ new_socket
      ∷ after_ms 2000 resets_count
      ∷ call_handler 1
      ∷ send 8
      ∷ send 7
      ∷ after_ms 100 runs_queue
      ∷ clear_open_timer
      ∷ after_ms 5000 connects
      ∷ []
unfolding steps step onopen call_handlers push_all onclose run_msg_queue push_message send_message
    reconnect connect_now
events_effects = refl

-- A message that is pushed while others wait is sent before them.
overtakes :
    sent
      (steps size down
        (all_pushed (1 ∷ 2 ∷ []) ++ opened [] ∷ pushed 3 ∷ fired runs_queue 0 ∷ [])).1
    ≡ 1 ∷ 3 ∷ 2 ∷ []
unfolding steps step onopen call_handlers push_all run_msg_queue push_message send_message
overtakes = refl

too_early : send_ws_command size 4 none ≡ (none, [])
unfolding send_ws_command
too_early = refl

removed_handler : remove_ws_reconnect_handler 1 (add_ws_reconnect_handler 1 []) ≡ throw type_error
removed_handler = refl

sent-steps_example :
    let r = steps size down (all_pushed (1 ∷ 2 ∷ 3 ∷ []) ++ opened ((4, 9 ∷ []) ∷ []) ∷ []) in
    let s = fire_rounds size 5 (rounds r.1) r.0 in
    (sent (r.1 ++ s.1) ≡ 9 ∷ 1 ∷ 2 ∷ 3 ∷ []) × (s.0.msg_queue ≡ [])
sent-steps_example =
    sent-steps size down ((4, 9 ∷ []) ∷ []) 1 (2 ∷ 3 ∷ []) 5 refl refl
      (omega arith, (omega arith, (omega arith, tt))) (omega arith, tt) (omega arith)

sent-Fits_example : All (Fits size) (sent (steps size down events).1)
sent-Fits_example = sent-Fits size down events

attempts-steps_example : attempts (steps size down events).1 ≤ 20
attempts-steps_example =
    attempts-steps size down events (tt, (tt, (tt, (tt, (tt, (tt, (tt, (tt, tt))))))))
