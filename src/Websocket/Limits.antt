-- ===== src/Websocket/Limits.antt =====
-- What is never handed to the socket.
use starterm.Base.{
  ℕ, ◌+◌, Bool, true, false, not, ◌||◌, List, [], ◌∷◌, ◌++◌, if◌then◌else◌, ltb, sym, arith,
  if_both,
}
use mathlib.Core.Path.{subst}
use starterm.Base.Lists.{All, All-append}
use starterm.Websocket.{
  max_web_socket_send_size, connects, resets_count, runs_queue, Effect, close_socket,
  clear_open_timer, after_ms, WsControl, no_data, ping, pong, event_data, connect_now, reconnect,
  onclose, onmessage, sends_ping, shutdown, send_message, shift_and_send, run_msg_queue,
  push_message, push_all, call_handlers, open_now, onopen, Event, opened, closed, arrived, fired,
  ping_interval, pushed, asked_to_reconnect, asked_to_shut_down, step, steps,
}
use starterm.Websocket.Sent.{sent, sent-append}
use starterm.Websocket.Delivery.{Fits}

module _ {M : Type 0} (byte_size : M → ℕ) where
  -- Every message in a list of effects is small enough.
  abbrev Limited : WsControl M × List (Effect M) → Type 0
  Limited r = All (Fits byte_size) (sent r.1)

  abbrev LimitedEffects : List (Effect M) → Type 0
  LimitedEffects es = All (Fits byte_size) (sent es)

  append-Limited :
      (es fs : List (Effect M)) → LimitedEffects es → LimitedEffects fs → LimitedEffects (es ++ fs)
  append-Limited es fs h k =
      subst (All (Fits byte_size)) (sym (sent-append es fs))
        (All-append (Fits byte_size) (sent es) (sent fs) h k)

  reconnect-Limited : (force : Bool) (now : ℕ) (w : WsControl M) → Limited (reconnect force now w)
  unfolding reconnect
  reconnect-Limited force now w =
      if_both Limited w.no_reconnect (λ h. tt)
        (λ h.
          if_both Limited w.is_open (λ k. closes force)
            (λ k. if_both Limited (ltb 20 (w.reconnect_times + 1)) (λ l. tt) (λ l. tt)))
    where
      closes : (b : Bool) → LimitedEffects (if b then close_socket ∷ [] else [])
      closes true = tt
      closes false = tt

  onclose-Limited : (now : ℕ) (w : WsControl M) → Limited (onclose now w)
  unfolding onclose
  onclose-Limited now w =
      append-Limited (if w.on_open_timeout then clear_open_timer ∷ [] else [])
        (if w.is_open || w.opening
          then reconnect false now (record w { is_open = false; opening = false })
          else (w, [])).1
        (if_both LimitedEffects w.on_open_timeout (λ h. tt) (λ h. tt))
        (if_both Limited (w.is_open || w.opening)
          (λ h. reconnect-Limited false now (record w { is_open = false; opening = false }))
          (λ h. tt))

  send_message-Limited : (w : WsControl M) (m : M) → LimitedEffects (send_message byte_size w m)
  unfolding send_message
  send_message-Limited w m =
      if_both LimitedEffects (not w.is_open) (λ h. tt)
        (λ h.
          if_both LimitedEffects (ltb max_web_socket_send_size (byte_size m)) (λ k. tt)
            (λ k. (ground arith, tt)))

  run_msg_queue-Limited : (w : WsControl M) → Limited (run_msg_queue byte_size w)
  unfolding run_msg_queue
  run_msg_queue-Limited w = if_both Limited (not w.is_open) (λ h. tt) (λ h. shifts w.msg_queue)
    where
      shifts : (q : List M) → Limited (shift_and_send byte_size w q)
      shifts [] = tt
      shifts (m ∷ q) =
          append-Limited (send_message byte_size w m) (after_ms 100 runs_queue ∷ [])
            (send_message-Limited w m) tt

  push_message-Limited : (m : M) (w : WsControl M) → Limited (push_message byte_size m w)
  unfolding push_message
  push_message-Limited m w =
      if_both Limited (not w.is_open) (λ h. tt) (λ h. send_message-Limited w m)

  push_all-Limited : (ms : List M) (w : WsControl M) → Limited (push_all byte_size ms w)
  unfolding push_all
  push_all-Limited [] w = tt
  push_all-Limited (m ∷ ms) w =
      let (v, es) = push_message byte_size m w in
      append-Limited es (push_all byte_size ms v).1 (push_message-Limited m w)
        (push_all-Limited ms v)

  call_handlers-Limited :
      (hs : List (ℕ × List M)) (w : WsControl M) → Limited (call_handlers byte_size hs w)
  unfolding call_handlers
  call_handlers-Limited [] w = tt
  call_handlers-Limited ((h, ms) ∷ hs) w =
      let (v, es) = push_all byte_size ms w in
      append-Limited es (call_handlers byte_size hs v).1 (push_all-Limited ms w)
        (call_handlers-Limited hs v)

  step-Limited : (w : WsControl M) (e : Event M) → Limited (step byte_size w e)
  unfolding step onopen onmessage sends_ping shutdown connect_now
  step-Limited w (opened hs) =
      let (v, es) = call_handlers byte_size hs (open_now byte_size w) in
      append-Limited es (run_msg_queue byte_size v).1
        (call_handlers-Limited hs (open_now byte_size w)) (run_msg_queue-Limited v)
  step-Limited w (closed now) = onclose-Limited now w
  step-Limited w (arrived no_data) = tt
  step-Limited w (arrived ping) = tt
  step-Limited w (arrived pong) = tt
  step-Limited w (arrived (event_data t)) = tt
  step-Limited w (fired connects now) =
      if_both Limited (w.is_open || w.no_reconnect) (λ h. tt) (λ h. tt)
  step-Limited w (fired resets_count now) = tt
  step-Limited w (fired runs_queue now) = run_msg_queue-Limited w
  step-Limited w ping_interval = if_both LimitedEffects w.is_open (λ h. tt) (λ h. tt)
  step-Limited w (pushed m) = push_message-Limited m w
  step-Limited w (asked_to_reconnect f now) = reconnect-Limited f now w
  step-Limited w asked_to_shut_down = tt

  -- Whatever happens, every message that is handed to the socket has at most the maximal size: one
  -- that is larger is dropped, also where it waited in the queue.
  pub sent-Fits :
      (w : WsControl M) (es : List (Event M)) → All (Fits byte_size) (sent (steps byte_size w es).1)
  unfolding steps
  sent-Fits w [] = tt
  sent-Fits w (e ∷ es) =
      append-Limited (step byte_size w e).1 (steps byte_size (step byte_size w e).0 es).1
        (step-Limited w e) (sent-Fits (step byte_size w e).0 es)
