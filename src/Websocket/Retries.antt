-- ===== src/Websocket/Retries.antt =====
-- How often the connection is tried again, and what is never sent.
use starterm.Base.{
  ℕ, ◌+◌, ◌≤◌, Bool, true, false, not, ◌||◌, List, [], ◌∷◌, ◌++◌, if◌then◌else◌, ltb, ◌≡◌, refl,
  arith, if_both, ◌-◌,
}
use starterm.Base.Lists.{All}
use starterm.Websocket.{
  max_web_socket_send_size, stable_conn_time, connects, resets_count, runs_queue, Effect,
  new_socket, close_socket, clear_open_timer, send, send_ping, send_pong, call_handler, call_back,
  after_ms, WsControl, no_data, ping, pong, event_data, connect_now, reconnect, and_then, onclose,
  onmessage, sends_ping, shutdown, send_message, shift_and_send, run_msg_queue, push_message,
  push_all, call_handlers, open_now, onopen, Event, opened, closed, arrived, fired, ping_interval,
  pushed, asked_to_reconnect, asked_to_shut_down, step, steps,
}

-- The attempts to connect that are put off to a timer.
abbrev is_attempt : {M : Type 0} → Effect M → ℕ
is_attempt (after_ms t connects) = 1
is_attempt (after_ms t resets_count) = 0
is_attempt (after_ms t runs_queue) = 0
is_attempt new_socket = 0
is_attempt close_socket = 0
is_attempt clear_open_timer = 0
is_attempt (send m) = 0
is_attempt send_ping = 0
is_attempt send_pong = 0
is_attempt (call_handler h) = 0
is_attempt (call_back t) = 0

abbrev pub attempts : {M : Type 0} → List (Effect M) → ℕ
attempts [] = 0
attempts (e ∷ es) = is_attempt e + attempts es

attempts-append :
    {M : Type 0} (es fs : List (Effect M)) → attempts (es ++ fs) ≡ attempts es + attempts fs
attempts-append [] fs = omega arith
attempts-append (e ∷ es) fs = omega (arith, attempts-append es fs)

-- The connection has not been stable: the timer that resets the count has not fired.
abbrev pub IsUnstable : {M : Type 0} → Event M → Type 0
IsUnstable (fired resets_count now) = ⊥
IsUnstable (fired connects now) = Unit {0}
IsUnstable (fired runs_queue now) = Unit {0}
IsUnstable (opened hs) = Unit {0}
IsUnstable (closed now) = Unit {0}
IsUnstable (arrived i) = Unit {0}
IsUnstable ping_interval = Unit {0}
IsUnstable (pushed m) = Unit {0}
IsUnstable (asked_to_reconnect f now) = Unit {0}
IsUnstable asked_to_shut_down = Unit {0}

-- Every attempt takes one from what is left of twenty.
abbrev Counts : {M : Type 0} → WsControl M → WsControl M × List (Effect M) → Type 0
Counts w r = attempts r.1 + (20 - r.0.reconnect_times) ≤ 20 - w.reconnect_times

connect_now-Counts : {M : Type 0} (now : ℕ) (w : WsControl M) → Counts w (connect_now now w)
unfolding connect_now
connect_now-Counts now w =
    if_both (Counts w) (w.is_open || w.no_reconnect) (λ h. omega arith) (λ h. omega arith)

reconnect-Counts :
    {M : Type 0} (force : Bool) (now : ℕ) (w : WsControl M) → Counts w (reconnect force now w)
unfolding reconnect
reconnect-Counts force now w =
    if_both (Counts w) w.no_reconnect (λ h. omega arith)
      (λ h.
        if_both (Counts w) w.is_open (λ k. closes force)
          (λ k.
            if_both (Counts w) (ltb 20 (w.reconnect_times + 1)) (λ l. omega arith)
              (λ l. ground arith)))
  where
    closes : (b : Bool) → Counts w (w, if b then close_socket ∷ [] else [])
    closes true = omega arith
    closes false = omega arith

and_then-Counts :
    {M : Type 0} (es : List (Effect M)) (r : WsControl M × List (Effect M)) (w : WsControl M)
    → attempts es ≡ 0
    → Counts w r
    → Counts w (and_then es r)
and_then-Counts es (v, fs) w h k = omega (arith, attempts-append es fs)

onclose-Counts : {M : Type 0} (now : ℕ) (w : WsControl M) → Counts w (onclose now w)
unfolding onclose
onclose-Counts {M} now w =
    and_then-Counts (if w.on_open_timeout then clear_open_timer ∷ [] else [])
      (if w.is_open || w.opening
        then reconnect false now (record w { is_open = false; opening = false })
        else (w, []))
      w
      (if_both (λ (es : List (Effect M)). attempts es ≡ 0) w.on_open_timeout (λ h. refl)
        (λ h. refl))
      (if_both (Counts w) (w.is_open || w.opening)
        (λ h. reconnect-Counts false now (record w { is_open = false; opening = false }))
        (λ h. omega arith))

module _ {M : Type 0} (byte_size : M → ℕ) where
  attempts-send_message : (w : WsControl M) (m : M) → attempts (send_message byte_size w m) ≡ 0
  unfolding send_message
  attempts-send_message w m =
      if_both (λ (es : List (Effect M)). attempts es ≡ 0) (not w.is_open) (λ h. refl)
        (λ h.
          if_both (λ (es : List (Effect M)). attempts es ≡ 0)
            (ltb max_web_socket_send_size (byte_size m)) (λ k. refl) (λ k. refl))

  run_msg_queue-Counts : (w : WsControl M) → Counts w (run_msg_queue byte_size w)
  unfolding run_msg_queue
  run_msg_queue-Counts w =
      if_both (Counts w) (not w.is_open) (λ h. omega arith) (λ h. shifts w.msg_queue)
    where
      shifts : (q : List M) → Counts w (shift_and_send byte_size w q)
      shifts [] = omega arith
      shifts (m ∷ q) = omega (
        arith,
        attempts-append (send_message byte_size w m) (after_ms 100 runs_queue ∷ []),
        attempts-send_message w m,
      )

  push_message-Counts : (m : M) (w : WsControl M) → Counts w (push_message byte_size m w)
  unfolding push_message
  push_message-Counts m w =
      if_both (Counts w) (not w.is_open) (λ h. omega arith)
        (λ h. omega (arith, attempts-send_message w m))

  -- One thing after another.
  sequence-Counts :
      (r s : WsControl M × List (Effect M)) (w : WsControl M)
      → Counts w r
      → Counts r.0 s
      → Counts w (and_then r.1 s)
  sequence-Counts (v, es) (u, fs) w h k = omega (arith, attempts-append es fs)

  push_all-Counts : (ms : List M) (w : WsControl M) → Counts w (push_all byte_size ms w)
  unfolding push_all
  push_all-Counts [] w = omega arith
  push_all-Counts (m ∷ ms) w =
      let r = push_message byte_size m w in
      sequence-Counts r (push_all byte_size ms r.0) w (push_message-Counts m w)
        (push_all-Counts ms r.0)

  call_handlers-Counts :
      (hs : List (ℕ × List M)) (w : WsControl M) → Counts w (call_handlers byte_size hs w)
  unfolding call_handlers
  call_handlers-Counts [] w = omega arith
  call_handlers-Counts ((h, ms) ∷ hs) w =
      let r = push_all byte_size ms w in
      sequence-Counts (r.0, call_handler h ∷ r.1) (call_handlers byte_size hs r.0) w
        (omega (arith, push_all-Counts ms w)) (call_handlers-Counts hs r.0)

  step-Counts : (w : WsControl M) (e : Event M) → IsUnstable e → Counts w (step byte_size w e)
  unfolding step onopen onmessage sends_ping shutdown
  step-Counts w (opened hs) u =
      let (v, es) = call_handlers byte_size hs (open_now byte_size w) in
      sequence-Counts (v, after_ms stable_conn_time resets_count ∷ es) (run_msg_queue byte_size v) w
        (omega (arith, call_handlers-Counts hs (open_now byte_size w))) (run_msg_queue-Counts v)
  step-Counts w (closed now) u = onclose-Counts now w
  step-Counts w (arrived no_data) u = omega arith
  step-Counts w (arrived ping) u = omega arith
  step-Counts w (arrived pong) u = omega arith
  step-Counts w (arrived (event_data t)) u = omega arith
  step-Counts w (fired connects now) u = connect_now-Counts now w
  step-Counts w (fired resets_count now) u = absurd u
  step-Counts w (fired runs_queue now) u = run_msg_queue-Counts w
  step-Counts w ping_interval u =
      if_both (λ es. Counts w (w, es)) w.is_open (λ h. omega arith) (λ h. omega arith)
  step-Counts w (pushed m) u = push_message-Counts m w
  step-Counts w (asked_to_reconnect f now) u = reconnect-Counts f now w
  step-Counts w asked_to_shut_down u = omega arith

  steps-Counts :
      (w : WsControl M) (es : List (Event M)) → All IsUnstable es → Counts w (steps byte_size w es)
  unfolding steps
  steps-Counts w [] u = omega arith
  steps-Counts w (e ∷ es) (u, us) = omega (
    arith,
    attempts-append (step byte_size w e).1 (steps byte_size (step byte_size w e).0 es).1,
    step-Counts w e u,
    steps-Counts (step byte_size w e).0 es us,
  )

  -- As long as no connection has been stable, at most twenty attempts to connect are put off to a
  -- timer, less those that are counted already, whatever else happens.
  pub attempts-steps :
      (w : WsControl M) (es : List (Event M))
      → All IsUnstable es
      → attempts (steps byte_size w es).1 ≤ 20 - w.reconnect_times
  attempts-steps w es u = omega (arith, steps-Counts w es u)
