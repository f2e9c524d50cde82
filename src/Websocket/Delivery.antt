-- ===== src/Websocket/Delivery.antt =====
-- Which messages reach the socket.
use starterm.Base.{
  ℕ, zero, suc, ◌+◌, ◌≤◌, Bool, true, false, not, List, [], ◌∷◌, ◌++◌, append-nil, append_assoc,
  ltb, ◌≡◌, refl, sym, ap, ◌∙◌, arith, if_both,
}
use mathlib.Core.Path.{subst, ap₂}
use starterm.Base.Lists.{All, All-split, length}
use starterm.Websocket.{
  max_web_socket_send_size, runs_queue, Effect, send, after_ms, WsControl, and_then, push_all,
  call_handlers, open_now, send_message, shift_and_send, run_msg_queue, push_message, onopen, Event,
  opened, fired, step, steps,
}
use starterm.Websocket.Sent.{sent, sent-append, rounds, rounds-append, pushes, all_pushed}

module _ {M : Type 0} (byte_size : M → ℕ) where
  abbrev pub Fits : M → Type 0
  Fits m = byte_size m ≤ max_web_socket_send_size

  not_open : (b : Bool) → b ≡ true → not b ≡ true → ⊥
  not_open true h k = cc
  not_open false h k = cc

  send_message-open :
      (w : WsControl M) (m : M)
      → w.is_open ≡ true
      → Fits m
      → send_message byte_size w m ≡ send m ∷ []
  unfolding send_message
  send_message-open w m o h =
      if_both (λ es. es ≡ send m ∷ []) (not w.is_open) (λ k. absurd (not_open w.is_open o k))
        (λ k.
          if_both (λ es. es ≡ send m ∷ []) (ltb max_web_socket_send_size (byte_size m))
            (λ big. absurd (ground arith)) (λ small. refl))

  run_msg_queue-open :
      (w : WsControl M) (q : List M)
      → w.is_open ≡ true
      → w.msg_queue ≡ q
      → run_msg_queue byte_size w ≡ shift_and_send byte_size w q
  unfolding run_msg_queue
  run_msg_queue-open w q o e =
      if_both (λ r. r ≡ shift_and_send byte_size w q) (not w.is_open)
        (λ k. absurd (not_open w.is_open o k)) (λ k. ap (λ ms. shift_and_send byte_size w ms) e)

  shift_sends :
      (w : WsControl M) (m : M) (q : List M)
      → w.is_open ≡ true
      → Fits m
      → shift_and_send byte_size w (m ∷ q)
        ≡ (record w { msg_queue = q }, send m ∷ after_ms 100 runs_queue ∷ [])
  shift_sends w m q o h =
      ap (λ es. (record w { msg_queue = q }, es ++ after_ms 100 runs_queue ∷ []))
        (send_message-open w m o h)

  shifted :
      (w : WsControl M) (m : M) (q : List M)
      → w.is_open ≡ true
      → w.msg_queue ≡ m ∷ q
      → Fits m
      → run_msg_queue byte_size w
        ≡ (record w { msg_queue = q }, send m ∷ after_ms 100 runs_queue ∷ [])
  shifted w m q o e h = run_msg_queue-open w (m ∷ q) o e ∙ shift_sends w m q o h

  -- The timers that are set fire until none is left.
  unfoldable pub fire_rounds : ℕ → ℕ → WsControl M → WsControl M × List (Effect M)
  unfolding step
  fire_rounds zero n w = (w, [])
  fire_rounds (suc fuel) zero w = (w, [])
  fire_rounds (suc fuel) (suc n) w =
      let (v, es) = step byte_size w (fired runs_queue 0) in
      and_then es (fire_rounds fuel (n + rounds es) v)

  fire_rounds-none : (fuel : ℕ) (w : WsControl M) → fire_rounds fuel 0 w ≡ (w, [])
  unfolding fire_rounds
  fire_rounds-none zero w = refl
  fire_rounds-none (suc fuel) w = refl

  -- One timer is enough for the whole queue, since each round sets the next one.
  fire_rounds-sent :
      (fuel : ℕ) (w : WsControl M) (q : List M)
      → w.is_open ≡ true
      → w.msg_queue ≡ q
      → All Fits q
      → length q ≤ fuel
      → (sent (fire_rounds fuel 1 w).1 ≡ q) × ((fire_rounds fuel 1 w).0.msg_queue ≡ [])
  unfolding step fire_rounds
  fire_rounds-sent zero w [] o e h le = (refl, e)
  fire_rounds-sent zero w (m ∷ q) o e h le = absurd (omega (arith, le))
  fire_rounds-sent (suc fuel) w [] o e h le =
      subst
        (λ (r : WsControl M × List (Effect M)).
          let s = and_then r.1 (fire_rounds fuel (0 + rounds r.1) r.0) in
          (sent s.1 ≡ []) × (s.0.msg_queue ≡ []))
        (sym (run_msg_queue-open w [] o e))
        (subst (λ (s : WsControl M × List (Effect M)). (sent s.1 ≡ []) × (s.0.msg_queue ≡ []))
          (sym (fire_rounds-none fuel w)) (refl, e))
  fire_rounds-sent (suc fuel) w (m ∷ q) o e (p, h) le =
      let (all, none_left) =
        fire_rounds-sent fuel (record w { msg_queue = q }) q o refl h (omega (arith, le)) in
      subst
        (λ (r : WsControl M × List (Effect M)).
          let s = and_then r.1 (fire_rounds fuel (0 + rounds r.1) r.0) in
          (sent s.1 ≡ m ∷ q) × (s.0.msg_queue ≡ []))
        (sym (shifted w m q o e p)) (ap (λ ms. m ∷ ms) all, none_left)

  push_message-open :
      (m : M) (w : WsControl M)
      → w.is_open ≡ true
      → Fits m
      → push_message byte_size m w ≡ (w, send m ∷ [])
  unfolding push_message
  push_message-open m w o h =
      if_both (λ r. r ≡ (w, send m ∷ [])) (not w.is_open) (λ k. absurd (not_open w.is_open o k))
        (λ k. ap (λ es. (w, es)) (send_message-open w m o h))

  -- What is pushed while the connection is down waits in order.
  push_message-closed :
      (w : WsControl M) (m : M)
      → w.is_open ≡ false
      → push_message byte_size m w ≡ (record w { msg_queue = w.msg_queue ++ m ∷ [] }, [])
  unfolding push_message
  push_message-closed w m o =
      if_both (λ r. r ≡ (record w { msg_queue = w.msg_queue ++ m ∷ [] }, [])) (not w.is_open)
        (λ k. refl) (λ k. absurd (shut w.is_open o k))
    where
      shut : (b : Bool) → b ≡ false → not b ≡ false → ⊥
      shut true h k = cc
      shut false h k = cc

  pushed_while_closed :
      (w : WsControl M) (ms : List M) (es : List (Event M))
      → w.is_open ≡ false
      → steps byte_size w (all_pushed ms ++ es)
        ≡ steps byte_size (record w { msg_queue = w.msg_queue ++ ms }) es
  unfolding steps
  pushed_while_closed w [] es o =
      ap (λ q. steps byte_size (record w { msg_queue = q }) es) (sym (append-nil w.msg_queue))
  pushed_while_closed w (m ∷ ms) es o =
      ap (λ r. and_then r.1 (steps byte_size r.0 (all_pushed ms ++ es))) (push_message-closed w m o)
      ∙ pushed_while_closed (record w { msg_queue = w.msg_queue ++ m ∷ [] }) ms es o
      ∙ ap (λ q. steps byte_size (record w { msg_queue = q }) es)
          (append_assoc w.msg_queue (m ∷ []) ms)

  -- While the connection is open a push changes nothing, and is sent.
  push_all-open :
      (ms : List M) (w : WsControl M)
      → w.is_open ≡ true
      → All Fits ms
      → ((push_all byte_size ms w).0 ≡ w)
        × (sent (push_all byte_size ms w).1 ≡ ms)
        × (rounds (push_all byte_size ms w).1 ≡ 0)
  unfolding push_all
  push_all-open [] w o h = (refl, refl, refl)
  push_all-open (m ∷ ms) w o (p, h) =
      let (same, all, no_round) = push_all-open ms w o h in
      subst
        (λ (r : WsControl M × List (Effect M)).
          let s = and_then r.1 (push_all byte_size ms r.0) in
          (s.0 ≡ w) × (sent s.1 ≡ m ∷ ms) × (rounds s.1 ≡ 0))
        (sym (push_message-open m w o p)) (same, ap (λ ks. m ∷ ks) all, omega (arith, no_round))

  call_handlers-open :
      (hs : List (ℕ × List M)) (w : WsControl M)
      → w.is_open ≡ true
      → All Fits (pushes hs)
      → ((call_handlers byte_size hs w).0 ≡ w)
        × (sent (call_handlers byte_size hs w).1 ≡ pushes hs)
        × (rounds (call_handlers byte_size hs w).1 ≡ 0)
  unfolding call_handlers
  call_handlers-open [] w o h = (refl, refl, refl)
  call_handlers-open ((i, ms) ∷ hs) w o h =
      let (h', k) = All-split Fits ms (pushes hs) h in
      let (same, all, no_round) = push_all-open ms w o h' in
      let (same2, all2, no_round2) = call_handlers-open hs w o k in
      let es = (push_all byte_size ms w).1 in
      subst
        (λ (v : WsControl M).
          let s = call_handlers byte_size hs v in
          (s.0 ≡ w) × (sent (es ++ s.1) ≡ ms ++ pushes hs) × (rounds (es ++ s.1) ≡ 0))
        (sym same)
        (
          same2,
          sent-append es (call_handlers byte_size hs w).1 ∙ ap₂ ◌++◌ all all2,
          omega (arith, rounds-append es (call_handlers byte_size hs w).1),
        )

  -- Opening sends what the handlers push and the first message of the queue, and sets one timer.
  opened_once :
      (w : WsControl M) (hs : List (ℕ × List M)) (m : M) (q : List M)
      → w.msg_queue ≡ m ∷ q
      → Fits m
      → All Fits (pushes hs)
      → let r = steps byte_size w (opened hs ∷ []) in
        (r.0 ≡ record (open_now byte_size w) { msg_queue = q })
        × (sent r.1 ≡ pushes hs ++ m ∷ [])
        × (rounds r.1 ≡ 1)
  unfolding steps step onopen
  opened_once w hs m q e p h =
      let v = open_now byte_size w in
      let c = call_handlers byte_size hs v in
      let (same, all, no_round) = call_handlers-open hs v refl h in
      subst
        (λ (r : WsControl M × List (Effect M)).
          let fs = (c.1 ++ r.1) ++ [] in
          (r.0 ≡ record v { msg_queue = q }) × (sent fs ≡ pushes hs ++ m ∷ []) × (rounds fs ≡ 1))
        (sym (ap (run_msg_queue byte_size) same ∙ shifted v m q refl e p))
        (
          refl,
          ap sent (append-nil (c.1 ++ send m ∷ after_ms 100 runs_queue ∷ []))
              ∙ sent-append c.1 (send m ∷ after_ms 100 runs_queue ∷ [])
              ∙ ap (λ ks. ks ++ m ∷ []) all,
          ap rounds (append-nil (c.1 ++ send m ∷ after_ms 100 runs_queue ∷ []))
              ∙ rounds-append c.1 (send m ∷ after_ms 100 runs_queue ∷ [])
              ∙ ap (λ k. k + 1) no_round,
        )

  -- Messages are pushed while the connection is down and its queue is empty, and then it opens and
  -- stays open, and the timers that are set for the queue fire. If none of the messages is too large,
  -- and none that a handler for a reconnect pushes, what the handlers push is sent first, and then each
  -- of the messages once, in their order, which empties the queue; a round for each message but the
  -- first is enough.
  pub sent-steps :
      (w : WsControl M) (hs : List (ℕ × List M)) (m : M) (ms : List M) (fuel : ℕ)
      → w.is_open ≡ false
      → w.msg_queue ≡ []
      → All Fits (m ∷ ms)
      → All Fits (pushes hs)
      → length ms ≤ fuel
      → let r = steps byte_size w (all_pushed (m ∷ ms) ++ opened hs ∷ []) in
        let s = fire_rounds fuel (rounds r.1) r.0 in
        (sent (r.1 ++ s.1) ≡ pushes hs ++ m ∷ ms) × (s.0.msg_queue ≡ [])
  sent-steps w hs m ms fuel o e (p, h) k le =
      let v = record w { msg_queue = w.msg_queue ++ m ∷ ms } in
      let (now_open, first, one) = opened_once v hs m ms (ap (λ q. q ++ m ∷ ms) e) p k in
      let (rest, none_left) =
        fire_rounds-sent fuel (record (open_now byte_size v) { msg_queue = ms }) ms refl refl h
          le in
      subst
        (λ (r : WsControl M × List (Effect M)).
          let s = fire_rounds fuel (rounds r.1) r.0 in
          (sent (r.1 ++ s.1) ≡ pushes hs ++ m ∷ ms) × (s.0.msg_queue ≡ []))
        (sym (pushed_while_closed w (m ∷ ms) (opened hs ∷ []) o))
        (all_sent (steps byte_size v (opened hs ∷ [])) now_open first one rest none_left)
    where
      all_sent :
          (r : WsControl M × List (Effect M)) {u : WsControl M}
          → r.0 ≡ u
          → sent r.1 ≡ pushes hs ++ m ∷ []
          → rounds r.1 ≡ 1
          → sent (fire_rounds fuel 1 u).1 ≡ ms
          → (fire_rounds fuel 1 u).0.msg_queue ≡ []
          → let s = fire_rounds fuel (rounds r.1) r.0 in
            (sent (r.1 ++ s.1) ≡ pushes hs ++ m ∷ ms) × (s.0.msg_queue ≡ [])
      all_sent r {u} a b c d f =
          let same = ap₂ (fire_rounds fuel) c a in
          (
            sent-append r.1 (fire_rounds fuel (rounds r.1) r.0).1
                ∙ ap₂ ◌++◌ b (ap (λ s. sent s.1) same ∙ d)
                ∙ append_assoc (pushes hs) (m ∷ []) ms,
            ap (λ s. s.0.msg_queue) same ∙ f,
          )
