-- ===== src/Websocket/Sent.antt =====
-- What a list of effects of the connection holds: the messages that are sent, and the timers for the queue.
use starterm.Base.{ℕ, suc, ◌+◌, List, [], ◌∷◌, ◌++◌, ◌≡◌, refl, ap, arith}
use starterm.Websocket.{
  connects, resets_count, runs_queue, Effect, new_socket, close_socket, clear_open_timer, send,
  send_ping, send_pong, call_handler, call_back, after_ms, Event, pushed,
}

-- The messages that are handed to the socket, in order.
abbrev pub sent : {M : Type 0} → List (Effect M) → List M
sent [] = []
sent (send m ∷ es) = m ∷ sent es
sent (new_socket ∷ es) = sent es
sent (close_socket ∷ es) = sent es
sent (clear_open_timer ∷ es) = sent es
sent (send_ping ∷ es) = sent es
sent (send_pong ∷ es) = sent es
sent (call_handler h ∷ es) = sent es
sent (call_back t ∷ es) = sent es
sent (after_ms t k ∷ es) = sent es

pub sent-append : {M : Type 0} (es fs : List (Effect M)) → sent (es ++ fs) ≡ sent es ++ sent fs
sent-append [] fs = refl
sent-append (send m ∷ es) fs = ap (λ ms. m ∷ ms) (sent-append es fs)
sent-append (new_socket ∷ es) fs = sent-append es fs
sent-append (close_socket ∷ es) fs = sent-append es fs
sent-append (clear_open_timer ∷ es) fs = sent-append es fs
sent-append (send_ping ∷ es) fs = sent-append es fs
sent-append (send_pong ∷ es) fs = sent-append es fs
sent-append (call_handler h ∷ es) fs = sent-append es fs
sent-append (call_back t ∷ es) fs = sent-append es fs
sent-append (after_ms t k ∷ es) fs = sent-append es fs

-- The timers that are set for a round of the queue.
abbrev pub rounds : {M : Type 0} → List (Effect M) → ℕ
rounds [] = 0
rounds (after_ms t runs_queue ∷ es) = suc (rounds es)
rounds (new_socket ∷ es) = rounds es
rounds (close_socket ∷ es) = rounds es
rounds (clear_open_timer ∷ es) = rounds es
rounds (send m ∷ es) = rounds es
rounds (send_ping ∷ es) = rounds es
rounds (send_pong ∷ es) = rounds es
rounds (call_handler h ∷ es) = rounds es
rounds (call_back t ∷ es) = rounds es
rounds (after_ms t connects ∷ es) = rounds es
rounds (after_ms t resets_count ∷ es) = rounds es

pub rounds-append :
    {M : Type 0} (es fs : List (Effect M)) → rounds (es ++ fs) ≡ rounds es + rounds fs
rounds-append [] fs = omega arith
rounds-append (after_ms t runs_queue ∷ es) fs = omega (arith, rounds-append es fs)
rounds-append (new_socket ∷ es) fs = rounds-append es fs
rounds-append (close_socket ∷ es) fs = rounds-append es fs
rounds-append (clear_open_timer ∷ es) fs = rounds-append es fs
rounds-append (send m ∷ es) fs = rounds-append es fs
rounds-append (send_ping ∷ es) fs = rounds-append es fs
rounds-append (send_pong ∷ es) fs = rounds-append es fs
rounds-append (call_handler h ∷ es) fs = rounds-append es fs
rounds-append (call_back t ∷ es) fs = rounds-append es fs
rounds-append (after_ms t connects ∷ es) fs = rounds-append es fs
rounds-append (after_ms t resets_count ∷ es) fs = rounds-append es fs

-- What the handlers push.
abbrev pub pushes : {M : Type 0} → List (ℕ × List M) → List M
pushes [] = []
pushes ((h, ms) ∷ hs) = ms ++ pushes hs

abbrev pub all_pushed : {M : Type 0} → List M → List (Event M)
all_pushed [] = []
all_pushed (m ∷ ms) = pushed m ∷ all_pushed ms
