-- ===== src/RpcClient/Streams.antt =====
-- A stream of parts, which its consumer takes one by one.
use starterm.Base.{
  ℕ, Option, none, Bool, true, false, not, ◌&&◌, List, [], ◌∷◌, ◌++◌, append-nil, append_assoc,
  if◌then◌else◌, ◌≡◌, refl, sym, ap, ◌∙◌,
}
use mathlib.Core.Path.{subst}
use starterm.Base.Lists.{All, All-append}
use starterm.Json.Values.{Json}
use starterm.RpcClient.Generator.{
  Message, Place, at_null, waiting, finished, at_data, RpcGenerator, Effect, yields, rejects,
  is_done, sends_cancel, start, finish, is_missing, take_by, take_message, run_loop, resume_at,
  resume, serve, wake, push, Event, next, message, timed_out, step, steps,
}

-- What the calls of `next` have got, in their order.
abbrev pub yielded : List Effect → List (Option Json)
yielded [] = []
yielded (yields d ∷ es) = d ∷ yielded es
yielded (rejects e ∷ es) = yielded es
yielded (is_done ∷ es) = yielded es
yielded (sends_cancel ∷ es) = yielded es

yielded-append : (es fs : List Effect) → yielded (es ++ fs) ≡ yielded es ++ yielded fs
yielded-append [] fs = refl
yielded-append (yields d ∷ es) fs = ap (λ ds. d ∷ ds) (yielded-append es fs)
yielded-append (rejects e ∷ es) fs = yielded-append es fs
yielded-append (is_done ∷ es) fs = yielded-append es fs
yielded-append (sends_cancel ∷ es) fs = yielded-append es fs

abbrev pub queued : List Message → List (Option Json)
queued [] = []
queued (m ∷ ms) = m.data_of ∷ queued ms

queued-append : (ms ns : List Message) → queued (ms ++ ns) ≡ queued ms ++ queued ns
queued-append [] ns = refl
queued-append (m ∷ ms) ns = ap (λ ds. m.data_of ∷ ds) (queued-append ms ns)

-- A message with another one to follow, and without an error.
abbrev IsMiddle : Message → Type 0
IsMiddle m = (m.cont ≡ true) × (m.error ≡ none)

-- The events of a stream that goes on: parts come in, and the consumer asks for the next one.
abbrev pub IsStreaming : Event → Type 0
IsStreaming (next b) = b ≡ false
IsStreaming (message m) = IsMiddle m
IsStreaming timed_out = ⊥

abbrev pub received : List Event → List (Option Json)
received [] = []
received (next b ∷ es) = received es
received (message m ∷ es) = m.data_of ∷ received es
received (timed_out ∷ es) = received es

-- Nothing is queued while the generator waits, and it has not ended.
abbrev pub IsUpToDate : Place → List Message → Type 0
IsUpToDate at_null q = Unit {0}
IsUpToDate (at_data c) q = c ≡ true
IsUpToDate waiting [] = Unit {0}
IsUpToDate waiting (m ∷ ms) = ⊥
IsUpToDate finished q = ⊥

abbrev IsNext : Bool → Type 0
IsNext b = b ≡ false

abbrev Flows : RpcGenerator → Type 0
Flows g =
    (g.is_open ≡ true)
    × IsUpToDate g.place g.msg_queue
    × All IsMiddle g.msg_queue
    × All IsNext g.requests

-- What is handed on and what is still queued are what was there.
abbrev Passes : List (Option Json) → RpcGenerator × List Effect → Type 0
Passes ds (g, es) = Flows g × (yielded es ++ queued g.msg_queue ≡ ds)

take_message-IsMiddle :
    (m : Message) (g : RpcGenerator)
    → IsMiddle m
    → take_message m g ≡ (record g { place = at_data true }, yields m.data_of ∷ [])
take_message-IsMiddle m g (c, e) =
    ap (λ o. take_by o m g) e
    ∙ ap
        (λ (b : Bool).
          if not b && is_missing m.data_of
          then (finish g, is_done ∷ [])
          else (record g { place = at_data b }, yields m.data_of ∷ []))
        c

run_loop-Passes :
    (g : RpcGenerator) (q : List Message)
    → g.msg_queue ≡ q
    → g.is_open ≡ true
    → All IsMiddle q
    → All IsNext g.requests
    → Passes (queued q) (run_loop g q)
run_loop-Passes g [] e o h k =
    ((o, subst (IsUpToDate waiting) (sym e) tt, subst (All IsMiddle) (sym e) tt, k), ap queued e)
run_loop-Passes g (m ∷ q) e o (p, h) k =
    subst (Passes (queued (m ∷ q))) (sym (take_message-IsMiddle m (record g { msg_queue = q }) p))
      ((o, refl, h, k), refl)

resume_at-Passes :
    (p : Place) (g : RpcGenerator)
    → g.place ≡ p
    → Flows g
    → Passes (queued g.msg_queue) (resume_at p false g)
resume_at-Passes at_null g e (o, s, h, k) = run_loop-Passes g g.msg_queue refl o h k
resume_at-Passes (at_data c) g e (o, s, h, k) =
    subst
      (λ (b : Bool).
        Passes (queued g.msg_queue)
          (if not b then (finish g, is_done ∷ []) else run_loop g g.msg_queue))
      (sym (subst (λ q. IsUpToDate q g.msg_queue) e s)) (run_loop-Passes g g.msg_queue refl o h k)
resume_at-Passes waiting g e (o, s, h, k) =
    ((o, s, h, All-append IsNext g.requests (false ∷ []) k (refl, tt)), refl)
resume_at-Passes finished g e (o, s, h, k) = absurd (subst (λ q. IsUpToDate q g.msg_queue) e s)

-- One thing after another.
then-Passes :
    (ds : List (Option Json)) (es : List Effect) (g : RpcGenerator) (r : RpcGenerator × List Effect)
    → yielded es ++ queued g.msg_queue ≡ ds
    → Passes (queued g.msg_queue) r
    → Passes ds (r.0, es ++ r.1)
then-Passes ds es g (k, fs) e (f, h) = (
  f,
  ap (λ xs. xs ++ queued k.msg_queue) (yielded-append es fs)
      ∙ append_assoc (yielded es) (yielded fs) (queued k.msg_queue)
      ∙ ap (λ xs. yielded es ++ xs) h
      ∙ e,
)

serve-Passes :
    (bs : List Bool) (g : RpcGenerator)
    → All IsNext bs
    → Flows g
    → Passes (queued g.msg_queue) (serve bs g)
unfolding resume
serve-Passes [] g h f = (f, refl)
serve-Passes (b ∷ bs) g (h, hs) f =
    subst (λ (c : Bool). Passes (queued g.msg_queue) (serve (c ∷ bs) g)) (sym h)
      (let (f', e) = resume_at-Passes g.place g refl f in
        then-Passes (queued g.msg_queue) (resume false g).1 (resume false g).0
          (serve bs (resume false g).0) e (serve-Passes bs (resume false g).0 hs f'))

wake-Passes :
    (p : Place) (q : List Message) (m : Message) (g : RpcGenerator)
    → g.place ≡ p
    → g.msg_queue ≡ q
    → IsMiddle m
    → Flows g
    → Passes (queued (q ++ m ∷ [])) (wake p (record g { msg_queue = q ++ m ∷ [] }))
wake-Passes at_null q m g e e' h (o, s, hs, k) = (
  (
    o,
    subst (λ r. IsUpToDate r (q ++ m ∷ [])) (sym e) tt,
    All-append IsMiddle q (m ∷ []) (subst (All IsMiddle) e' hs) (h, tt),
    k,
  ),
  refl,
)
wake-Passes (at_data c) q m g e e' h (o, s, hs, k) = (
  (
    o,
    subst (λ r. IsUpToDate r (q ++ m ∷ [])) (sym e) (subst (λ r. IsUpToDate r g.msg_queue) e s),
    All-append IsMiddle q (m ∷ []) (subst (All IsMiddle) e' hs) (h, tt),
    k,
  ),
  refl,
)
wake-Passes waiting [] m g e e' h (o, s, hs, k) =
    let v = record g { place = at_data true; msg_queue = [] } in
    subst
      (λ (r : RpcGenerator × List Effect).
        let t = serve g.requests (record r.0 { requests = [] }) in
        Passes (m.data_of ∷ []) (t.0, r.1 ++ t.1))
      (sym (take_message-IsMiddle m (record g { msg_queue = [] }) h))
      (then-Passes (m.data_of ∷ []) (yields m.data_of ∷ []) v
        (serve g.requests (record v { requests = [] })) refl
        (serve-Passes g.requests (record v { requests = [] }) k (o, refl, tt, tt)))
wake-Passes waiting (n ∷ q) m g e e' h (o, s, hs, k) =
    absurd (subst (λ r. IsUpToDate r (n ∷ q)) e (subst (IsUpToDate g.place) e' s))
wake-Passes finished q m g e e' h (o, s, hs, k) = absurd (subst (λ r. IsUpToDate r g.msg_queue) e s)

-- What an event brings in.
abbrev brought : Event → List (Option Json)
brought (next b) = []
brought (message m) = m.data_of ∷ []
brought timed_out = []

step-Passes :
    (g : RpcGenerator) (e : Event)
    → IsStreaming e
    → Flows g
    → Passes (queued g.msg_queue ++ brought e) (step g e)
unfolding step resume
step-Passes g (next b) h f =
    subst (λ (c : Bool). Passes (queued g.msg_queue ++ []) (resume_at g.place c g)) (sym h)
      (subst (λ ds. Passes ds (resume_at g.place false g)) (sym (append-nil (queued g.msg_queue)))
        (resume_at-Passes g.place g refl f))
step-Passes g (message m) h f =
    subst
      (λ (o : Bool).
        Passes (queued g.msg_queue ++ m.data_of ∷ []) (if o then push m g else (g, [])))
      (sym f.0)
      (subst (λ ds. Passes ds (push m g)) (queued-append g.msg_queue (m ∷ []))
        (wake-Passes g.place g.msg_queue m g refl refl h f))
step-Passes g timed_out h f = absurd h

received-cons : (e : Event) (es : List Event) → received (e ∷ es) ≡ brought e ++ received es
received-cons (next b) es = refl
received-cons (message m) es = refl
received-cons timed_out es = refl

steps-Passes :
    (g : RpcGenerator) (es : List Event)
    → All IsStreaming es
    → Flows g
    → Passes (queued g.msg_queue ++ received es) (steps g es)
unfolding steps
steps-Passes g [] h f = (f, sym (append-nil (queued g.msg_queue)))
steps-Passes g (e ∷ es) (h, hs) f =
    let (g', fs) = step g e in
    let (f', p) = step-Passes g e h f in
    let (f2, q) = steps-Passes g' es hs f' in
    let (k, gs) = steps g' es in
    (
      f2,
      ap (λ xs. xs ++ queued k.msg_queue) (yielded-append fs gs)
          ∙ append_assoc (yielded fs) (yielded gs) (queued k.msg_queue)
          ∙ ap (λ xs. yielded fs ++ xs) q
          ∙ sym (append_assoc (yielded fs) (queued g'.msg_queue) (received es))
          ∙ ap (λ xs. xs ++ received es) p
          ∙ append_assoc (queued g.msg_queue) (brought e) (received es)
          ∙ ap (λ xs. queued g.msg_queue ++ xs) (sym (received-cons e es)),
    )

-- While the parts of a stream come in without an error and each has a successor, and its consumer asks
-- for the next one as often and as early as it likes, the parts are handed on in their order and each
-- once: what has been handed on and what is queued are what came in, nothing is queued while the
-- generator waits, and it has not ended.
pub steps-stream :
    (timeout : Option ℕ) (es : List Event)
    → All IsStreaming es
    → let r = steps (start timeout) es in
      (yielded r.1 ++ queued r.0.msg_queue ≡ received es)
      × IsUpToDate r.0.place r.0.msg_queue
      × (r.0.is_open ≡ true)
steps-stream timeout es h =
    let (f, e) = steps-Passes (start timeout) es h (refl, tt, tt, tt) in (e, f.1, f.0)
