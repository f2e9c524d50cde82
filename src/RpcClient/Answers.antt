-- ===== src/RpcClient/Answers.antt =====
-- Every request is answered to its end, once.
use starterm.Base.{
  String, Option, none, some, Bool, true, false, not, ◌||◌, List, [], ◌∷◌, ◌++◌, append-nil,
  append_assoc, is_blank, ◌≡◌, refl, sym, ap, ◌∙◌, if_both, is_defined,
}
use mathlib.Core.Path.{subst}
use starterm.Base.Lists.{All, All-append}
use starterm.RpcClient.Generator.{Message}
use starterm.RpcClient.{
  RpcResponseHelper, new_helper, no_message, message_of, send_response, send_all, Handled,
  handler_for, last_response, unless_done, handle_incoming_command,
}

abbrev pub IsPart : Message → Type 0
IsPart m = m.cont ≡ true

abbrev pub IsFor : Option String → Message → Type 0
IsFor q m = m.resid ≡ q

-- Parts, and then one message that is the last.
abbrev pub IsComplete : List Message → Type 0
IsComplete ms =
    (rs : List Message) × (r : Message) × (ms ≡ rs ++ r ∷ []) × All IsPart rs × (r.cont ≡ false)

-- By whether the id is blank: nothing at all, or a complete answer to the request.
abbrev pub IsAnswer : Bool → List Message → Type 0
IsAnswer true ms = ms ≡ []
IsAnswer false ms = IsComplete ms

-- What has been sent, by whether the id is blank and whether the helper is done.
abbrev Progress : Bool → Bool → List Message → Type 0
Progress true d ms = ms ≡ []
Progress false true ms = IsComplete ms
Progress false false ms = All IsPart ms

grows :
    (b d c : Bool) (r : Message) (ms : List Message)
    → (d || b) ≡ false
    → r.cont ≡ c
    → Progress b d ms
    → Progress b (d || not c) (ms ++ r ∷ [])
grows true true c r ms k e h = cc
grows true false c r ms k e h = cc
grows false true c r ms k e h = cc
grows false false true r ms k e h = All-append IsPart ms (r ∷ []) h (e, tt)
grows false false false r ms k e h = (ms, r, refl, h, e)

abbrev Holds : Option String → RpcResponseHelper × List Message → Type 0
Holds q (h, ms) = (h.reqid ≡ q) × Progress (is_blank q) h.done ms × All (IsFor q) ms

send_response-Holds :
    (q : Option String) (o : Option Message) (h : RpcResponseHelper) (ms : List Message)
    → Holds q (h, ms)
    → Holds q ((send_response o h).0, ms ++ (send_response o h).1)
unfolding send_response
send_response-Holds q o h ms (e, p, a) =
    if_both (λ (r : RpcResponseHelper × List Message). Holds q (r.0, ms ++ r.1))
      (h.done || is_blank h.reqid)
      (λ k. subst (λ ns. Holds q (h, ns)) (sym (append-nil ms)) (e, p, a))
      (λ k.
        let r = record (message_of o) { resid = h.reqid; source = some h.route_id } in
        (
          e,
          grows (is_blank q) h.done (message_of o).cont r ms
              (ap (λ t. h.done || is_blank t) (sym e) ∙ k) refl p,
          All-append (IsFor q) ms (r ∷ []) a (e, tt),
        ))

send_all-Holds :
    (q : Option String) (os : List (Option Message)) (h : RpcResponseHelper) (ms : List Message)
    → Holds q (h, ms)
    → Holds q ((send_all os h).0, ms ++ (send_all os h).1)
send_all-Holds q [] h ms k = subst (λ ns. Holds q (h, ns)) (sym (append-nil ms)) k
send_all-Holds q (o ∷ os) h ms k =
    let (g, ns) = send_response o h in
    subst (λ (ls : List Message). Holds q ((send_all os g).0, ls))
      (append_assoc ms ns (send_all os g).1)
      (send_all-Holds q os g (ms ++ ns) (send_response-Holds q o h ms k))

unless_done-Holds :
    (q : Option String) (o : Option Message) (r : RpcResponseHelper × List Message)
    → Holds q r
    → Holds q (unless_done o r)
unless_done-Holds q o (h, ms) k =
    if_both (Holds q) h.done (λ _. k) (λ _. send_response-Holds q o h ms k)

-- A message that is the last leaves the helper done.
ends_done :
    (q : Option String) (o : Option Message) (r : RpcResponseHelper × List Message)
    → is_blank q ≡ false
    → (message_of o).cont ≡ false
    → r.0.reqid ≡ q
    → (unless_done o r).0.done ≡ true
unfolding send_response
ends_done q o (h, ms) b c e =
    if_both (λ (r : RpcResponseHelper × List Message). r.0.done ≡ true) h.done (λ d. d)
      (λ d.
        if_both (λ (r : RpcResponseHelper × List Message). r.0.done ≡ true)
          (h.done || is_blank h.reqid)
          (λ k. absurd (is_open h.done (is_blank h.reqid) d (ap is_blank e ∙ b) k))
          (λ k. closes h.done (message_of o).cont c))
  where
    is_open : (d b : Bool) → d ≡ false → b ≡ false → (d || b) ≡ true → ⊥
    is_open true b h k l = cc
    is_open false true h k l = cc
    is_open false false h k l = cc

    closes : (d c : Bool) → c ≡ false → (d || not c) ≡ true
    closes true c h = refl
    closes false true h = cc
    closes false false h = refl

Progress-IsAnswer :
    (b d : Bool) (ms : List Message) → (b ≡ false → d ≡ true) → Progress b d ms → IsAnswer b ms
Progress-IsAnswer true d ms h p = p
Progress-IsAnswer false true ms h p = p
Progress-IsAnswer false false ms h p = absurd (contradiction (h refl))
  where
    contradiction : false ≡ true → ⊥
    contradiction e = cc

new_helper-Holds : (route_id : String) (m : Message) → Holds m.reqid (new_helper route_id m, [])
new_helper-Holds route_id m = (refl, begins m.reqid, tt)
  where
    begins : (q : Option String) → Progress (is_blank q) (not (is_defined q)) []
    begins none = refl
    begins (some q) = by_blank (is_blank (some q))
      where
        by_blank : (b : Bool) → Progress b false []
        by_blank true = refl
        by_blank false = tt

-- Whatever the handler sends, and whether it returns or throws, a request with an id gets parts and
-- then exactly one message that is the last, all with its id; a command without one gets nothing.
pub handle_incoming_command-IsAnswer :
    (handlers : String → Option (Message → Handled)) (route_id : String) (m : Message)
    → let ms = (handle_incoming_command handlers route_id m).1 in
      IsAnswer (is_blank m.reqid) ms × All (IsFor m.reqid) ms
unfolding handle_incoming_command
handle_incoming_command-IsAnswer handlers route_id m =
    let run = handler_for handlers route_id m in
    let r = unless_done (last_response run.ending) (send_all run.sends (new_helper route_id m)) in
    let held =
      unless_done-Holds m.reqid (last_response run.ending)
        (send_all run.sends (new_helper route_id m))
        (send_all-Holds m.reqid run.sends (new_helper route_id m) []
          (new_helper-Holds route_id m)) in
    let (e, p, a) = unless_done-Holds m.reqid (some no_message) r held in
    (
      Progress-IsAnswer (is_blank m.reqid) (unless_done (some no_message) r).0.done
          (unless_done (some no_message) r).1
          (λ b. ends_done m.reqid (some no_message) r b refl held.0) p,
      a,
    )
