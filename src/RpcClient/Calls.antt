-- ===== src/RpcClient/Calls.antt =====
-- A call for one answer, which wshRpcCall takes with a single `next`.
use starterm.Base.{
  ℕ, Option, none, some, Bool, true, false, not, ◌&&◌, List, [], ◌∷◌, ◌++◌, ◌≡◌, ◌≢◌, refl, sym, ap,
  ◌∙◌, if_both,
}
use mathlib.Core.Path.{subst}
use starterm.Base.Lists.{All}
use starterm.Json.Values.{Json, null, bool, num, str, arr, obj}
use starterm.RpcClient.Generator.{
  Message, waiting, at_data, RpcGenerator, Effect, yields, start, is_missing, take_by, take_message,
  resume, serve, wake, push, timeout_message, Event, next, message, timed_out, step, steps,
}

-- Nobody asks for more.
abbrev pub IsNoNext : Event → Type 0
IsNoNext (next b) = ⊥
IsNoNext (message m) = Unit {0}
IsNoNext timed_out = Unit {0}

-- The generator stands at a datum that it has handed on.
abbrev IsHeld : Bool → RpcGenerator × List Effect → Type 0
IsHeld c (g, es) = (g.place ≡ at_data c) × (g.is_open ≡ true) × (es ≡ [])

push-IsHeld :
    (c : Bool) (m : Message) (g : RpcGenerator)
    → g.place ≡ at_data c
    → g.is_open ≡ true
    → IsHeld c (push m g)
push-IsHeld c m g p o =
    subst (λ q. IsHeld c (wake q (record g { msg_queue = g.msg_queue ++ m ∷ [] }))) (sym p)
      (p, o, refl)

step-IsHeld :
    (c : Bool) (g : RpcGenerator) (e : Event)
    → IsNoNext e
    → g.place ≡ at_data c
    → g.is_open ≡ true
    → IsHeld c (step g e)
unfolding step
step-IsHeld c g (next b) h p o = absurd h
step-IsHeld c g (message m) h p o =
    if_both (IsHeld c) g.is_open (λ _. push-IsHeld c m g p o) (λ _. (p, o, refl))
step-IsHeld c g timed_out h p o =
    if_both (IsHeld c) g.has_timer
      (λ _. push-IsHeld c timeout_message (record g { has_timer = false }) p o) (λ _. (p, o, refl))

steps-IsHeld :
    (c : Bool) (g : RpcGenerator) (es : List Event)
    → All IsNoNext es
    → g.place ≡ at_data c
    → g.is_open ≡ true
    → IsHeld c (steps g es)
unfolding steps
steps-IsHeld c g [] h p o = (p, o, refl)
steps-IsHeld c g (e ∷ es) (h, hs) p o =
    let (p', o', none_here) = step-IsHeld c g e h p o in
    let (p2, o2, none_there) = steps-IsHeld c (step g e).0 es hs p' o' in
    (p2, o2, ap (λ fs. fs ++ (steps (step g e).0 es).1) none_here ∙ none_there)

is_missing-null : (d : Json) → is_missing (some d) ≡ true → d ≡ null
is_missing-null null e = refl
is_missing-null (bool b) e = cc
is_missing-null (num n) e = cc
is_missing-null (str s) e = cc
is_missing-null (arr xs) e = cc
is_missing-null (obj kvs) e = cc

-- A call that asks once, with `true`, and gets a datum that is not null, without an error, is answered
-- with it; but as long as nobody asks again its entry stays in openRpcs, and nothing is cancelled,
-- whatever comes in.
pub steps-call :
    (timeout : Option ℕ) (m : Message) (d : Json) (es : List Event)
    → m.error ≡ none
    → m.data_of ≡ some d
    → d ≢ null
    → All IsNoNext es
    → let r = steps (start timeout) (next true ∷ message m ∷ es) in
      (r.1 ≡ yields (some d) ∷ []) × (r.0.is_open ≡ true)
unfolding steps step resume
steps-call timeout m d es no_error has_data is_null h =
    let g = record (start timeout) { place = waiting } in
    subst
      (λ (r : RpcGenerator × List Effect).
        let s = serve [] (record r.0 { requests = [] }) in
        (((r.1 ++ s.1) ++ (steps s.0 es).1) ≡ yields (some d) ∷ [])
        × ((steps s.0 es).0.is_open ≡ true))
      (sym (taken g))
      (
        ap (λ fs. yields (some d) ∷ fs)
            (steps-IsHeld m.cont (record g { place = at_data m.cont }) es h refl refl).2,
        (steps-IsHeld m.cont (record g { place = at_data m.cont }) es h refl refl).1,
      )
  where
    more : (c : Bool) → (not c && is_missing m.data_of) ≡ true → ⊥
    more true k = cc
    more false k = is_null (is_missing-null d (ap is_missing (sym has_data) ∙ k))

    taken :
        (g : RpcGenerator)
        → take_message m g ≡ (record g { place = at_data m.cont }, yields (some d) ∷ [])
    taken g =
        ap (λ o. take_by o m g) no_error
        ∙ if_both
            (λ (r : RpcGenerator × List Effect).
              r ≡ (record g { place = at_data m.cont }, yields (some d) ∷ []))
            (not m.cont && is_missing m.data_of) (λ k. absurd (more m.cont k))
            (λ k. ap (λ o. (record g { place = at_data m.cont }, yields o ∷ [])) has_data)
