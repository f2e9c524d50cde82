-- ===== src/Events/Restored.antt =====
-- Unsubscribing undoes a subscription.
use starterm.Base.{
  ℕ, suc, String, Option, none, some, List, [], ◌∷◌, ◌++◌, append-nil, append_assoc, if◌then◌else◌,
  ◌===◌, eq_iff, eq_refl, eq_false_of_ne, get_or, ◌≡◌, ◌≢◌, refl, sym, ap, ◌∙◌, Bool-cases, inl,
  inr, Option-cases, none_ne_some, some_inj,
}
use mathlib.Core.Path.{subst}
use starterm.Base.Lists.{All}
use starterm.Base.Maps.{get, get-set, get-remove}
use starterm.Events.{
  Subject, Subjects, StarEventSubscription, StarEventUnsubscribe, SubCommand, push_subject,
  subscribe_from, splice_out, store, unsubscribe_from, add_type, star_event_subscribe,
  star_event_unsubscribe, announce,
}

-- The subjects of a type, and what the map holds for them when it keeps no empty list.
abbrev pub subjects_of : String → Subjects → List Subject
subjects_of t m = get_or (get t m) []

abbrev pub held : List Subject → Option (List Subject)
held [] = none
held (s ∷ ss) = some (s ∷ ss)

-- No type has an empty list.
abbrev pub HasNoEmpty : Subjects → Type 0
HasNoEmpty m = (t : String) → get t m ≡ held (subjects_of t m)

-- No subject of the map has an id that randomUUID gives.
abbrev pub IsFresh : (ℕ → String) → Subjects → Type 0
IsFresh fresh m = (t : String) (n : ℕ) → All (λ s. s.id ≢ fresh n) (subjects_of t m)

-- The subjects of one type that the subscriptions bring, and their unsubscriptions.
abbrev pub new_subject : String → StarEventSubscription → ℕ → Subject
new_subject i s f = record { id = i; handler = f; scope = s.only }

abbrev pub added : (ℕ → String) → String → ℕ → List StarEventSubscription → List Subject
added fresh t n [] = []
added fresh t n (s ∷ ss) = elim s.callback [
  | none ↦ []
  | some f ↦
      if s.event_type === t
      then new_subject (fresh n) s f ∷ added fresh t (suc n) ss
      else added fresh t (suc n) ss
]

abbrev pub unsubs_of : (ℕ → String) → ℕ → List StarEventSubscription → List StarEventUnsubscribe
unsubs_of fresh n [] = []
unsubs_of fresh n (s ∷ ss) = elim s.callback [
  | none ↦ []
  | some f ↦ record { subject_id = fresh n; from = s.event_type } ∷ unsubs_of fresh (suc n) ss
]

held-some :
    (xs : List Subject) (s : Subject) (ys : List Subject)
    → held (xs ++ s ∷ ys) ≡ some (xs ++ s ∷ ys)
held-some [] s ys = refl
held-some (x ∷ xs) s ys = refl

get-push_subject :
    (t u : String) (s : Subject) (m : Subjects)
    → get u (push_subject t s m) ≡ (if t === u then some (subjects_of t m ++ s ∷ []) else get u m)
get-push_subject t u s m = get-set t u (subjects_of t m ++ s ∷ []) m

get-store :
    (t u : String) (ss : List Subject) (m : Subjects)
    → get u (store t ss m) ≡ (if t === u then held ss else get u m)
get-store t u [] m = get-remove t u m
get-store t u (s ∷ ss) m = get-set t u (s ∷ ss) m

splice_out-new :
    (i : String) (xs : List Subject) (s : Subject) (ys : List Subject)
    → All (λ x. x.id ≢ i) xs
    → s.id ≡ i
    → splice_out i (xs ++ s ∷ ys) ≡ some (xs ++ ys)
unfolding splice_out
splice_out-new i [] s ys h e = rw (e, eq_refl i) refl
splice_out-new i (x ∷ xs) s ys (p, h) e =
    rw (eq_false_of_ne x.id i p, splice_out-new i xs s ys h e) refl

-- What a list of subjects is after a push, for every type at once.
push_held :
    (fresh : ℕ → String) (n f : ℕ) (s : StarEventSubscription) (ss : List StarEventSubscription)
    (m m' : Subjects) (t : String)
    → s.callback ≡ some f
    → get t m'
      ≡ held (
          subjects_of t (push_subject s.event_type (new_subject (fresh n) s f) m)
          ++ added fresh t (suc n) ss)
    → get t m' ≡ held (subjects_of t m ++ added fresh t n (s ∷ ss))
push_held fresh n f s ss m m' t c h = elim (Bool-cases (s.event_type === t)) [
  | inl same ↦
      rw (c, same)
        (h
          ∙ ap held (
              rw (get-push_subject s.event_type t (new_subject (fresh n) s f) m, same)
                (rw ((eq_iff s.event_type t).0 same) (
                  append_assoc (subjects_of t m) (new_subject (fresh n) s f ∷ [])
                    (added fresh t (suc n) ss)))))
  | inr other ↦
      rw (c, other)
        (h
          ∙ ap held
              (rw (get-push_subject s.event_type t (new_subject (fresh n) s f) m, other) refl))
]

push_subject-HasNoEmpty :
    (t : String) (s : Subject) (m : Subjects) → HasNoEmpty m → HasNoEmpty (push_subject t s m)
push_subject-HasNoEmpty t s m h u = elim (Bool-cases (t === u)) [
  | inl same ↦ rw (get-push_subject t u s m, same) (sym (held-some (subjects_of t m) s []))
  | inr other ↦ rw (get-push_subject t u s m, other) (h u)
]

-- What a loop that reaches its end has done.
subscribed :
    (fresh : ℕ → String) (n : ℕ) (ss : List StarEventSubscription) (m : Subjects)
    (us : List StarEventUnsubscribe) (ts : List String) {m' : Subjects}
    {us' : List StarEventUnsubscribe} {ts' : List String}
    → HasNoEmpty m
    → subscribe_from fresh n ss m us ts ≡ (m', some (us', ts'))
    → (us' ≡ us ++ unsubs_of fresh n ss)
      × ((t : String) → get t m' ≡ held (subjects_of t m ++ added fresh t n ss))
unfolding subscribe_from
subscribed fresh n [] m us ts {m'} {us'} h e = (
  sym (ap (λ p. p.0) (some_inj (ap (λ p. p.1) e))) ∙ sym (append-nil us),
  λ t.
      subst (λ k. get t k ≡ held (subjects_of t m ++ [])) (ap (λ p. p.0) e)
        (h t ∙ ap held (sym (append-nil (subjects_of t m)))),
)
subscribed fresh n (s ∷ ss) m us ts {m'} {us'} {ts'} h e = elim (Option-cases s.callback) [
  | inl missing ↦ absurd (none_ne_some (ap (λ p. p.1) (rw missing at e)))
  | inr (f, c) ↦
      let (same_us, same_m) =
        subscribed fresh (suc n) ss (push_subject s.event_type (new_subject (fresh n) s f) m)
          (us ++ record { subject_id = fresh n; from = s.event_type } ∷ [])
          (add_type s.event_type ts)
          (push_subject-HasNoEmpty s.event_type (new_subject (fresh n) s f) m h) (rw c at e) in
      (
        same_us
            ∙ rw c (
                append_assoc us (record { subject_id = fresh n; from = s.event_type } ∷ [])
                  (unsubs_of fresh (suc n) ss)),
        λ t. push_held fresh n f s ss m m' t c (same_m t),
      )
]

-- What the store after one removal holds for every type.
stored :
    (fresh : ℕ → String) (n f : ℕ) (s : StarEventSubscription) (ss : List StarEventSubscription)
    (m : Subjects) (old : String → List Subject)
    → s.callback ≡ some f
    → ((t : String) → get t m ≡ held (old t ++ added fresh t n (s ∷ ss)))
    → (t : String)
    → get t (store s.event_type (old s.event_type ++ added fresh s.event_type (suc n) ss) m)
      ≡ held (old t ++ added fresh t (suc n) ss)
stored fresh n f s ss m old c h t = elim (Bool-cases (s.event_type === t)) [
  | inl same ↦
      get-store s.event_type t (old s.event_type ++ added fresh s.event_type (suc n) ss) m
      ∙ rw same
          (ap (λ u. held (old u ++ added fresh u (suc n) ss)) ((eq_iff s.event_type t).0 same))
  | inr other ↦
      get-store s.event_type t (old s.event_type ++ added fresh s.event_type (suc n) ss) m
      ∙ rw other (rw (c, other) at (h t))
]

unsubscribed :
    (fresh : ℕ → String) (n : ℕ) (ss : List StarEventSubscription) (m : Subjects)
    (old : String → List Subject) (ts : List String)
    → ((t : String) (k : ℕ) → All (λ s. s.id ≢ fresh k) (old t))
    → ((t : String) → get t m ≡ held (old t ++ added fresh t n ss))
    → (t : String) → get t ((unsubscribe_from (unsubs_of fresh n ss) m ts).0) ≡ held (old t)
unfolding unsubscribe_from
unsubscribed fresh n [] m old ts new h t = h t ∙ ap held (append-nil (old t))
unsubscribed fresh n (s ∷ ss) m old ts new h t = elim (Option-cases s.callback) [
  | inl missing ↦ rw missing ((rw missing at (h t)) ∙ ap held (append-nil (old t)))
  | inr (f, c) ↦
      let found =
        (rw (c, eq_refl s.event_type) at (h s.event_type))
        ∙ held-some (old s.event_type) (new_subject (fresh n) s f)
            (added fresh s.event_type (suc n) ss) in
      rw
        (
          c,
          found,
          unsubscribe_from,
          splice_out-new (fresh n) (old s.event_type) (new_subject (fresh n) s f)
              (added fresh s.event_type (suc n) ss) (new s.event_type n) refl,
        )
        (unsubscribed fresh (suc n) ss
          (store s.event_type (old s.event_type ++ added fresh s.event_type (suc n) ss) m) old
          (add_type s.event_type ts) new (stored fresh n f s ss m old c h) t)
]

announced {ℓ} :
    {A : Type ℓ} (r : Subjects × Option (A × List String)) {m : Subjects} {cs : List SubCommand}
    {a : A}
    → announce r ≡ (m, cs, some a)
    → (ts : List String) × (r ≡ (m, some (a, ts)))
announced (k, none) e = absurd (none_ne_some (ap (λ p. p.2) e))
announced (k, some (b, ts)) e = (ts, λ i. ((e i).0, some (some_inj (ap (λ p. p.2) e) i, ts)))

announce_first {ℓ} : {A : Type ℓ} (r : Subjects × Option (A × List String)) → (announce r).0 ≡ r.0
announce_first (k, none) = refl
announce_first (k, some (b, ts)) = refl

-- From a map without empty lists and without the ids that come, a subscription that gives a
-- function to unsubscribe is undone by its call: every event type has the subjects that it had.
pub star_event_unsubscribe-star_event_subscribe :
    (fresh : ℕ → String) (ss : List StarEventSubscription) (m : Subjects) {m' : Subjects}
    {cs : List SubCommand} {us : List StarEventUnsubscribe}
    → HasNoEmpty m
    → IsFresh fresh m
    → star_event_subscribe fresh ss m ≡ (m', cs, some us)
    → (t : String) → get t ((star_event_unsubscribe us m').0) ≡ get t m
unfolding star_event_subscribe star_event_unsubscribe
star_event_unsubscribe-star_event_subscribe fresh ss m {m'} {cs} {us} h new e t =
    let (ts, q) = announced (subscribe_from fresh 0 ss m [] []) e in
    let (same_us, same_m) = subscribed fresh 0 ss m [] [] h q in
    ap (λ k. get t k) (announce_first (unsubscribe_from us m' []))
    ∙ subst (λ us. get t ((unsubscribe_from us m' []).0) ≡ held (subjects_of t m)) (sym same_us)
        (unsubscribed fresh 0 ss m' (λ t. subjects_of t m) [] new same_m t)
    ∙ sym (h t)
