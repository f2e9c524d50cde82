-- ===== src/Base/Errors.antt =====
-- JavaScript exceptions as values: a call returns, or it throws one of the errors of the program.
use mathlib.Core.Path.{◌≡◌, refl}

-- `type_error` is the engine's TypeError for a property of `undefined`; the others are `new Error`.
pub data Error : Type 0 where
  type_error invalid_node invalid_insert invalid_direction : Error
  invalid_path not_an_object not_an_array not_appendable : Error
  set_and_remove invalid_command reserved_route no_upstream : Error
  invalid_oref wrong_type wrong_id call_failed no_response_stream : Error

pub data Result {ℓ} (A : Type ℓ) : Type ℓ where
  ok : A → Result A
  throw : Error → Result A

module _ {κ ℓ} {A : Type ℓ} {B : Type κ} where
  infixl 5 ◌>>=◌
  abbrev pub ◌>>=◌ : Result A → (A → Result B) → Result B
  throw e >>= k = throw e
  ok v >>= k = k v

-- A method that mutates its object and may throw: what was written before stays written.
pub data Outcome {ℓ} (S : Type ℓ) : Type ℓ where
  done : S → Outcome S
  thrown : Error → S → Outcome S

abbrev pub state_of {ℓ} : {S : Type ℓ} → Outcome S → S
state_of (done s) = s
state_of (thrown e s) = s

-- A call whose error reaches the caller, over a state that it leaves alone when it throws.
abbrev pub run {ℓ κ} : {S : Type ℓ} {A : Type κ} → S → Result A → (A → Outcome S) → Outcome S
run s (ok a) k = k a
run s (throw e) k = thrown e s

pub ok_inj {ℓ} : {A : Type ℓ} {a b : A} → ok a ≡ ok b → a ≡ b
ok_inj h = cc

pub throw_ne_ok {ℓ} : {A : Type ℓ} {e : Error} {a : A} → throw e ≡ ok a → ⊥
throw_ne_ok h = cc

pub done_inj {ℓ} : {S : Type ℓ} {a b : S} → done a ≡ done b → a ≡ b
done_inj h = cc

-- Where a chain returns, its first call has returned a value, and the rest has returned from that.
module _ {κ ℓ} {A : Type ℓ} {B : Type κ} where
  pub returned :
      (r : Result A) (k : A → Result B) {z : B}
      → (r >>= k) ≡ ok z
      → (v : A) × (r ≡ ok v) × (k v ≡ ok z)
  returned (throw e) k h = absurd (throw_ne_ok h)
  returned (ok v) k h = (v, refl, h)
