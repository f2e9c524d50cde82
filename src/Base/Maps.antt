-- ===== src/Base/Maps.antt =====
-- The string-keyed Map of JavaScript, as a list of its entries in the order of their insertion.
use Prim.Native.String.{String}
use mathlib.Core.Path.{◌≡◌, refl}
use mathlib.Core.Option.{Option, none, some}
use mathlib.Core.List.{List, [], ◌∷◌}
use native.Mathlib.Omega.{arith}
use text.Mathlib.Text.{◌==◌}
use text.Mathlib.TextEquality.{eq_iff}
use starterm.Base.Tests.{if◌then◌else◌}

abbrev pub Map {ℓ} : Type ℓ → Type ℓ
Map A = List (String × A)

unfoldable pub get {ℓ} : {A : Type ℓ} → String → Map A → Option A
get k [] = none
get k ((j, a) ∷ m) = if j == k then some a else get k m

unfoldable pub set {ℓ} : {A : Type ℓ} → String → A → Map A → Map A
set k a [] = (k, a) ∷ []
set k a ((j, b) ∷ m) = let rest = set k a m in if j == k then (k, a) ∷ m else (j, b) ∷ rest

unfoldable pub remove {ℓ} : {A : Type ℓ} → String → Map A → Map A
remove k [] = []
remove k ((j, b) ∷ m) = let rest = remove k m in if j == k then rest else (j, b) ∷ rest

pub get-set {ℓ} :
    {A : Type ℓ} (k j : String) (a : A) (m : Map A)
    → get j (set k a m) ≡ (if k == j then some a else get j m)
unfolding get set
get-set k j a [] = refl
get-set k j a ((i, b) ∷ m) = ground (arith, eq_iff k j, eq_iff i k, eq_iff i j, get-set k j a m)

pub get-remove {ℓ} :
    {A : Type ℓ} (k j : String) (m : Map A)
    → get j (remove k m) ≡ (if k == j then none else get j m)
unfolding get remove
get-remove k j [] = ground arith
get-remove k j ((i, b) ∷ m) = ground (arith, eq_iff k j, eq_iff i k, eq_iff i j, get-remove k j m)
