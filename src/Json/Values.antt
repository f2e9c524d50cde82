-- ===== src/Json/Values.antt =====
-- JSON values, arrays and objects, with JavaScript's reads and writes at an index and a key.
use starterm.Base.{ℕ, zero, suc, String, Bool, ◌===◌, eq_iff, if◌then◌else◌, ◌≡◌, ◌≢◌, refl, arith}
use starterm.Base.Int.{ℤ}

mutual
  pub data Json : Type 0 where
    null : Json
    bool : Bool → Json
    num : ℤ → Json
    str : String → Json
    arr : Items → Json
    obj : Fields → Json

  pub data Items : Type 0 where
    nil : Items
    cons : Json → Items → Items

  pub data Fields : Type 0 where
    end : Fields
    field : String → Json → Fields → Fields

abbrev pub count_items : Items → ℕ
count_items nil = 0
count_items (cons x xs) = suc (count_items xs)

-- xs[i]
abbrev pub item_at : Items → ℕ → Json
item_at nil i = null
item_at (cons x xs) zero = x
item_at (cons x xs) (suc i) = item_at xs i

-- xs[i] = v, with holes up to an index past the end.
abbrev pub set_item : ℕ → Json → Items → Items
set_item zero v nil = cons v nil
set_item (suc i) v nil = cons null (set_item i v nil)
set_item zero v (cons x xs) = cons v xs
set_item (suc i) v (cons x xs) = cons x (set_item i v xs)

-- xs.push(v)
abbrev pub append_item : Items → Json → Items
append_item nil v = cons v nil
append_item (cons x xs) v = cons x (append_item xs v)

unfoldable pub lookup : String → Fields → Json
lookup k end = null
lookup k (field j v fs) = if j === k then v else lookup k fs

unfoldable pub put : String → Json → Fields → Fields
put k v end = field k v end
put k v (field j w fs) = if j === k then field k v fs else field j w (put k v fs)

unfoldable pub delete : String → Fields → Fields
delete k end = end
delete k (field j w fs) = let rest = delete k fs in if j === k then rest else field j w rest

pub lookup-put :
    (k j : String) (v : Json) (fs : Fields)
    → lookup j (put k v fs) ≡ (if k === j then v else lookup j fs)
unfolding lookup put
lookup-put k j v end = refl
lookup-put k j v (field i w fs) =
    ground (arith, eq_iff k j, eq_iff i k, eq_iff i j, lookup-put k j v fs)

pub lookup-delete :
    (k j : String) (fs : Fields) → lookup j (delete k fs) ≡ (if k === j then null else lookup j fs)
unfolding lookup delete
lookup-delete k j end = ground arith
lookup-delete k j (field i w fs) =
    ground (arith, eq_iff k j, eq_iff i k, eq_iff i j, lookup-delete k j fs)

pub item_at-set_item : (i : ℕ) (v : Json) (xs : Items) → item_at (set_item i v xs) i ≡ v
item_at-set_item zero v nil = refl
item_at-set_item (suc i) v nil = item_at-set_item i v nil
item_at-set_item zero v (cons x xs) = refl
item_at-set_item (suc i) v (cons x xs) = item_at-set_item i v xs

pub item_at-set_item_ne :
    (i j : ℕ) (v : Json) (xs : Items) → i ≢ j → item_at (set_item i v xs) j ≡ item_at xs j
item_at-set_item_ne zero zero v nil h = absurd (h refl)
item_at-set_item_ne zero (suc j) v nil h = refl
item_at-set_item_ne (suc i) zero v nil h = refl
item_at-set_item_ne (suc i) (suc j) v nil h = item_at-set_item_ne i j v nil (λ e. h (omega arith))
item_at-set_item_ne zero zero v (cons x xs) h = absurd (h refl)
item_at-set_item_ne zero (suc j) v (cons x xs) h = refl
item_at-set_item_ne (suc i) zero v (cons x xs) h = refl
item_at-set_item_ne (suc i) (suc j) v (cons x xs) h =
    item_at-set_item_ne i j v xs (λ e. h (omega arith))
