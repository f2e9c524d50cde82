-- ===== src/Layout/Node/Location/Best.antt =====
-- findNextInsertLocation picks the best of all free places of the tree.
use starterm.Base.{
  ℕ, suc, ◌+◌, ◌≤◌, ◌<◌, ◌^◌, Option, none, some, List, [], ◌∷◌, ◌++◌, leb, if◌then◌else◌, ◌≡◌,
  refl, sym, arith, Bool-cases, inl, inr,
}
use mathlib.Core.Path.{subst}
use mathlib.Core.List.{Memᴰ}
use starterm.Base.Lists.{All, All-append, All-map, Memᴰ-left, Memᴰ-right}
use starterm.Layout.Types.Nodes.{LayoutNode, leaf, branch, Nodes, nil, cons, count_nodes}
use starterm.Layout.Node.Location.{
  Location, sort_key, sorted_insert, sort_locations, first, truthy, own_location, next_location,
  child_locations, find_next_insert_location,
}

-- Every free place below a node: the end of a node with room, and the place behind a leaf.
abbrev mutual
  pub places : ℕ → ℕ → LayoutNode → List Location
  places max depth (leaf i d) = record { node = leaf i d; index = 1; depth = depth } ∷ []
  places max depth (branch i d cs) =
      own_location max depth (branch i d cs) (count_nodes cs) ++ places_of max (suc depth) cs

  pub places_of : ℕ → ℕ → Nodes → List Location
  places_of max depth nil = []
  places_of max depth (cons c cs) = places_of max depth cs ++ places max depth c

module _ (max : ℕ) where
  abbrev Least : Location → List Location → Type 0
  Least l ls = All (λ m. sort_key max l ≤ sort_key max m) ls

  abbrev IsBest : List Location → Option Location → Type 0
  IsBest ls none = ls ≡ []
  IsBest ls (some l) = Memᴰ l ls × Least l ls

  abbrev pick : Location → Option Location → Option Location
  pick x none = some x
  pick x (some m) = if leb (sort_key max x) (sort_key max m) then some x else some m

  first-sorted_insert :
      (x : Location) (ms : List Location) → first (sorted_insert max x ms) ≡ pick x (first ms)
  unfolding sorted_insert
  first-sorted_insert x [] = refl
  first-sorted_insert x (m ∷ ms) = elim (Bool-cases (leb (sort_key max x) (sort_key max m))) [
    | inl e ↦ rw e refl
    | inr e ↦ rw e refl
  ]

  pick-IsBest :
      (x : Location) (xs : List Location) (o : Option Location)
      → IsBest xs o
      → IsBest (x ∷ xs) (pick x o)
  pick-IsBest x xs none h = (Memᴰ.head refl, (omega arith, subst (Least x) (sym h) tt))
  pick-IsBest x xs (some m) (mem, least) =
      elim (Bool-cases (leb (sort_key max x) (sort_key max m))) [
        | inl e ↦ rw e (
          Memᴰ.head refl,
          (
            omega arith,
            All-map (λ r. sort_key max m ≤ sort_key max r) (λ r. sort_key max x ≤ sort_key max r) xs
                (λ r h. ground arith) least,
          ),
        )
        | inr e ↦ rw e (Memᴰ.tail mem, (ground arith, least))
      ]

  first-sort-IsBest : (ls : List Location) → IsBest ls (first (sort_locations max ls))
  unfolding sort_locations
  first-sort-IsBest [] = refl
  first-sort-IsBest (x ∷ xs) =
      rw (first-sorted_insert x (sort_locations max xs))
        (pick-IsBest x xs (first (sort_locations max xs)) (first-sort-IsBest xs))

  -- The candidates `ls` stand for the places `bs`: each is one, and each place has one ls good.
  abbrev Covers : List Location → List Location → Type 0
  Covers ls bs =
      All (λ a. Memᴰ a bs) ls
      × All (λ b. (a : Location) × Memᴰ a ls × (sort_key max a ≤ sort_key max b)) bs

  Covers-append :
      (ls bs cs ds : List Location) → Covers ls bs → Covers cs ds → Covers (ls ++ cs) (bs ++ ds)
  Covers-append ls bs cs ds (p, q) (r, s) = (
    All-append (λ a. Memᴰ a (bs ++ ds)) ls cs
        (All-map (λ a. Memᴰ a bs) (λ a. Memᴰ a (bs ++ ds)) ls (λ a m. Memᴰ-left ds m) p)
        (All-map (λ a. Memᴰ a ds) (λ a. Memᴰ a (bs ++ ds)) cs (λ a m. Memᴰ-right bs m) r),
    All-append (λ b. (a : Location) × Memᴰ a (ls ++ cs) × (sort_key max a ≤ sort_key max b)) bs ds
        (All-map (λ b. (a : Location) × Memᴰ a ls × (sort_key max a ≤ sort_key max b))
          (λ b. (a : Location) × Memᴰ a (ls ++ cs) × (sort_key max a ≤ sort_key max b)) bs
          (λ b (a, m, le). (a, Memᴰ-left cs m, le)) q)
        (All-map (λ b. (a : Location) × Memᴰ a cs × (sort_key max a ≤ sort_key max b))
          (λ b. (a : Location) × Memᴰ a (ls ++ cs) × (sort_key max a ≤ sort_key max b)) ds
          (λ b (a, m, le). (a, Memᴰ-right ls m, le)) s),
  )

  Covers-self : (ls : List Location) → Covers ls ls
  Covers-self [] = (tt, tt)
  Covers-self (a ∷ ls) =
      let (p, q) = Covers-self ls in
      (
        (Memᴰ.head refl, All-map (λ b. Memᴰ b ls) (λ b. Memᴰ b (a ∷ ls)) ls (λ b m. Memᴰ.tail m) p),
        (
          (a, Memᴰ.head refl, omega arith),
          All-map (λ b. (c : Location) × Memᴰ c ls × (sort_key max c ≤ sort_key max b))
              (λ b. (c : Location) × Memᴰ c (a ∷ ls) × (sort_key max c ≤ sort_key max b)) ls
              (λ b (c, m, le). (c, Memᴰ.tail m, le)) q,
        ),
      )

  Covers-truthy : (bs : List Location) (o : Option Location) → IsBest bs o → Covers (truthy o) bs
  Covers-truthy bs none h = (tt, rw h tt)
  Covers-truthy bs (some l) (m, least) = (
    (m, tt),
    All-map (λ b. sort_key max l ≤ sort_key max b)
        (λ b. (a : Location) × Memᴰ a (l ∷ []) × (sort_key max a ≤ sort_key max b)) bs
        (λ b le. (l, Memᴰ.head refl, le)) least,
  )

  All-Memᴰ {κ} :
      (P : Location → Type κ) {a : Location} {ls : List Location} → Memᴰ a ls → All P ls → P a
  All-Memᴰ P (Memᴰ.head e) h = subst P (sym e) h.0
  All-Memᴰ P (Memᴰ.tail m) h = All-Memᴰ P m h.1

  mem-nil : (a : Location) → Memᴰ a [] → ⊥
  mem-nil a m = elim m [ ]

  IsBest-Covers :
      (ls bs : List Location) (o : Option Location) → Covers ls bs → IsBest ls o → IsBest bs o
  IsBest-Covers ls [] none c h = refl
  IsBest-Covers ls (b ∷ bs) none (p, ((a, m, le), q)) h =
      absurd (mem-nil a (subst (λ l. Memᴰ a l) h m))
  IsBest-Covers ls bs (some l) (p, q) (m, least) = (
    All-Memᴰ (λ a. Memᴰ a bs) m p,
    All-map (λ b. (a : Location) × Memᴰ a ls × (sort_key max a ≤ sort_key max b))
        (λ b. sort_key max l ≤ sort_key max b) bs
        (λ b (a, mem, le).
          ground (arith, All-Memᴰ (λ r. sort_key max l ≤ sort_key max r) mem least))
        q,
  )

  mutual
    unfolding next_location

    next_location-IsBest :
        (depth : ℕ) (n : LayoutNode) → IsBest (places max depth n) (next_location max depth n)
    next_location-IsBest depth (leaf i d) = (Memᴰ.head refl, (omega arith, tt))
    next_location-IsBest depth (branch i d cs) =
        IsBest-Covers
          (own_location max depth (branch i d cs) (count_nodes cs)
            ++ child_locations max (suc depth) cs)
          (places max depth (branch i d cs)) (next_location max depth (branch i d cs))
          (Covers-append (own_location max depth (branch i d cs) (count_nodes cs))
            (own_location max depth (branch i d cs) (count_nodes cs))
            (child_locations max (suc depth) cs) (places_of max (suc depth) cs)
            (Covers-self (own_location max depth (branch i d cs) (count_nodes cs)))
            (child_locations-Covers (suc depth) cs))
          (first-sort-IsBest (
            own_location max depth (branch i d cs) (count_nodes cs)
            ++ child_locations max (suc depth) cs))

    child_locations-Covers :
        (depth : ℕ) (cs : Nodes) → Covers (child_locations max depth cs) (places_of max depth cs)
    child_locations-Covers depth nil = (tt, tt)
    child_locations-Covers depth (cons c cs) =
        Covers-append (child_locations max depth cs) (places_of max depth cs)
          (truthy (next_location max depth c)) (places max depth c)
          (child_locations-Covers depth cs)
          (Covers-truthy (places max depth c) (next_location max depth c)
            (next_location-IsBest depth c))

  right_nil : (xs ys : List Location) → xs ++ ys ≡ [] → ys ≡ []
  right_nil [] ys e = e
  right_nil (x ∷ xs) ys e = cc

  places-ne-nil : 0 < max → (depth : ℕ) (n : LayoutNode) → places max depth n ≡ [] → ⊥
  places-ne-nil h depth (leaf i d) e = cc
  places-ne-nil h depth (branch i d nil) e = absurd (ground arith)
  places-ne-nil h depth (branch i d (cons c cs)) e = places-ne-nil h (suc depth) c (
      right_nil (places_of max (suc depth) cs) _
        (right_nil (own_location max depth (branch i d (cons c cs)) (count_nodes (cons c cs))) _ e))

  IsBest-some :
      (ls : List Location) (o : Option Location)
      → IsBest ls o
      → (ls ≡ [] → ⊥)
      → (l : Location) × (o ≡ some l) × Memᴰ l ls × Least l ls
  IsBest-some ls none h k = absurd (k h)
  IsBest-some ls (some l) (m, least) k = (l, refl, m, least)

-- With a positive limit there is always a next place, it is one of the free places of the tree, and
-- no free place has a smaller power of its depth by its index plus the limit.
pub find_next_insert_location-Least :
    (n : LayoutNode) (max : ℕ)
    → 0 < max
    → (l : Location) × (find_next_insert_location n max ≡ some l)
      × Memᴰ l (places max 1 n)
      × All (λ m. l.depth ^ (l.index + max) ≤ m.depth ^ (m.index + max)) (places max 1 n)
unfolding find_next_insert_location
find_next_insert_location-Least n max h =
    IsBest-some max (places max 1 n) (next_location max 1 n) (next_location-IsBest max 1 n)
      (places-ne-nil max h 1 n)
