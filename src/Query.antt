-- ===== src/Query.antt =====
-- The queries of backend/app/storage/repositories.py, as PostgreSQL answers them. The database is a
-- parameter: it orders the rows of a query that leaves the order open in a way of its own, and rows
-- with equal sort keys too, and it matches ILIKE patterns.
pub mod Sums
pub mod Perms
pub mod Groups
pub mod Page
pub mod Keys
pub mod Events
pub mod Alerts
pub mod Search
pub mod Top
pub mod Breakdown
use real_time_distributed_si.Prelude.{
  ℕ, ◌≤◌, ◌≡◌, ◌↔◌, String, Bool, true, false, Option, none, some, List, [], ◌∷◌, ℤ, pos, negsuc,
  if◌then◌else◌, filter, any, All, take, drop, max, min, is_nonempty, map,
}
use mathlib.Core.List.{Permᴰ}

module _ {A : Type 0} where
  -- largest key first
  abbrev pub IsDescending : (A → ℕ) → List A → Type 0
  IsDescending k [] = Unit
  IsDescending k (x ∷ xs) = All (λ y. k y ≤ k x) xs × IsDescending k xs

  abbrev pub IsAscending : (A → ℕ) → List A → Type 0
  IsAscending k [] = Unit
  IsAscending k (x ∷ xs) = All (λ y. k x ≤ k y) xs × IsAscending k xs

-- what a query relies on
pub record Database : Type 1 where
  -- `column ILIKE pattern`
  pub ilike : String → String → Bool
  -- the rows of a query without ORDER BY
  pub unordered : {A : Type 0} → List A → List A
  -- ORDER BY k
  pub order_by : {A : Type 0} → (A → ℕ) → List A → List A
  -- ORDER BY k DESC
  pub order_by_desc : {A : Type 0} → (A → ℕ) → List A → List A
  pub unordered-perm : {A : Type 0} (xs : List A) → Permᴰ (unordered xs) xs
  pub order_by-perm : {A : Type 0} (k : A → ℕ) (xs : List A) → Permᴰ (order_by k xs) xs
  pub order_by_desc-perm : {A : Type 0} (k : A → ℕ) (xs : List A) → Permᴰ (order_by_desc k xs) xs
  pub order_by-IsAscending : {A : Type 0} (k : A → ℕ) (xs : List A) → IsAscending k (order_by k xs)
  pub order_by_desc-IsDescending :
      {A : Type 0} (k : A → ℕ) (xs : List A) → IsDescending k (order_by_desc k xs)

-- the values of a column that GROUP BY compares
pub record Key (K : Type 0) : Type 0 where
  pub same : K → K → Bool
  pub same_iff : (a b : K) → (same a b ≡ true) ↔ (a ≡ b)

abbrev pub max_limit : ℕ
max_limit = 200

-- `max(1, min(limit, MAX_LIMIT))`
unfoldable pub clamp_limit : ℤ → ℕ
clamp_limit (pos n) = max 1 (min n max_limit)
clamp_limit (negsuc n) = 1

-- `max(0, offset)`
unfoldable pub clamp_offset : ℤ → ℕ
clamp_offset (pos n) = n
clamp_offset (negsuc n) = 0

module _ {A : Type 0} where
  -- `_paginate`
  unfoldable pub paginate : ℤ → ℤ → List A → List A
  unfolding clamp_limit clamp_offset
  paginate limit offset xs = take (clamp_limit limit) (drop (clamp_offset offset) xs)

  -- `if s: stmt = stmt.where(...)`
  unfoldable pub where_if : Option String → (String → A → Bool) → List A → List A
  where_if none test xs = xs
  where_if (some s) test xs = if is_nonempty s then filter (test s) xs else xs

  -- the same for an optional instant
  unfoldable pub where_at : Option ℕ → (ℕ → A → Bool) → List A → List A
  where_at none test xs = xs
  where_at (some t) test xs = filter (test t) xs

-- the keys that occur, each once
unfoldable pub distinct : {K : Type 0} → ⦃key : Key K⦄ → List K → List K
distinct [] = []
distinct ⦃key⦄ (k ∷ ks) = let rest = distinct ks in if any (key.same k) rest then rest else k ∷ rest

-- GROUP BY: each key with its rows
unfoldable pub group_by : {A K : Type 0} → ⦃key : Key K⦄ → (A → K) → List A → List (K × List A)
unfolding distinct
group_by ⦃key⦄ of rows =
    map (λ k. (k, filter (λ a. key.same k (of a)) rows)) (distinct (map of rows))
