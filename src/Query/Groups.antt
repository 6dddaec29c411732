-- ===== src/Query/Groups.antt =====
-- GROUP BY splits the rows: sums over the groups add up to the sum over all rows.
use real_time_distributed_si.Prelude.{
  ℕ, ◌+◌, ◌≡◌, refl, ap, sym, ◌∙◌, inl, inr, Bool, true, List, [], ◌∷◌, arith, if◌then◌else◌,
  filter, any, map, Bool-cases, All, All-map, In, In-map, length,
}
use real_time_distributed_si.Query.{Key, distinct, group_by}
use real_time_distributed_si.Query.Sums.{
  sum_of, sum_of-filter, sum_of-count, sum_of-map, sum_of-swap, sum_of-ext,
}

module _ {K : Type 0} ⦃key : Key K⦄ where
  -- an entry of the list as the second argument
  abbrev occurs : K → List K → Bool
  occurs x ks = any (key.same x) ks

  same_refl : (k : K) → key.same k k ≡ true
  same_refl k = (key.same_iff k k).1 refl

  any-same :
      (p : K → Bool) (k : K) (ks : List K)
      → any (key.same k) ks ≡ true
      → p k ≡ true
      → any p ks ≡ true
  unfolding any
  any-same p k [] h e = ground arith
  any-same p k (j ∷ ks) h e = elim (Bool-cases (key.same k j)) [
    | inl at ↦ ground (arith, ap p ((key.same_iff k j).0 at))
    | inr off ↦ ground (arith, any-same p k ks)
  ]

  any-distinct : (p : K → Bool) (ks : List K) → any p (distinct ks) ≡ any p ks
  unfolding any distinct
  any-distinct p [] = refl
  any-distinct p (k ∷ ks) = elim (Bool-cases (any (key.same k) (distinct ks))) [
    | inl seen ↦ elim (Bool-cases (p k)) [
      | inl e ↦
          rw (seen, any-distinct p ks, e)
            (any-same p k ks (sym (any-distinct (key.same k) ks) ∙ seen) e)
      | inr e ↦ rw (seen, any-distinct p ks, e) refl
    ]
    | inr fresh ↦ rw (fresh, any-distinct p ks) refl
  ]

  same_sym : (j k : K) → key.same j k ≡ key.same k j
  same_sym j k = ground (
    arith,
    λ (e : key.same j k ≡ true). (key.same_iff k j).1 (sym ((key.same_iff j k).0 e)),
    λ (e : key.same k j ≡ true). (key.same_iff j k).1 (sym ((key.same_iff k j).0 e)),
  )

  -- what the key `k` and the others add, where `x` is or is not `k`
  pick_step :
      (c r : ℕ) (x k : K) (ks : List K)
      → r ≡ (if occurs x ks then c else 0)
      → (if any (key.same k) ks then r else (if key.same k x then c else 0) + r)
        ≡ (if occurs x (k ∷ ks) then c else 0)
  unfolding any
  pick_step c r x k ks h = elim (Bool-cases (key.same k x)) [
    | inl at ↦
        ground (arith, h, same_sym k x, ap (λ j. any (key.same j) ks) ((key.same_iff k x).0 at), at)
    | inr off ↦ ground (arith, h, same_sym k x, off)
  ]

  -- one of the distinct keys is the key of a row
  sum_of-pick :
      (c : ℕ) (x : K) (ks : List K)
      → sum_of (λ k. if key.same k x then c else 0) (distinct ks) ≡ (if occurs x ks then c else 0)
  unfolding sum_of distinct any
  sum_of-pick c x [] = refl
  sum_of-pick c x (k ∷ ks) =
      ground (arith, any-distinct (key.same k) ks, pick_step c _ x k ks (sum_of-pick c x ks))

  module _ {A : Type 0} (of : A → K) where
    abbrev spread : (A → ℕ) → List K → A → ℕ
    spread w ks a = sum_of (λ k. if key.same k (of a) then w a else 0) (distinct ks)

    -- a row whose key is among the keys counts once
    sum_of-spread :
        (w : A → ℕ) (ks : List K) (rows : List A)
        → All (λ a. occurs (of a) ks ≡ true) rows
        → sum_of (spread w ks) rows ≡ sum_of w rows
    unfolding sum_of
    sum_of-spread w ks [] h = refl
    sum_of-spread w ks (a ∷ rows) h =
        ground (arith, sum_of-pick (w a) (of a) ks, sum_of-spread w ks rows h.1, h.0)

    all_occur : (rows : List A) → All (λ a. occurs (of a) (map of rows) ≡ true) rows
    unfolding any
    all_occur [] = tt
    all_occur (a ∷ rows) = (
      ground (arith, same_refl (of a)),
      All-map _ _ (λ b h. ground (arith, h)) rows (all_occur rows),
    )

    -- the sums over the groups add up to the sum over the rows
    pub sum_of-group_by :
        (w : A → ℕ) (rows : List A) → sum_of (λ g. sum_of w g.1) (group_by of rows) ≡ sum_of w rows
    unfolding group_by
    sum_of-group_by w rows =
        sum_of-map (λ g. sum_of w g.1) _ (distinct (map of rows))
        ∙ sum_of-ext _ _ _ (λ k. sum_of-filter w (λ a. key.same k (of a)) rows)
        ∙ sum_of-swap (λ k a. if key.same k (of a) then w a else 0) (distinct (map of rows)) rows
        ∙ sum_of-spread w (map of rows) rows (all_occur rows)

    -- each group is the rows of its key, and its key is the key of a row
    pub group_by-In :
        (k : K) (g rows : List A)
        → In (k, g) (group_by of rows)
        → g ≡ filter (λ a. key.same k (of a)) rows
    unfolding group_by
    group_by-In k g rows i =
        let found =
          In-map (λ j. (j, filter (λ a. key.same j (of a)) rows)) _ (distinct (map of rows)) i in
        ap (λ (p : K × List A). p.1) found.1
        ∙ ap (λ j. filter (λ a. key.same j (of a)) rows)
            (sym (ap (λ (p : K × List A). p.0) found.1))

    count_group :
        (p : K → Bool) (k : K) (rows : List A)
        → sum_of (λ a. if p (of a) then 1 else 0) (filter (λ a. key.same k (of a)) rows)
          ≡ (if p k then length (filter (λ a. key.same k (of a)) rows) else 0)
    unfolding sum_of filter
    count_group p k [] = ground arith
    count_group p k (a ∷ rows) = elim (Bool-cases (key.same k (of a))) [
      | inl at ↦ ground (arith, at, count_group p k rows, ap p ((key.same_iff k (of a)).0 at))
      | inr off ↦ rw off (count_group p k rows)
    ]

    -- the counts of the groups whose key passes add up to the number of rows whose key passes
    pub sum_of-counts :
        (p : K → Bool) (rows : List A)
        → sum_of (λ (g : K × List A). if p g.0 then length g.1 else 0) (group_by of rows)
          ≡ length (filter (λ a. p (of a)) rows)
    unfolding group_by
    sum_of-counts p rows =
        let ks = distinct (map of rows) in
        let count : K × List A → ℕ = λ g. if p g.0 then length g.1 else 0 in
        let unit : A → ℕ = λ a. if p (of a) then 1 else 0 in
        let group : K → K × List A = λ k. (k, filter (λ a. key.same k (of a)) rows) in
        sum_of-map count group ks
        ∙ sum_of-ext _ _ ks (λ k. sym (count_group p k rows))
        ∙ sym (sum_of-map (λ g. sum_of unit g.1) group ks)
        ∙ sum_of-group_by unit rows
        ∙ sum_of-count (λ a. p (of a)) rows
