-- ===== src/Alert/Rows.antt =====
-- The alert table: distinct ids, one active alert for each rule and key, and what the flush of a new
-- or a changed row does to them.
use real_time_distributed_si.Prelude.{
  ◌≤◌, String, Bool, true, false, ◌≡◌, ◌⊎◌, refl, sym, ap, ◌∙◌, inl, inr, some, List, [], ◌∷◌, ◌++◌,
  ◌&&◌, arith, if◌then◌else◌, str_eq, str_eq_refl, eq_iff, filter, any, length, All, In, All-In,
  All-append, All-map, any-false, filter-only,
}
use mathlib.Core.Path.{subst, subst₂}
use real_time_distributed_si.Enums.{alert_status_value}
use real_time_distributed_si.Alert.{
  Alert, same_status, same_window, is_open_row, open_status, open_by_key, violates, replace_row,
  update_row,
}

str_eq_sym : (s t : String) → str_eq s t ≡ false → str_eq t s ≡ false
str_eq_sym s t h = ground (arith, eq_iff s t, eq_iff t s)

module _ {R : Type 0} where
  -- no two rows have one id
  abbrev pub DistinctIds : List (Alert R) → Type 0
  DistinctIds [] = Unit
  DistinctIds (a ∷ rows) = All (λ b. str_eq b.alert_id a.alert_id ≡ false) rows × DistinctIds rows

  -- at most one active alert for each rule and key
  abbrev pub OneActive : List (Alert R) → Type 0
  OneActive rows = (rule_id key : String) → length (open_by_key rule_id key rows) ≤ 1

  -- the row that a query for an active alert selects
  abbrev pub matches : String → String → Alert R → Bool
  matches rule_id key a = same_window rule_id key a && is_open_row a

  replace_row_absent :
      (a : Alert R) (rows : List (Alert R))
      → All (λ b. str_eq b.alert_id a.alert_id ≡ false) rows
      → replace_row a rows ≡ rows
  unfolding replace_row
  replace_row_absent a [] h = refl
  replace_row_absent a (b ∷ rows) h = ground (arith, replace_row_absent a rows h.1)

  -- replacing a row by one that passes the same test keeps the number of rows that pass
  pub length-filter-replace_row :
      (p : Alert R → Bool) (a old : Alert R) (rows : List (Alert R))
      → DistinctIds rows
      → In old rows
      → a.alert_id ≡ old.alert_id
      → p a ≡ p old
      → length (filter p (replace_row a rows)) ≡ length (filter p rows)
  unfolding replace_row filter
  length-filter-replace_row p a old [] d i same e = refl
  length-filter-replace_row p a old (b ∷ rows) d (inl q) same e =
      let absent : All (λ c. str_eq c.alert_id a.alert_id ≡ false) rows =
        subst (λ k. All (λ c. str_eq c.alert_id k ≡ false) rows)
          (sym (same ∙ ap (λ c. c.alert_id) q)) d.0 in
      ground (
        arith,
        replace_row_absent a rows absent,
        ap p q,
        same,
        ap (λ (c : Alert R). c.alert_id) q,
        eq_iff b.alert_id a.alert_id,
      )
  length-filter-replace_row p a old (b ∷ rows) d (inr i) same e =
      let other : str_eq old.alert_id b.alert_id ≡ false =
        All-In (λ c. str_eq c.alert_id b.alert_id ≡ false) old rows d.0 i in
      ground (
        arith,
        length-filter-replace_row p a old rows d.1 i same e,
        other,
        same,
        eq_iff b.alert_id a.alert_id,
        eq_iff old.alert_id b.alert_id,
      )

  head_id : (a b : Alert R) → (if str_eq b.alert_id a.alert_id then a else b).alert_id ≡ b.alert_id
  head_id a b = ground (arith, eq_iff b.alert_id a.alert_id)

  pub All-replace_row :
      (a : Alert R) (k : String) (rows : List (Alert R))
      → All (λ c. str_eq c.alert_id k ≡ false) rows
      → All (λ c. str_eq c.alert_id k ≡ false) (replace_row a rows)
  unfolding replace_row
  All-replace_row a k [] h = tt
  All-replace_row a k (b ∷ rows) h = (rw (head_id a b) h.0, All-replace_row a k rows h.1)

  pub replace_row-DistinctIds :
      (a : Alert R) (rows : List (Alert R)) → DistinctIds rows → DistinctIds (replace_row a rows)
  unfolding replace_row
  replace_row-DistinctIds a [] d = tt
  replace_row-DistinctIds a (b ∷ rows) d = (
    subst (λ k. All (λ c. str_eq c.alert_id k ≡ false) (replace_row a rows)) (sym (head_id a b))
        (All-replace_row a b.alert_id rows d.0),
    replace_row-DistinctIds a rows d.1,
  )

  pub insert-DistinctIds :
      (a : Alert R) (rows : List (Alert R))
      → All (λ b. str_eq b.alert_id a.alert_id ≡ false) rows
      → DistinctIds rows
      → DistinctIds (rows ++ a ∷ [])
  insert-DistinctIds a [] h d = (tt, tt)
  insert-DistinctIds a (b ∷ rows) h d = (
    All-append _ rows (a ∷ []) d.0 (str_eq_sym b.alert_id a.alert_id h.0, tt),
    insert-DistinctIds a rows h.1 d.1,
  )

  same_status_open :
      (a b : Alert R)
      → same_status b.status a.status ≡ true
      → is_open_row a ≡ true
      → is_open_row b ≡ true
  unfolding same_status open_status
  same_status_open a b e h =
      ground (arith, eq_iff (alert_status_value b.status) (alert_status_value a.status))

  violates_self : (a b : Alert R) → b.alert_id ≡ a.alert_id → violates a b ≡ false
  unfolding violates
  violates_self a b e = ground (arith, eq_iff b.alert_id a.alert_id)

  -- a row that is not among the active ones of a window does not meet an active row of the window
  pub violates_other :
      (a b : Alert R)
      → is_open_row a ≡ true
      → matches a.rule_id a.correlation_key b ≡ false
      → violates a b ≡ false
  unfolding violates
  violates_other a b active miss = ground (arith, same_status_open a b)

  -- a changed row of the same rule, key and status meets no other row of them
  pub update_row_same :
      (a old : Alert R) (rows : List (Alert R))
      → OneActive rows
      → In old rows
      → is_open_row old ≡ true
      → a.alert_id ≡ old.alert_id
      → a.rule_id ≡ old.rule_id
      → a.correlation_key ≡ old.correlation_key
      → a.status ≡ old.status
      → update_row a rows ≡ some (replace_row a rows)
  unfolding update_row open_by_key
  update_row_same a old rows one i active id rule key status = rw clear
    where
      matched : matches old.rule_id old.correlation_key old ≡ true
      matched = rw (str_eq_refl old.rule_id, str_eq_refl old.correlation_key) active

      apart :
          (b : Alert R)
          → (old ≡ b) ⊎ (matches old.rule_id old.correlation_key b ≡ false)
          → violates a b ≡ false
      apart b (inl q) = violates_self a b (sym (id ∙ ap (λ (c : Alert R). c.alert_id) q))
      apart b (inr miss) =
          violates_other a b (subst (λ st. open_status st ≡ true) (sym status) active)
            (subst₂ (λ r k. matches r k b ≡ false) (sym rule) (sym key) miss)

      clear : any (violates a) rows ≡ false
      clear = any-false (violates a) rows (
          All-map _ _ apart rows (
            filter-only (matches old.rule_id old.correlation_key) old rows
              (one old.rule_id old.correlation_key) i matched))
