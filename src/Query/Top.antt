-- ===== src/Query/Top.antt =====
-- The queries of backend/app/storage/repositories.py with an order and a plain LIMIT: the largest rows,
-- and what a row of the busiest source addresses says.
use real_time_distributed_si.Prelude.{
  ℕ, zero, suc, inl, inr, ◌≤◌, ◌≡◌, ap, sym, ◌∙◌, String, Option, List, [], ◌∷◌, ◌++◌, arith,
  str_eq, filter, length, take, drop, min, map, All, All-of_In, In, In-map,
}
use mathlib.Core.List.{Permᴰ}
use mathlib.Core.Path.{subst}
use real_time_distributed_si.Enums.{detection_kind_value}
use real_time_distributed_si.Event.{SecurityEvent}
use real_time_distributed_si.Alert.{Alert}
use real_time_distributed_si.Query.{Database, IsDescending, max_limit, group_by}
use real_time_distributed_si.Query.Page.{take-drop, length-take}
use real_time_distributed_si.Query.Perms.{length-perm, In-perm}
use real_time_distributed_si.Query.Sums.{sum_of}
use real_time_distributed_si.Query.Groups.{group_by-In}
use real_time_distributed_si.Query.Keys.{optional_key}
use real_time_distributed_si.Query.Events.{
  SourceIpRow, column_is, recent_for_ip, since_rows, has_ip, is_failure, source_ip_row,
  top_source_ips,
}
use real_time_distributed_si.Query.Alerts.{recent_by_kind}

module _ {A : Type 0} where
  -- the `n` rows with the largest keys, of `rows`
  pub record IsTop (k : A → ℕ) (n : ℕ) (rows top : List A) : Type 0 where
    pub rest : List A
    pub all_rows : Permᴰ (top ++ rest) rows
    pub largest_first : IsDescending k (top ++ rest)
    pub fills : length top ≡ min n (length rows)

  pub take-IsTop :
      ⦃db : Database⦄ (k : A → ℕ) (n : ℕ) (rows : List A)
      → IsTop k n rows (take n (db.order_by_desc k rows))
  take-IsTop ⦃db⦄ k n rows =
      let xs = db.order_by_desc k rows in
      let whole = sym (take-drop n xs) in
      record {
        rest = drop n xs;
        all_rows = subst (λ ys. Permᴰ ys rows) whole (db.order_by_desc-perm k rows);
        largest_first = subst (IsDescending k) whole (db.order_by_desc-IsDescending k rows);
        fills = length-take n xs ∙ ap (min n) (length-perm (db.order_by_desc-perm k rows));
      }

  In-take : (a : A) (n : ℕ) (xs : List A) → In a (take n xs) → In a xs
  unfolding take
  In-take a zero xs i = absurd i
  In-take a (suc n) [] i = absurd i
  In-take a (suc n) (x ∷ xs) (inl e) = inl e
  In-take a (suc n) (x ∷ xs) (inr i) = inr (In-take a n xs i)

  sum_of-unit-le : (w : A → ℕ) (xs : List A) → ((x : A) → w x ≤ 1) → sum_of w xs ≤ length xs
  unfolding sum_of
  sum_of-unit-le w [] h = omega arith
  sum_of-unit-le w (x ∷ xs) h = omega (arith, h x, sum_of-unit-le w xs h)

module _ {R : Type 0} ⦃db : Database⦄ where
  -- The events shown beside an address are the newest of its events, as many as asked for, at most 200.
  pub recent_for_ip-IsTop :
      (ip : String) (limit : ℕ) (rows : List (SecurityEvent R))
      → IsTop
          (λ e. e.timestamp)
          (min limit max_limit)
          (filter (λ e. column_is ip e.source_ip) rows)
          (recent_for_ip ip limit rows)
  unfolding recent_for_ip
  recent_for_ip-IsTop ip limit rows = take-IsTop (λ e. e.timestamp) (min limit max_limit) _

  -- The recent alerts of a kind are those of the kind that were seen last, at most 200.
  pub recent_by_kind-IsTop :
      (kind : String) (limit : ℕ) (rows : List (Alert R))
      → IsTop
          (λ a. a.last_seen)
          (min limit max_limit)
          (filter (λ a. str_eq (detection_kind_value a.detection_kind) kind) rows)
          (recent_by_kind kind limit rows)
  unfolding recent_by_kind
  recent_by_kind-IsTop kind limit rows = take-IsTop (λ a. a.last_seen) (min limit max_limit) _

  -- what a row says of the events of its address
  pub record IsSourceIpRow (es : List (SecurityEvent R)) (r : SourceIpRow) : Type 0 where
    pub counts : r.event_count ≡ length (filter (λ e. optional_key.same r.source_ip e.source_ip) es)
    pub failures :
        r.auth_failures
        ≡ sum_of is_failure (filter (λ e. optional_key.same r.source_ip e.source_ip) es)
    pub within : r.auth_failures ≤ r.event_count

  failure_unit : (e : SecurityEvent R) → is_failure e ≤ 1
  unfolding is_failure
  failure_unit e = ground arith

  row_of_group :
      (es : List (SecurityEvent R)) (ip : Option String) (g : List (SecurityEvent R))
      → g ≡ filter (λ e. optional_key.same ip e.source_ip) es
      → IsSourceIpRow es (source_ip_row (ip, g))
  unfolding source_ip_row
  row_of_group es ip g h = record {
    counts = ap length h;
    failures = ap (sum_of is_failure) h;
    within = sum_of-unit-le is_failure g failure_unit;
  }

  -- Each row of the busiest addresses has the number of events and of failed logins of its address
  -- since the instant, the failed logins at most the events; an address that is left out has no more
  -- events than any that is shown, and at most 50 are shown.
  pub top_source_ips_lem :
      (since limit : ℕ) (rows : List (SecurityEvent R))
      → IsTop
          (λ r. r.event_count)
          (min limit 50)
          (map source_ip_row (group_by (λ e. e.source_ip) (filter has_ip (since_rows since rows))))
          (top_source_ips since limit rows)
        × All
            (IsSourceIpRow (filter has_ip (since_rows since rows)))
            (top_source_ips since limit rows)
  unfolding top_source_ips
  top_source_ips_lem since limit rows =
      let es = filter has_ip (since_rows since rows) in
      let listed = map source_ip_row (group_by (λ e. e.source_ip) es) in
      let row : (r : SourceIpRow)
          → In r (take (min limit 50) (db.order_by_desc (λ s. s.event_count) listed))
          → IsSourceIpRow es r =
        λ r i.
          let j = In-perm r (db.order_by_desc-perm _ listed) (In-take r _ _ i) in
          let ((ip, g), e, k) = In-map source_ip_row r _ j in
          subst (IsSourceIpRow es) (sym e)
            (row_of_group es ip g (group_by-In (λ e. e.source_ip) ip g es k)) in
      (take-IsTop _ _ listed, All-of_In _ _ row)
