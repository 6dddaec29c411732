-- ===== src/Query/Page.antt =====
-- A page is a segment of a listing of the selected rows, newest first.
use real_time_distributed_si.Prelude.{
  ℕ, suc, zero, ◌-◌, ◌≤◌, pos, negsuc, ◌≡◌, refl, ap, sym, ◌∙◌, Bool, Option, none, some, List, [],
  ◌∷◌, ◌++◌, ℤ, arith, ◌&&◌, if◌then◌else◌, filter, length, length-drop, Bool-cases, inl, inr, true,
  min, take, drop, is_nonempty, String,
}
use mathlib.Core.List.{Permᴰ}
use mathlib.Core.Path.{subst}
use real_time_distributed_si.Query.{
  Database, IsDescending, clamp_limit, clamp_offset, paginate, where_if, where_at,
}
use real_time_distributed_si.Query.Perms.{length-perm}

and_true : (b : Bool) → b ≡ (b && true)
and_true b = ground arith

clamp_limit-range : (limit : ℤ) → (1 ≤ clamp_limit limit) × (clamp_limit limit ≤ 200)
unfolding clamp_limit
clamp_limit-range (pos n) = (ground arith, ground arith)
clamp_limit-range (negsuc n) = (ground arith, ground arith)

clamp_limit-pos : (n : ℕ) → 1 ≤ n → n ≤ 200 → clamp_limit (pos n) ≡ n
unfolding clamp_limit
clamp_limit-pos n low_end high_end = ground arith

module _ {A : Type 0} where
  pub record IsPage (k : A → ℕ) (rows : List A) (limit offset : ℤ) (page : List A) (total : ℕ)
      : Type 0 where
    pub before : List A
    pub after : List A
    -- the listing has all rows that the query selects, newest first
    pub all_rows : Permᴰ (before ++ (page ++ after)) rows
    pub newest_first : IsDescending k (before ++ (page ++ after))
    pub counts : total ≡ length rows
    -- a page has between 1 and 200 places, as many as asked for in that range
    pub places : ℕ
    pub places-range : (1 ≤ places) × (places ≤ 200)
    pub places-asked : (n : ℕ) → limit ≡ pos n → 1 ≤ n → n ≤ 200 → places ≡ n
    -- it starts after as many rows as asked for, and a negative offset skips none
    pub start : ℕ
    pub start-asked : (n : ℕ) → offset ≡ pos n → start ≡ n
    pub start-negative : (n : ℕ) → offset ≡ negsuc n → start ≡ 0
    pub skips : length before ≡ min start total
    pub fills : length page ≡ min places (total - start)

  pub take-drop : (n : ℕ) (xs : List A) → take n xs ++ drop n xs ≡ xs
  unfolding take drop
  take-drop zero xs = refl
  take-drop (suc n) [] = refl
  take-drop (suc n) (x ∷ xs) = ap (◌∷◌ x) (take-drop n xs)

  pub length-take : (n : ℕ) (xs : List A) → length (take n xs) ≡ min n (length xs)
  unfolding take
  length-take zero xs = ground arith
  length-take (suc n) [] = ground arith
  length-take (suc n) (x ∷ xs) = ground (arith, length-take n xs)

  -- the segment that LIMIT and OFFSET take of a listing
  segments : (l o : ℕ) (xs : List A) → take o xs ++ (take l (drop o xs) ++ drop l (drop o xs)) ≡ xs
  segments l o xs = ap (λ t. take o xs ++ t) (take-drop l (drop o xs)) ∙ take-drop o xs

  pub paginate-IsPage :
      ⦃db : Database⦄ (k : A → ℕ) (limit offset : ℤ) (rows : List A)
      → IsPage k rows limit offset (paginate limit offset (db.order_by_desc k rows)) (length rows)
  unfolding paginate clamp_offset
  paginate-IsPage ⦃db⦄ k limit offset rows =
      let l = clamp_limit limit in
      let o = clamp_offset offset in
      let xs = db.order_by_desc k rows in
      let whole = sym (segments l o xs) in
      let count = length-perm (db.order_by_desc-perm k rows) in
      record {
        before = take o xs;
        after = drop l (drop o xs);
        all_rows = subst (λ ys. Permᴰ ys rows) whole (db.order_by_desc-perm k rows);
        newest_first = subst (IsDescending k) whole (db.order_by_desc-IsDescending k rows);
        counts = refl;
        places = l;
        places-range = clamp_limit-range limit;
        places-asked =
            λ n e low_end high_end. ap clamp_limit e ∙ clamp_limit-pos n low_end high_end;
        start = o;
        start-asked = λ n e. ap clamp_offset e;
        start-negative = λ n e. ap clamp_offset e;
        skips = length-take o xs ∙ ap (min o) count;
        fills = length-take l (drop o xs) ∙ ap (min l) (length-drop o xs ∙ ap (λ n. n - o) count);
      }

  pub filter-filter :
      (p q : A → Bool) (xs : List A) → filter q (filter p xs) ≡ filter (λ x. p x && q x) xs
  unfolding filter
  filter-filter p q [] = refl
  filter-filter p q (x ∷ xs) = ground (arith, filter-filter p q xs)

  -- the test of an optional condition
  abbrev pub passes_if : Option String → (String → A → Bool) → A → Bool
  passes_if none test a = true
  passes_if (some s) test a = if is_nonempty s then test s a else true

  abbrev pub passes_at : Option ℕ → (ℕ → A → Bool) → A → Bool
  passes_at none test a = true
  passes_at (some t) test a = test t a

  pub filter-ext :
      (p q : A → Bool) (xs : List A) → ((x : A) → p x ≡ q x) → filter p xs ≡ filter q xs
  unfolding filter
  filter-ext p q [] h = refl
  filter-ext p q (x ∷ xs) h = ground (arith, h x, filter-ext p q xs h)

  pub filter-true : (xs : List A) → filter (λ x. true) xs ≡ xs
  unfolding filter
  filter-true [] = refl
  filter-true (x ∷ xs) = ap (◌∷◌ x) (filter-true xs)

  -- one more optional condition after others
  pub where_if-filter :
      (o : Option String) (test : String → A → Bool) (p : A → Bool) (xs : List A)
      → where_if o test (filter p xs) ≡ filter (λ a. p a && passes_if o test a) xs
  unfolding where_if
  where_if-filter none test p xs = filter-ext _ _ xs (λ a. and_true (p a))
  where_if-filter (some s) test p xs = elim (Bool-cases (is_nonempty s)) [
    | inl on ↦ rw on (filter-filter p (test s) xs)
    | inr off ↦ rw off (filter-ext _ _ xs (λ a. and_true (p a)))
  ]

  pub where_at-filter :
      (o : Option ℕ) (test : ℕ → A → Bool) (p : A → Bool) (xs : List A)
      → where_at o test (filter p xs) ≡ filter (λ a. p a && passes_at o test a) xs
  unfolding where_at
  where_at-filter none test p xs = filter-ext _ _ xs (λ a. and_true (p a))
  where_at-filter (some t) test p xs = filter-filter p (test t) xs

  -- the same behind conditions that are known to be a filter
  pub then_if :
      (p : A → Bool) (xs : List A) {ys : List A} (o : Option String) (test : String → A → Bool)
      → ys ≡ filter p xs
      → where_if o test ys ≡ filter (λ a. p a && passes_if o test a) xs
  then_if p xs o test h = ap (where_if o test) h ∙ where_if-filter o test p xs

  pub then_at :
      (p : A → Bool) (xs : List A) {ys : List A} (o : Option ℕ) (test : ℕ → A → Bool)
      → ys ≡ filter p xs
      → where_at o test ys ≡ filter (λ a. p a && passes_at o test a) xs
  then_at p xs o test h = ap (where_at o test) h ∙ where_at-filter o test p xs
