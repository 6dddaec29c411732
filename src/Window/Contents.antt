-- ===== src/Window/Contents.antt =====
-- backend/app/detection/windows.py: the contents of a window after each operation.
use real_time_distributed_si.Prelude.{
  ℕ, ◌+◌, ◌*◌, String, Bool, ◌≡◌, refl, sym, ap, ◌∙◌, true, false, not, ◌||◌, List, [], ◌∷◌, ◌++◌,
  arith, ltb, str_eq, length, filter, All, mem, filter_keeps, length-append, mem-unique, int_of,
  int_of-str, str, ◌≢◌, leb, if◌then◌else◌, Bool-cases, inl, inr, str_eq_refl,
}
use mathlib.Core.Path.{subst}
use Prim.Native.Nat.{◌<◌}
use real_time_distributed_si.Redis.{Redis, Entry, other_than, is_past}
use real_time_distributed_si.Event.{microseconds}
use real_time_distributed_si.Window.Codec.{decode-encode, has_sep-str}
use real_time_distributed_si.Window.{
  key, encode, decode, decoded, counted, to_result, record_value, add_and_measure, incr_sum, total,
}

-- an entry that a window of that many seconds still holds at `now`
abbrev pub live : ℕ → ℕ → Entry → Bool
live window_seconds now e = ltb now (e.1 + window_seconds * microseconds)

abbrev pub IsFresh : String → List Entry → Type 0
IsFresh m es = All (λ e. str_eq e.0 m ≡ false) es

pub to_result-count : (es : List Entry) (now : ℕ) → (to_result es now).count ≡ length es
unfolding to_result
to_result-count [] now = refl
to_result-count (e ∷ es) now = refl

to_result-mem :
    (es : List Entry) (now : ℕ) (v : String)
    → mem v (to_result es now).unique_values ≡ mem v (decoded es)
unfolding to_result
to_result-mem [] now v = refl
to_result-mem ((m, t) ∷ es) now v = mem-unique v (decoded ((m, t) ∷ es))

IsFresh-filter :
    (m : String) (p : Entry → Bool) (es : List Entry) → IsFresh m es → IsFresh m (filter p es)
unfolding filter
IsFresh-filter m p [] h = tt
IsFresh-filter m p (e ∷ es) h = elim (Bool-cases (p e)) [
  | inl keep ↦ rw keep (h.0, IsFresh-filter m p es h.1)
  | inr skip ↦ rw skip (IsFresh-filter m p es h.1)
]

IsFresh-other_than :
    (m : String) (es : List Entry) → IsFresh m es → All (λ e. other_than m e ≡ true) es
IsFresh-other_than m [] h = tt
IsFresh-other_than m (e ∷ es) h = (ap not h.0, IsFresh-other_than m es h.1)

All-filter : (p : Entry → Bool) (es : List Entry) → All (λ e. p e ≡ true) (filter p es)
unfolding filter
All-filter p [] = tt
All-filter p (e ∷ es) = elim (Bool-cases (p e)) [
  | inl keep ↦ rw keep (keep, All-filter p es)
  | inr skip ↦ rw skip (All-filter p es)
]

mem-decoded_insert :
    (v m : String) (t : ℕ) (l r : List Entry)
    → mem v (decoded (l ++ (m, t) ∷ r)) ≡ (str_eq (decode m) v || mem v (decoded (l ++ r)))
unfolding decoded mem
mem-decoded_insert v m t [] r = refl
mem-decoded_insert v m t (e ∷ l) r = ground (arith, mem-decoded_insert v m t l r)

live_insert :
    (window_seconds now : ℕ) (m : String) (l r : List Entry)
    → 0 < window_seconds
    → All (λ e. live window_seconds now e ≡ true) (l ++ r)
    → All (λ e. live window_seconds now e ≡ true) (l ++ (m, now) ∷ r)
live_insert w now m [] r pos h = (ground arith, h)
live_insert w now m (e ∷ l) r pos h = (h.0, live_insert w now m l r pos h.1)

total-append : (xs ys : List Entry) → total (xs ++ ys) ≡ total xs + total ys
unfolding total
total-append [] ys = omega arith
total-append ((m, t) ∷ es) ys = omega (arith, total-append es ys)

total-insert :
    (amount : ℕ) (token : String) (now : ℕ) (l r : List Entry)
    → total (l ++ (encode (str amount) token, now) ∷ r) ≡ amount + total (l ++ r)
unfolding total
total-insert amount token now l r =
    total-append l _
    ∙ omega (
      arith,
      total-append l r,
      ap counted
          (ap int_of (decode-encode (str amount) token (has_sep-str amount)) ∙ int_of-str amount),
    )

insert_some : (e : Entry) (l r : List Entry) → l ++ e ∷ r ≢ []
insert_some e [] r h = absurd (ground (arith, h))
insert_some e (x ∷ l) r h = absurd (ground (arith, h))

module _ {S : Type 0} ⦃rd : Redis S⦄ where
  -- what a window holds of its entries after the trim
  abbrev pub kept : String → ℕ → ℕ → S → List Entry
  kept k window_seconds now s = filter (live window_seconds now) (rd.zrange k s)

  pub zrange-record_value :
      (k m : String) (window_seconds now : ℕ) (s : S)
      → IsFresh m (rd.zrange k s)
      → (l : List Entry) × (r : List Entry) × (kept k window_seconds now s ≡ l ++ r)
        × (rd.zrange k (record_value k m window_seconds now s) ≡ l ++ (m, now) ∷ r)
  unfolding record_value
  zrange-record_value k m w now s fresh =
      let s' = rd.zremrangebyscore k now (w * microseconds) s in
      let trimmed : rd.zrange k s' ≡ kept k w now s =
        rw (rd.zrange-zremrangebyscore, str_eq_refl k) refl in
      let (l, r, others, whole) = rd.zrange-zadd k m now s' in
      (
        l,
        r,
        sym (
              filter_keeps (other_than m) (kept k w now s)
                (IsFresh-other_than m _ (IsFresh-filter m (live w now) _ fresh)))
            ∙ ap (filter (other_than m)) (sym trimmed)
            ∙ others,
        rd.zrange-expire k k _ _ ∙ whole,
      )

  zrange-record_value_other :
      (k j m : String) (window_seconds now : ℕ) (s : S)
      → str_eq k j ≡ false
      → rd.zrange j (record_value k m window_seconds now s) ≡ rd.zrange j s
  unfolding record_value
  zrange-record_value_other k j m w now s ne =
      rd.zrange-expire k j _ _
      ∙ rd.zrange-zadd_other k j m now _ ne
      ∙ (rw (rd.zrange-zremrangebyscore, ne) refl)

  -- A recorded value is counted once beside the entries that the trim keeps; a text is among the
  -- distinct values exactly if it is the recorded one or that of a kept entry; every entry left in a
  -- window of positive length is younger than it; and no other key changes. The token makes a
  -- member that the window does not hold yet.
  pub add_and_measure_lem :
      (name entity value token : String) (window_seconds now : ℕ) (s : S)
      → 0 < window_seconds
      → IsFresh (encode value token) (rd.zrange (key name entity) s)
      → ((add_and_measure name entity value token window_seconds now s).0.count
          ≡ length (kept (key name entity) window_seconds now s) + 1)
        × ((v : String)
            → mem v (add_and_measure name entity value token window_seconds now s).0.unique_values
              ≡ (str_eq (decode (encode value token)) v
                  || mem v (decoded (kept (key name entity) window_seconds now s))))
        × All
            (λ e. live window_seconds now e ≡ true)
            (rd.zrange
              (key name entity)
              (add_and_measure name entity value token window_seconds now s).1)
        × ((j : String)
            → str_eq (key name entity) j ≡ false
            → rd.zrange j (add_and_measure name entity value token window_seconds now s).1
              ≡ rd.zrange j s)
  unfolding add_and_measure
  add_and_measure_lem name entity value token w now s pos fresh =
      let k = key name entity in
      let (l, r, before, after) = zrange-record_value k (encode value token) w now s fresh in
      (
        to_result-count _ now
            ∙ ap length after
            ∙ length-append l _
            ∙ omega (arith, length-append l r, ap length before),
        λ v.
            to_result-mem _ now v
            ∙ ap (λ es. mem v (decoded es)) after
            ∙ mem-decoded_insert v (encode value token) now l r
            ∙ ap (λ es. str_eq (decode (encode value token)) v || mem v (decoded es)) (sym before),
        rw after (
            live_insert w now (encode value token) l r pos (
              subst (All (λ e. live w now e ≡ true)) before
                (All-filter (live w now) (rd.zrange k s)))),
        λ j ne. zrange-record_value_other k j (encode value token) w now s ne,
      )

  -- The reported sum is the new amount and the amounts of the entries that the trim keeps, where the
  -- token makes a member that the window does not hold.
  pub incr_sum_lem :
      (name entity : String) (amount : ℕ) (token : String) (window_seconds now : ℕ) (s : S)
      → IsFresh (encode (str amount) token) (rd.zrange (key name entity) s)
      → (incr_sum name entity amount token window_seconds now s).0
        ≡ amount + total (kept (key name entity) window_seconds now s)
  unfolding incr_sum
  incr_sum_lem name entity amount token w now s fresh =
      let k = key name entity in
      let (l, r, before, after) = zrange-record_value k (encode (str amount) token) w now s fresh in
      ap total after ∙ total-insert amount token now l r ∙ ap (λ es. amount + total es) (sym before)

  -- A window that nothing was recorded in for its length and 30 seconds more is empty, since its key has
  -- expired; before that, the passing of time changes nothing in it.
  pub zrange-record_value_later :
      (k m : String) (window_seconds now seconds : ℕ) (s : S)
      → rd.zrange k (rd.elapse seconds (record_value k m window_seconds now s)) ≡ (
          if leb (window_seconds + 30) seconds
          then []
          else rd.zrange k (record_value k m window_seconds now s))
  unfolding record_value
  zrange-record_value_later k m w now seconds s =
      let s' = rd.zremrangebyscore k now (w * microseconds) s in
      let (l, r, others, whole) = rd.zrange-zadd k m now s' in
      let some_left : rd.zrange k (rd.zadd k m now s') ≢ [] =
        λ none_left. insert_some (m, now) l r (sym whole ∙ none_left) in
      rd.zrange-elapse k seconds _
      ∙ ap
          (λ o.
            if is_past seconds o
            then []
            else rd.zrange k (rd.expire k (w + 30) (rd.zadd k m now s')))
          (rd.ttl-expire_sorted k (w + 30) _ some_left)
