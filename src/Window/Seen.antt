-- ===== src/Window/Seen.antt =====
-- The window operations change sorted sets only.
use real_time_distributed_si.Prelude.{
  ℕ, String, ◌∙◌, ◌≡◌, refl, false, str_eq, fmt, eq_iff, Bool-cases, inl, inr, ap, sym, true,
}
use mathlib.Core.Bool.{false≢true}
use text.Mathlib.Text.{starts_with}
use text.Mathlib.TextPositions.{starts_with-append}
use real_time_distributed_si.Redis.{Redis}
use real_time_distributed_si.Pipeline.{dedup_key}
use real_time_distributed_si.Redis.Seen.{SameSeen}
use real_time_distributed_si.Window.{key, record_value, add_and_measure, measure, incr_sum}

-- no window has the key of the ids that are seen
key_apart : (name entity : String) → str_eq (key name entity) dedup_key ≡ false
unfolding key fmt
key_apart name entity = elim (Bool-cases (str_eq (key name entity) dedup_key)) [
  | inl same ↦
      let starts : starts_with (key name entity) "siem:win" ≡ true =
        starts_with-append "siem:win" _ in
      let differs : starts_with dedup_key "siem:win" ≡ false = refl in
      absurd (
        false≢true (
          sym differs
          ∙ sym (ap (λ t. starts_with t "siem:win") ((eq_iff (key name entity) dedup_key).0 same))
          ∙ starts))
  | inr other ↦ other
]

module _ {S : Type 0} ⦃rd : Redis S⦄ where
  record_value-SameSeen :
      (k m : String) (w now : ℕ) (s : S)
      → str_eq k dedup_key ≡ false
      → SameSeen s (record_value k m w now s)
  unfolding record_value
  record_value-SameSeen k m w now s other = record {
    at = λ j n.
        rd.sismember-expire j n k _ _
        ∙ rd.sismember-zadd j n k m now _
        ∙ rd.sismember-zremrangebyscore j n k now _ s;
    lives =
        rd.ttl-expire_other k dedup_key _ _ other
        ∙ rd.ttl-zadd_other k dedup_key m now _ other
        ∙ rd.ttl-zremrangebyscore_other k dedup_key now _ s other;
  }

  pub add_and_measure-SameSeen :
      (name entity value token : String) (w now : ℕ) (s : S)
      → SameSeen s (add_and_measure name entity value token w now s).1
  unfolding add_and_measure
  add_and_measure-SameSeen name entity value token w now s =
      record_value-SameSeen _ _ w now s (key_apart name entity)

  pub measure-SameSeen :
      (name entity : String) (w now : ℕ) (s : S) → SameSeen s (measure name entity w now s).1
  unfolding measure
  measure-SameSeen name entity w now s = record {
    at = λ j n. rd.sismember-zremrangebyscore j n _ now _ s;
    lives = rd.ttl-zremrangebyscore_other _ dedup_key now _ s (key_apart name entity);
  }

  pub incr_sum-SameSeen :
      (name entity : String) (amount : ℕ) (token : String) (w now : ℕ) (s : S)
      → SameSeen s (incr_sum name entity amount token w now s).1
  unfolding incr_sum
  incr_sum-SameSeen name entity amount token w now s =
      record_value-SameSeen _ _ w now s (key_apart name entity)
