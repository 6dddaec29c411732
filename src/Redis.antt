-- ===== src/Redis.antt =====
-- What the program relies on of Redis, as a parameter: sorted sets and plain sets under keys, with
-- the documented effect of each command on the contents. A sorted set is read in full, in an order
-- that the laws leave open.
pub mod Seen
use real_time_distributed_si.Prelude.{
  ℕ, ◌+◌, String, Bool, false, ◌≡◌, List, ◌∷◌, ◌++◌, not, ltb, str_eq, filter, mem, ◌||◌, ◌&&◌,
  if◌then◌else◌, Option, none, some, leb, true, [], ◌≢◌,
}

-- a member of a sorted set with its score
abbrev pub Entry : Type 0
Entry = String × ℕ

-- the entries of another member
abbrev pub other_than : String → Entry → Bool
other_than m e = not (str_eq e.0 m)

-- a time to live that has passed after so many seconds; a key without one stays
abbrev pub is_past : ℕ → Option ℕ → Bool
is_past n none = false
is_past n (some t) = leb t n

pub record Redis (S : Type 0) : Type 0 where
  -- ZREMRANGEBYSCORE key -inf cutoff, for the cutoff now - window
  pub zremrangebyscore : String → (now window : ℕ) → S → S
  -- ZADD key score member
  pub zadd : String → String → ℕ → S → S
  -- EXPIRE key seconds, for a positive number of seconds
  pub expire : String → ℕ → S → S
  -- ZRANGE key 0 -1 WITHSCORES
  pub zrange : String → S → List Entry
  -- SADD key members, SISMEMBER key member
  pub sadd : String → List String → S → S
  pub sismember : String → String → S → Bool
  -- TTL key, and the passing of so many seconds without a command
  pub ttl : String → S → Option ℕ
  pub elapse : ℕ → S → S
  -- a score at or under the cutoff goes, so what stays has now < score + window
  pub zrange-zremrangebyscore :
      (k j : String) (now window : ℕ) (s : S)
      → zrange j (zremrangebyscore k now window s)
        ≡ (if str_eq k j then filter (λ e. ltb now (e.1 + window)) (zrange j s) else zrange j s)
  -- the member stands once, with the new score, at some place between the others
  pub zrange-zadd :
      (k m : String) (t : ℕ) (s : S)
      → (l : List Entry) × (r : List Entry) × (filter (other_than m) (zrange k s) ≡ l ++ r)
        × (zrange k (zadd k m t s) ≡ l ++ (m, t) ∷ r)
  pub zrange-zadd_other :
      (k j m : String) (t : ℕ) (s : S) → str_eq k j ≡ false → zrange j (zadd k m t s) ≡ zrange j s
  -- EXPIRE itself leaves the contents as they are
  pub zrange-expire : (k j : String) (n : ℕ) (s : S) → zrange j (expire k n s) ≡ zrange j s
  pub sismember-sadd :
      (k j m : String) (ms : List String) (s : S)
      → sismember j m (sadd k ms s) ≡ ((str_eq k j && mem m ms) || sismember j m s)
  -- the commands on sorted sets leave the plain sets alone
  pub sismember-zremrangebyscore :
      (k m j : String) (now window : ℕ) (s : S)
      → sismember k m (zremrangebyscore j now window s) ≡ sismember k m s
  pub sismember-zadd :
      (k m j n : String) (t : ℕ) (s : S) → sismember k m (zadd j n t s) ≡ sismember k m s
  pub sismember-expire :
      (k m j : String) (n : ℕ) (s : S) → sismember k m (expire j n s) ≡ sismember k m s
  -- EXPIRE sets the time to live of a key that exists
  pub ttl-expire :
      (k m : String) (n : ℕ) (s : S) → sismember k m s ≡ true → ttl k (expire k n s) ≡ some n
  pub ttl-expire_sorted :
      (k : String) (n : ℕ) (s : S) → zrange k s ≢ [] → ttl k (expire k n s) ≡ some n
  -- a command on one key leaves the time to live of the others alone
  pub ttl-expire_other :
      (k j : String) (n : ℕ) (s : S) → str_eq k j ≡ false → ttl j (expire k n s) ≡ ttl j s
  pub ttl-zremrangebyscore_other :
      (k j : String) (now window : ℕ) (s : S)
      → str_eq k j ≡ false
      → ttl j (zremrangebyscore k now window s) ≡ ttl j s
  pub ttl-zadd_other :
      (k j m : String) (t : ℕ) (s : S) → str_eq k j ≡ false → ttl j (zadd k m t s) ≡ ttl j s
  -- a key is gone once its time to live has passed, and as it was before
  pub sismember-elapse :
      (k m : String) (n : ℕ) (s : S)
      → sismember k m (elapse n s) ≡ (if is_past n (ttl k s) then false else sismember k m s)
  pub zrange-elapse :
      (k : String) (n : ℕ) (s : S)
      → zrange k (elapse n s) ≡ (if is_past n (ttl k s) then [] else zrange k s)
