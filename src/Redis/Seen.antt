-- ===== src/Redis/Seen.antt =====
-- The plain sets are left alone by every command on sorted sets, and the set of the event ids that are
-- seen keeps its time to live.
use real_time_distributed_si.Prelude.{String, ◌≡◌, refl, ◌∙◌}
use real_time_distributed_si.Redis.{Redis}
use real_time_distributed_si.Pipeline.{dedup_key}

module _ {S : Type 0} ⦃rd : Redis S⦄ where
  pub record SameSeen (s s' : S) : Type 0 where
    pub at : (key member : String) → rd.sismember key member s' ≡ rd.sismember key member s
    pub lives : rd.ttl dedup_key s' ≡ rd.ttl dedup_key s

  pub SameSeen-refl : (s : S) → SameSeen s s
  SameSeen-refl s = record { at = λ k m. refl; lives = refl }

  pub SameSeen-trans : {s t u : S} → SameSeen s t → SameSeen t u → SameSeen s u
  SameSeen-trans h g = record { at = λ k m. g.at k m ∙ h.at k m; lives = g.lives ∙ h.lives }
