-- ===== src/Enrichment/Reputation.antt =====
-- backend/app/detection/enrichment.py: the score that is reported, and the reputation beside it.
use real_time_distributed_si.Prelude.{
  ℕ, ◌%◌, ◌≤◌, String, true, false, ◌≡◌, refl, Option, none, some, arith, ◌||◌, str_eq, Bool-cases,
  inl, inr, eq_iff,
}
use real_time_distributed_si.Enrichment.{
  Network, Address, Enrichment, is_external, scored, reputation_of, external, enriched, enrich,
  at_index, categories,
}

-- the score is at most 100 and has the reputation, and a scanner or a Tor exit is suspicious at least
pub record IsConsistent (e : Enrichment) : Type 0 where
  pub score : e.reputation_score ≤ 100
  pub reputation : e.reputation ≡ reputation_of e.reputation_score
  pub scanner : e.category ≡ some "scanner" → 70 ≤ e.reputation_score
  pub tor_exit : e.category ≡ some "tor-exit" → 70 ≤ e.reputation_score

scored-le : (category : String) (n : ℕ) → scored category (n % 101) ≤ 100
unfolding scored
scored-le category n = ground arith

scored-ge :
    (category kind : String) (n : ℕ)
    → (str_eq kind "tor-exit" || str_eq kind "scanner") ≡ true
    → some category ≡ some kind
    → 70 ≤ scored category n
unfolding scored
scored-ge category kind n h e = ground (arith, h, e)

external-IsConsistent : (net : Network) (ip : String) → IsConsistent (external net ip)
unfolding external
external-IsConsistent net ip = record {
  score = scored-le (at_index (net.digest ip 1 % 6) categories) (net.digest ip 4);
  reputation = refl;
  scanner = λ e.
      scored-ge (at_index (net.digest ip 1 % 6) categories) "scanner" (net.digest ip 4 % 101) refl
        e;
  tor_exit = λ e.
      scored-ge (at_index (net.digest ip 1 % 6) categories) "tor-exit" (net.digest ip 4 % 101) refl
        e;
}

no_corporate :
    (kind : String) → str_eq "corporate" kind ≡ false → some "corporate" ≡ some kind → 70 ≤ 5
no_corporate kind h e = ground (arith, h, e, eq_iff "corporate" kind)

enriched-IsConsistent :
    (net : Network) (ip : String) (o : Option Address) → IsConsistent (enriched net ip o)
unfolding reputation_of
enriched-IsConsistent net ip none = record {
  score = omega arith;
  reputation = refl;
  scanner = λ e. absurd (ground (arith, e));
  tor_exit = λ e. absurd (ground (arith, e));
}
enriched-IsConsistent net ip (some a) = elim (Bool-cases (is_external a)) [
  | inl out ↦ rw out (external-IsConsistent net ip)
  | inr inside ↦ rw inside (record {
    score = omega arith;
    reputation = refl;
    scanner = no_corporate "scanner" refl;
    tor_exit = no_corporate "tor-exit" refl;
  })
]

-- The enrichment of every text, an address or not, has a score of at most 100 and the reputation of
-- that score, and a scanner or a Tor exit has a score of at least 70.
pub enrich-IsConsistent : (net : Network) (ip : String) → IsConsistent (enrich net ip)
unfolding enrich
enrich-IsConsistent net ip = enriched-IsConsistent net ip (net.ip_address ip)
