-- ===== src/Rule/BruteForce/Threshold.antt =====
-- backend/app/detection/rules/brute_force.py: when RULE-001 fires, and what it adds to its window.
use real_time_distributed_si.Prelude.{
  ℕ, ◌+◌, ◌*◌, ◌<◌, String, Bool, true, false, ◌≡◌, refl, ap, ◌∙◌, Option, none, some,
  if◌then◌else◌, ltb, length, str_eq, str_eq_refl,
}
use real_time_distributed_si.Floats.{Floats}
use real_time_distributed_si.Enums.{Severity, is_event_type, auth_success, high, critical}
use real_time_distributed_si.Event.{SecurityEvent, microseconds}
use real_time_distributed_si.Redis.{Redis}
use real_time_distributed_si.Window.{WindowResult, key, encode, measure}
use real_time_distributed_si.Window.Contents.{IsFresh, kept, add_and_measure_lem, to_result-count}
use real_time_distributed_si.Detection.{Detection, Env, Outcome, ok, raised, or_text}
use real_time_distributed_si.Rule.BruteForce.{Params, evaluate, evaluate_from, verdict, detection}

-- no detection under the threshold; from it on, one that reports the count, at that severity
abbrev pub Fires : {R : Type 0} → ℕ → ℕ → Severity → Outcome (Option (Detection R)) → Type 0
Fires {R} threshold count severity o =
    (ltb count threshold ≡ true → o ≡ ok none)
    × (ltb count threshold ≡ false
        → (d : Detection R) × (o ≡ ok (some d))
          × (d.event_count_hint ≡ count)
          × (d.severity ≡ severity))

module _ {R : Type 0} ⦃F : Floats R⦄ where
  verdict-Fires :
      (p : Params) (e : SecurityEvent R) (ip : String) (res : WindowResult) (breached : Bool)
      (n : ℕ)
      → res.count ≡ n
      → Fires p.max_failures n (if breached then critical else high) (verdict p e ip res breached)
  unfolding verdict detection
  verdict-Fires p e ip res breached n h =
      (λ few. rw (h, few) refl, λ many. (detection p e ip res breached, rw (h, many) refl, h, refl))

module _ {S : Type 0} ⦃rd : Redis S⦄ where
  measured :
      (ip : String) (window_seconds now : ℕ) (s : S)
      → ((measure "bruteforce" ip window_seconds now s).0.count
          ≡ length (kept (key "bruteforce" ip) window_seconds now s))
        × ((j : String)
            → rd.zrange j (measure "bruteforce" ip window_seconds now s).1 ≡ (
                if str_eq (key "bruteforce" ip) j
                then kept j window_seconds now s
                else rd.zrange j s))
  unfolding measure
  measured ip w now s =
      let k = key "bruteforce" ip in
      let trimmed : rd.zrange k (rd.zremrangebyscore k now (w * microseconds) s) ≡ kept k w now s =
        rw (rd.zrange-zremrangebyscore, str_eq_refl k) refl in
      (
        to_result-count _ now ∙ ap length trimmed,
        λ j. rd.zrange-zremrangebyscore k j now (w * microseconds) s,
      )

module _ {R S : Type 0} ⦃F : Floats R⦄ ⦃rd : Redis S⦄ where
  pub evaluate-given :
      (p : Params) (e : SecurityEvent R) (ip : String) (env : Env) (s : S)
      → e.source_ip ≡ some ip
      → evaluate p e env s ≡ evaluate_from p e ip env s
  unfolding evaluate
  evaluate-given p e ip env s h =
      ap
        (λ o. elim o [ none ↦ (raised "AssertionError", s) | some ip ↦ evaluate_from p e ip env s ])
        h

  failure_counted :
      (p : Params) (e : SecurityEvent R) (ip : String) (env : Env) (s : S)
      → is_event_type e.event_type auth_success ≡ false
      → 0 < p.window_seconds
      → IsFresh (encode (or_text e.username "-") env.token) (rd.zrange (key "bruteforce" ip) s)
      → Fires p.max_failures
          (length (kept (key "bruteforce" ip) p.window_seconds e.timestamp s) + 1)
          high
          (evaluate_from p e ip env s).0
  unfolding evaluate_from
  failure_counted p e ip env s fail pos fresh =
      let (count, _, _, _) =
        add_and_measure_lem "bruteforce" ip (or_text e.username "-") env.token p.window_seconds
          e.timestamp s pos fresh in
      rw fail (verdict-Fires p e ip _ false _ count)

  pub failure-Fires :
      (p : Params) (e : SecurityEvent R) (ip : String) (env : Env) (s : S)
      → e.source_ip ≡ some ip
      → is_event_type e.event_type auth_success ≡ false
      → 0 < p.window_seconds
      → IsFresh (encode (or_text e.username "-") env.token) (rd.zrange (key "bruteforce" ip) s)
      → Fires p.max_failures
          (length (kept (key "bruteforce" ip) p.window_seconds e.timestamp s) + 1)
          high
          (evaluate p e env s).0
  failure-Fires p e ip env s given fail pos fresh =
      rw (evaluate-given p e ip env s given) (failure_counted p e ip env s fail pos fresh)

  success_counted :
      (p : Params) (e : SecurityEvent R) (ip : String) (env : Env) (s : S)
      → is_event_type e.event_type auth_success ≡ true
      → Fires p.max_failures
          (length (kept (key "bruteforce" ip) p.window_seconds env.wall s))
          critical
          (evaluate_from p e ip env s).0
        × ((j : String)
            → rd.zrange j (evaluate_from p e ip env s).1 ≡ (
                if str_eq (key "bruteforce" ip) j
                then kept j p.window_seconds env.wall s
                else rd.zrange j s))
  unfolding evaluate_from
  success_counted p e ip env s login =
      let (count, rest) = measured ip p.window_seconds env.wall s in
      rw login (verdict-Fires p e ip _ true _ count, rest)

  pub success-Fires :
      (p : Params) (e : SecurityEvent R) (ip : String) (env : Env) (s : S)
      → e.source_ip ≡ some ip
      → is_event_type e.event_type auth_success ≡ true
      → Fires p.max_failures
          (length (kept (key "bruteforce" ip) p.window_seconds env.wall s))
          critical
          (evaluate p e env s).0
        × ((j : String)
            → rd.zrange j (evaluate p e env s).1 ≡ (
                if str_eq (key "bruteforce" ip) j
                then kept j p.window_seconds env.wall s
                else rd.zrange j s))
  success-Fires p e ip env s given login =
      rw (evaluate-given p e ip env s given) (success_counted p e ip env s login)
