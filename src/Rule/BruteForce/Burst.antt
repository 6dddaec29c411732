-- ===== src/Rule/BruteForce/Burst.antt =====
-- backend/app/detection/rules/brute_force.py on a run of failed logins from one address.
use real_time_distributed_si.Prelude.{
  ℕ, suc, ◌+◌, ◌*◌, ◌≤◌, ◌<◌, String, true, false, ◌≡◌, refl, sym, ap, ◌∙◌, Option, some, List, [],
  ◌∷◌, ◌++◌, arith, length, str_eq, filter_keeps, length-append, All, All-map,
}
use mathlib.Core.Path.{subst}
use real_time_distributed_si.Floats.{Floats}
use real_time_distributed_si.Enums.{is_event_type, auth_success, high, critical}
use real_time_distributed_si.Event.{SecurityEvent, microseconds}
use real_time_distributed_si.Redis.{Redis, Entry}
use real_time_distributed_si.Window.{key, encode, add_and_measure, record_value}
use real_time_distributed_si.Window.Contents.{IsFresh, live, kept, zrange-record_value}
use real_time_distributed_si.Detection.{Detection, Env, Outcome, or_text}
use real_time_distributed_si.Rule.BruteForce.{Params, evaluate, evaluate_from}
use real_time_distributed_si.Rule.BruteForce.Threshold.{
  Fires, failure-Fires, success-Fires, evaluate-given,
}

-- no member of one token is a member of a later one
abbrev pub Apart : (ℕ → Env) → Type 0
Apart env =
    (i j : ℕ) (u v : String)
    → i < j
    → str_eq (encode u (env i).token) (encode v (env j).token) ≡ false

-- an entry of the window that starts at `t0`, whose member no token from the `i`-th on makes
abbrev IsEarlier : (ℕ → Env) → ℕ → ℕ → Entry → Type 0
IsEarlier env t0 i x =
    (t0 ≤ x.1) × ((j : ℕ) (u : String) → i ≤ j → str_eq x.0 (encode u (env j).token) ≡ false)

All-insert :
    (P : Entry → Type 0) (x : Entry) (l r : List Entry) → P x → All P (l ++ r) → All P (l ++ x ∷ r)
All-insert P x [] r p h = (p, h)
All-insert P x (y ∷ l) r p h = (h.0, All-insert P x l r p h.1)

length-insert : (x : Entry) (l r : List Entry) → length (l ++ x ∷ r) ≡ length (l ++ r) + 1
length-insert x l r = omega (arith, length-append l (x ∷ r), length-append l r)

module _ {R : Type 0} where
  -- a failed login from the address in the window that starts at `t0`
  abbrev pub IsAttempt : String → ℕ → ℕ → SecurityEvent R → Type 0
  IsAttempt ip t0 window_seconds e =
      (e.source_ip ≡ some ip)
      × (is_event_type e.event_type auth_success ≡ false)
      × (t0 ≤ e.timestamp)
      × (e.timestamp < t0 + window_seconds * microseconds)

  -- the `n`-th outcome and those after it fire from the threshold on, with their number
  abbrev pub FireFrom : ℕ → ℕ → List (Outcome (Option (Detection R))) → Type 0
  FireFrom threshold n [] = Unit
  FireFrom threshold n (o ∷ os) = Fires threshold n high o × FireFrom threshold (suc n) os

module _ (window_seconds : ℕ) (env : ℕ → Env) where
  all_live :
      (t0 i now : ℕ) (es : List Entry)
      → now < t0 + window_seconds * microseconds
      → All (IsEarlier env t0 i) es
      → All (λ x. live window_seconds now x ≡ true) es
  all_live t0 i now es h = All-map _ _ (λ x g. ground (arith, g.0, h)) es

  fresh :
      (t0 i : ℕ) (u : String) (es : List Entry)
      → All (IsEarlier env t0 i) es
      → IsFresh (encode u (env i).token) es
  fresh t0 i u es = All-map _ _ (λ x g. g.1 i u (omega arith)) es

  -- the window of the address holds `n` entries, all in time and of earlier tokens
  abbrev Holds : {S : Type 0} ⦃rd : Redis S⦄ → String → ℕ → ℕ → ℕ → S → Type 0
  Holds ⦃rd⦄ ip t0 n i s =
      (length (rd.zrange (key "bruteforce" ip) s) ≡ n)
      × All (IsEarlier env t0 i) (rd.zrange (key "bruteforce" ip) s)

-- what the window of the address holds after `n` failed logins
abbrev pub HasFailures : {S : Type 0} ⦃rd : Redis S⦄ → String → ℕ → ℕ → S → Type 0
HasFailures ⦃rd⦄ ip t0 n s =
    (length (rd.zrange (key "bruteforce" ip) s) ≡ n)
    × All (λ x. t0 ≤ x.1) (rd.zrange (key "bruteforce" ip) s)

module _ {R S : Type 0} ⦃F : Floats R⦄ ⦃rd : Redis S⦄ (p : Params) (env : ℕ → Env) where
  -- the rule on one event after another, each with the next token
  abbrev pub outcomes : ℕ → List (SecurityEvent R) → S → List (Outcome (Option (Detection R)))
  outcomes i [] s = []
  outcomes i (e ∷ es) s =
      (evaluate p e (env i) s).0 ∷ outcomes (suc i) es (evaluate p e (env i) s).1

  evaluate-zrange :
      (e : SecurityEvent R) (ip : String) (i : ℕ) (s : S)
      → e.source_ip ≡ some ip
      → is_event_type e.event_type auth_success ≡ false
      → (evaluate p e (env i) s).1
        ≡ record_value
            (key "bruteforce" ip)
            (encode (or_text e.username "-") (env i).token)
            p.window_seconds
            e.timestamp
            s
  unfolding evaluate_from add_and_measure
  evaluate-zrange e ip i s given fail = rw (evaluate-given p e ip (env i) s given) (rw fail refl)

  Holds-step :
      (e : SecurityEvent R) (ip : String) (t0 n i : ℕ) (s : S)
      → Apart env
      → IsAttempt ip t0 p.window_seconds e
      → Holds p.window_seconds env ip t0 n i s
      → Holds p.window_seconds env ip t0 (suc n) (suc i) (evaluate p e (env i) s).1
  Holds-step e ip t0 n i s apart (given, fail, after, before) (count, earlier) =
      let k = key "bruteforce" ip in
      let m = encode (or_text e.username "-") (env i).token in
      let whole =
        filter_keeps _ _ (all_live p.window_seconds env t0 i e.timestamp _ before earlier) in
      let (l, r, split, result) =
        zrange-record_value k m p.window_seconds e.timestamp s
          (fresh p.window_seconds env t0 i _ _ earlier) in
      let parts : rd.zrange k s ≡ l ++ r = sym whole ∙ split in
      let weaken : (x : Entry) → IsEarlier env t0 i x → IsEarlier env t0 (suc i) x =
        λ x g. (g.0, λ j u le. g.1 j u (omega (arith, le))) in
      let kept_parts : All (IsEarlier env t0 (suc i)) (l ++ r) =
        All-map _ _ weaken _ (subst (All (IsEarlier env t0 i)) parts earlier) in
      rw (evaluate-zrange e ip i s given fail) (
        rw result (
          omega (arith, length-insert (m, e.timestamp) l r, ap length parts, count),
          All-insert _ (m, e.timestamp) l r (after, λ j u le. apart i j _ u (omega (arith, le)))
              kept_parts,
        ))

  -- the state after the events
  abbrev pub after_all : ℕ → List (SecurityEvent R) → S → S
  after_all i [] s = s
  after_all i (e ∷ es) s = after_all (suc i) es (evaluate p e (env i) s).1

  one-Fires :
      (e : SecurityEvent R) (ip : String) (t0 n i : ℕ) (s : S)
      → 0 < p.window_seconds
      → IsAttempt ip t0 p.window_seconds e
      → Holds p.window_seconds env ip t0 n i s
      → Fires p.max_failures (suc n) high (evaluate p e (env i) s).0
  one-Fires e ip t0 n i s pos (given, fail, _, before) (count, earlier) =
      let whole =
        filter_keeps _ _ (all_live p.window_seconds env t0 i e.timestamp _ before earlier) in
      subst (λ m. Fires p.max_failures m high (evaluate p e (env i) s).0)
        (omega (arith, ap length whole, count))
        (failure-Fires p e ip (env i) s given fail pos
          (fresh p.window_seconds env t0 i (or_text e.username "-") _ earlier))

  burst_from :
      (ip : String) (t0 n i : ℕ) (es : List (SecurityEvent R)) (s : S)
      → 0 < p.window_seconds
      → Apart env
      → All (IsAttempt ip t0 p.window_seconds) es
      → Holds p.window_seconds env ip t0 n i s
      → FireFrom p.max_failures (suc n) (outcomes i es s)
        × HasFailures ip t0 (n + length es) (after_all i es s)
  burst_from ip t0 n i [] s pos apart h (count, earlier) =
      (tt, (omega (arith, count), All-map _ _ (λ x g. g.0) _ earlier))
  burst_from ip t0 n i (e ∷ es) s pos apart h holds =
      let next = Holds-step e ip t0 n i s apart h.0 holds in
      let (fires, (count, times)) = burst_from ip t0 (suc n) (suc i) es _ pos apart h.1 next in
      ((one-Fires e ip t0 n i s pos h.0 holds, fires), (omega (arith, count), times))

  pub burst_lem :
      (ip : String) (t0 : ℕ) (es : List (SecurityEvent R)) (s : S)
      → 0 < p.window_seconds
      → Apart env
      → rd.zrange (key "bruteforce" ip) s ≡ []
      → All (IsAttempt ip t0 p.window_seconds) es
      → FireFrom p.max_failures 1 (outcomes 0 es s)
        × HasFailures ip t0 (length es) (after_all 0 es s)
  burst_lem ip t0 es s pos apart empty h =
      let none_yet : Holds p.window_seconds env ip t0 0 0 s =
        (ap length empty, subst (All (IsEarlier env t0 0)) (sym empty) tt) in
      let (fires, (count, times)) = burst_from ip t0 0 0 es s pos apart h none_yet in
      (fires, (omega (arith, count), times))

  -- A login from the address after such failed logins, while the wall clock is within the window, fires
  -- the rule exactly if their number reaches the threshold, with critical severity and that number.
  pub breach_lem :
      (ip : String) (t0 : ℕ) (es : List (SecurityEvent R)) (login : SecurityEvent R) (now : Env)
      (s : S)
      → 0 < p.window_seconds
      → Apart env
      → rd.zrange (key "bruteforce" ip) s ≡ []
      → All (IsAttempt ip t0 p.window_seconds) es
      → login.source_ip ≡ some ip
      → is_event_type login.event_type auth_success ≡ true
      → now.wall < t0 + p.window_seconds * microseconds
      → Fires p.max_failures (length es) critical (evaluate p login now (after_all 0 es s)).0
  breach_lem ip t0 es login now s pos apart empty h given success early =
      let (count, times) = (burst_lem ip t0 es s pos apart empty h).1 in
      let s' = after_all 0 es s in
      let whole : kept (key "bruteforce" ip) p.window_seconds now.wall s'
          ≡ rd.zrange (key "bruteforce" ip) s' =
        filter_keeps _ _ (All-map _ _ (λ x g. ground (arith, g, early)) _ times) in
      subst (λ m. Fires p.max_failures m critical (evaluate p login now s').0)
        (ap length whole ∙ count) (success-Fires p login ip now s' given success).0
