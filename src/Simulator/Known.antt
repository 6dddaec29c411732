-- ===== src/Simulator/Known.antt =====
-- simulator/simulator/ against the enumerations of backend/app/schemas/enums.py: the event types and
-- source types that the generators write.
pub mod Attacks
use real_time_distributed_si.Prelude.{
  ℕ, zero, suc, ◌+◌, ◌*◌, min, length, ◌≡◌, ◌≢◌, refl, sym, ap, ◌∙◌, String, Bool, true, false,
  Option, none, some, List, [], ◌∷◌, ◌++◌, arith, ◌&&◌, not, if◌then◌else◌, All, All-append, In,
  All-In, Bool-cases, inl, inr, str_eq, lower, ℤ,
}
use mathlib.Core.Path.{subst}
use mathlib.Core.Bool.{false≢true}
use real_time_distributed_si.Floats.{Floats, fdiv, of_ℕ}
use real_time_distributed_si.Enums.{
  EventType, SourceType, is_event_type, is_source_type, event_type_of, source_type_of,
  event_type_value, source_type_value,
}
use real_time_distributed_si.Value.{Value, Fields, text, get}
use real_time_distributed_si.Value.Convert.{value_text}
use real_time_distributed_si.Event.{SecurityEvent}
use real_time_distributed_si.Detection.{Outcome, ok, raised}
use real_time_distributed_si.Normalize.{
  Platform, Draw, or_else, value_at, coerce_event_type, coerce_source_type, from_raw, event_at,
  built, normalize_ts,
}
use real_time_distributed_si.Simulator.World.{World, Reals, Draws, nth, weighted, choice, sample}
use real_time_distributed_si.Simulator.Models.{
  Args, payload, make_event, ssh_hosts, users, idp_hosts, fw_hosts, app_hosts, db_hosts, web_hosts,
  rand_internal_ip, rand_external_ip,
}
use real_time_distributed_si.Simulator.Normal.{
  ssh_login, http_request, db_query, firewall_event, dns_event, app_event, logout_event,
  scheduled_job, idp_event, mix_functions, mix_weights, normal_event,
}
use real_time_distributed_si.Simulator.Scenarios.{or_randint, or_external, or_internal}
use real_time_distributed_si.Simulator.Scenarios.Logins.{
  breached, attempts_from, failed_attempt, breach_events, breach_event, ssh_brute_force, sprayed,
  spray_event, lucky_hit, credential_attack,
}
use real_time_distributed_si.Simulator.Scenarios.Network.{
  probe, probes, port_scan, random_ports, common_ports, chunk, chunks_from, data_exfiltration,
}
use real_time_distributed_si.Simulator.Scenarios.Hosts.{
  or_user, malicious_queries, rounds, first_login, escalation, privilege_escalation_attack,
  injection, sql_attack, web_probe, web_attack,
}
use real_time_distributed_si.Simulator.Scenarios.Catalogue.{scenarios, find_scenario, scenario_of}

-- a text that the validator reads as a member other than unknown
abbrev pub event_known : String → Bool
event_known s =
    not (is_event_type (or_else (event_type_of (lower s)) EventType.unknown) EventType.unknown)

abbrev pub source_known : String → Bool
source_known s =
    not (is_source_type (or_else (source_type_of (lower s)) SourceType.unknown) SourceType.unknown)

abbrev pub text_known : {R : Type 0} → (String → Bool) → Value R → Bool
text_known known (text s) = known s
text_known known v = false

-- a payload whose event type and source type the backend knows
abbrev pub IsKnown : {R : Type 0} → Fields R → Type 0
IsKnown d =
    (text_known event_known (value_at "event_type" d) ≡ true)
    × (text_known source_known (value_at "source_type" d) ≡ true)

pub known_if :
    (known : String → Bool) (b : Bool) (s t : String)
    → known s ≡ true
    → known t ≡ true
    → known (if b then s else t) ≡ true
known_if known true s t h k = h
known_if known false s t h k = k

-- what a generator draws is known
abbrev pub Makes : {R : Type 0} (G : Type 0) → Draws G (Fields R) → Type 0
Makes G m = (g : G) → IsKnown (m g).0

module _ (R : Type 0) {G : Type 0} ⦃w : World G⦄ where
  http_request-Makes : Makes G (http_request {R = R})
  unfolding http_request make_event payload get event_type_of source_type_of is_event_type
      is_source_type lower
  http_request-Makes g = (refl, refl)

  ssh_login-Makes : Makes G (ssh_login {R = R})
  unfolding ssh_login make_event payload get event_type_of source_type_of is_event_type
      is_source_type lower
  ssh_login-Makes g = (
    known_if event_known (w.random_gt 12 2 g).0 "authentication_success" "authentication_failure"
        refl refl,
    refl,
  )

  db_query-Makes : Makes G (db_query {R = R})
  unfolding db_query make_event payload get event_type_of source_type_of is_event_type
      is_source_type lower
  db_query-Makes g = (refl, refl)

  firewall_event-Makes : Makes G (firewall_event {R = R})
  unfolding firewall_event make_event payload get event_type_of source_type_of is_event_type
      is_source_type lower
  firewall_event-Makes g =
      (known_if event_known (w.random_gt 25 2 g).0 "firewall_allow" "firewall_deny" refl refl, refl)

  dns_event-Makes : Makes G (dns_event {R = R})
  unfolding dns_event make_event payload get event_type_of source_type_of is_event_type
      is_source_type lower
  dns_event-Makes g = (refl, refl)

  app_event-Makes : Makes G (app_event {R = R})
  unfolding app_event make_event payload get event_type_of source_type_of is_event_type
      is_source_type lower
  app_event-Makes g = (refl, refl)

  logout_event-Makes : Makes G (logout_event {R = R})
  unfolding logout_event make_event payload get event_type_of source_type_of is_event_type
      is_source_type lower
  logout_event-Makes g = (refl, refl)

  scheduled_job-Makes : Makes G (scheduled_job {R = R})
  unfolding scheduled_job make_event payload get event_type_of source_type_of is_event_type
      is_source_type lower
  scheduled_job-Makes g = (refl, refl)

  idp_event-Makes : Makes G (idp_event {R = R})
  unfolding idp_event make_event payload get event_type_of source_type_of is_event_type
      is_source_type lower
  idp_event-Makes g = (
    known_if event_known (w.random_gt 1 1 g).0 "authentication_success" "authentication_failure"
        refl refl,
    refl,
  )

module _ (R G : Type 0) ⦃w : World G⦄ where
  mix-Makes : All (λ m. Makes G m) (mix_functions {R = R})
  unfolding mix_functions
  mix-Makes = (
    http_request-Makes R,
    (
      firewall_event-Makes R,
      (
        dns_event-Makes R,
        (
          db_query-Makes R,
          (
            ssh_login-Makes R,
            (
              app_event-Makes R,
              (idp_event-Makes R, (logout_event-Makes R, (scheduled_job-Makes R, tt))),
            ),
          ),
        ),
      ),
    ),
  )

nth-All :
    {A : Type 0} (P : A → Type 0) (a : A) (xs : List A) (i : ℕ) → P a → All P xs → P (nth a xs i)
unfolding nth
nth-All P a [] i p h = p
nth-All P a (x ∷ xs) zero p h = h.0
nth-All P a (x ∷ xs) (suc i) p h = nth-All P a xs i p h.1

module _ (R : Type 0) {G : Type 0} ⦃w : World G⦄ where
  normal_event-Makes : Makes G (normal_event {R = R})
  unfolding normal_event weighted
  normal_event-Makes g =
      let (i, g') = w.choices_place mix_weights g in
      nth-All (λ m. Makes G m) http_request mix_functions i (http_request-Makes R) (mix-Makes R G)
        g'

event-known :
    (s : String)
    → event_known s ≡ true
    → or_else (event_type_of (lower s)) EventType.unknown ≢ EventType.unknown
unfolding is_event_type event_type_value
event-known s h e = false≢true (ap (λ t. not (is_event_type t EventType.unknown)) (sym e) ∙ h)

source-known :
    (s : String)
    → source_known s ≡ true
    → or_else (source_type_of (lower s)) SourceType.unknown ≢ SourceType.unknown
unfolding is_source_type source_type_value
source-known s h e = false≢true (ap (λ t. not (is_source_type t SourceType.unknown)) (sym e) ∙ h)

module _ {R : Type 0} ⦃F : Floats R⦄ (pf : Platform R) where
  -- an event of a known type from a known type of source
  abbrev pub IsTyped : SecurityEvent R → Type 0
  IsTyped e = (e.event_type ≢ EventType.unknown) × (e.source_type ≢ SourceType.unknown)

  event_value-known :
      (v : Value R) → text_known event_known v ≡ true → coerce_event_type pf v ≢ EventType.unknown
  unfolding coerce_event_type value_text
  event_value-known (text s) h = event-known s h
  event_value-known v h = absurd (false≢true h)

  source_value-known :
      (v : Value R)
      → text_known source_known v ≡ true
      → coerce_source_type pf v ≢ SourceType.unknown
  unfolding coerce_source_type value_text
  source_value-known (text s) h = source-known s h
  source_value-known v h = absurd (false≢true h)

  built-IsTyped :
      (draw : Draw) (d : Fields R) (o : Outcome ℕ) (e : SecurityEvent R)
      → IsKnown d
      → built pf draw d o ≡ ok e
      → IsTyped e
  unfolding event_at
  built-IsTyped draw d (ok t) e known h =
      let same : event_at pf draw d t ≡ e = cc in
      (
        subst (λ k. k ≢ EventType.unknown) (ap (λ (x : SecurityEvent R). x.event_type) same)
            (event_value-known (value_at "event_type" d) known.0),
        subst (λ k. k ≢ SourceType.unknown) (ap (λ (x : SecurityEvent R). x.source_type) same)
            (source_value-known (value_at "source_type" d) known.1),
      )
  built-IsTyped draw d (raised m) e known h = absurd (ground arith)

  pub from_raw-IsTyped :
      (draw : Draw) (d : Fields R) (e : SecurityEvent R)
      → IsKnown d
      → from_raw pf draw d ≡ ok e
      → IsTyped e
  unfolding from_raw
  from_raw-IsTyped draw d e known h =
      built-IsTyped draw d (normalize_ts pf draw.now (value_at "timestamp" d)) e known h

  -- Every everyday event that the simulator makes, if `from_raw` accepts it, has an event type and
  -- a source type that the backend knows.
  pub normal_event-IsTyped :
      {G : Type 0} ⦃w : World G⦄ (draw : Draw) (g : G) (e : SecurityEvent R)
      → from_raw pf draw (normal_event g).0 ≡ ok e
      → IsTyped e
  normal_event-IsTyped draw g e h =
      from_raw-IsTyped draw (normal_event g).0 e (normal_event-Makes R g) h
