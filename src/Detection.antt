-- ===== src/Detection.antt =====
-- backend/app/detection/base.py: what a detector is given and what it reports.
-- `Evidence.timestamp` is the instant whose ISO text the program stores: equal texts are equal
-- instants.
use real_time_distributed_si.Prelude.{
  ℕ, String, Bool, true, false, Option, none, some, List, [], ◌∷◌, if◌then◌else◌, is_nonempty,
  str_eq, ◌==◌, ◌&&◌, ◌≡◌, refl, arith,
}
use real_time_distributed_si.Floats.{Floats, fdiv, of_ℕ}
use real_time_distributed_si.Enums.{Severity, DetectionKind}
use real_time_distributed_si.Event.{SecurityEvent}
use real_time_distributed_si.Value.{Fields}

pub record Evidence : Type 0 where
  pub event_id : String
  pub timestamp : ℕ
  pub summary : String

-- `==` between two evidence dicts
unfoldable pub same_evidence : Evidence → Evidence → Bool
same_evidence a b =
    str_eq a.event_id b.event_id && (a.timestamp == b.timestamp && str_eq a.summary b.summary)

pub record Detection (R : Type 0) : Type 0 where
  pub rule_id : String
  pub kind : DetectionKind
  pub title : String
  pub description : String
  pub severity : Severity
  pub confidence : R
  pub correlation_key : String
  pub source_ip : Option String
  pub affected_host : Option String
  pub recommended_action : String
  pub evidence : List Evidence
  pub involved_users : List String
  pub involved_hosts : List String
  pub event_count_hint : ℕ
  pub anomaly_score : Option R
  pub metadata : Fields R
  pub triggered_at : Option ℕ

-- what a call of a detector draws from outside: the wall clock and the random token of its member
pub record Env : Type 0 where
  pub wall : ℕ
  pub token : String

-- a detector returns a detection or None, or raises
pub data Outcome (A : Type 0) : Type 0 where
  ok : A → Outcome A
  raised : String → Outcome A

-- one step after another, up to the first that raises
abbrev pub then_do : {A B : Type 0} → Outcome A → (A → Outcome B) → Outcome B
then_do (ok a) f = f a
then_do (raised m) f = raised m

-- a `Detector` at its parameters; `evaluate` may write the windows before it raises
pub record Detector (R S : Type 0) : Type 0 where
  pub rule_id : String
  pub applies_to : SecurityEvent R → Bool
  pub evaluate : SecurityEvent R → Env → S → Outcome (Option (Detection R)) × S

-- `bool(s)` of a text or None
abbrev pub truthy : Option String → Bool
truthy none = false
truthy (some s) = is_nonempty s

-- `s or default`
abbrev pub or_text : Option String → String → String
or_text none default = default
or_text (some s) default = if is_nonempty s then s else default

-- `s or t` of two texts that may be None
abbrev pub or_option : Option String → Option String → Option String
or_option none t = t
or_option (some s) t = if is_nonempty s then some s else t

-- a value in an f-string that may be None
abbrev pub shown : Option String → String
shown none = "None"
shown (some s) = s

-- `[s] if s else []`
abbrev pub listed : Option String → List String
listed none = []
listed (some s) = if is_nonempty s then s ∷ [] else []

-- microseconds as a float number of seconds
abbrev pub seconds : {R : Type 0} ⦃F : Floats R⦄ → ℕ → R
seconds t = fdiv (of_ℕ t) (of_ℕ 1000000)

-- `x is not None`
abbrev pub is_given : {A : Type 0} → Option A → Bool
is_given none = false
is_given (some a) = true

pub ok_inj : {A : Type 0} {a b : A} → ok a ≡ ok b → a ≡ b
ok_inj h = cc

pub then_do-ok :
    {A B : Type 0} (o : Outcome A) (f : A → Outcome B) (b : B)
    → then_do o f ≡ ok b
    → (a : A) × (o ≡ ok a) × (f a ≡ ok b)
then_do-ok (ok a) f b h = (a, refl, h)
then_do-ok (raised m) f b h = absurd (ground arith)
