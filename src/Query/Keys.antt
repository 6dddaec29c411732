-- ===== src/Query/Keys.antt =====
-- The columns that the queries group by: texts, optional texts, instants, and pairs of columns.
use real_time_distributed_si.Prelude.{
  ℕ, ◌≡◌, ◌↔◌, ap, sym, ◌∙◌, String, Bool, true, false, Option, none, some, ◌&&◌, ◌==◌, ==_iff,
  arith, str_eq, eq_iff,
}
use real_time_distributed_si.Enums.{
  Severity, AlertStatus, severity_value, severity_of, alert_status_value, alert_status_of,
}
use real_time_distributed_si.Enums.Wire.{severity_of_value, alert_status_of_value}
use real_time_distributed_si.Alert.{same_status}
use real_time_distributed_si.Query.{Key}

some_inj : {A : Type 0} {a b : A} → some a ≡ some b → a ≡ b
some_inj h = cc

instance abbrev pub text_key : Key String
text_key = record { same = str_eq; same_iff = eq_iff }

instance abbrev pub instant_key : Key ℕ
instant_key = record { same = ◌==◌; same_iff = ==_iff }

abbrev same_option : Option String → Option String → Bool
same_option none none = true
same_option none (some t) = false
same_option (some s) none = false
same_option (some s) (some t) = str_eq s t

pub same_option_iff : (a b : Option String) → (same_option a b ≡ true) ↔ (a ≡ b)
same_option_iff none none = ground arith
same_option_iff none (some t) = ground arith
same_option_iff (some s) none = ground arith
same_option_iff (some s) (some t) = ground (arith, eq_iff s t)

instance abbrev pub optional_key : Key (Option String)
optional_key = record { same = same_option; same_iff = same_option_iff }

module _ {J K : Type 0} ⦃j : Key J⦄ ⦃k : Key K⦄ where
  abbrev same_pair : J × K → J × K → Bool
  same_pair (a, b) (c, d) = j.same a c && k.same b d

  pub same_pair_iff : (p q : J × K) → (same_pair p q ≡ true) ↔ (p ≡ q)
  same_pair_iff (a, b) (c, d) = ground (arith, j.same_iff a c, k.same_iff b d)

  instance abbrev pub pair_key : Key (J × K)
  pair_key = record { same = same_pair; same_iff = same_pair_iff }

pub same_status_iff : (a b : AlertStatus) → (same_status a b ≡ true) ↔ (a ≡ b)
unfolding same_status
same_status_iff a b = (
  λ h. some_inj (
      sym (alert_status_of_value a)
      ∙ ap alert_status_of ((eq_iff (alert_status_value a) (alert_status_value b)).0 h)
      ∙ alert_status_of_value b),
  λ e. (eq_iff (alert_status_value a) (alert_status_value b)).1 (ap alert_status_value e),
)

instance abbrev pub status_key : Key AlertStatus
status_key = record { same = same_status; same_iff = same_status_iff }

abbrev pub same_severity : Severity → Severity → Bool
same_severity a b = str_eq (severity_value a) (severity_value b)

pub same_severity_iff : (a b : Severity) → (same_severity a b ≡ true) ↔ (a ≡ b)
same_severity_iff a b = (
  λ h. some_inj (
      sym (severity_of_value a)
      ∙ ap severity_of ((eq_iff (severity_value a) (severity_value b)).0 h)
      ∙ severity_of_value b),
  λ e. (eq_iff (severity_value a) (severity_value b)).1 (ap severity_value e),
)

instance abbrev pub severity_key : Key Severity
severity_key = record { same = same_severity; same_iff = same_severity_iff }
