-- ===== src/Enums.antt =====
-- backend/app/schemas/enums.py: the enumerations of events and alerts, with their wire values.
-- A constructor of two enumerations is named behind its type.
pub mod Wire
use real_time_distributed_si.Prelude.{
  ℕ, String, Bool, true, false, Option, none, some, List, [], ◌∷◌, str_eq, if◌then◌else◌,
}

pub data Severity : Type 0 where
  info low medium high critical : Severity

pub data SourceType : Type 0 where
  linux_server web_server firewall database application identity : SourceType
  dns scheduler unknown : SourceType

pub data EventType : Type 0 where
  auth_success auth_failure logout privilege_escalation firewall_allow firewall_deny : EventType
  connection_attempt dns_query network_flow http_request db_query db_error : EventType
  app_event scheduled_job config_change unknown : EventType

pub data EventStatus : Type 0 where
  success failure allowed denied blocked error : EventStatus
  info : EventStatus

pub data AlertStatus : Type 0 where
  opened acknowledged investigating resolved false_positive : AlertStatus

pub data DetectionKind : Type 0 where
  rule anomaly ml : DetectionKind

-- `Severity.rank`
unfoldable pub rank : Severity → ℕ
rank Severity.info = 0
rank low = 1
rank medium = 2
rank high = 3
rank critical = 4

-- `AlertStatus.is_active`
unfoldable pub is_active : AlertStatus → Bool
is_active opened = true
is_active acknowledged = true
is_active investigating = true
is_active resolved = false
is_active false_positive = false

-- `.value` of a member of `Severity`
unfoldable pub severity_value : Severity → String
severity_value Severity.info = "info"
severity_value low = "low"
severity_value medium = "medium"
severity_value high = "high"
severity_value critical = "critical"

-- `.value` of a member of `SourceType`
unfoldable pub source_type_value : SourceType → String
source_type_value linux_server = "linux_server"
source_type_value web_server = "web_server"
source_type_value firewall = "firewall"
source_type_value database = "database"
source_type_value application = "application"
source_type_value identity = "identity"
source_type_value dns = "dns"
source_type_value scheduler = "scheduler"
source_type_value SourceType.unknown = "unknown"

-- `.value` of a member of `EventType`
unfoldable pub event_type_value : EventType → String
event_type_value auth_success = "authentication_success"
event_type_value auth_failure = "authentication_failure"
event_type_value logout = "logout"
event_type_value privilege_escalation = "privilege_escalation"
event_type_value firewall_allow = "firewall_allow"
event_type_value firewall_deny = "firewall_deny"
event_type_value connection_attempt = "connection_attempt"
event_type_value dns_query = "dns_query"
event_type_value network_flow = "network_flow"
event_type_value http_request = "http_request"
event_type_value db_query = "db_query"
event_type_value db_error = "db_error"
event_type_value app_event = "application_event"
event_type_value scheduled_job = "scheduled_job"
event_type_value config_change = "config_change"
event_type_value EventType.unknown = "unknown"

-- `.value` of a member of `EventStatus`
unfoldable pub event_status_value : EventStatus → String
event_status_value success = "success"
event_status_value failure = "failure"
event_status_value allowed = "allowed"
event_status_value denied = "denied"
event_status_value blocked = "blocked"
event_status_value error = "error"
event_status_value EventStatus.info = "info"

-- `.value` of a member of `AlertStatus`
unfoldable pub alert_status_value : AlertStatus → String
alert_status_value opened = "open"
alert_status_value acknowledged = "acknowledged"
alert_status_value investigating = "investigating"
alert_status_value resolved = "resolved"
alert_status_value false_positive = "false_positive"

-- `.value` of a member of `DetectionKind`
unfoldable pub detection_kind_value : DetectionKind → String
detection_kind_value rule = "rule"
detection_kind_value anomaly = "anomaly"
detection_kind_value ml = "ml"

-- `Enum(s)`: the member of that value; none for the ValueError
unfoldable pub member_of : {A : Type 0} → (A → String) → List A → String → Option A
member_of value [] s = none
member_of value (a ∷ rest) s = if str_eq (value a) s then some a else member_of value rest s

abbrev pub severities : List Severity
severities = Severity.info ∷ low ∷ medium ∷ high ∷ critical ∷ []

unfoldable pub severity_of : String → Option Severity
unfolding member_of severity_value
severity_of s = member_of severity_value severities s

abbrev pub source_types : List SourceType
source_types =
    linux_server ∷ web_server ∷ firewall ∷ database ∷ application ∷ identity ∷ dns ∷ scheduler
    ∷ SourceType.unknown ∷ []

unfoldable pub source_type_of : String → Option SourceType
unfolding member_of source_type_value
source_type_of s = member_of source_type_value source_types s

abbrev pub event_types : List EventType
event_types =
    auth_success ∷ auth_failure ∷ logout ∷ privilege_escalation ∷ firewall_allow ∷ firewall_deny
    ∷ connection_attempt ∷ dns_query ∷ network_flow ∷ http_request ∷ db_query ∷ db_error ∷ app_event
    ∷ scheduled_job ∷ config_change ∷ EventType.unknown ∷ []

unfoldable pub event_type_of : String → Option EventType
unfolding member_of event_type_value
event_type_of s = member_of event_type_value event_types s

abbrev pub event_statuses : List EventStatus
event_statuses = success ∷ failure ∷ allowed ∷ denied ∷ blocked ∷ error ∷ EventStatus.info ∷ []

unfoldable pub event_status_of : String → Option EventStatus
unfolding member_of event_status_value
event_status_of s = member_of event_status_value event_statuses s

abbrev pub alert_statuses : List AlertStatus
alert_statuses = opened ∷ acknowledged ∷ investigating ∷ resolved ∷ false_positive ∷ []

unfoldable pub alert_status_of : String → Option AlertStatus
unfolding member_of alert_status_value
alert_status_of s = member_of alert_status_value alert_statuses s

-- `==` between members, which compares their values
unfoldable pub is_event_type : EventType → EventType → Bool
unfolding event_type_value
is_event_type a b = str_eq (event_type_value a) (event_type_value b)

unfoldable pub is_source_type : SourceType → SourceType → Bool
unfolding source_type_value
is_source_type a b = str_eq (source_type_value a) (source_type_value b)

-- the same where the left side may be None
unfoldable pub has_status : Option EventStatus → EventStatus → Bool
unfolding event_status_value
has_status none b = false
has_status (some a) b = str_eq (event_status_value a) (event_status_value b)
