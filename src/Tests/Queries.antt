-- ===== src/Tests/Queries.antt =====
-- The theorems on the queries of the repository at concrete inputs.
use real_time_distributed_si.Prelude.{
  ℕ, String, take, drop, ◌*◌, ◌≡◌, refl, some, none, List, [], ◌∷◌, pos, true, All, map, filter,
  length, min, mem, false,
}
use real_time_distributed_si.Enums.{resolved, event_type_value}
use real_time_distributed_si.Event.{SecurityEvent, microseconds}
use real_time_distributed_si.Alert.{Alert}
use real_time_distributed_si.Query.{group_by}
use real_time_distributed_si.Query.Page.{IsPage}
use real_time_distributed_si.Query.Keys.{text_key, optional_key, instant_key}
use real_time_distributed_si.Query.Events.{
  Filters, search_events, top_source_ips, source_ip_row, since_rows, has_ip,
}
use real_time_distributed_si.Query.Search.{
  selects, selects_alert, search_events-IsPage, search_alerts-IsPage,
}
use real_time_distributed_si.Query.Alerts.{AlertFilters, search_alerts}
use real_time_distributed_si.Query.Top.{IsTop, IsSourceIpRow, top_source_ips_lem}
use real_time_distributed_si.Query.Breakdown.{IsActivity, of_rule}
use real_time_distributed_si.Settings.{default_settings}
use real_time_distributed_si.Value.{Value}
use real_time_distributed_si.Engine.{rule_detectors}
use real_time_distributed_si.Catalogue.{Rule, list_detections}
use real_time_distributed_si.Catalogue.Triggers.{rule_ids, list_detections_lem}
use real_time_distributed_si.Tests.Fixtures.{Memory, memory, thousandths, failed_login, first_alert}
use real_time_distributed_si.Tests.Sorting.{table}

abbrev shown : Value ℕ → String
shown v = ""

abbrev rows : List (SecurityEvent ℕ)
rows = failed_login "e1" 30 ∷ failed_login "e2" 50 ∷ failed_login "e3" 40 ∷ []

abbrev alerts : List (Alert ℕ)
alerts =
    first_alert ∷ record first_alert { alert_id = "a1"; status = resolved; last_seen = 90 } ∷ []

abbrev root_logins : Filters
root_logins = record {
  event_type = some "authentication_failure";
  source_ip = none;
  severity = some "";
  source = none;
  username = some "root";
  start = some (35 * microseconds);
  end = none;
  q = none;
}

abbrev active_alerts : AlertFilters
active_alerts = record {
  status = none;
  active_only = true;
  severity = none;
  rule_id = none;
  source_ip = none;
}

search_events-IsPage_example :
    IsPage
      (λ e. e.timestamp)
      (filter (selects root_logins) rows)
      (pos 1)
      (pos 0)
      (search_events (pos 1) (pos 0) root_logins rows).0
      (search_events (pos 1) (pos 0) root_logins rows).1
search_events-IsPage_example = search_events-IsPage (pos 1) (pos 0) root_logins rows

search_alerts-IsPage_example :
    IsPage
      (λ a. a.last_seen)
      (filter (selects_alert active_alerts) alerts)
      (pos 500)
      (pos 0)
      (search_alerts (pos 500) (pos 0) active_alerts alerts).0
      (search_alerts (pos 500) (pos 0) active_alerts alerts).1
search_alerts-IsPage_example = search_alerts-IsPage (pos 500) (pos 0) active_alerts alerts

top_source_ips_lem_example :
    IsTop
      (λ r. r.event_count)
      (min 10 50)
      (map source_ip_row (group_by (λ e. e.source_ip) (filter has_ip (since_rows 0 rows))))
      (top_source_ips 0 10 rows)
    × All (IsSourceIpRow (filter has_ip (since_rows 0 rows))) (top_source_ips 0 10 rows)
top_source_ips_lem_example = top_source_ips_lem 0 10 rows

-- a page holds the newest of the selected events
newest_first :
    map (λ e. e.event_id) (search_events (pos 2) (pos 0) root_logins rows).0 ≡ "e2" ∷ "e3" ∷ []
unfolding search_events take drop filter event_type_value
newest_first = refl

list_detections_lem_example :
    All
      (λ (r : Rule). IsActivity (of_rule r.entry.rule_id alerts) r.activity)
      (list_detections (rule_detectors {S = Memory} shown default_settings) false alerts).rules
    × ((list_detections (rule_detectors {S = Memory} shown default_settings) false alerts).count
        ≡ 9)
    × ((list_detections
          (rule_detectors {S = Memory} shown default_settings)
          false
          alerts).total_triggers
        ≡ length (filter (λ a. mem a.rule_id rule_ids) alerts))
list_detections_lem_example = list_detections_lem Memory shown default_settings false alerts
