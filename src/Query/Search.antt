-- ===== src/Query/Search.antt =====
-- `search` of `EventRepository` and `AlertRepository` in backend/app/storage/repositories.py: what a page
-- holds.
use real_time_distributed_si.Prelude.{
  ◌≡◌, refl, ap, sym, ◌∙◌, String, Bool, true, false, Option, none, some, List, ℤ, ◌&&◌,
  if◌then◌else◌, str_eq, filter, is_nonempty,
}
use real_time_distributed_si.Enums.{alert_status_value}
use real_time_distributed_si.Event.{SecurityEvent}
use real_time_distributed_si.Alert.{Alert, is_open_row}
use real_time_distributed_si.Query.{Database}
use real_time_distributed_si.Query.Page.{
  IsPage, paginate-IsPage, passes_if, passes_at, then_if, then_at, filter-true,
}
use real_time_distributed_si.Query.Events.{
  Filters, type_is, ip_is, severity_is, source_is, user_is, from_at, until_at, message_has,
  filtered, search_events,
}
use real_time_distributed_si.Query.Alerts.{
  AlertFilters, alert_severity_is, alert_rule_is, alert_ip_is, of_status, selected, search_alerts,
}

module _ {R : Type 0} ⦃db : Database⦄ where
  -- an event that meets every condition that is given
  abbrev pub selects : Filters → SecurityEvent R → Bool
  selects f e =
      passes_if f.event_type type_is e
      && passes_if f.source_ip ip_is e
      && passes_if f.severity severity_is e
      && passes_if f.source source_is e
      && passes_if f.username user_is e
      && passes_at f.start from_at e
      && passes_at f.end until_at e
      && passes_if f.q message_has e

  filtered-selects :
      (f : Filters) (rows : List (SecurityEvent R)) → filtered f rows ≡ filter (selects f) rows
  unfolding filtered
  filtered-selects f rows =
      let none_yet = sym (filter-true rows) in
      let types = then_if _ rows f.event_type type_is none_yet in
      let addresses = then_if _ rows f.source_ip ip_is types in
      let severities = then_if _ rows f.severity severity_is addresses in
      let sources = then_if _ rows f.source source_is severities in
      let users = then_if _ rows f.username user_is sources in
      let starts = then_at _ rows f.start from_at users in
      let ends = then_at _ rows f.end until_at starts in then_if _ rows f.q message_has ends

  -- A page of the search for events is a segment of a listing, newest first, of exactly the stored
  -- events that meet every given condition: it starts after as many events as the offset says, none
  -- for a negative one, has as many places as the limit says where that is between 1 and 200, and
  -- never more or fewer than that range; it fills them while events are left, and the total is the
  -- number of all events that meet the conditions.
  pub search_events-IsPage :
      (limit offset : ℤ) (f : Filters) (rows : List (SecurityEvent R))
      → IsPage
          (λ e. e.timestamp)
          (filter (selects f) rows)
          limit
          offset
          (search_events limit offset f rows).0
          (search_events limit offset f rows).1
  unfolding search_events
  search_events-IsPage limit offset f rows =
      rw (filtered-selects f rows)
        (paginate-IsPage (λ e. e.timestamp) limit offset (filter (selects f) rows))

  -- a status that is given decides alone; without one, `active_only` asks for the active alerts
  abbrev pub wanted_status : Option String → Bool → Alert R → Bool
  wanted_status none active_only a = if active_only then is_open_row a else true
  wanted_status (some s) active_only a =
      if is_nonempty s
      then str_eq (alert_status_value a.status) s
      else if active_only
      then is_open_row a
      else true

  abbrev pub selects_alert : AlertFilters → Alert R → Bool
  selects_alert f a =
      wanted_status f.status f.active_only a
      && passes_if f.severity alert_severity_is a
      && passes_if f.rule_id alert_rule_is a
      && passes_if f.source_ip alert_ip_is a

  if_filter :
      (b : Bool) (p q : Alert R → Bool) (rows : List (Alert R))
      → (if b then filter p rows else filter q rows) ≡ filter (λ a. if b then p a else q a) rows
  if_filter true p q rows = refl
  if_filter false p q rows = refl

  active_filter :
      (active_only : Bool) (rows : List (Alert R))
      → (if active_only then filter is_open_row rows else rows)
        ≡ filter (λ a. if active_only then is_open_row a else true) rows
  active_filter true rows = refl
  active_filter false rows = sym (filter-true rows)

  of_status-filter :
      (o : Option String) (active_only : Bool) (rows : List (Alert R))
      → of_status o active_only rows ≡ filter (wanted_status o active_only) rows
  unfolding of_status
  of_status-filter none active_only rows = active_filter active_only rows
  of_status-filter (some s) active_only rows =
      let p : Alert R → Bool = λ a. str_eq (alert_status_value a.status) s in
      let q : Alert R → Bool = λ a. if active_only then is_open_row a else true in
      ap (λ rest. if is_nonempty s then filter p rows else rest) (active_filter active_only rows)
      ∙ if_filter (is_nonempty s) p q rows

  selected-selects :
      (f : AlertFilters) (rows : List (Alert R)) → selected f rows ≡ filter (selects_alert f) rows
  unfolding selected
  selected-selects f rows =
      let statuses = of_status-filter f.status f.active_only rows in
      let severities = then_if _ rows f.severity alert_severity_is statuses in
      let rules = then_if _ rows f.rule_id alert_rule_is severities in
      then_if _ rows f.source_ip alert_ip_is rules

  -- A page of the search for alerts is a segment of a listing, last seen first, of exactly the alerts
  -- that meet every given condition, where a status that is given overrides `active_only`; the total is
  -- the number of all of them.
  pub search_alerts-IsPage :
      (limit offset : ℤ) (f : AlertFilters) (rows : List (Alert R))
      → IsPage
          (λ a. a.last_seen)
          (filter (selects_alert f) rows)
          limit
          offset
          (search_alerts limit offset f rows).0
          (search_alerts limit offset f rows).1
  unfolding search_alerts
  search_alerts-IsPage limit offset f rows =
      rw (selected-selects f rows)
        (paginate-IsPage (λ a. a.last_seen) limit offset (filter (selects_alert f) rows))
