-- ===== src/Simulator/Normal.antt =====
-- simulator/simulator/generators/normal.py: the everyday events.
use real_time_distributed_si.Prelude.{
  ℕ, pos, String, Bool, some, List, [], ◌∷◌, ◌++◌, if◌then◌else◌, ltb, fmt, str, mem,
}
use real_time_distributed_si.Value.{Fields, int, text, end, field}
use real_time_distributed_si.Simulator.World.{World, Draws, ◌>>=◌, choice, weighted}
use real_time_distributed_si.Simulator.Models.{
  ssh_hosts, web_hosts, db_hosts, app_hosts, fw_hosts, idp_hosts, dns_hosts, users, http_paths,
  http_methods, dns_names, args, make_event, rand_internal_ip, rand_external_ip, user_home_ip,
}

-- `_BENIGN_QUERIES`
abbrev pub benign_queries : List String
benign_queries =
    "SELECT id, name FROM users WHERE id = $1"
    ∷ "SELECT * FROM orders WHERE customer_id = $1 ORDER BY created_at DESC LIMIT 50"
    ∷ "UPDATE sessions SET last_seen = now() WHERE token = $1"
    ∷ "INSERT INTO audit_log (actor, action) VALUES ($1, $2)"
    ∷ "SELECT count(*) FROM events WHERE ts > now() - interval '1 hour'" ∷ []

-- an address of either network
unfoldable pub either_ip : {G : Type 0} ⦃w : World G⦄ → Bool → Draws G String
either_ip internal = if internal then rand_internal_ip else rand_external_ip

module _ {R G : Type 0} ⦃w : World G⦄ where
  -- `_ssh_login`
  unfoldable pub ssh_login : Draws G (Fields R)
  unfolding choice user_home_ip make_event mem
  ssh_login = do
    ok ← w.random_gt 12 2
    user ← choice "" users
    host ← choice "" ssh_hosts
    ip ← user_home_ip user
    make_event
        (record (args host "linux_server"
          (if ok then "authentication_success" else "authentication_failure")
          (if ok then "info" else "low")) {
            status = some (if ok then "success" else "failure");
            source_ip = some ip;
            username = some user;
            service = some "ssh";
            action = some "ssh login";
            message = some (
                fmt (
                  (if ok then "Accepted" else "Failed")
                  ∷ " password for "
                  ∷ user
                  ∷ " from ssh"
                  ∷ []));
            metadata =
                field "user_role"
                  (text (if mem user ("alice" ∷ "trent" ∷ []) then "admin" else "user")) end;
          })

  -- `_http_request`
  unfoldable pub http_request : Draws G (Fields R)
  unfolding choice weighted either_ip make_event
  http_request = do
    status ←
        weighted 200 (200 ∷ 200 ∷ 200 ∷ 204 ∷ 301 ∷ 404 ∷ 500 ∷ [])
          (60 ∷ 15 ∷ 10 ∷ 5 ∷ 4 ∷ 4 ∷ 2 ∷ [])
    method ← choice "" http_methods
    path ← choice "" http_paths
    host ← choice "" web_hosts
    internal ← w.random_gt 4 1
    ip ← either_ip internal
    out ← w.randint 200 24000
    received ← w.randint 80 2000
    make_event
        (record (args host "web_server" "http_request" (if ltb status 400 then "info" else "low")) {
          status = some (if ltb status 400 then "success" else "error");
          source_ip = some ip;
          service = some "nginx";
          action = some (fmt (method ∷ " " ∷ path ∷ []));
          destination_port = some 443;
          bytes_out = pos out;
          bytes_in = pos received;
          message = some (fmt (method ∷ " " ∷ path ∷ " " ∷ str status ∷ []));
          metadata =
              field "http_status" (int (pos status))
                (field "method" (text method) (field "path" (text path) end));
        })

  -- `_db_query`
  unfoldable pub db_query : Draws G (Fields R)
  unfolding choice rand_internal_ip make_event
  db_query = do
    q ← choice "" benign_queries
    host ← choice "" db_hosts
    ip ← rand_internal_ip
    user ← choice "" ("svc_api" ∷ "svc_reports" ∷ "app" ∷ [])
    rows ← w.randint 0 120
    duration ← w.randint 1 90
    make_event (record (args host "database" "db_query" "info") {
      status = some "success";
      source_ip = some ip;
      username = some user;
      service = some "postgres";
      action = some "query";
      message = some q;
      metadata =
          field "query" (text q)
            (field "rows_returned" (int (pos rows)) (field "duration_ms" (int (pos duration)) end));
    })

  -- `_firewall`
  unfoldable pub firewall_event : Draws G (Fields R)
  unfolding choice either_ip rand_internal_ip make_event
  firewall_event = do
    allow ← w.random_gt 25 2
    host ← choice "" fw_hosts
    internal ← w.random_gt 5 1
    ip ← either_ip internal
    target ← rand_internal_ip
    port ← choice 80 (80 ∷ 443 ∷ 22 ∷ 3389 ∷ 5432 ∷ 8080 ∷ 53 ∷ [])
    out ← w.randint 0 4000
    make_event
        (record (args host "firewall" (if allow then "firewall_allow" else "firewall_deny")
          (if allow then "info" else "low")) {
            status = some (if allow then "allowed" else "denied");
            source_ip = some ip;
            destination_ip = some target;
            destination_port = some port;
            service = some "firewall";
            action = some (if allow then "ACCEPT" else "DROP");
            bytes_out = pos out;
            message = some (fmt ((if allow then "ACCEPT" else "DROP") ∷ " tcp" ∷ []));
          })

  -- `_dns`
  unfoldable pub dns_event : Draws G (Fields R)
  unfolding choice rand_internal_ip make_event
  dns_event = do
    name ← choice "" dns_names
    host ← choice "" dns_hosts
    ip ← rand_internal_ip
    make_event (record (args host "dns" "dns_query" "info") {
      status = some "success";
      source_ip = some ip;
      destination_port = some 53;
      service = some "dns";
      action = some (fmt ("query " ∷ name ∷ []));
      message = some (fmt ("A? " ∷ name ∷ []));
      metadata = field "qname" (text name) (field "qtype" (text "A") end);
    })

  -- `_app_event`
  unfoldable pub app_event : Draws G (Fields R)
  unfolding choice make_event
  app_event = do
    host ← choice "" app_hosts
    user ← choice "" users
    action ←
        choice "" ("order.created" ∷ "report.exported" ∷ "profile.updated" ∷ "cache.refreshed" ∷ [])
    make_event (record (args host "application" "application_event" "info") {
      status = some "success";
      username = some user;
      service = some "api-gateway";
      action = some action;
      message = some "application event";
    })

  -- `_logout`
  unfoldable pub logout_event : Draws G (Fields R)
  unfolding choice rand_internal_ip make_event
  logout_event = do
    host ← choice "" (ssh_hosts ++ app_hosts)
    ip ← rand_internal_ip
    user ← choice "" users
    make_event (record (args host "linux_server" "logout" "info") {
      status = some "success";
      source_ip = some ip;
      username = some user;
      service = some "ssh";
      action = some "logout";
      message = some "session closed";
    })

  -- `_scheduled_job`
  unfoldable pub scheduled_job : Draws G (Fields R)
  unfolding choice make_event
  scheduled_job = do
    host ← choice "" app_hosts
    action ← choice "" ("backup.nightly" ∷ "rotate.logs" ∷ "sync.ldap" ∷ "vacuum.db" ∷ [])
    make_event (record (args host "scheduler" "scheduled_job" "info") {
      status = some "success";
      username = some "cron";
      service = some "cron";
      action = some action;
      message = some "cron job completed";
    })

  -- `_idp_event`
  unfoldable pub idp_event : Draws G (Fields R)
  unfolding choice user_home_ip make_event
  idp_event = do
    ok ← w.random_gt 1 1
    user ← choice "" users
    host ← choice "" idp_hosts
    ip ← user_home_ip user
    make_event
        (record (args host "identity"
          (if ok then "authentication_success" else "authentication_failure")
          (if ok then "info" else "low")) {
            status = some (if ok then "success" else "failure");
            source_ip = some ip;
            username = some user;
            service = some "auth-service";
            action = some (if ok then "SAML assertion" else "SAML auth failed");
            message =
                some (fmt ("IdP auth " ∷ (if ok then "ok" else "failed") ∷ " for " ∷ user ∷ []));
            metadata = field "user_role" (text "user") end;
          })

-- the weights of `_MIX`
abbrev pub mix_weights : List ℕ
mix_weights = 34 ∷ 18 ∷ 12 ∷ 12 ∷ 9 ∷ 6 ∷ 4 ∷ 3 ∷ 2 ∷ []

module _ {R G : Type 0} ⦃w : World G⦄ where
  -- the functions of `_MIX`
  unfoldable pub mix_functions : List (Draws G (Fields R))
  mix_functions =
      http_request ∷ firewall_event ∷ dns_event ∷ db_query ∷ ssh_login ∷ app_event ∷ idp_event
      ∷ logout_event ∷ scheduled_job ∷ []

  -- `normal_event`
  unfoldable pub normal_event : Draws G (Fields R)
  unfolding weighted mix_functions
  normal_event = do generate ← weighted http_request mix_functions mix_weights; generate
