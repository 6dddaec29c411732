-- ===== src/Simulator/Scenarios/Hosts.antt =====
-- simulator/simulator/scenarios/privilege_escalation.py, sql_attack.py and web_attack.py.
use real_time_distributed_si.Prelude.{
  ℕ, zero, suc, pos, String, Bool, true, false, Option, none, some, List, [], ◌∷◌, ◌++◌,
  if◌then◌else◌, fmt, str, leb, is_nonempty,
}
use real_time_distributed_si.Value.{Value, Fields, null, int, text, end, field}
use real_time_distributed_si.Simulator.World.{World, Draws, ◌>>=◌, ret, choice, weighted}
use real_time_distributed_si.Simulator.Models.{
  ssh_hosts, web_hosts, db_hosts, app_hosts, args, make_event,
}
use real_time_distributed_si.Simulator.Scenarios.{or_external, or_internal}

-- `_ESCALATION_ACTIONS`, each with its user
unfoldable pub escalation_actions : String → List String
escalation_actions user =
    "sudo su -"
    ∷ "sudo cat /etc/shadow"
    ∷ fmt ("usermod -aG sudo " ∷ user ∷ [])
    ∷ "sudo visudo"
    ∷ "pkexec /bin/bash"
    ∷ fmt ("net localgroup administrators " ∷ user ∷ " /add" ∷ [])
    ∷ "chmod 4755 /tmp/.x"
    ∷ []

-- `_MALICIOUS_QUERIES`
abbrev pub malicious_queries : List String
malicious_queries =
    "SELECT * FROM users WHERE name = '' OR 1=1 -- '"
    ∷ "SELECT id, pw_hash FROM users WHERE email = 'x' UNION SELECT username, password FROM admins -- "
    ∷ "SELECT * FROM products WHERE id = 1; DROP TABLE sessions; --"
    ∷ "SELECT * FROM information_schema.tables --" ∷ "SELECT load_file('/etc/passwd')"
    ∷ "SELECT * FROM orders WHERE id = 1 AND SLEEP(5)"
    ∷ "'; INSERT INTO admins (username, password) VALUES ('mallory','x'); --"
    ∷ "SELECT * FROM customers WHERE zip = 1 OR 1=1 INTO OUTFILE '/tmp/dump.csv'" ∷ []

-- `_SUSPICIOUS_PATHS`
abbrev pub suspicious_paths : List String
suspicious_paths =
    "/.env" ∷ "/.git/config" ∷ "/wp-login.php" ∷ "/admin" ∷ "/phpmyadmin" ∷ "/api/../../etc/passwd"
    ∷ "/actuator/env" ∷ "/server-status" ∷ "/.aws/credentials" ∷ "/cgi-bin/test.cgi"
    ∷ "/api/users?id=1%20OR%201=1" ∷ "/shell.php" ∷ "/vendor/phpunit" ∷ []

-- `n` rounds of a loop whose rounds draw an event each
unfoldable pub rounds : {G A : Type 0} → Draws G A → ℕ → Draws G (List A)
rounds event zero = ret []
rounds event (suc n) = do e ← event; rest ← rounds event n; ret (e ∷ rest)

module _ {G : Type 0} ⦃w : World G⦄ where
  -- `user or choice([...])`
  unfoldable pub or_user : Option String → Draws G String
  unfolding choice
  or_user none = choice "" ("bob" ∷ "carol" ∷ "dave" ∷ "erin" ∷ "walter" ∷ [])
  or_user (some user) =
      if is_nonempty user
      then ret user
      else choice "" ("bob" ∷ "carol" ∷ "dave" ∷ "erin" ∷ "walter" ∷ [])

abbrev error_value : {R : Type 0} → Bool → Value R
error_value true = text "syntax error near '--'"
error_value false = null

module _ {R G : Type 0} ⦃w : World G⦄ where
  -- the login before the commands
  unfoldable pub first_login : String → String → String → Draws G (Fields R)
  unfolding make_event
  first_login host src user =
      make_event (record (args host "linux_server" "authentication_success" "info") {
        status = some "success";
        source_ip = some src;
        username = some user;
        service = some "ssh";
        action = some "ssh login";
        message = some (fmt ("Accepted publickey for " ∷ user ∷ []));
        metadata = field "user_role" (text "user") end;
      })

  -- one command of the loop
  unfoldable pub escalation : String → String → String → Draws G (Fields R)
  unfolding choice escalation_actions make_event
  escalation host src user = do
    action ← choice "" (escalation_actions user)
    failed ← w.random_gt 6 1
    make_event (record (args host "linux_server" "privilege_escalation" "high") {
      status = some (if failed then "failure" else "success");
      source_ip = some src;
      username = some user;
      service = some "sudo";
      action = some action;
      message =
          some (fmt (user ∷ " : " ∷ (if failed then "FAILED " else "") ∷ "command=" ∷ action ∷ []));
      metadata = field "user_role" (text "user") (field "tty" (text "pts/0") end);
    })

  -- `privilege_escalation`
  unfoldable pub privilege_escalation_attack :
      Option String → Option String → Draws G (List (Fields R))
  unfolding or_user or_internal choice first_login escalation rounds
  privilege_escalation_attack user source_ip = do
    user' ← or_user user
    src ← or_internal source_ip
    host ← choice "" (ssh_hosts ++ app_hosts)
    login ← first_login host src user'
    n ← w.randint 2 4
    commands ← rounds (escalation host src user') n
    ret (login ∷ commands)

  -- one query of the loop
  unfoldable pub injection : String → String → String → Draws G (Fields R)
  unfolding choice make_event
  injection db web src = do
    q ← choice "" malicious_queries
    rows ← choice 0 (0 ∷ 0 ∷ 1 ∷ 12000 ∷ 45000 ∷ [])
    errored ← w.random_gt 5 1
    make_event (record (args db "database" (if errored then "db_error" else "db_query") "high") {
      status = some (if errored then "error" else "success");
      source_ip = some src;
      username = some "svc_api";
      service = some "postgres";
      action = some "query";
      message = some q;
      metadata = field "query" (text q) (
          field "rows_returned" (int (pos rows))
            (field "origin_host" (text web) (field "error" (error_value errored) end)));
    })

  -- `sql_attack`
  unfoldable pub sql_attack : Option String → Draws G (List (Fields R))
  unfolding or_external choice injection rounds
  sql_attack source_ip = do
    src ← or_external source_ip
    web ← choice "" web_hosts
    db ← choice "" db_hosts
    n ← w.randint 4 9
    rounds (injection db web src) n

  -- one request of the loop
  unfoldable pub web_probe : String → String → Draws G (Fields R)
  unfolding choice weighted make_event
  web_probe web src = do
    path ← choice "" suspicious_paths
    status ← weighted 404 (404 ∷ 403 ∷ 401 ∷ 500 ∷ 200 ∷ []) (50 ∷ 20 ∷ 15 ∷ 10 ∷ 5 ∷ [])
    out ← w.randint 120 900
    make_event (record (args web "web_server" "http_request" "medium") {
      status = some (if leb 400 status then "error" else "success");
      source_ip = some src;
      service = some "nginx";
      action = some (fmt ("GET " ∷ path ∷ []));
      destination_port = some 443;
      bytes_out = pos out;
      message = some (fmt ("GET " ∷ path ∷ " " ∷ str status ∷ " \"sqlmap/1.7\"" ∷ []));
      metadata =
          field "http_status" (int (pos status))
            (field "path" (text path) (field "user_agent" (text "sqlmap/1.7") end));
    })

  -- `web_attack`
  unfoldable pub web_attack : Option String → Draws G (List (Fields R))
  unfolding or_external choice web_probe rounds
  web_attack source_ip = do
    src ← or_external source_ip
    web ← choice "" web_hosts
    n ← w.randint 18 40
    rounds (web_probe web src) n
