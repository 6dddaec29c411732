-- ===== src/Simulator/Scenarios/Logins.antt =====
-- simulator/simulator/scenarios/ssh_brute_force.py and credential_attack.py.
use real_time_distributed_si.Prelude.{
  ℕ, zero, suc, ◌+◌, ◌%◌, pos, String, Bool, true, false, Option, none, some, List, [], ◌∷◌, ◌++◌,
  if◌then◌else◌, ◌==◌, fmt, str, length, min,
}
use real_time_distributed_si.Value.{Fields, int, text, bool, end, field}
use real_time_distributed_si.Simulator.World.{World, Draws, ◌>>=◌, ret, choice, sample}
use real_time_distributed_si.Simulator.Models.{ssh_hosts, idp_hosts, users, Args, args, make_event}
use real_time_distributed_si.Simulator.Scenarios.{or_randint, or_external}

module _ {G : Type 0} ⦃w : World G⦄ where
  -- `choice(target_users) if i % 3 else "root"`
  unfoldable pub attempted_user : List String → ℕ → Draws G String
  unfolding choice
  attempted_user targets i = if (i % 3) == 0 then ret "root" else choice "" targets

  unfoldable pub breached : Option Bool → Draws G Bool
  breached none = w.random_gt 45 2
  breached (some b) = ret b

-- one failed login, at the round `i` of the loop
abbrev pub failed_args : {R : Type 0} → String → String → String → ℕ → ℕ → Args R
failed_args host src user i port =
    record (args host "linux_server" "authentication_failure" "medium") {
      status = some "failure";
      source_ip = some src;
      username = some user;
      service = some "ssh";
      action = some "ssh login";
      destination_port = some 22;
      message = some (
          fmt
            ("Failed password for " ∷ user ∷ " from " ∷ src ∷ " port " ∷ str port ∷ " ssh2" ∷ []));
      metadata = field "attempt" (int (pos (i + 1))) (field "user_role" (text "user") end);
    }

-- the login after the attempts
abbrev pub breach_args : {R : Type 0} → String → String → String → Args R
breach_args host src user = record (args host "linux_server" "authentication_success" "high") {
  status = some "success";
  source_ip = some src;
  username = some user;
  service = some "ssh";
  action = some "ssh login";
  destination_port = some 22;
  message = some (fmt ("Accepted password for " ∷ user ∷ " from " ∷ src ∷ " ssh2" ∷ []));
  metadata = field "user_role" (text "user") (field "post_bruteforce" (bool true) end);
}

module _ {R G : Type 0} ⦃w : World G⦄ where
  unfoldable pub failed_attempt : String → String → String → ℕ → ℕ → Draws G (Fields R)
  unfolding make_event
  failed_attempt host src user i port = make_event (failed_args host src user i port)

  -- the rounds of the loop from `i` on
  unfoldable pub attempts_from : String → String → List String → ℕ → ℕ → Draws G (List (Fields R))
  unfolding failed_attempt attempted_user
  attempts_from host src targets i zero = ret []
  attempts_from host src targets i (suc n) = do
    user ← attempted_user targets i
    port ← w.randint 30000 61000
    event ← failed_attempt host src user i port
    rest ← attempts_from host src targets (i + 1) n
    ret (event ∷ rest)

  unfoldable pub breach_event : String → String → String → Draws G (Fields R)
  unfolding make_event
  breach_event host src user = make_event (breach_args host src user)

  unfoldable pub breach_events : Bool → String → String → List String → Draws G (List (Fields R))
  unfolding choice breach_event
  breach_events false host src targets = ret []
  breach_events true host src targets = do
    user ← choice "" targets
    event ← breach_event host src user
    ret (event ∷ [])

  -- `ssh_brute_force`
  unfoldable pub ssh_brute_force :
      Option ℕ → Option Bool → Option String → Draws G (List (Fields R))
  unfolding or_randint breached or_external choice sample attempts_from breach_events
  ssh_brute_force attempts breach source_ip = do
    n ← or_randint attempts 15 32
    breach' ← breached breach
    src ← or_external source_ip
    host ← choice "" ssh_hosts
    k ← w.randint 2 5
    targets ← sample "" users (min (length users) k)
    failures ← attempts_from host src targets 0 n
    logins ← breach_events breach' host src targets
    ret (failures ++ logins)

  -- one event of the spraying
  unfoldable pub spray_event : Bool → String → String → String → Draws G (Fields R)
  unfolding make_event
  spray_event ok host src user =
      make_event
        (record (args host "identity"
          (if ok then "authentication_success" else "authentication_failure")
          (if ok then "high" else "medium")) {
            status = some (if ok then "success" else "failure");
            source_ip = some src;
            username = some user;
            service = some "auth-service";
            action = some "password auth";
            message = some (
                fmt (
                  "authentication "
                  ∷ (if ok then "success" else "failure")
                  ∷ " for "
                  ∷ user
                  ∷ " from "
                  ∷ src
                  ∷ []));
            metadata = field "spray" (bool true) (field "user_role" (text "user") end);
          })

  unfoldable pub sprayed : String → String → List String → Draws G (List (Fields R))
  unfolding spray_event
  sprayed host src [] = ret []
  sprayed host src (user ∷ targets) = do
    event ← spray_event false host src user
    rest ← sprayed host src targets
    ret (event ∷ rest)

  unfoldable pub lucky_hit : Bool → String → String → List String → Draws G (List (Fields R))
  unfolding choice spray_event
  lucky_hit false host src targets = ret []
  lucky_hit true host src targets = do
    user ← choice "" targets
    event ← spray_event true host src user
    ret (event ∷ [])

  -- `credential_attack`
  unfoldable pub credential_attack : Option ℕ → Option String → Draws G (List (Fields R))
  unfolding or_randint or_external choice sample sprayed lucky_hit
  credential_attack accounts source_ip = do
    n ← or_randint accounts 12 24
    src ← or_external source_ip
    host ← choice "" idp_hosts
    targets ← sample "" users (min n (length users))
    failures ← sprayed host src targets
    lucky ← w.random_gt 9 1
    hits ← lucky_hit lucky host src targets
    ret (failures ++ hits)
