-- ===== src/Simulator/Scenarios/Network.antt =====
-- simulator/simulator/scenarios/port_scan.py and data_exfiltration.py.
use real_time_distributed_si.Prelude.{
  ℕ, zero, suc, ◌+◌, ◌*◌, ℤ, pos, negsuc, String, Bool, true, Option, some, List, [], ◌∷◌, ◌++◌,
  if◌then◌else◌, fmt, str, length, min,
}
use real_time_distributed_si.Floats.{Floats, fmul, fdiv, dec, of_ℕ}
use real_time_distributed_si.Value.{Fields, text, bool, end, field}
use real_time_distributed_si.Simulator.World.{World, Reals, Draws, ◌>>=◌, ret, choice, sample}
use real_time_distributed_si.Simulator.Models.{
  app_hosts, db_hosts, fw_hosts, args, make_event, rand_internal_ip, rand_external_ip,
}
use real_time_distributed_si.Simulator.Scenarios.{or_randint, or_external, or_internal}

-- `_COMMON_PORTS`
abbrev pub common_ports : List ℕ
common_ports =
    21 ∷ 22 ∷ 23 ∷ 25 ∷ 53 ∷ 80 ∷ 110 ∷ 135 ∷ 139 ∷ 143 ∷ 443 ∷ 445 ∷ 993 ∷ 995 ∷ 1433 ∷ 1521 ∷ 2049
    ∷ 3306 ∷ 3389 ∷ 5432 ∷ 5900 ∷ 6379 ∷ 8080 ∷ 8443 ∷ 9200 ∷ 27017 ∷ []

-- `[randint(1, 65535) for _ in range(n)]`
unfoldable pub random_ports : {G : Type 0} ⦃w : World G⦄ → ℕ → Draws G (List ℕ)
random_ports zero = ret []
random_ports ⦃w⦄ (suc n) = do port ← w.randint 1 65535; rest ← random_ports n; ret (port ∷ rest)

module _ {R G : Type 0} ⦃w : World G⦄ where
  unfoldable pub probe : Bool → String → String → String → ℕ → Draws G (Fields R)
  unfolding make_event
  probe blocked fw src target port =
      make_event
        (record (args fw "firewall" (if blocked then "firewall_deny" else "connection_attempt")
          "medium") {
            status = some (if blocked then "denied" else "failure");
            source_ip = some src;
            destination_ip = some target;
            destination_port = some port;
            service = some "firewall";
            action = some (if blocked then "DROP" else "SYN");
            message = some (
                fmt (
                  (if blocked then "DROP" else "SYN")
                  ∷ " tcp "
                  ∷ src
                  ∷ " -> "
                  ∷ target
                  ∷ ":"
                  ∷ str port
                  ∷ []));
            metadata = field "scan" (bool true) end;
          })

  unfoldable pub probes : String → String → String → List ℕ → Draws G (List (Fields R))
  unfolding probe
  probes fw src target [] = ret []
  probes fw src target (port ∷ ports) = do
    blocked ← w.random_gt 15 2
    event ← probe blocked fw src target port
    rest ← probes fw src target ports
    ret (event ∷ rest)

  -- `port_scan`
  unfoldable pub port_scan : Option ℕ → Option String → Draws G (List (Fields R))
  unfolding or_randint or_external rand_internal_ip choice random_ports sample probes
  port_scan ports source_ip = do
    n ← or_randint ports 25 60
    src ← or_external source_ip
    target ← rand_internal_ip
    fw ← choice "" fw_hosts
    more ← random_ports n
    let pool = common_ports ++ more
    chosen ← sample 0 pool (min n (length pool))
    probes fw src target chosen

-- `int(per_chunk * jitter)`
unfoldable pub chunk_bytes : {R : Type 0} ⦃F : Floats R⦄ → ℤ → R → ℤ
chunk_bytes ⦃F⦄ (pos n) jitter = F.trunc (fmul (of_ℕ n) jitter)
chunk_bytes ⦃F⦄ (negsuc n) jitter = F.trunc (fmul (F.neg (of_ℕ (n + 1))) jitter)

module _ {R G : Type 0} ⦃F : Floats R⦄ ⦃w : World G⦄ ⦃r : Reals R G⦄ where
  unfoldable pub chunk : String → String → String → ℤ → ℕ → ℕ → Draws G (Fields R)
  unfolding choice make_event chunk_bytes
  chunk host src dst per_chunk i chunks = do
    jitter ← r.uniform (dec 7 1) (dec 13 1)
    port ← choice 443 (443 ∷ 22 ∷ 8443 ∷ 9001 ∷ [])
    received ← w.randint 200 1500
    make_event (record (args host "application" "network_flow" "medium") {
      status = some "allowed";
      source_ip = some src;
      destination_ip = some dst;
      destination_port = some port;
      service = some "api-gateway";
      action = some "outbound transfer";
      bytes_out = chunk_bytes per_chunk jitter;
      bytes_in = pos received;
      message =
          some
            (fmt ("flow " ∷ src ∷ " -> " ∷ dst ∷ " chunk " ∷ str (i + 1) ∷ "/" ∷ str chunks ∷ []));
      metadata = field "exfil" (bool true) (field "protocol" (text "tls") end);
    })

  -- the rounds of the loop from `i` on
  unfoldable pub chunks_from : String → String → String → ℤ → ℕ → ℕ → ℕ → Draws G (List (Fields R))
  unfolding chunk
  chunks_from host src dst per_chunk chunks i zero = ret []
  chunks_from host src dst per_chunk chunks i (suc n) = do
    event ← chunk host src dst per_chunk i chunks
    rest ← chunks_from host src dst per_chunk chunks (i + 1) n
    ret (event ∷ rest)

  -- `data_exfiltration`
  unfoldable pub data_exfiltration : Option String → Option ℕ → Draws G (List (Fields R))
  unfolding or_internal rand_external_ip choice or_randint chunks_from
  data_exfiltration source_ip total_mib = do
    src ← or_internal source_ip
    dst ← rand_external_ip
    host ← choice "" (app_hosts ++ db_hosts)
    total ← or_randint total_mib 120 900
    chunks ← w.randint 15 40
    let per_chunk = F.trunc (fdiv (of_ℕ (total * 1024 * 1024)) (of_ℕ chunks))
    chunks_from host src dst per_chunk chunks 0 chunks
