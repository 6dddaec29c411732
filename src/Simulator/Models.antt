-- ===== src/Simulator/Models.antt =====
-- simulator/simulator/models.py: the inventory of the synthetic enterprise, its addresses, and the
-- payload of an event.
use real_time_distributed_si.Prelude.{
  ℕ, zero, suc, true, false, ◌+◌, ◌*◌, ◌/◌, ◌%◌, ℤ, pos, String, Bool, Option, none, some, List, [],
  ◌∷◌, if◌then◌else◌, ◌==◌, ◌&&◌, not, fmt, str,
}
use Prim.Native.Char.{code}
use real_time_distributed_si.Value.{Value, Fields, null, int, text, dict, end, field}
use real_time_distributed_si.Simulator.World.{World, Draws, ◌>>=◌, ret}

abbrev pub ssh_hosts : List String
ssh_hosts =
    "ssh-server-01" ∷ "ssh-server-02" ∷ "ssh-server-03" ∷ "ssh-server-04" ∷ "ssh-server-05" ∷ []

abbrev pub web_hosts : List String
web_hosts = "web-01" ∷ "web-02" ∷ "web-03" ∷ "web-04" ∷ []

abbrev pub db_hosts : List String
db_hosts = "db-01" ∷ "db-02" ∷ "db-03" ∷ []

abbrev pub app_hosts : List String
app_hosts = "app-01" ∷ "app-02" ∷ "app-03" ∷ "app-04" ∷ "app-05" ∷ []

abbrev pub fw_hosts : List String
fw_hosts = "fw-01" ∷ "fw-02" ∷ []

abbrev pub idp_hosts : List String
idp_hosts = "idp-01" ∷ "idp-02" ∷ []

abbrev pub dns_hosts : List String
dns_hosts = "dns-01" ∷ "dns-02" ∷ []

abbrev pub users : List String
users =
    "alice" ∷ "bob" ∷ "carol" ∷ "dave" ∷ "erin" ∷ "frank" ∷ "grace" ∷ "heidi" ∷ "ivan" ∷ "judy"
    ∷ "mallory" ∷ "olivia" ∷ "peggy" ∷ "trent" ∷ "victor" ∷ "walter" ∷ "svc_backup" ∷ "svc_ci"
    ∷ "svc_monitoring" ∷ "jenkins" ∷ []

abbrev pub http_paths : List String
http_paths =
    "/" ∷ "/login" ∷ "/api/health" ∷ "/api/users" ∷ "/api/orders" ∷ "/static/app.js" ∷ "/dashboard"
    ∷ "/api/reports" ∷ "/favicon.ico" ∷ []

abbrev pub http_methods : List String
http_methods = "GET" ∷ "GET" ∷ "GET" ∷ "POST" ∷ "POST" ∷ "PUT" ∷ "DELETE" ∷ []

abbrev pub dns_names : List String
dns_names =
    "updates.internal" ∷ "pkg.repo.internal" ∷ "api.partner.example" ∷ "cdn.assets.example"
    ∷ "smtp.corp.internal" ∷ "ntp.pool.internal" ∷ []

-- `str(INTERNAL_NET[n])` in 10.42.0.0/16, and `str(EXTERNAL_SAMPLE[n])` in 203.0.113.0/24
unfoldable pub internal_ip : ℕ → String
internal_ip n = fmt ("10.42." ∷ str (n / 256) ∷ "." ∷ str (n % 256) ∷ [])

unfoldable pub external_ip : ℕ → String
external_ip n = fmt ("203.0.113." ∷ str n ∷ [])

has_dot : String → Bool
has_dot String.[] = false
has_dot (String.◌∷◌ c s) = let rest = has_dot s in if code c == 46 then true else rest

-- `s.rsplit(".", 1)[0]`
unfoldable pub before_last_dot : String → String
unfolding has_dot
before_last_dot String.[] = ""
before_last_dot (String.◌∷◌ c s) =
    let rest = before_last_dot s in
    if (code c == 46) && not (has_dot s) then "" else String.◌∷◌ c rest

-- `int.from_bytes(username.encode()[:4].ljust(4, b"\0"), "big")` of an ASCII name
big_endian : ℕ → ℕ → String → ℕ
big_endian zero acc s = acc
big_endian (suc n) acc String.[] = big_endian n (acc * 256) ""
big_endian (suc n) acc (String.◌∷◌ c s) = big_endian n (acc * 256 + code c) s

-- the address that `_USER_HOME_IP` keeps for a user
unfoldable pub home_ip : String → String
unfolding big_endian internal_ip
home_ip username = internal_ip (3000 + big_endian 4 0 username % 20000)

-- the arguments of `make_event`
pub record Args (R : Type 0) : Type 0 where
  pub source : String
  pub source_type : String
  pub event_type : String
  pub severity : String
  pub status : Option String
  pub source_ip : Option String
  pub destination_ip : Option String
  pub destination_port : Option ℕ
  pub username : Option String
  pub service : Option String
  pub action : Option String
  pub message : Option String
  pub bytes_out : ℤ
  pub bytes_in : ℤ
  pub metadata : Fields R

module _ {R : Type 0} where
  -- the defaults, behind the four arguments that every caller gives
  abbrev pub args : (source source_type event_type severity : String) → Args R
  args source source_type event_type severity = record {
    source = source;
    source_type = source_type;
    event_type = event_type;
    severity = severity;
    status = none;
    source_ip = none;
    destination_ip = none;
    destination_port = none;
    username = none;
    service = none;
    action = none;
    message = none;
    bytes_out = pos 0;
    bytes_in = pos 0;
    metadata = end;
  }

  abbrev pub text_or_null : Option String → Value R
  text_or_null none = null
  text_or_null (some s) = text s

  abbrev pub port_or_null : Option ℕ → Value R
  port_or_null none = null
  port_or_null (some n) = int (pos n)

  -- the dictionary that `make_event` returns
  unfoldable pub payload : String → String → Args R → Fields R
  payload event_id timestamp a = field "event_id" (text event_id) (
      field "timestamp" (text timestamp) (
        field "source" (text a.source) (
          field "source_type" (text a.source_type) (
            field "event_type" (text a.event_type) (
              field "severity" (text a.severity) (
                field "status" (text_or_null a.status) (
                  field "source_ip" (text_or_null a.source_ip) (
                    field "destination_ip" (text_or_null a.destination_ip) (
                      field "destination_port" (port_or_null a.destination_port) (
                        field "username" (text_or_null a.username) (
                          field "service" (text_or_null a.service) (
                            field "action" (text_or_null a.action) (
                              field "message" (text_or_null a.message) (
                                field "bytes_out" (int a.bytes_out) (
                                  field "bytes_in" (int a.bytes_in)
                                    (field "metadata" (dict a.metadata) end))))))))))))))))

module _ {G : Type 0} ⦃w : World G⦄ where
  -- `rand_internal_ip`
  unfoldable pub rand_internal_ip : Draws G String
  unfolding internal_ip
  rand_internal_ip = do n ← w.randint 1 65534; ret (internal_ip n)

  -- `rand_external_ip`
  unfoldable pub rand_external_ip : Draws G String
  unfolding external_ip
  rand_external_ip = do n ← w.randint 1 254; ret (external_ip n)

  -- `user_home_ip`
  unfoldable pub user_home_ip : String → Draws G String
  unfolding home_ip before_last_dot
  user_home_ip username = do
    second_device ← w.random_lt 1 1
    ret (
        if second_device
        then fmt
            (before_last_dot (home_ip username) ∷ "." ∷ str (200 + w.hash_mod username 40) ∷ [])
        else home_ip username)

  -- `make_event`
  unfoldable pub make_event : {R : Type 0} → Args R → Draws G (Fields R)
  unfolding payload
  make_event a = do event_id ← w.uuid4; timestamp ← w.now_iso; ret (payload event_id timestamp a)
