-- ===== src/Normalize.antt =====
-- backend/app/schemas/event.py: the field validators of `SecurityEvent` and `from_raw`. The payload
-- is a JSON object. The parsers of IP addresses, ISO dates and UUIDs are parameters.
pub mod Bounds
pub mod Identity
use real_time_distributed_si.Prelude.{
  ℕ, ◌≡◌, zero, suc, ◌+◌, ◌-◌, ◌≤◌, ℤ, pos, negsuc, String, Bool, true, false, Option, none, some,
  List, [], ◌∷◌, ◌&&◌, ◌||◌, not, if◌then◌else◌, ltb, leb, ◌==◌, str_eq, mem, lower, strip,
  str_take, is_nonempty, min, max,
}
use Prim.Native.Char.{code}
use Prim.Native.String.{◌++◌}
use real_time_distributed_si.Floats.{Floats, of_ℕ}
use real_time_distributed_si.Enums.{
  Severity, SourceType, EventType, EventStatus, severity_of, source_type_of, event_type_of,
  event_status_of,
}
use real_time_distributed_si.Value.{
  Value, Fields, null, bool, int, float, text, list, dict, end, field, get, put, setdefault,
}
use real_time_distributed_si.Value.Convert.{value_text, int_value, value_truthy}
use real_time_distributed_si.Event.{SecurityEvent}
use real_time_distributed_si.Detection.{Outcome, ok, raised}

-- a datetime: its calendar reading in microseconds, and the offset from UTC where it has one
pub record DateTime : Type 0 where
  pub reading : ℕ
  pub offset : Option ℤ

-- what is used of `ipaddress`, `datetime`, `uuid` and `repr`; none stands for the ValueError
pub record Platform (R : Type 0) : Type 0 where
  pub repr : Value R → String
  -- `str(ipaddress.ip_address(s))`
  pub ip_address : String → Option String
  pub fromisoformat : String → Option DateTime
  -- `datetime.fromtimestamp(x, tz=UTC)`
  pub fromtimestamp : R → Option ℕ
  -- `uuid.UUID(s)`, and the name-based UUID in the URL namespace
  pub uuid : String → Option String
  pub uuid5 : String → String
  -- a canonical address is read back as itself
  pub ip_canonical : (s t : String) → ip_address s ≡ some t → ip_address t ≡ some t

-- what a payload draws from outside: the clock, and a random UUID
pub record Draw : Type 0 where
  pub now : ℕ
  pub uuid4 : String

abbrev pub max_str : ℕ
max_str = 512

abbrev pub max_msg : ℕ
max_msg = 2048

-- `_clip`
unfoldable pub clip : String → ℕ → Option String
clip value limit = let s = strip value in if is_nonempty s then some (str_take limit s) else none

-- the end of the year 9999
abbrev end_of_time : ℕ
end_of_time = 315537897600000000

-- `dt.replace(tzinfo=UTC)` for a naive datetime, then `astimezone(UTC)`; none for the OverflowError
unfoldable pub to_utc : DateTime → Option ℕ
to_utc dt = from_offset dt.reading dt.offset
  where
    from_offset : ℕ → Option ℤ → Option ℕ
    from_offset t none = some t
    from_offset t (some (pos o)) = if ltb t o then none else some (t - o)
    from_offset t (some (negsuc o)) =
        if ltb (t + (o + 1)) end_of_time then some (t + (o + 1)) else none

abbrev pub one_day : ℕ
one_day = 86400000000

-- an instant more than a day ahead of the clock is taken for the clock's
unfoldable pub clamp_skew : ℕ → ℕ → ℕ
clamp_skew now t = if ltb (now + one_day) t then now else t

-- `s.replace("Z", "+00:00")`
replace_z : String → String
replace_z String.[] = ""
replace_z (String.◌∷◌ c s) =
    if code c == b'Z' then "+00:00" ++ replace_z s else String.◌∷◌ c (replace_z s)

-- `max(0, min(n, 2**63 - 1))`
unfoldable pub clamp_bytes : ℤ → ℕ
clamp_bytes (pos n) = min n 9223372036854775807
clamp_bytes (negsuc n) = 0

-- a port that is in range
unfoldable pub port_in_range : ℤ → Option ℕ
port_in_range (pos n) = if leb n 65535 then some n else none
port_in_range (negsuc n) = none

-- the names of `model_fields`
abbrev pub model_fields : List String
model_fields =
    "event_id" ∷ "timestamp" ∷ "ingested_at" ∷ "source" ∷ "source_type" ∷ "event_type" ∷ "source_ip"
    ∷ "destination_ip" ∷ "destination_port" ∷ "username" ∷ "service" ∷ "action" ∷ "status"
    ∷ "severity" ∷ "message" ∷ "bytes_out" ∷ "bytes_in" ∷ "metadata" ∷ []

abbrev pub or_else : {A : Type 0} → Option A → A → A
or_else none a = a
or_else (some b) a = b

module _ {R : Type 0} where
  -- `data.get(k)`: a missing key is None
  abbrev pub value_at : String → Fields R → Value R
  value_at k d = or_else (get k d) null

  -- `value in (None, "", "-")`
  abbrev pub is_blank : Value R → Bool
  is_blank null = true
  is_blank (text s) = str_eq s "" || str_eq s "-"
  is_blank v = false

  -- `_bound_metadata`: the first items, each under the first 128 characters of its key
  bounded_into : ℕ → Fields R → Fields R → Fields R
  bounded_into zero out d = out
  bounded_into (suc n) out end = out
  bounded_into (suc n) out (field k v d) = bounded_into n (put (str_take 128 k) v out) d

  unfoldable pub bound_metadata : Fields R → Fields R
  unfolding bounded_into
  bound_metadata d = bounded_into 50 end d

  -- the extras that the metadata do not hold yet
  add_extras : Fields R → Fields R → Fields R
  add_extras meta end = meta
  add_extras meta (field k v d) =
      add_extras (if mem k model_fields then meta else setdefault k v meta) d

  abbrev dict_of : Value R → Fields R
  dict_of (dict d) = d
  dict_of v = end

  -- the `meta` of `from_raw`
  unfoldable pub merged_metadata : Fields R → Fields R
  unfolding add_extras
  merged_metadata d = add_extras (dict_of (value_at "metadata" d)) d

module _ {R : Type 0} ⦃F : Floats R⦄ (pf : Platform R) where
  abbrev shown : Value R → String
  shown v = value_text pf.repr v

  -- `_coerce_ip`
  unfoldable pub coerce_ip : Value R → Option String
  coerce_ip v = if is_blank v then none else pf.ip_address (strip (shown v))

  abbrev port_of : Option ℤ → Option ℕ
  port_of none = none
  port_of (some n) = port_in_range n

  -- `_validate_port`
  unfoldable pub validate_port : Value R → Option ℕ
  validate_port v = if is_blank v then none else port_of (int_value v)

  abbrev bytes_of : Option ℤ → ℕ
  bytes_of none = 0
  bytes_of (some n) = clamp_bytes n

  -- `_validate_bytes`
  unfoldable pub validate_bytes : Value R → ℕ
  validate_bytes v = bytes_of (int_value v)

  -- `_clip_short` and `_clip_message`, at their limits
  unfoldable pub clip_value : ℕ → Value R → Option String
  clip_value limit null = none
  clip_value limit v = clip (shown v) limit

  -- `_clip_source`
  unfoldable pub clip_source : Value R → String
  unfolding clip_value
  clip_source v = or_else (clip_value max_str v) "unknown"

  unfoldable pub coerce_source_type : Value R → SourceType
  coerce_source_type v = or_else (source_type_of (lower (shown v))) SourceType.unknown

  unfoldable pub coerce_event_type : Value R → EventType
  coerce_event_type v = or_else (event_type_of (lower (shown v))) EventType.unknown

  unfoldable pub coerce_status : Value R → Option EventStatus
  coerce_status null = none
  coerce_status v = some (or_else (event_status_of (lower (shown v))) EventStatus.info)

  unfoldable pub coerce_severity : Value R → Severity
  coerce_severity null = Severity.info
  coerce_severity v = or_else (severity_of (lower (shown v))) Severity.info

  abbrev checked : ℕ → Option ℕ → Outcome ℕ
  checked now none = raised "ValueError"
  checked now (some t) = ok (clamp_skew now t)

  abbrev utc : Option DateTime → Option ℕ
  utc none = none
  utc (some dt) = to_utc dt

  abbrev float_of : ℤ → R
  float_of (pos n) = of_ℕ n
  float_of (negsuc n) = F.neg (of_ℕ (n + 1))

  -- `_normalize_ts`
  unfoldable pub normalize_ts : ℕ → Value R → Outcome ℕ
  unfolding to_utc replace_z
  normalize_ts now null = ok now
  normalize_ts now (bool true) = checked now (pf.fromtimestamp (of_ℕ 1))
  normalize_ts now (bool false) = checked now (pf.fromtimestamp (of_ℕ 0))
  normalize_ts now (int n) = checked now (pf.fromtimestamp (float_of n))
  normalize_ts now (float x) = checked now (pf.fromtimestamp x)
  normalize_ts now v = checked now (utc (pf.fromisoformat (replace_z (strip (shown v)))))

  -- the id: a UUID as it is, another text by its name, and nothing by chance
  unfoldable pub event_id_of : Draw → Value R → String
  event_id_of draw v =
      if value_truthy v then or_else (pf.uuid (shown v)) (pf.uuid5 (shown v)) else draw.uuid4

  unfoldable pub event_at : Draw → Fields R → ℕ → SecurityEvent R
  event_at draw d t = record {
    event_id = event_id_of draw (value_at "event_id" d);
    timestamp = t;
    ingested_at = draw.now;
    source = clip_source (value_at "source" d);
    source_type = coerce_source_type (value_at "source_type" d);
    event_type = coerce_event_type (value_at "event_type" d);
    source_ip = coerce_ip (value_at "source_ip" d);
    destination_ip = coerce_ip (value_at "destination_ip" d);
    destination_port = validate_port (value_at "destination_port" d);
    username = clip_value max_str (value_at "username" d);
    service = clip_value max_str (value_at "service" d);
    action = clip_value max_str (value_at "action" d);
    status = coerce_status (value_at "status" d);
    severity = coerce_severity (value_at "severity" d);
    message = clip_value max_msg (value_at "message" d);
    bytes_out = validate_bytes (or_else (get "bytes_out" d) (int (pos 0)));
    bytes_in = validate_bytes (or_else (get "bytes_in" d) (int (pos 0)));
    metadata = bound_metadata (merged_metadata d);
  }

  abbrev pub built : Draw → Fields R → Outcome ℕ → Outcome (SecurityEvent R)
  built draw d (ok t) = ok (event_at draw d t)
  built draw d (raised m) = raised m

  -- `from_raw`: the instant is the one field whose validator can raise
  unfoldable pub from_raw : Draw → Fields R → Outcome (SecurityEvent R)
  unfolding event_at
  from_raw draw d = built draw d (normalize_ts draw.now (value_at "timestamp" d))
