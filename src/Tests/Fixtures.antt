-- ===== src/Tests/Fixtures.antt =====
-- Concrete parameters for the tests: numbers in thousandths in place of floats, a store of functions
-- in place of Redis, the first row in place of a query without an order, and sample events.
use real_time_distributed_si.Correlation.{create}
use real_time_distributed_si.Prelude.{
  ℕ, ◌+◌, ◌-◌, ◌*◌, ◌/◌, ◌^◌, pos, String, Bool, true, false, ◌≡◌, ◌≢◌, refl, inl, sym, Option,
  none, some, List, [], ◌∷◌, ◌++◌, ◌||◌, ◌&&◌, arith, if◌then◌else◌, ltb, leb, str_eq, str_eq_refl,
  filter, mem, str, In, ◌<◌, Bool-cases, inr, eq_iff, int_of, int_of-str, ◌∙◌, ap,
}
use mathlib.Core.List.{append-nil}
use real_time_distributed_si.Floats.{Floats}
use real_time_distributed_si.Redis.{Redis, Entry, other_than, is_past}
use real_time_distributed_si.Settings.{Settings, default_settings}
use real_time_distributed_si.Enums.{
  Severity, SourceType, EventType, EventStatus, DetectionKind, high,
}
use real_time_distributed_si.Value.{Value, end}
use real_time_distributed_si.Event.{SecurityEvent}
use real_time_distributed_si.Detection.{Env, Detection}
use real_time_distributed_si.Alert.{Alert, Session, open_by_key}
use real_time_distributed_si.Pipeline.Success.{IsSound, NewIds}
use real_time_distributed_si.Normalize.{Platform}

pub ltb_irrefl : (a : ℕ) → ltb a a ≡ false
ltb_irrefl a = ground arith

pub ltb_asym : (a b : ℕ) → ltb a b ≡ true → ltb b a ≡ false
ltb_asym a b h = ground arith

pub ltb_trans : (a b c : ℕ) → ltb a b ≡ true → ltb b c ≡ true → ltb a c ≡ true
ltb_trans a b c h g = ground arith

pub not_ltb_trans : (a b c : ℕ) → ltb b a ≡ false → ltb c b ≡ false → ltb c a ≡ false
not_ltb_trans a b c h g = ground arith

instance abbrev pub thousandths : Floats ℕ
thousandths = record {
  dec = λ n k. (n * 1000) / (10 ^ k);
  of_ℕ = λ n. n * 1000;
  add = λ a b. a + b;
  sub = λ a b. a - b;
  mul = λ a b. (a * b) / 1000;
  div = λ a b. (a * 1000) / b;
  neg = λ a. 0;
  sqrt = λ a. a;
  exp = λ a. a;
  lt = ltb;
  round = λ a k. a;
  fixed = λ k a. str a;
  shown = str;
  trunc = λ a. pos (a / 1000);
  lt_irrefl = ltb_irrefl;
  lt_asym = ltb_asym;
  lt_trans = ltb_trans;
  not_lt_trans = not_ltb_trans;
  round_mono = λ a b k h. h;
  round-dec = λ n k. refl;
}

-- the sorted sets, the plain sets and the times to live by key
pub record Memory : Type 0 where
  pub sorted_sets : String → List Entry
  pub plain_sets : String → String → Bool
  pub lives : String → Option ℕ

abbrev pub empty_memory : Memory
empty_memory = record { sorted_sets = λ k. []; plain_sets = λ k m. false; lives = λ k. none }

-- the rest of a time to live
abbrev left_of : ℕ → Option ℕ → Option ℕ
left_of n none = none
left_of n (some t) = if leb t n then none else some (t - n)

instance abbrev pub memory : Redis Memory
memory = record {
  zremrangebyscore = λ k now w s. record s {
    sorted_sets = λ j.
        if str_eq k j then filter (λ e. ltb now (e.1 + w)) (s.sorted_sets j) else s.sorted_sets j;
  };
  zadd = λ k m t s. record s {
    sorted_sets = λ j.
        if str_eq k j
        then filter (other_than m) (s.sorted_sets j) ++ (m, t) ∷ []
        else s.sorted_sets j;
  };
  expire = λ k n s. record s { lives = λ j. if str_eq k j then some n else s.lives j };
  zrange = λ k s. s.sorted_sets k;
  sadd = λ k ms s. record s { plain_sets = λ j m. (str_eq k j && mem m ms) || s.plain_sets j m };
  sismember = λ k m s. s.plain_sets k m;
  ttl = λ k s. s.lives k;
  elapse = λ n s. record {
    sorted_sets = λ k. if is_past n (s.lives k) then [] else s.sorted_sets k;
    plain_sets = λ k m. if is_past n (s.lives k) then false else s.plain_sets k m;
    lives = λ k. left_of n (s.lives k);
  };
  zrange-zremrangebyscore = λ k j now w s. refl;
  zrange-zadd = λ k m t s.
      (filter (other_than m) (s.sorted_sets k), [], sym (append-nil _), rw (str_eq_refl k) refl);
  zrange-zadd_other = λ k j m t s ne. rw ne refl;
  zrange-expire = λ k j n s. refl;
  sismember-sadd = λ k j m ms s. refl;
  sismember-zremrangebyscore = λ k m j now w s. refl;
  sismember-zadd = λ k m j n t s. refl;
  sismember-expire = λ k m j n s. refl;
  ttl-expire = λ k m n s e. rw (str_eq_refl k) refl;
  ttl-expire_sorted = λ k n s e. rw (str_eq_refl k) refl;
  ttl-expire_other = λ k j n s ne. rw ne refl;
  ttl-zremrangebyscore_other = λ k j now w s ne. refl;
  ttl-zadd_other = λ k j m t s ne. refl;
  sismember-elapse = λ k m n s. refl;
  zrange-elapse = λ k n s. refl;
}

abbrev first_row : List (Alert ℕ) → Option (Alert ℕ)
first_row [] = none
first_row (a ∷ rows) = some a

pub first_row-in : (a : Alert ℕ) (rows : List (Alert ℕ)) → first_row rows ≡ some a → In a rows
first_row-in a [] h = absurd (ground arith)
first_row-in a (b ∷ rows) h = inl (ground arith)

pub first_row-cons : (a : Alert ℕ) (rest : List (Alert ℕ)) → first_row (a ∷ rest) ≢ none
first_row-cons a rest h = absurd (ground arith)

instance abbrev pub session : Session ℕ
session = record {
  scalar = first_row;
  scalar-nil = refl;
  scalar-cons = first_row-cons;
  scalar-in = first_row-in;
}

abbrev pub platform : Platform ℕ
platform = record {
  repr = λ v. "{}";
  ip_address = λ s. some s;
  fromisoformat = λ s. none;
  fromtimestamp = λ x. some (x * 1000);
  uuid = λ s. none;
  uuid5 = λ s. s;
  ip_canonical = λ s t h. refl;
}

abbrev pub shown_value : Value ℕ → String
shown_value = platform.repr

abbrev pub settings : Settings ℕ
settings = default_settings

-- a failed login from one address, at a second
abbrev pub failed_login : String → ℕ → SecurityEvent ℕ
failed_login event_id second = record {
  event_id = event_id;
  timestamp = second * 1000000;
  ingested_at = second * 1000000;
  source = "sshd";
  source_type = SourceType.linux_server;
  event_type = EventType.auth_failure;
  source_ip = some "203.0.113.9";
  destination_ip = none;
  destination_port = some 22;
  username = some "root";
  service = some "ssh";
  action = none;
  status = some EventStatus.failure;
  severity = Severity.info;
  message = none;
  bytes_out = 0;
  bytes_in = 0;
  metadata = end;
}

abbrev pub env_at : ℕ → String → Env
env_at second rule_id = record { wall = second * 1000000; token = "t" }

-- the numerals differ from each other, and serve as ids of new alerts
pub str_apart : (j k : ℕ) → j < k → str_eq (str j) (str k) ≡ false
str_apart j k h = elim (Bool-cases (str_eq (str j) (str k))) [
  | inl same ↦ absurd (
      ground
        (arith, h, sym (int_of-str j) ∙ ap int_of ((eq_iff (str j) (str k)).0 same) ∙ int_of-str k))
  | inr other ↦ other
]

pub no_alerts : IsSound {R = ℕ} []
unfolding open_by_key filter
no_alerts = record { distinct = tt; one = λ r k. omega arith }

pub numbered : NewIds {R = ℕ} str 0 []
numbered = record { absent = λ j le. tt; apart = str_apart }

-- a brute-force detection from one address
abbrev pub found : Detection ℕ
found = record {
  rule_id = "RULE-001";
  kind = DetectionKind.rule;
  title = "Brute-force login activity from 203.0.113.9";
  description = "";
  severity = high;
  confidence = 600;
  correlation_key = "srcip:203.0.113.9";
  source_ip = some "203.0.113.9";
  affected_host = some "sshd";
  recommended_action = "";
  evidence = [];
  involved_users = "root" ∷ [];
  involved_hosts = "sshd" ∷ [];
  event_count_hint = 10;
  anomaly_score = none;
  metadata = end;
  triggered_at = some 40;
}

abbrev pub first_alert : Alert ℕ
first_alert = create "a0" 30 found
