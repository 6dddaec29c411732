-- ===== src/Rule/SuspiciousSql.antt =====
-- backend/app/detection/rules/suspicious_sql.py: RULE-005. It keeps no window.
use real_time_distributed_si.Prelude.{
  ℕ, ℤ, pos, negsuc, String, Bool, true, false, Option, none, some, List, [], ◌∷◌, ◌++◌, ◌||◌, not,
  if◌then◌else◌, leb, fmt, join, str_take, is_nonempty, ◌==◌,
}
use real_time_distributed_si.Regex.{
  Re, one, seq, alt, star, boundary, at_end, not_ahead, search_in, word, space, some_of, one_of,
  is_digit, is_word,
}
use real_time_distributed_si.Floats.{Floats, flt, dec, of_ℕ, round, fmin, fmax}
use real_time_distributed_si.Enums.{DetectionKind, is_event_type, db_query, db_error, high, medium}
use real_time_distributed_si.Value.{Value, end, field, get, texts, int}
use real_time_distributed_si.Value.Convert.{value_text, value_truthy, int_value, int_text}
use real_time_distributed_si.Event.{SecurityEvent}
use real_time_distributed_si.Detection.{
  Detection, Detector, Env, Outcome, ok, raised, or_text, or_option, shown, listed,
}

pub record Params : Type 0 where
  pub large_rowcount : ℕ

abbrev pub default_params : Params
default_params = record { large_rowcount = 5000 }

abbrev pub rule_id : String
rule_id = "RULE-005"

unfoldable pub applies_to : {R : Type 0} → SecurityEvent R → Bool
applies_to e = is_event_type e.event_type db_query || is_event_type e.event_type db_error

infixr 60 ◌⨾◌
abbrev ◌⨾◌ : Re → Re → Re
a ⨾ b = seq a b

abbrev spaces : Re
spaces = some_of space

abbrev maybe_spaces : Re
maybe_spaces = star space

-- a pattern of `_PATTERNS` with its label and its weight in hundredths
pub record Pattern : Type 0 where
  pub regex : Re
  pub label : String
  pub weight : ℕ

-- a parameter sign of the placeholder syntax, or the text before it: `.*[$:?]`
abbrev placeholder : Re
placeholder = star (one (λ c. not (c == 10))) ⨾ one (λ c. one_of c (b'$' ∷ b':' ∷ b'?' ∷ []))

-- `_PATTERNS`
unfoldable pub patterns : List Pattern
patterns =
    record {
      regex = boundary ⨾ word "union" ⨾ spaces ⨾ word "select" ⨾ boundary;
      label = "UNION-based injection";
      weight = 90;
    }
    ∷ record {
      regex =
          boundary
          ⨾ word "or"
          ⨾ spaces
          ⨾ word "1"
          ⨾ maybe_spaces
          ⨾ word "="
          ⨾ maybe_spaces
          ⨾ word "1"
          ⨾ boundary;
      label = "tautology injection (OR 1=1)";
      weight = 85;
    }
    ∷ record {
      regex =
          word "';"
          ⨾ maybe_spaces
          ⨾ alt (word "drop") (alt (word "delete") (alt (word "update") (word "insert")))
          ⨾ boundary;
      label = "stacked-query injection";
      weight = 90;
    }
    ∷ record {
      regex =
          boundary
          ⨾ alt (word "information_schema") (alt (word "pg_catalog") (word "sysobjects"))
          ⨾ boundary;
      label = "schema enumeration";
      weight = 60;
    }
    ∷ record {
      regex =
          boundary
          ⨾ alt (word "load_file") (
              alt (word "into" ⨾ spaces ⨾ word "outfile")
                (alt (word "pg_read_file") (word "xp_cmdshell")))
          ⨾ boundary;
      label = "file / command access";
      weight = 95;
    }
    ∷ record {
      regex =
          boundary
          ⨾ word "select"
          ⨾ spaces
          ⨾ word "*"
          ⨾ spaces
          ⨾ word "from"
          ⨾ spaces
          ⨾ star (one is_word)
          ⨾ boundary
          ⨾ alt (word "users") (
              alt (word "credentials") (
                alt (word "customers")
                  (alt (word "payment") (alt (word "passwords") (word "password")))))
          ⨾ boundary
          ⨾ not_ahead placeholder;
      label = "unparameterised bulk read of a sensitive table";
      weight = 50;
    }
    ∷ record {
      regex = one (λ c. one_of c (39 ∷ 34 ∷ [])) ⨾ maybe_spaces ⨾ word "--" ⨾ maybe_spaces ⨾ at_end;
      label = "inline comment truncation of a string literal";
      weight = 55;
    }
    ∷ record {
      regex =
          alt
            (boundary
              ⨾ word "sleep"
              ⨾ maybe_spaces
              ⨾ word "("
              ⨾ maybe_spaces
              ⨾ some_of (one is_digit)
              ⨾ maybe_spaces
              ⨾ word ")")
            (boundary ⨾ word "waitfor" ⨾ spaces ⨾ word "delay" ⨾ boundary);
      label = "time-based blind injection";
      weight = 85;
    }
    ∷ []

-- the labels of the patterns that the query matches
unfoldable pub hits_in : List Pattern → String → List String
hits_in [] query = []
hits_in (p ∷ ps) query =
    let rest = hits_in ps query in if search_in p.regex query then p.label ∷ rest else rest

-- `rows >= large_rowcount`
unfoldable pub big_read : Params → ℤ → Bool
big_read p (pos n) = leb p.large_rowcount n
big_read p (negsuc n) = false

module _ {R : Type 0} ⦃F : Floats R⦄ (repr : Value R → String) where
  -- `metadata.get("query") or message or ""`, as text
  abbrev query_value : Option (Value R) → Option String → String
  query_value none message = or_text message ""
  query_value (some v) message = if value_truthy v then value_text repr v else or_text message ""

  unfoldable pub query_text : SecurityEvent R → String
  query_text e = query_value (get "query" e.metadata) e.message

  -- `int(metadata.get("rows_returned") or 0)`
  abbrev pub rows_value : Option (Value R) → Option ℤ
  rows_value none = some (pos 0)
  rows_value (some v) = if value_truthy v then int_value v else some (pos 0)

  -- the running maximum of the weights
  score_in : List Pattern → String → R → R
  score_in [] query score = score
  score_in (p ∷ ps) query score =
      score_in ps query (if search_in p.regex query then fmax score (dec p.weight 2) else score)

  unfoldable pub detection : SecurityEvent R → String → List String → R → ℤ → Detection R
  detection e query hits score rows =
      let actor = or_option e.username e.source_ip in
      record {
        rule_id = rule_id;
        kind = DetectionKind.rule;
        title = fmt ("Suspicious SQL from " ∷ or_text actor "unknown" ∷ []);
        description = fmt (
            "Query on "
            ∷ e.source
            ∷ " matched: "
            ∷ join ", " hits
            ∷ ". Query (truncated): "
            ∷ str_take 200 query
            ∷ []);
        severity = if not (flt score (dec 85 2)) then high else medium;
        confidence = round (fmin (dec 96 2) score) 2;
        correlation_key = fmt ("db:" ∷ e.source ∷ ":user:" ∷ shown actor ∷ ":sqli" ∷ []);
        source_ip = e.source_ip;
        affected_host = some e.source;
        recommended_action =
            "Correlate with the calling application and user. Review DB audit logs for the session, confirm parameterised queries in the code path, and check for unexpected data volume leaving the database.";
        evidence =
            record {
              event_id = e.event_id;
              timestamp = e.timestamp;
              summary =
                  fmt (or_text e.username "?" ∷ " @ " ∷ e.source ∷ ": " ∷ str_take 120 query ∷ []);
            }
            ∷ [];
        involved_users = listed e.username;
        involved_hosts = e.source ∷ [];
        event_count_hint = 1;
        anomaly_score = none;
        metadata = field "patterns" (texts hits) (field "rows_returned" (int rows) end);
        triggered_at = none;
      }

  abbrev any_hits : List String → Bool
  any_hits [] = false
  any_hits (h ∷ hs) = true

  -- the part after the rows are read
  unfoldable pub verdict : Params → SecurityEvent R → String → ℤ → Option (Detection R)
  unfolding score_in
  verdict p e query rows =
      let big = big_read p rows in
      let hits =
        hits_in patterns query
        ++ (if big then fmt ("large result set (" ∷ int_text rows ∷ " rows)" ∷ []) ∷ [] else []) in
      let base = score_in patterns query (of_ℕ 0) in
      let score = if big then fmax base (dec 55 2) else base in
      if any_hits hits then some (detection e query hits score rows) else none

  abbrev pub checked : Params → SecurityEvent R → String → Option ℤ → Outcome (Option (Detection R))
  checked p e query none = raised "ValueError"
  checked p e query (some rows) = ok (verdict p e query rows)

  unfoldable pub evaluate :
      {S : Type 0} → Params → SecurityEvent R → Env → S → Outcome (Option (Detection R)) × S
  unfolding verdict
  evaluate p e env s =
      let query = query_text e in
      (
        if not (is_nonempty query)
            then ok none
            else checked p e query (rows_value (get "rows_returned" e.metadata)),
        s,
      )

  abbrev pub detector : {S : Type 0} → Params → Detector R S
  detector p = record { rule_id = rule_id; applies_to = applies_to; evaluate = evaluate p }
