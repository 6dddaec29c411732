-- ===== src/Enrichment.antt =====
-- backend/app/detection/enrichment.py: the enrichment of an address by the synthetic provider. What is
-- used of `ipaddress` and of SHA-256 is a parameter.
pub mod Reputation
use real_time_distributed_si.Prelude.{
  ℕ, ◌+◌, ◌*◌, ◌%◌, ◌<◌, String, Bool, true, false, Option, none, some, List, [], ◌∷◌, ◌||◌, not,
  if◌then◌else◌, leb, max, str_eq, fmt, str,
}
use Prim.Native.Nat.{zero, suc}

-- the flags of a parsed address
pub record Address : Type 0 where
  pub in_doc_net : Bool
  pub is_private : Bool
  pub is_loopback : Bool
  pub is_link_local : Bool

pub record Network : Type 0 where
  -- `ipaddress.ip_address(s)`; none for the ValueError
  pub ip_address : String → Option Address
  -- the bytes of `sha256(ip.encode()).digest()`
  pub digest : String → ℕ → ℕ

pub record Enrichment : Type 0 where
  pub ip : String
  pub is_private : Bool
  pub country : Option String
  pub asn : Option String
  pub category : Option String
  pub reputation : String
  pub reputation_score : ℕ
  pub provider : String

-- `_COUNTRIES`
abbrev pub countries : List String
countries = "US" ∷ "DE" ∷ "NL" ∷ "GB" ∷ "FR" ∷ "SG" ∷ "BR" ∷ "IN" ∷ "RU" ∷ "CN" ∷ "UA" ∷ "SE" ∷ []

-- `_CATEGORIES`
abbrev pub categories : List String
categories = "hosting" ∷ "residential" ∷ "corporate" ∷ "tor-exit" ∷ "scanner" ∷ "vpn" ∷ []

-- `names[i]`, for an index in range
abbrev pub at_index : ℕ → List String → String
at_index i [] = ""
at_index zero (s ∷ ss) = s
at_index (suc i) (s ∷ ss) = at_index i ss

-- `_is_external`
unfoldable pub is_external : Address → Bool
is_external a =
    if a.in_doc_net then true else not (a.is_private || (a.is_loopback || a.is_link_local))

-- the score of a category
unfoldable pub scored : String → ℕ → ℕ
scored category score =
    if str_eq category "tor-exit" || str_eq category "scanner" then max score 70 else score

-- the reputation of a score
unfoldable pub reputation_of : ℕ → String
reputation_of score =
    if leb 80 score
    then "malicious"
    else if leb 55 score
    then "suspicious"
    else if leb 25 score
    then "neutral"
    else "clean"

module _ (net : Network) where
  -- an address of the outside
  unfoldable pub external : String → Enrichment
  unfolding scored reputation_of
  external ip =
      let h = net.digest ip in
      let category = at_index (h 1 % 6) categories in
      let score = scored category (h 4 % 101) in
      record {
        ip = ip;
        is_private = false;
        country = some (at_index (h 0 % 12) countries);
        asn = some (fmt ("AS" ∷ str (1000 + ((h 2 * 256 + h 3) % 64000)) ∷ []));
        category = some category;
        reputation = reputation_of score;
        reputation_score = score;
        provider = "synthetic";
      }

  abbrev pub enriched : String → Option Address → Enrichment
  enriched ip none = record {
    ip = ip;
    is_private = false;
    country = none;
    asn = none;
    category = none;
    reputation = "neutral";
    reputation_score = 40;
    provider = "synthetic";
  }
  enriched ip (some a) =
      if not (is_external a)
      then record {
        ip = ip;
        is_private = true;
        country = none;
        asn = some "AS-INTERNAL";
        category = some "corporate";
        reputation = "clean";
        reputation_score = 5;
        provider = "synthetic";
      }
      else external ip

  -- `SyntheticEnrichmentProvider.enrich`
  unfoldable pub enrich : String → Enrichment
  unfolding external is_external
  enrich ip = enriched ip (net.ip_address ip)

-- `NullEnrichmentProvider.enrich`
unfoldable pub enrich_none : String → Enrichment
enrich_none ip = record {
  ip = ip;
  is_private = false;
  country = none;
  asn = none;
  category = none;
  reputation = "neutral";
  reputation_score = 0;
  provider = "none";
}

-- `get_enrichment_provider().enrich`
unfoldable pub enrich_by : Network → String → String → Enrichment
unfolding enrich enrich_none
enrich_by net provider ip = if str_eq provider "synthetic" then enrich net ip else enrich_none ip
