-- ===== src/Ml.antt =====
-- backend/app/detection/ml.py: the rolling buffer of feature vectors and the schedule of training. The
-- isolation forest itself is a parameter; none stands for an exception of it.
pub mod Buffer
use real_time_distributed_si.Prelude.{
  ℕ, ◌-◌, ◌/◌, ◌%◌, String, Bool, true, false, Option, none, some, List, [], ◌∷◌, ◌++◌, ◌||◌,
  if◌then◌else◌, ltb, ◌==◌, max, take, drop, length, str_eq, fmt, join,
}
use real_time_distributed_si.Floats.{Floats, fsub, flt, dec, of_ℕ, round, fixed, fmin, fmax}
use real_time_distributed_si.Metrics.{MlResult}

-- what is used of scikit-learn
pub record Forest (R M : Type 0) : Type 0 where
  pub fit : List (List R) → Option M
  -- `decision_function`, and whether `predict` gives -1
  pub decide : M → List R → Option (R × Bool)

-- `IsolationForestDetector`; whether the layer is on is settled when it is made
pub record Ml (R M : Type 0) : Type 0 where
  pub enabled : Bool
  pub buffer_size : ℕ
  pub buffer : List (List R)
  pub model : Option M

-- `_FEATURES`
abbrev pub feature_names : List String
feature_names =
    "events_per_min" ∷ "auth_failures_per_min" ∷ "unique_source_ips" ∷ "outbound_mib_per_min"
    ∷ "db_errors_per_min" ∷ "firewall_denies_per_min" ∷ []

module _ {R : Type 0} ⦃F : Floats R⦄ where
  -- `feats.get(name, 0.0)`
  abbrev feature : String → List (String × R) → R
  feature name [] = of_ℕ 0
  feature name ((m, x) ∷ feats) = if str_eq m name then x else feature name feats

  abbrev vector : List String → List (String × R) → List R
  vector [] feats = []
  vector (name ∷ names) feats = feature name feats ∷ vector names feats

  -- `_vectorize`
  unfoldable pub vectorize : List (String × R) → List R
  vectorize feats = vector feature_names feats

  -- `sorted(…, key=lambda kv: -kv[1])`, which keeps the order of equal values
  insert_feature : String × R → List (String × R) → List (String × R)
  insert_feature kv [] = kv ∷ []
  insert_feature kv (x ∷ xs) = if flt kv.1 x.1 then x ∷ insert_feature kv xs else kv ∷ x ∷ xs

  sorted_features : List (String × R) → List (String × R)
  unfolding insert_feature
  sorted_features [] = []
  sorted_features (kv ∷ feats) = insert_feature kv (sorted_features feats)

  abbrev shown_features : List (String × R) → List String
  shown_features [] = []
  shown_features ((k, v) ∷ rest) = fmt (k ∷ "=" ∷ fixed 1 v ∷ []) ∷ shown_features rest

  unfoldable pub ml_result : R → List (String × R) → MlResult R
  unfolding sorted_features
  ml_result raw feats = record {
    score = round (fmax (of_ℕ 0) (fmin (of_ℕ 1) (fsub (dec 5 1) raw))) 3;
    reason = fmt (
        "Isolation Forest flagged this minute as an outlier; largest contributors: "
        ∷ join ", " (shown_features (take 3 (sorted_features feats)))
        ∷ []);
  }

  -- `append`, then `pop(0)` over the size
  unfoldable pub pushed : ℕ → List R → List (List R) → List (List R)
  pushed size v buffer =
      let longer = buffer ++ v ∷ [] in if ltb size (length longer) then drop 1 longer else longer

  abbrev judged : List (String × R) → Option (R × Bool) → Option (MlResult R)
  judged feats none = none
  judged feats (some (raw, outlier)) = if outlier then some (ml_result raw feats) else none

module _ {R M : Type 0} ⦃F : Floats R⦄ (forest : Forest R M) where
  -- the model that the vector is judged by, after the training that may be due
  abbrev pub due : Option M → ℕ → Bool
  due none n = true
  due (some model) n = n % 30 == 0

  unfoldable pub trained : Ml R M → Option M
  trained ml =
      if due ml.model (length ml.buffer)
      then forest.fit (take (length ml.buffer - 1) ml.buffer)
      else ml.model

  abbrev pub infer : List (String × R) → List R → Ml R M → Option M → Option (MlResult R) × Ml R M
  infer feats v ml none = (none, ml)
  infer feats v ml (some model) =
      (judged feats (forest.decide model v), record ml { model = some model })

  -- `observe` after the buffer has the vector
  unfoldable pub observe_full : List (String × R) → List R → Ml R M → Option (MlResult R) × Ml R M
  unfolding trained
  observe_full feats v ml =
      if ltb (length ml.buffer) (max 60 (ml.buffer_size / 6))
      then (none, ml)
      else infer feats v ml (trained ml)

  -- `observe`
  unfoldable pub observe : List (String × R) → Ml R M → Option (MlResult R) × Ml R M
  unfolding observe_full pushed vectorize
  observe feats ml =
      let v = vectorize feats in
      if ml.enabled
      then observe_full feats v (record ml { buffer = pushed ml.buffer_size v ml.buffer })
      else (none, ml)
