-- ===== src/Anomaly/WarmUp.antt =====
-- backend/app/detection/anomaly.py: how many observations a baseline needs, what an observation
-- changes, and the range of the score.
use real_time_distributed_si.Prelude.{
  ℕ, ◌+◌, ◌<◌, String, Bool, true, false, ◌≡◌, refl, ap, Option, none, some, arith, if◌then◌else◌,
  str_eq, str_eq_refl,
}
use real_time_distributed_si.Floats.{Floats, flt, dec, round-fmin-le}
use real_time_distributed_si.Settings.{Settings}
use real_time_distributed_si.Anomaly.{
  AnomalyResult, Baseline, Baselines, baseline_of, starting, z_of, is_anomalous, anomaly_score,
  result, moved, observe_from, observe,
}

module _ {R : Type 0} ⦃F : Floats R⦄ where
  -- the samples of a metric
  abbrev samples_in : Option (Baseline R) → ℕ
  samples_in none = 0
  samples_in (some b) = b.n

  unfoldable pub samples_of : String → Baselines R → ℕ
  samples_of metric bs = samples_in (baseline_of metric bs)

  starting-n : (value : R) (o : Option (Baseline R)) → (starting value o).n ≡ samples_in o
  unfolding starting
  starting-n value none = refl
  starting-n value (some b) = refl

  score_capped : (c : Settings R) (z : R) → flt (dec 1000 3) (anomaly_score c z) ≡ false
  unfolding anomaly_score
  score_capped c z = round-fmin-le {R = R} 1000 3 _

  choice_capped :
      (b : Bool) (r found : AnomalyResult R)
      → flt (dec 1000 3) r.anomaly_score ≡ false
      → (if b then some r else none) ≡ some found
      → flt (dec 1000 3) found.anomaly_score ≡ false
  choice_capped true r found cap h = ground (arith, cap, h)
  choice_capped false r found cap h = absurd (ground (arith, h))

  -- One observation reports nothing while the metric has fewer samples than the minimum, adds one to the
  -- samples of its metric, leaves the baseline of every other metric alone, and a score that it
  -- reports is at most 1.
  pub observe_lem :
      (c : Settings R) (metric : String) (value : R) (bs : Baselines R)
      → (samples_of metric bs < c.anomaly_min_samples → (observe c metric value bs).0 ≡ none)
        × (samples_of metric (observe c metric value bs).1 ≡ samples_of metric bs + 1)
        × ((other : String)
            → str_eq metric other ≡ false
            → baseline_of other (observe c metric value bs).1 ≡ baseline_of other bs)
        × ((found : AnomalyResult R)
            → (observe c metric value bs).0 ≡ some found
            → flt (dec 1000 3) found.anomaly_score ≡ false)
  unfolding observe observe_from samples_of is_anomalous baseline_of moved result
  observe_lem c metric value bs =
      let b = starting value (baseline_of metric bs) in
      (
        λ few. ground (arith, few, starting-n value (baseline_of metric bs)),
        rw (str_eq_refl metric) (ap (λ n. n + 1) (starting-n value (baseline_of metric bs))),
        λ other ne. rw ne refl,
        λ found h. choice_capped _ _ found (score_capped c (z_of value b)) h,
      )
