-- ===== src/Engine/Labels.antt =====
-- backend/app/detection/engine.py: whose detections an evaluation returns.
use real_time_distributed_si.Prelude.{
  String, true, ◌≡◌, refl, Option, none, some, List, [], ◌∷◌, All, All-map, In, Bool-cases, inl,
  inr,
}
use real_time_distributed_si.Event.{SecurityEvent}
use real_time_distributed_si.Detection.{Detection, Detector, Env, Outcome, ok, raised}
use real_time_distributed_si.Engine.{evaluate, runs, kept_result}

-- a detection, where there is one, carries the rule's id
abbrev pub Labelled : {R : Type 0} → String → Outcome (Option (Detection R)) → Type 0
Labelled rule_id (ok (some d)) = d.rule_id ≡ rule_id
Labelled rule_id (ok none) = Unit
Labelled rule_id (raised m) = Unit

module _ {R S : Type 0} where
  pub record Labels (d : Detector R S) : Type 0 where
    pub label :
        (e : SecurityEvent R) (env : Env) (s : S) → Labelled d.rule_id (d.evaluate e env s).0

  -- the detection comes from an enabled detector that applies, and carries its clock
  pub record Comes (ds : List (Detector R S)) (disabled : List String) (env : String → Env)
      (e : SecurityEvent R) (x : Detection R) : Type 0 where
    pub from : Detector R S
    pub listed : In from ds
    pub ran : runs disabled from e ≡ true
    pub labelled : x.rule_id ≡ from.rule_id
    pub stamped : x.triggered_at ≡ some (env from.rule_id).wall

module _ {R S : Type 0} (disabled : List String) (env : String → Env) (e : SecurityEvent R) where
  kept-Comes :
      (d : Detector R S) (ds : List (Detector R S)) (o : Outcome (Option (Detection R)))
      (rest : List (Detection R))
      → runs disabled d e ≡ true
      → Labelled d.rule_id o
      → All (Comes (d ∷ ds) disabled env e) rest
      → All (Comes (d ∷ ds) disabled env e) (kept_result (env d.rule_id).wall o rest)
  kept-Comes d ds (raised m) rest go l h = h
  kept-Comes d ds (ok none) rest go l h = h
  kept-Comes d ds (ok (some x)) rest go l h =
      (record { from = d; listed = inl refl; ran = go; labelled = l; stamped = refl }, h)

  Comes-later :
      (d : Detector R S) (ds : List (Detector R S)) (x : Detection R)
      → Comes ds disabled env e x
      → Comes (d ∷ ds) disabled env e x
  Comes-later d ds x c = record {
    from = c.from;
    listed = inr c.listed;
    ran = c.ran;
    labelled = c.labelled;
    stamped = c.stamped;
  }

  pub evaluate-Comes :
      (ds : List (Detector R S)) (s : S)
      → All Labels ds
      → All (Comes ds disabled env e) (evaluate ds disabled env e s).0
  unfolding evaluate
  evaluate-Comes [] s h = tt
  evaluate-Comes (d ∷ ds) s h = elim (Bool-cases (runs disabled d e)) [
    | inl go ↦
        rw (go, runs)
          (kept-Comes d ds (d.evaluate e (env d.rule_id) s).0 _ go (h.0.label e (env d.rule_id) s) (
            All-map _ _ (Comes-later d ds) _
              (evaluate-Comes ds (d.evaluate e (env d.rule_id) s).1 h.1)))
    | inr skip ↦ rw (skip, runs) (All-map _ _ (Comes-later d ds) _ (evaluate-Comes ds s h.1))
  ]
