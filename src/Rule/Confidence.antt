-- ===== src/Rule/Confidence.antt =====
-- backend/app/detection/rules: the cap on the confidence of every rule.
use real_time_distributed_si.Prelude.{ℕ, ℤ, String, Bool, true, false, ◌≡◌, List}
use real_time_distributed_si.Floats.{Floats, flt, dec, round-fmin-le}
use real_time_distributed_si.Value.{Value}
use real_time_distributed_si.Event.{SecurityEvent}
use real_time_distributed_si.Window.{WindowResult}
use real_time_distributed_si.Rule.BruteForce
use real_time_distributed_si.Rule.PasswordSpray
use real_time_distributed_si.Rule.PortScan
use real_time_distributed_si.Rule.DataExfiltration
use real_time_distributed_si.Rule.AuthAnomaly
use real_time_distributed_si.Rule.PrivilegeEscalation
use real_time_distributed_si.Rule.SuspiciousSql

module _ {R : Type 0} ⦃F : Floats R⦄ where
  brute_force-capped :
      (p : BruteForce.Params) (e : SecurityEvent R) (ip : String) (res : WindowResult)
      (breached : Bool)
      → flt (dec 99 2) (BruteForce.detection p e ip res breached).confidence ≡ false
  unfolding BruteForce.detection BruteForce.confidence
  brute_force-capped p e ip res true = round-fmin-le {R = R} 99 2 _
  brute_force-capped p e ip res false = round-fmin-le {R = R} 99 2 _

  -- No detection of a rule has a confidence over the rule's cap: 0.99 for brute force, 0.97 for password
  -- spraying, 0.98 for port scans, 0.95 for exfiltration and for privilege escalation, 0.92 for
  -- unusual logins and 0.96 for suspicious SQL, whatever the windows hold.
  pub confidence_capped :
      (e : SecurityEvent R) (ip user query : String) (res : WindowResult) (port total : ℕ)
      (breached : Bool) (brute : BruteForce.Params) (spray : PasswordSpray.Params)
      (scan : PortScan.Params) (exfil : DataExfiltration.Params) (auth : AuthAnomaly.Params)
      (repr : Value R → String) (g : PrivilegeEscalation.Signals) (hits : List String) (score : R)
      (rows : ℤ)
      → (flt (dec 99 2) (BruteForce.detection brute e ip res breached).confidence ≡ false)
        × (flt (dec 97 2) (PasswordSpray.detection spray e ip res).confidence ≡ false)
        × (flt (dec 98 2) (PortScan.detection scan e ip port res).confidence ≡ false)
        × (flt (dec 95 2) (DataExfiltration.detection exfil e ip total).confidence ≡ false)
        × (flt (dec 92 2) (AuthAnomaly.detection auth e user ip res).confidence ≡ false)
        × (flt (dec 95 2) (PrivilegeEscalation.detection {R = R} repr e g).confidence ≡ false)
        × (flt (dec 96 2) (SuspiciousSql.detection repr e query hits score rows).confidence ≡ false)
  unfolding PasswordSpray.detection PortScan.detection DataExfiltration.detection
      AuthAnomaly.detection PrivilegeEscalation.detection SuspiciousSql.detection
  confidence_capped e ip user query res port total breached brute spray scan exfil auth repr g hits
        score rows =
      (
        brute_force-capped brute e ip res breached,
        round-fmin-le {R = R} 97 2 _,
        round-fmin-le {R = R} 98 2 _,
        round-fmin-le {R = R} 95 2 _,
        round-fmin-le {R = R} 92 2 _,
        round-fmin-le {R = R} 95 2 _,
        round-fmin-le {R = R} 96 2 _,
      )
