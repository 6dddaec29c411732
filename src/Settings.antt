-- ===== src/Settings.antt =====
-- backend/app/core/config.py: the thresholds of detection, with their defaults.
use real_time_distributed_si.Prelude.{ℕ}
use real_time_distributed_si.Floats.{Floats, dec}

pub record Settings (R : Type 0) : Type 0 where
  pub rule_bruteforce_max_failures : ℕ
  pub rule_bruteforce_window_seconds : ℕ
  pub rule_portscan_unique_ports : ℕ
  pub rule_portscan_window_seconds : ℕ
  pub rule_spray_unique_users : ℕ
  pub rule_spray_window_seconds : ℕ
  pub rule_exfil_bytes_threshold : ℕ
  pub rule_exfil_window_seconds : ℕ
  pub anomaly_zscore_threshold : R
  pub anomaly_ewma_alpha : R
  pub anomaly_min_samples : ℕ

abbrev pub default_settings : {R : Type 0} ⦃F : Floats R⦄ → Settings R
default_settings = record {
  rule_bruteforce_max_failures = 10;
  rule_bruteforce_window_seconds = 60;
  rule_portscan_unique_ports = 20;
  rule_portscan_window_seconds = 30;
  rule_spray_unique_users = 8;
  rule_spray_window_seconds = 120;
  rule_exfil_bytes_threshold = 52428800;
  rule_exfil_window_seconds = 60;
  anomaly_zscore_threshold = dec 35 1;
  anomaly_ewma_alpha = dec 3 1;
  anomaly_min_samples = 20;
}
