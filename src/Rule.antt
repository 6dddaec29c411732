-- ===== src/Rule.antt =====
-- backend/app/detection/rules/: the rule detectors, one to a child module.
pub mod BruteForce
pub mod PasswordSpray
pub mod PortScan
pub mod DataExfiltration
pub mod AuthAnomaly
pub mod PrivilegeEscalation
pub mod SuspiciousSql
pub mod Confidence
