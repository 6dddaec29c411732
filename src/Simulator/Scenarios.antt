-- ===== src/Simulator/Scenarios.antt =====
-- simulator/simulator/scenarios/: the attacks, each the list of its events in the order of their times.
pub mod Logins
pub mod Network
pub mod Hosts
pub mod Catalogue
pub mod Detected
use real_time_distributed_si.Prelude.{
  ℕ, String, Option, none, some, if◌then◌else◌, is_nonempty, ◌==◌,
}
use real_time_distributed_si.Simulator.World.{World, Draws, ret}
use real_time_distributed_si.Simulator.Models.{rand_internal_ip, rand_external_ip}

module _ {G : Type 0} ⦃w : World G⦄ where
  -- `n or randint(a, b)`
  unfoldable pub or_randint : Option ℕ → ℕ → ℕ → Draws G ℕ
  or_randint none a b = w.randint a b
  or_randint (some n) a b = if n == 0 then w.randint a b else ret n

  -- `source_ip or rand_external_ip()`, and the same for an internal address
  unfoldable pub or_external : Option String → Draws G String
  unfolding rand_external_ip
  or_external none = rand_external_ip
  or_external (some ip) = if is_nonempty ip then ret ip else rand_external_ip

  unfoldable pub or_internal : Option String → Draws G String
  unfolding rand_internal_ip
  or_internal none = rand_internal_ip
  or_internal (some ip) = if is_nonempty ip then ret ip else rand_internal_ip
