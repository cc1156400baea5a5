-- ===== src/Service/Config.antt =====
-- The settings of service/runtime.py that the flows read.
use orchestra_threads.Prelude.{ℕ}

pub record Config : Type 0 where
  pub agent_lease_seconds : ℕ
  pub inactivity_timeout_seconds : ℕ
  pub retry_base_seconds : ℕ
  pub retry_max_seconds : ℕ

-- The defaults of service_runtime_config.py.
abbrev pub default_config : Config
default_config = record {
  agent_lease_seconds = 30;
  inactivity_timeout_seconds = 60;
  retry_base_seconds = 2;
  retry_max_seconds = 30;
}
