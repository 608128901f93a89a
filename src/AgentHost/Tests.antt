-- ===== src/AgentHost/Tests.antt =====
-- Hosts and configurations, and the theorems on agent_host.py at these inputs.
use youk.Prelude.{none, some, [], ◌∷◌, ◌≡◌, ◌↔◌, refl}
use youk.AgentHost.{
  HostCapabilities, session_context, capability_schema_version, evaluate_capability,
  require_capability, select_host,
}
use youk.AgentHost.Policy.{Of, Spared, require_capability_iff}
use youk.AgentHost.Selection.{SelectOutcome, select_host_lem}
use youk.AgentHost.Configuration.{
  HostConfiguration, returns, load_host_configuration, save_host_configuration,
  rollback_host_configuration, rollback-save,
}

abbrev small_host : HostCapabilities
small_host = record {
  host_id = "small";
  schema_version = capability_schema_version;
  supported = session_context ∷ [];
}

decisions :
    (require_capability small_host "prompt_context" ≡ none)
    × ((evaluate_capability small_host "root").reason ≡ "unknown capability fails closed")
unfolding require_capability
decisions = (refl, refl)

require_capability_iff_example :
    (require_capability small_host "prompt_context" ≡ none)
    ↔ Of small_host "prompt_context" (Spared small_host)
require_capability_iff_example = require_capability_iff small_host "prompt_context"

select_host_lem_example : SelectOutcome ("codex" ∷ []) none (select_host ("codex" ∷ []) none)
select_host_lem_example = select_host_lem ("codex" ∷ []) none

abbrev first : HostConfiguration
first = record { host_id = "codex"; schema_version = 1 }

abbrev second : HostConfiguration
second = record { host_id = "claude-code"; schema_version = 1 }

-- A file format for the example: the configuration itself.
abbrev dumps : HostConfiguration → HostConfiguration
dumps c = c

loaded : load_host_configuration dumps some (some first) ≡ returns (some first)
unfolding load_host_configuration
loaded = refl

rollback-save_example :
    ((save_host_configuration dumps some second (some first)).0 ≡ returns (some first))
    × (load_host_configuration dumps some (save_host_configuration dumps some second (some first)).1
        ≡ returns (some second))
    × (load_host_configuration dumps some
          (rollback_host_configuration dumps some first
            (save_host_configuration dumps some second (some first)).1).1
        ≡ returns (some first))
rollback-save_example = rollback-save dumps some (λ c. refl) second first (some first) loaded
