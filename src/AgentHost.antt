-- ===== src/AgentHost.antt =====
-- servers/shared/agent_host.py: what an agent host can do, which one runs, and its configuration.
pub mod Values
pub mod Policy
pub mod Selection
pub mod Configuration
mod Tests
use Prim.Native.String.{◌++◌ as str_append}
use youk.Prelude.{
  ℕ, String, Bool, true, false, not, Option, none, some, List, [], ◌∷◌, ◌==◌, if◌then◌else◌, any,
  nat_eq, contains,
}

pub data HostCapability : Type 0 where
  session_context compaction_context prompt_context pre_tool_guard usage_capture : HostCapability

abbrev pub value : HostCapability → String
value session_context = "session_context"
value compaction_context = "compaction_context"
value prompt_context = "prompt_context"
value pre_tool_guard = "pre_tool_guard"
value usage_capture = "usage_capture"

-- `HostCapability(capability)`; `none` is the ValueError.
unfoldable pub capability_of : String → Option HostCapability
capability_of name =
    if name == "session_context"
    then some session_context
    else if name == "compaction_context"
    then some compaction_context
    else if name == "prompt_context"
    then some prompt_context
    else if name == "pre_tool_guard"
    then some pre_tool_guard
    else if name == "usage_capture"
    then some usage_capture
    else none

-- `==` on capabilities.
abbrev pub ordinal : HostCapability → ℕ
ordinal session_context = 0
ordinal compaction_context = 1
ordinal prompt_context = 2
ordinal pre_tool_guard = 3
ordinal usage_capture = 4

abbrev pub capability_eq : HostCapability → HostCapability → Bool
capability_eq c d = nat_eq (ordinal c) (ordinal d)

pub data CapabilityRequirement : Type 0 where
  safety advisory : CapabilityRequirement

pub data CapabilityStatus : Type 0 where
  available degraded blocked : CapabilityStatus

-- _REQUIREMENTS.get
unfoldable pub requirements : HostCapability → Option CapabilityRequirement
requirements session_context = some safety
requirements compaction_context = some advisory
requirements prompt_context = some advisory
requirements pre_tool_guard = some safety
requirements usage_capture = some advisory

abbrev pub capability_schema_version : ℕ
capability_schema_version = 1

pub record HostCapabilities : Type 0 where
  pub host_id : String
  pub schema_version : ℕ
  pub supported : List HostCapability

pub record CapabilityDecision : Type 0 where
  pub host_id : String
  pub capability : String
  pub requirement : CapabilityRequirement
  pub status : CapabilityStatus
  pub reason : String

-- The decision that the three early returns share.
abbrev pub fails_closed : HostCapabilities → String → String → CapabilityDecision
fails_closed host capability reason = record {
  host_id = host.host_id;
  capability = capability;
  requirement = safety;
  status = blocked;
  reason = reason;
}

abbrev pub without_support : CapabilityRequirement → CapabilityStatus × String
without_support safety = (blocked, "required safety capability is unavailable")
without_support advisory = (degraded, "advisory capability is unavailable")

-- The part of evaluate_capability after the requirement is known.
unfoldable pub decide :
    HostCapabilities → HostCapability → CapabilityRequirement → CapabilityDecision
unfolding any
decide host normalized requirement =
    if any (capability_eq normalized) host.supported
    then record {
      host_id = host.host_id;
      capability = value normalized;
      requirement = requirement;
      status = available;
      reason = "host declares capability";
    }
    else record {
      host_id = host.host_id;
      capability = value normalized;
      requirement = requirement;
      status = (without_support requirement).0;
      reason = (without_support requirement).1;
    }

unfoldable pub evaluate_capability : HostCapabilities → String → CapabilityDecision
unfolding capability_of requirements decide
evaluate_capability host capability =
    if not (nat_eq host.schema_version capability_schema_version)
    then fails_closed host capability "unsupported capability schema version"
    else elim (capability_of capability) [
      | none ↦ fails_closed host capability "unknown capability fails closed"
      | some normalized ↦ elim (requirements normalized) [
        | none ↦ fails_closed host (value normalized) "capability requirement is undefined"
        | some requirement ↦ decide host normalized requirement
      ]
    ]

-- `some` is CapabilityUnavailableError, with the decision that its message is made from.
unfoldable pub require_capability : HostCapabilities → String → Option CapabilityDecision
unfolding evaluate_capability
require_capability host capability =
    let decision = evaluate_capability host capability in
    elim (decision.status) [ blocked ↦ some decision | available ↦ none | degraded ↦ none ]

-- ClaudeCodeHost.capabilities and CodexHost.capabilities
abbrev pub claude_code_host : HostCapabilities
claude_code_host = record {
  host_id = "claude-code";
  schema_version = capability_schema_version;
  supported =
      session_context ∷ compaction_context ∷ prompt_context ∷ pre_tool_guard ∷ usage_capture ∷ [];
}

abbrev pub codex_host : HostCapabilities
codex_host = record {
  host_id = "codex";
  schema_version = capability_schema_version;
  supported =
      session_context ∷ compaction_context ∷ pre_tool_guard ∷ prompt_context ∷ usage_capture ∷ [];
}

-- The "additionalContext" of `CodexHost.render_session_context`, [] where the caller gives no lines.
unfoldable join_lines : List String → String
join_lines [] = ""
join_lines (l ∷ []) = l
join_lines (l ∷ m ∷ ls) = str_append l (str_append "\n" (join_lines (m ∷ ls)))

unfoldable render_session_context : String → List String → String
unfolding join_lines
render_session_context brief [] = brief
render_session_context brief (l ∷ ls) =
    str_append
      "The following working agreements must be preserved verbatim in any further summarization of this session:\n"
      (str_append (join_lines (l ∷ ls)) (str_append "\n\n" brief))

-- _HOSTS.get
unfoldable pub hosts : String → Option HostCapabilities
hosts name =
    if name == "claude-code"
    then some claude_code_host
    else if name == "codex"
    then some codex_host
    else none

abbrev pub all_host_ids : List String
all_host_ids = "claude-code" ∷ "codex" ∷ []

pub data HostSelectionStatus : Type 0 where
  selected ambiguous incompatible : HostSelectionStatus

pub record HostSelection : Type 0 where
  pub host_id : String
  pub status : HostSelectionStatus
  pub source : String
  pub reason : String

-- `configured_host or (… if len(runtime_hosts) == 1 else "")`
abbrev pub only_host : List String → String
only_host (h ∷ []) = h
only_host _ = ""

abbrev pub wanted : List String → Option String → String
wanted runtime none = only_host runtime
wanted runtime (some name) = if name == "" then only_host runtime else name

abbrev pub source_of : Option String → String
source_of none = "runtime_probe"
source_of (some name) = if name == "" then "runtime_probe" else "configuration"

unfoldable pub select_host : List String → Option String → HostSelection
unfolding hosts
select_host runtime configured =
    let name = wanted runtime configured in
    let source = source_of configured in
    if name == ""
    then record {
      host_id = "";
      status = ambiguous;
      source = source;
      reason = "runtime host evidence is ambiguous";
    }
    else elim (hosts name) [
      | none ↦ record {
        host_id = name;
        status = incompatible;
        source = source;
        reason = "host adapter is not installed";
      }
      | some capabilities ↦ record {
        host_id = name;
        status = selected;
        source = source;
        reason = "host selected";
      }
    ]
