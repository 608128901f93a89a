-- ===== src/AgentHost/Values.antt =====
-- The values of the capabilities of servers/shared/agent_host.py.
use youk.Prelude.{String, true, some, ◌≡◌, ◌⊎◌, inl, inr, refl, arith, eq_iff}
use youk.AgentHost.{
  HostCapability, session_context, compaction_context, prompt_context, pre_tool_guard,
  usage_capture, value, capability_of, capability_eq, CapabilityRequirement, safety, advisory,
  CapabilityStatus, available, degraded, blocked, requirements,
}

pub value-capability_of :
    (name : String) (c : HostCapability) → capability_of name ≡ some c → value c ≡ name
unfolding capability_of
value-capability_of name c e = ground (
  arith,
  eq_iff name "session_context",
  eq_iff name "compaction_context",
  eq_iff name "prompt_context",
  eq_iff name "pre_tool_guard",
  eq_iff name "usage_capture",
)

pub capability_of-value : (c : HostCapability) → capability_of (value c) ≡ some c
unfolding capability_of
capability_of-value session_context = refl
capability_of-value _ = refl

pub capability_eq_sound : (c d : HostCapability) → capability_eq c d ≡ true → c ≡ d
capability_eq_sound c d e = ground arith

pub capability_eq_refl : (c : HostCapability) → capability_eq c c ≡ true
capability_eq_refl c = ground arith

pub requirement-total :
    (c : HostCapability) → (r : CapabilityRequirement) × (requirements c ≡ some r)
unfolding requirements
requirement-total session_context = (_, refl)
requirement-total compaction_context = (_, refl)
requirement-total prompt_context = (_, refl)
requirement-total pre_tool_guard = (_, refl)
requirement-total usage_capture = (_, refl)

pub requirement-cases : (r : CapabilityRequirement) → (r ≡ safety) ⊎ (r ≡ advisory)
requirement-cases safety = inl refl
requirement-cases advisory = inr refl

pub status-cases : (s : CapabilityStatus) → (s ≡ blocked) ⊎ (s ≡ available) ⊎ (s ≡ degraded)
status-cases blocked = inl refl
status-cases available = inr (inl refl)
status-cases degraded = inr (inr refl)
