-- ===== src/CapabilityLedger.antt =====
-- servers/shared/capability_ledger.py: which host was investigated for which capability.
pub mod Missing
mod Tests
use youk.Prelude.{
  String, Bool, not, ◌&&◌, Option, none, some, List, [], ◌∷◌, ◌++◌, map, ◌==◌, any, select, sort_by,
}
use youk.AgentHost.{
  session_context, compaction_context, prompt_context, pre_tool_guard, usage_capture, value,
  all_host_ids,
}

pub record LedgerEntry : Type 0 where
  pub host : String
  pub capability : String
  pub date : String
  pub how_found : String
  pub note : String

-- The ledger is the list of the entries that `load_ledger` reads.
unfoldable pub record_investigation :
    String → String → String → String → String → List LedgerEntry → LedgerEntry × List LedgerEntry
record_investigation today host capability how_found note ledger =
    let entry : LedgerEntry = record {
      host = host;
      capability = capability;
      date = today;
      how_found = how_found;
      note = note;
    } in
    (entry, ledger ++ entry ∷ [])

-- `(host, capability) in investigated_pairs(root)`
unfoldable pub investigated : List LedgerEntry → String × String → Bool
unfolding any
investigated ledger pair = any (λ row. row.host == pair.0 && row.capability == pair.1) ledger

-- The two loops of the comprehension, before its test.
unfoldable pub pairs : List String → List String → List (String × String)
pairs [] caps = []
pairs (host ∷ hosts) caps = map (λ capability. (host, capability)) caps ++ pairs hosts caps

abbrev pub hosts_or_all : Option (List String) → List String
hosts_or_all none = all_host_ids
hosts_or_all (some host_ids) = host_ids

abbrev pub capabilities_or_all : Option (List String) → List String
capabilities_or_all none =
    map value
      (session_context ∷ compaction_context ∷ prompt_context ∷ pre_tool_guard ∷ usage_capture ∷ [])
capabilities_or_all (some capabilities) = capabilities

-- `le` is Python's order on texts.
unfoldable pub missing_investigations :
    (String → String → Bool)
    → Option (List String)
    → Option (List String)
    → List LedgerEntry
    → List (String × String)
unfolding pairs investigated select sort_by
missing_investigations le host_ids capabilities ledger =
    select (λ pair. not (investigated ledger pair))
      (pairs (sort_by le (λ h. h) (hosts_or_all host_ids)) (capabilities_or_all capabilities))
