-- ===== src/CapabilityLedger/Tests.antt =====
-- The ledger with one entry, and the theorems on capability_ledger.py at it.
use youk.Prelude.{String, Bool, true, none, List, [], ◌∷◌, ◌≡◌, ◌↔◌, refl, Memᴰ, length}
use youk.CapabilityLedger.{LedgerEntry, hosts_or_all, capabilities_or_all, missing_investigations}
use youk.CapabilityLedger.Missing.{OnRecord, missing_investigations_iff}

-- Stands for the order on texts.
abbrev le : String → String → Bool
le a b = true

abbrev ledger : List LedgerEntry
ledger =
    record {
      host = "codex";
      capability = "prompt_context";
      date = "d";
      how_found = "docs";
      note = "";
    }
    ∷ []

nine_left : length (missing_investigations le none none ledger) ≡ 9
unfolding missing_investigations
nine_left = refl

missing_investigations_iff_example :
    Memᴰ ("codex", "usage_capture") (missing_investigations le none none ledger) ↔ (
      Memᴰ "codex" (hosts_or_all none)
      × Memᴰ "usage_capture" (capabilities_or_all none)
      × (¬ OnRecord ledger "codex" "usage_capture"))
missing_investigations_iff_example =
    missing_investigations_iff le none none ledger "codex" "usage_capture"
