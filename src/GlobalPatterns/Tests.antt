-- ===== src/GlobalPatterns/Tests.antt =====
-- A small global pattern store, its tools as simple functions.
use youk.Prelude.{String, true, [], ◌∷◌, ◌==◌, ◌≡◌, refl}
use youk.GlobalPatterns.Entry.{PatternEntry}
use youk.GlobalPatterns.Rows.{Group, projects_of, effective_patterns, promoted, retired, unknown_id}
use youk.GlobalPatterns.Store.{
  Tools, find_promotion_candidates, promote_group, retire_global_pattern,
}
use youk.GlobalPatterns.Retired.{RetireOutcome, retire_global_pattern_lem}
use youk.GlobalPatterns.Safe.{AllSafe}
use youk.GlobalPatterns.Shared.{
  promote, retire, promote_contracts, perform_all, perform_all-AllSafe,
}

abbrev tools : Tools
tools = record {
  strip = λ t. t;
  lower = λ t. t;
  schema = λ e. true;
  abstract_claim = λ t. record { confident = true; abstracted = t };
  rank_by_similarity = λ t rows. [];
  is_same_lesson = λ a b. a == b;
  promoted_id = λ domain sub_domain ids. "p1";
  contract_id = λ domain sub_domain t. t;
  projects_with_lesson = λ t. [];
  now = "2026-01-01";
}

abbrev learned : String → String → PatternEntry
learned id project = record {
  id = id;
  scope = "local";
  domain = "api";
  sub_domain = "errors";
  statement = "always name the field";
  evidence_level = "asserted";
  provenance = record { project = project; abstracted = true } ∷ [];
  status = "confirmed";
  created_at = "2025-12-01";
  confirmed_count = 1;
}

abbrev two_projects : Group
two_projects = record {
  domain = "api";
  sub_domain = "errors";
  entries = learned "a" "one" ∷ learned "b" "two" ∷ [];
}

abbrev shared : PatternEntry
shared = record (learned "p1" "one") {
  scope = "global";
  status = "promoted";
  created_at = "2026-01-01";
  confirmed_count = 2;
  provenance =
      record { project = "one"; abstracted = true }
      ∷ record { project = "two"; abstracted = true }
      ∷ [];
}

one_candidate :
    find_promotion_candidates tools (learned "a" "one" ∷ learned "b" "two" ∷ []) ≡ two_projects ∷ []
unfolding find_promotion_candidates
one_candidate = refl

promoted_once :
    promote_group tools two_projects "always name the field" [] ≡ (promoted shared, shared ∷ [])
unfolding promote_group projects_of
promoted_once = refl

-- The reply names the pattern as promoted, and no pattern is in effect.
still_retired :
    (promote_group tools two_projects "always name the field"
      (record shared { status = "retired" } ∷ [])).0
    ≡ promoted shared
unfolding promote_group projects_of
still_retired = refl

none_in_effect :
    effective_patterns
      (promote_group tools two_projects "always name the field"
        (record shared { status = "retired" } ∷ [])).1
    ≡ []
unfolding promote_group effective_patterns projects_of
none_in_effect = refl

retired_last : retire_global_pattern tools "p1" "reversed" (shared ∷ []) ≡ (
  retired (record shared { status = "retired" }),
  shared ∷ record shared { status = "retired" } ∷ [],
)
unfolding retire_global_pattern
retired_last = refl

retired_unknown :
    retire_global_pattern tools "p2" "reversed" (shared ∷ []) ≡ (unknown_id, shared ∷ [])
unfolding retire_global_pattern
retired_unknown = refl

retire_global_pattern_lem_example :
    RetireOutcome tools "p1" "reversed"
      (shared ∷ [])
      (retire_global_pattern tools "p1" "reversed" (shared ∷ []))
retire_global_pattern_lem_example = retire_global_pattern_lem tools "p1" "reversed" (shared ∷ [])

perform_all-AllSafe_example : AllSafe tools (
    perform_all tools
      (promote two_projects "always name the field"
        ∷ promote_contracts ("never guess" ∷ []) "api" "errors"
        ∷ retire "p1" "reversed"
        ∷ [])
      [])
perform_all-AllSafe_example =
    perform_all-AllSafe tools
      (promote two_projects "always name the field"
        ∷ promote_contracts ("never guess" ∷ []) "api" "errors"
        ∷ retire "p1" "reversed"
        ∷ [])
      [] λ e i. elim i [ ]
