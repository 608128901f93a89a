-- ===== src/GlobalPatterns/Entry.antt =====
-- PatternEntry and promote_pattern of servers/shared/pattern_entry.py.
use youk.Prelude.{
  ℕ, String, Bool, not, ◌&&◌, Option, none, some, List, [], ◌∷◌, ◌==◌, if◌then◌else◌, length, any,
  contains, set_of, ltb,
}

pub record Provenance : Type 0 where
  pub project : String
  pub abstracted : Bool

-- The fields that hold one value in every entry, or that nothing here reads, are left out.
pub record PatternEntry : Type 0 where
  pub id : String
  pub scope : String
  pub domain : String
  pub sub_domain : String
  pub statement : String
  pub evidence_level : String
  pub provenance : List Provenance
  pub status : String
  pub created_at : String
  pub confirmed_count : ℕ

abbrev pub valid_scopes : List String
valid_scopes = "local" ∷ "global" ∷ []

abbrev pub valid_evidence_levels : List String
valid_evidence_levels = "asserted" ∷ "internally_checked" ∷ "externally_verified" ∷ []

abbrev pub valid_statuses : List String
valid_statuses = "candidate" ∷ "confirmed" ∷ "promoted" ∷ "retired" ∷ []

unfoldable pub has_unabstracted : List Provenance → Bool
unfolding any
has_unabstracted rows = any (λ (p : Provenance). not p.abstracted) rows

-- `strip` is str.strip, `schema` the validation against the committed JSON Schema.
module _ (strip : String → String) (schema : PatternEntry → Bool) where
  abbrev pub named : String → Bool
  named t = not (strip t == "")

  unfoldable pub well_formed : PatternEntry → Bool
  unfolding contains
  well_formed e =
      named e.id
      && contains valid_scopes e.scope
      && named e.domain
      && named e.sub_domain
      && named e.statement
      && contains valid_evidence_levels e.evidence_level
      && contains valid_statuses e.status
      && named e.created_at

  -- __post_init__, as a test: it raises when the answer is false.
  unfoldable pub validates : PatternEntry → Bool
  unfolding well_formed has_unabstracted
  validates e =
      well_formed e && not (e.scope == "global" && has_unabstracted e.provenance) && schema e

  unfoldable pub construct : PatternEntry → Option PatternEntry
  unfolding validates
  construct e = if validates e then some e else none

  -- `none` is the PatternValidationError.
  unfoldable pub promote_pattern : PatternEntry → List String → Option PatternEntry
  unfolding construct set_of
  promote_pattern e projects =
      if ltb (length (set_of projects)) 2
      then none
      else construct (record e {
        scope = "global";
        status = "promoted";
        confirmed_count = length (set_of projects);
      })
