-- ===== src/GlobalPatterns/Rows.antt =====
-- The rows of state/global-patterns.jsonl and the groups of entries: effective_patterns of servers/shared/contracts.py, jsonl_lock.py there, and servers/core/src/pattern_promotion.py.
use youk.Prelude.{
  ℕ, String, Bool, true, not, ◌&&◌, Option, none, some, List, [], ◌∷◌, ◌++◌, map, ◌==◌,
  if◌then◌else◌, any, select,
}
use youk.GlobalPatterns.Entry.{Provenance, PatternEntry}

-- `latest[id] = row`: the place of an id stays that of its first row.
unfoldable pub put_row : PatternEntry → List PatternEntry → List PatternEntry
put_row row [] = row ∷ []
put_row row (r ∷ rest) =
    let later = r ∷ put_row row rest in if r.id == row.id then row ∷ rest else later

unfoldable pub put_rows : List PatternEntry → List PatternEntry → List PatternEntry
unfolding put_row
put_rows [] latest = latest
put_rows (row ∷ rows) latest = put_rows rows (put_row row latest)

unfoldable pub latest_rows : List PatternEntry → List PatternEntry
unfolding put_rows
latest_rows rows = put_rows rows []

unfoldable pub effective_patterns : List PatternEntry → List PatternEntry
unfolding latest_rows select
effective_patterns rows =
    select (λ (r : PatternEntry). not (r.status == "retired")) (latest_rows rows)

unfoldable pub row_with : String → List PatternEntry → Option PatternEntry
row_with id [] = none
row_with id (r ∷ rest) = let later = row_with id rest in if r.id == id then some r else later

unfoldable pub has_id : String → List PatternEntry → Bool
unfolding any
has_id id rows = any (λ (r : PatternEntry). r.id == id) rows

unfoldable pub locked_append_if_id_absent : PatternEntry → List PatternEntry → List PatternEntry
unfolding has_id
locked_append_if_id_absent e store = if has_id e.id store then store else store ++ e ∷ []

pub record Abstraction : Type 0 where
  pub confident : Bool
  pub abstracted : String

pub record Group : Type 0 where
  pub domain : String
  pub sub_domain : String
  pub entries : List PatternEntry

-- `groups.setdefault((domain, sub_domain), []).append(entry)`
unfoldable pub add_to_group : PatternEntry → List Group → List Group
add_to_group e [] = record { domain = e.domain; sub_domain = e.sub_domain; entries = e ∷ [] } ∷ []
add_to_group e (g ∷ gs) =
    let later = g ∷ add_to_group e gs in
    if g.domain == e.domain && g.sub_domain == e.sub_domain
    then record g { entries = g.entries ++ e ∷ [] } ∷ gs
    else later

unfoldable pub group_all : List PatternEntry → List Group → List Group
unfolding add_to_group
group_all [] gs = gs
group_all (e ∷ es) gs = group_all es (add_to_group e gs)

unfoldable pub projects_of : List PatternEntry → List String
projects_of [] = []
projects_of (e ∷ es) = map (λ (p : Provenance). p.project) e.provenance ++ projects_of es

unfoldable pub abstracted_rows : List PatternEntry → List Provenance
abstracted_rows [] = []
abstracted_rows (e ∷ es) =
    map (λ (p : Provenance). record p { abstracted = true }) e.provenance ++ abstracted_rows es

abbrev pub evidence_of : List PatternEntry → String
evidence_of [] = ""
evidence_of (e ∷ es) = e.evidence_level

pub data PromoteReply : Type 0 where
  rejected : PromoteReply
  duplicate : (existing_id : String) → PromoteReply
  promoted : PatternEntry → PromoteReply

pub data RetireReply : Type 0 where
  no_reason unknown_id invalid : RetireReply
  retired : PatternEntry → RetireReply

pub record PromotedCounts : Type 0 where
  pub promoted : ℕ
  pub skipped : ℕ
  pub leak_blocked : List String
