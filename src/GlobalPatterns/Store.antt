-- ===== src/GlobalPatterns/Store.antt =====
-- The operations on state/global-patterns.jsonl: servers/core/src/pattern_promotion.py and
-- global_contracts.py.
use youk.Prelude.{
  suc, String, Bool, true, false, not, ◌&&◌, ◌||◌, Option, none, some, List, [], ◌∷◌, ◌++◌, map,
  ◌==◌, if◌then◌else◌, length, any, select, set_of, ltb, within,
}
use youk.GlobalPatterns.Entry.{Provenance, PatternEntry, construct, promote_pattern}
use youk.GlobalPatterns.Rows.{
  latest_rows, row_with, has_id, locked_append_if_id_absent, Abstraction, Group, group_all,
  projects_of, abstracted_rows, evidence_of, PromoteReply, rejected, duplicate, promoted,
  RetireReply, no_reason, unknown_id, invalid, retired, PromotedCounts,
}

-- What other modules answer: abstract_claim, the rows by similarity of meaning, is_same_lesson, the
-- ids made by hashing, and the projects that hold a lesson; with str.strip, str.lower, the schema and
-- the time.
pub record Tools : Type 0 where
  pub strip : String → String
  pub lower : String → String
  pub schema : PatternEntry → Bool
  pub abstract_claim : String → Abstraction
  pub rank_by_similarity : String → List PatternEntry → List PatternEntry
  pub is_same_lesson : String → String → Bool
  pub promoted_id : String → String → List String → String
  pub contract_id : String → String → String → String
  pub projects_with_lesson : String → List String
  pub now : String

module _ (tools : Tools) where
  unfoldable pub is_candidate : Group → Bool
  unfolding set_of projects_of any
  is_candidate g =
      not (ltb (length (set_of (projects_of g.entries))) 2)
      && not
          (any (λ (e : PatternEntry). not (tools.abstract_claim e.statement).confident) g.entries)

  unfoldable pub find_promotion_candidates : List PatternEntry → List Group
  unfolding select group_all is_candidate
  find_promotion_candidates entries =
      select is_candidate
        (group_all (select (λ (e : PatternEntry). e.status == "confirmed") entries) [])

  abbrev pub opposite_polarity : String → String → Bool
  opposite_polarity a b =
      within "always" a && within "never" b || within "never" a && within "always" b

  unfoldable pub first_same : String → List PatternEntry → Option String
  first_same new [] = none
  first_same new (r ∷ rest) =
      let later = first_same new rest in
      if opposite_polarity new (tools.lower r.statement) then later else some r.id

  unfoldable pub find_duplicate : String → String → List PatternEntry → Option String
  unfolding latest_rows has_id first_same
  find_duplicate statement own_id store =
      if has_id own_id store then none else (elim (latest_rows store) [
        | [] ↦ none
        | r ∷ rows ↦
            first_same (tools.lower statement) (tools.rank_by_similarity statement (r ∷ rows))
      ])

  abbrev pub base_entry : Group → String → PatternEntry
  base_entry g statement = record {
    id = tools.promoted_id g.domain g.sub_domain (map (λ (e : PatternEntry). e.id) g.entries);
    scope = "local";
    domain = g.domain;
    sub_domain = g.sub_domain;
    statement = statement;
    evidence_level = evidence_of g.entries;
    provenance = abstracted_rows g.entries;
    status = "confirmed";
    created_at = tools.now;
    confirmed_count = 0;
  }

  unfoldable pub promote_group :
      Group → String → List PatternEntry → PromoteReply × List PatternEntry
  unfolding construct promote_pattern find_duplicate locked_append_if_id_absent abstracted_rows
  promote_group g statement store =
      elim (construct tools.strip tools.schema (base_entry g statement)) [
        | none ↦ (rejected, store)
        | some base ↦ elim (promote_pattern tools.strip tools.schema base (projects_of g.entries)) [
          | none ↦ (rejected, store)
          | some e ↦ elim (find_duplicate e.statement e.id store) [
            | some existing_id ↦ (duplicate existing_id, store)
            | none ↦ (promoted e, locked_append_if_id_absent e store)
          ]
        ]
      ]

  unfoldable pub retire_global_pattern :
      String → String → List PatternEntry → RetireReply × List PatternEntry
  unfolding latest_rows row_with construct
  retire_global_pattern id reason store =
      if tools.strip reason == ""
      then (no_reason, store)
      else elim (row_with id (latest_rows store)) [
        | none ↦ (unknown_id, store)
        | some row ↦
            if row.status == "retired"
            then (retired row, store)
            else (elim (construct tools.strip tools.schema (record row { status = "retired" })) [
              | none ↦ (invalid, store)
              | some r ↦ (retired r, store ++ r ∷ [])
            ])
      ]

  abbrev pub is_duplicate : String → PatternEntry → Bool
  is_duplicate c e =
      tools.is_same_lesson c e.statement
      && not (opposite_polarity (tools.lower (tools.strip c)) (tools.lower e.statement))

  abbrev pub source_rows : List String → List Provenance
  source_rows [] = record { project = "unknown"; abstracted = true } ∷ []
  source_rows (p ∷ ps) = map (λ name. record { project = name; abstracted = true }) (p ∷ ps)

  abbrev pub contract_entry : String → String → String → PatternEntry
  contract_entry domain sub_domain c = record {
    id =
        tools.contract_id domain sub_domain
          (tools.lower (tools.strip (tools.abstract_claim c).abstracted));
    scope = "global";
    domain = domain;
    sub_domain = sub_domain;
    statement = tools.strip (tools.abstract_claim c).abstracted;
    evidence_level = "internally_checked";
    provenance = source_rows (tools.projects_with_lesson c);
    status = "promoted";
    created_at = tools.now;
    confirmed_count = length (tools.projects_with_lesson c);
  }

  -- The loop over the contracts; an entry that does not validate ends it with an error, and what was
  -- appended before stays. The texts of conflicts are left out.
  unfoldable pub promote_to_global_contracts :
      List String → String → String → List PatternEntry → Option PromotedCounts × List PatternEntry
  unfolding any construct
  promote_to_global_contracts [] domain sub_domain store =
      (some (record { promoted = 0; skipped = 0; leak_blocked = [] }), store)
  promote_to_global_contracts (c ∷ cs) domain sub_domain store = elim (any (is_duplicate c) store) [
    | true ↦
        let (counts, after) = promote_to_global_contracts cs domain sub_domain store in
        (elim counts [ none ↦ none | some n ↦ some (record n { skipped = suc n.skipped }) ], after)
    | false ↦ elim (tools.abstract_claim c).confident [
      | false ↦
          let (counts, after) = promote_to_global_contracts cs domain sub_domain store in
          (
            elim counts [
              | none ↦ none
              | some n ↦ some (record n { leak_blocked = c ∷ n.leak_blocked })
            ],
            after,
          )
      | true ↦ elim (construct tools.strip tools.schema (contract_entry domain sub_domain c)) [
        | none ↦ (none, store)
        | some e ↦
            let (counts, after) =
              promote_to_global_contracts cs domain sub_domain (store ++ e ∷ []) in
            (
              elim counts [ none ↦ none | some n ↦ some (record n { promoted = suc n.promoted }) ],
              after,
            )
      ]
    ]
  ]
