-- ===== src/GlobalPatterns/Shared.antt =====
-- The operations that write to state/global-patterns.jsonl keep every row fit for every project to
-- read.
use youk.Prelude.Memᴰ
use youk.Prelude.{
  String, List, [], ◌∷◌, ◌++◌, ◌==◌, any, ◌≡◌, ◌⊎◌, inl, inr, refl, Memᴰ, Bool-cases, Option-cases,
}
use youk.GlobalPatterns.Entry.{PatternEntry, construct}
use youk.GlobalPatterns.Rows.{put_row, put_rows, latest_rows, row_with, Group}
use youk.GlobalPatterns.Store.{
  Tools, promote_group, retire_global_pattern, is_duplicate, contract_entry,
  promote_to_global_contracts,
}
use youk.GlobalPatterns.Latest.{row_with-mem}
use youk.GlobalPatterns.Safe.{AllSafe, construct-IsSafe, AllSafe-append, promote_group-AllSafe}

put_row-mem :
    (r : PatternEntry) (rows : List PatternEntry) {e : PatternEntry}
    → Memᴰ e (put_row r rows)
    → (e ≡ r) ⊎ Memᴰ e rows
unfolding put_row
put_row-mem r [] i = inl (Memᴰ.eq_of_singleton i)
put_row-mem r (x ∷ rows) {e} i = elim (Bool-cases (x.id == r.id)) [
  | inl here ↦
      let j : Memᴰ e (r ∷ rows) = rw here at i in
      elim j [ Memᴰ.head h ↦ inl h | Memᴰ.tail k ↦ inr (Memᴰ.tail k) ]
  | inr away ↦
      let j : Memᴰ e (x ∷ put_row r rows) = rw away at i in
      elim j [
        | Memᴰ.head h ↦ inr (Memᴰ.head h)
        | Memᴰ.tail k ↦ elim (put_row-mem r rows k) [
          | inl same ↦ inl same
          | inr l ↦ inr (Memᴰ.tail l)
        ]
      ]
]

put_rows-mem :
    (rows latest : List PatternEntry) {e : PatternEntry}
    → Memᴰ e (put_rows rows latest)
    → Memᴰ e rows ⊎ Memᴰ e latest
unfolding put_rows
put_rows-mem [] latest i = inr i
put_rows-mem (r ∷ rows) latest i = elim (put_rows-mem rows (put_row r latest) i) [
  | inl j ↦ inl (Memᴰ.tail j)
  | inr j ↦ elim (put_row-mem r latest j) [ inl same ↦ inl (Memᴰ.head same) | inr k ↦ inr k ]
]

latest_rows-mem :
    (rows : List PatternEntry) {e : PatternEntry} → Memᴰ e (latest_rows rows) → Memᴰ e rows
unfolding latest_rows
latest_rows-mem rows i = elim (put_rows-mem rows [] i) [ inl j ↦ j | inr j ↦ elim j [ ] ]

module _ (tools : Tools) where
  abbrev as_retired : PatternEntry → PatternEntry
  as_retired r = record r { status = "retired" }

  retire_global_pattern-AllSafe :
      (id reason : String) (store : List PatternEntry)
      → AllSafe tools store
      → AllSafe tools (retire_global_pattern tools id reason store).1
  unfolding retire_global_pattern
  retire_global_pattern-AllSafe id reason store all = elim (Bool-cases (tools.strip reason == "")) [
    | inl blank ↦ rw (retire_global_pattern, blank) all
    | inr given ↦ elim (Option-cases (row_with id (latest_rows store))) [
      | inl unknown ↦ rw (retire_global_pattern, given, unknown) all
      | inr (row, found) ↦
          let safe =
            all row (latest_rows-mem store (row_with-mem id (latest_rows store) found).0) in
          elim (Bool-cases (row.status == "retired")) [
            | inl over ↦ rw (retire_global_pattern, given, found, over) all
            | inr live ↦ elim (Option-cases (construct tools.strip tools.schema (as_retired row))) [
              | inl broken ↦ rw (retire_global_pattern, given, found, live, broken) all
              | inr (r, made) ↦
                  rw (retire_global_pattern, given, found, live, made)
                    (AllSafe-append tools store r all
                      (construct-IsSafe tools (as_retired row) r safe.global made))
            ]
          ]
    ]
  ]

  promote_to_global_contracts-AllSafe :
      (cs : List String) (domain sub_domain : String) (store : List PatternEntry)
      → AllSafe tools store
      → AllSafe tools (promote_to_global_contracts tools cs domain sub_domain store).1
  unfolding promote_to_global_contracts
  promote_to_global_contracts-AllSafe [] domain sub_domain store all = all
  promote_to_global_contracts-AllSafe (c ∷ cs) domain sub_domain store all =
      elim (Bool-cases (any (is_duplicate tools c) store)) [
        | inl there ↦
            rw (promote_to_global_contracts, there)
              (promote_to_global_contracts-AllSafe cs domain sub_domain store all)
        | inr new ↦ elim (Bool-cases (tools.abstract_claim c).confident) [
          | inr leaks ↦
              rw (promote_to_global_contracts, new, leaks)
                (promote_to_global_contracts-AllSafe cs domain sub_domain store all)
          | inl clean ↦
              elim (Option-cases
                (construct tools.strip tools.schema (contract_entry tools domain sub_domain c))) [
                  | inl broken ↦ rw (promote_to_global_contracts, new, clean, broken) all
                  | inr (e, made) ↦
                      let one =
                        construct-IsSafe tools (contract_entry tools domain sub_domain c) e refl
                          made in
                      rw (promote_to_global_contracts, new, clean, made)
                        (promote_to_global_contracts-AllSafe cs domain sub_domain (store ++ e ∷ [])
                          (AllSafe-append tools store e all one))
                ]
        ]
      ]

  pub data Call : Type 0 where
    promote : (g : Group) (chosen_statement : String) → Call
    retire : (id reason : String) → Call
    promote_contracts : (contracts : List String) (domain sub_domain : String) → Call

  unfoldable pub perform_all : List Call → List PatternEntry → List PatternEntry
  unfolding promote_group retire_global_pattern promote_to_global_contracts
  perform_all [] store = store
  perform_all (promote g statement ∷ calls) store =
      perform_all calls (promote_group tools g statement store).1
  perform_all (retire id reason ∷ calls) store =
      perform_all calls (retire_global_pattern tools id reason store).1
  perform_all (promote_contracts cs domain sub_domain ∷ calls) store =
      perform_all calls (promote_to_global_contracts tools cs domain sub_domain store).1

  -- From a store whose rows are all safe, any sequence of promotions of groups, of retirements and
  -- of promotions of contracts, errors included, ends in a store whose rows are all safe: they
  -- validate, they are of scope global, and every row of their provenance is abstracted.
  pub perform_all-AllSafe :
      (calls : List Call) (store : List PatternEntry)
      → AllSafe tools store
      → AllSafe tools (perform_all calls store)
  unfolding perform_all
  perform_all-AllSafe [] store all = all
  perform_all-AllSafe (promote g statement ∷ calls) store all =
      perform_all-AllSafe calls (promote_group tools g statement store).1
        (promote_group-AllSafe tools g statement store all)
  perform_all-AllSafe (retire id reason ∷ calls) store all =
      perform_all-AllSafe calls (retire_global_pattern tools id reason store).1
        (retire_global_pattern-AllSafe id reason store all)
  perform_all-AllSafe (promote_contracts cs domain sub_domain ∷ calls) store all =
      perform_all-AllSafe calls (promote_to_global_contracts tools cs domain sub_domain store).1
        (promote_to_global_contracts-AllSafe cs domain sub_domain store all)
