-- ===== src/GlobalPatterns/Safe.antt =====
-- What is true of every row of state/global-patterns.jsonl, for the operations that write to it.
use youk.Prelude.Memᴰ
use youk.Prelude.{
  ℕ, String, Bool, true, false, not, ◌&&◌, none, some, List, [], ◌∷◌, ◌++◌, ◌==◌, length, set_of,
  ltb, ◌≤◌, ◌≡◌, inl, inr, refl, sym, subst, arith, eq_iff, Memᴰ, Bool-cases, Option-cases,
}
use youk.GlobalPatterns.Entry.{
  PatternEntry, has_unabstracted, well_formed, validates, construct, promote_pattern,
}
use youk.GlobalPatterns.Rows.{has_id, locked_append_if_id_absent, Group, projects_of}
use youk.GlobalPatterns.Store.{Tools, base_entry, find_duplicate, promote_group}

guarded : (a g u s : Bool) → (a && not (g && u) && s) ≡ true → g ≡ true → u ≡ false
guarded a g u s h e = ground arith

module _ (tools : Tools) where
  -- A row that may be read by every project: it validates, it is of scope global, and each row of
  -- its provenance is abstracted.
  pub record IsSafe (e : PatternEntry) : Type 0 where
    pub valid : validates tools.strip tools.schema e ≡ true
    pub global : e.scope ≡ "global"
    pub abstracted : has_unabstracted e.provenance ≡ false

  abbrev pub AllSafe : List PatternEntry → Type 0
  AllSafe store = (e : PatternEntry) → Memᴰ e store → IsSafe e

  valid-IsSafe :
      (e : PatternEntry)
      → e.scope ≡ "global"
      → validates tools.strip tools.schema e ≡ true
      → IsSafe e
  unfolding validates
  valid-IsSafe e g v = record {
    valid = v;
    global = g;
    abstracted =
        guarded (well_formed tools.strip tools.schema e) (e.scope == "global")
          (has_unabstracted e.provenance) (tools.schema e) v ((eq_iff e.scope "global").1 g);
  }

  construct-valid :
      (e r : PatternEntry)
      → construct tools.strip tools.schema e ≡ some r
      → (r ≡ e) × (validates tools.strip tools.schema e ≡ true)
  unfolding construct
  construct-valid e r h = elim (Bool-cases (validates tools.strip tools.schema e)) [
    | inl valid ↦ let h' : some e ≡ some r = rw valid at h in (cc h', valid)
    | inr broken ↦ let h' : none ≡ some r = rw broken at h in cc h'
  ]

  pub construct-IsSafe :
      (e r : PatternEntry)
      → e.scope ≡ "global"
      → construct tools.strip tools.schema e ≡ some r
      → IsSafe r
  construct-IsSafe e r g h =
      let (same, valid) = construct-valid e r h in subst IsSafe (sym same) (valid-IsSafe e g valid)

  pub AllSafe-append :
      (store : List PatternEntry) (e : PatternEntry)
      → AllSafe store
      → IsSafe e
      → AllSafe (store ++ e ∷ [])
  AllSafe-append store e all one = λ x i. elim (Memᴰ.append_cases store i) [
    | inl j ↦ all x j
    | inr j ↦ subst IsSafe (sym (Memᴰ.eq_of_singleton j)) one
  ]

  AllSafe-absent :
      (store : List PatternEntry) (e : PatternEntry)
      → AllSafe store
      → IsSafe e
      → AllSafe (locked_append_if_id_absent e store)
  unfolding locked_append_if_id_absent
  AllSafe-absent store e all one = elim (Bool-cases (has_id e.id store)) [
    | inl there ↦ rw there all
    | inr new ↦ rw new (AllSafe-append store e all one)
  ]

  abbrev raised : PatternEntry → ℕ → PatternEntry
  raised e n = record e { scope = "global"; status = "promoted"; confirmed_count = n }

  -- A promotion asks for two projects.
  promote_pattern-lem :
      (e r : PatternEntry) (projects : List String)
      → promote_pattern tools.strip tools.schema e projects ≡ some r
      → IsSafe r × (2 ≤ length (set_of projects))
  unfolding promote_pattern
  promote_pattern-lem e r projects h = elim (Bool-cases (ltb (length (set_of projects)) 2)) [
    | inl few ↦ let h' : none ≡ some r = rw few at h in cc h'
    | inr enough ↦ (
      construct-IsSafe (raised e (length (set_of projects))) r refl (rw enough at h),
      ground arith,
    )
  ]

  pub promote_group-AllSafe :
      (g : Group) (statement : String) (store : List PatternEntry)
      → AllSafe store
      → AllSafe (promote_group tools g statement store).1
  unfolding promote_group
  promote_group-AllSafe g statement store all =
      elim (Option-cases (construct tools.strip tools.schema (base_entry tools g statement))) [
        | inl broken ↦ rw (promote_group, broken) all
        | inr (base, made) ↦
            elim (Option-cases
              (promote_pattern tools.strip tools.schema base (projects_of g.entries))) [
                | inl refused ↦ rw (promote_group, made, refused) all
                | inr (e, ok) ↦ elim (Option-cases (find_duplicate tools e.statement e.id store)) [
                  | inr (other, dup) ↦ rw (promote_group, made, ok, dup) all
                  | inl new ↦
                      rw (promote_group, made, ok, new)
                        (AllSafe-absent store e all
                          (promote_pattern-lem base e (projects_of g.entries) ok).0)
                ]
              ]
      ]
