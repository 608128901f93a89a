-- ===== src/CoverageTree/Asks.antt =====
-- What extract_task_specific_asks of coverage_tree.py answer.
use youk.Prelude.Memᴰ
use youk.Prelude.{
  ℕ, zero, suc, ◌≤◌, String, ◌||◌, List, [], ◌∷◌, ◌==◌, contains, ltb, length, ◌≡◌, ◌⊎◌, inl, inr,
  refl, sym, subst, arith, Memᴰ, Bool-cases, mem-contains,
}
use youk.CoverageTree.{take_asks, extract_asks}

-- No two asks have the same key, and none has a key of `seen`.
module _ (lower : String → String) (word_count : String → ℕ) where
  abbrev pub Distinct : List String → List String → Type 0
  Distinct seen [] = Unit {0}
  Distinct seen (a ∷ as') = (¬ Memᴰ (lower a) seen) × Distinct (lower a ∷ seen) as'

  record Taken (room : ℕ) (seen fragments asks : List String) : Type 0 where
    few : length asks ≤ room
    distinct : Distinct seen asks
    long : (a : String) → Memᴰ a asks → Memᴰ a fragments × (3 ≤ word_count a)

  take_asks-Taken :
      (room : ℕ) (seen fragments : List String)
      → Taken room seen fragments (take_asks lower word_count room seen fragments)
  unfolding take_asks
  take_asks-Taken zero seen fragments = record {
    few = omega arith;
    distinct = tt;
    long = λ a m. elim m [ ];
  }
  take_asks-Taken (suc room) seen [] = record {
    few = omega arith;
    distinct = tt;
    long = λ a m. elim m [ ];
  }
  take_asks-Taken (suc room) seen (f ∷ fs) =
      let later = take_asks-Taken (suc room) seen fs in
      let skipped : Taken (suc room) seen (f ∷ fs) (take_asks lower word_count (suc room) seen fs) =
        record {
          few = later.few;
          distinct = later.distinct;
          long = λ a m. let (i, w) = later.long a m in (Memᴰ.tail i, w);
        } in
      elim (Bool-cases (f == "" || ltb (word_count f) 3)) [
        | inl short ↦ rw short skipped
        | inr enough ↦ elim (Bool-cases (contains seen (lower f))) [
          | inl known ↦ rw (enough, known) skipped
          | inr new ↦
              let rest = take_asks-Taken room (lower f ∷ seen) fs in
              rw (enough, new)
                (record {
                  few = omega (arith, rest.few);
                  distinct = (λ m. cc (new, mem-contains seen m), rest.distinct);
                  long = λ a m. elim (Memᴰ.cases_cons m) [
                    | inl e ↦ (Memᴰ.head e, subst (λ x. 3 ≤ word_count x) (sym e) (ground arith))
                    | inr i ↦ let (j, w) = rest.long a i in (Memᴰ.tail j, w)
                  ];
                })
        ]
      ]

  -- The answer of extract_task_specific_asks for these fragments.
  pub record Extracted (fragments asks : List String) : Type 0 where
    pub count : (asks ≡ []) ⊎ ((2 ≤ length asks) × (length asks ≤ 8))
    pub distinct : Distinct [] asks
    pub long : (a : String) → Memᴰ a asks → Memᴰ a fragments × (3 ≤ word_count a)

  -- extract_task_specific_asks answers no ask or from two to eight; they are fragments of the task
  -- of three words at least, and no two are the same text up to case.
  extract_asks-Extracted :
      (fragments : List String) → Extracted fragments (extract_asks lower word_count fragments)
  unfolding extract_asks
  extract_asks-Extracted fragments =
      let t = take_asks-Taken 8 [] fragments in
      elim (Bool-cases (ltb (length (take_asks lower word_count 8 [] fragments)) 2)) [
        | inl few ↦ rw few (record { count = inl refl; distinct = tt; long = λ a m. elim m [ ] })
        | inr many ↦
            rw many
              (record { count = inr (ground arith, t.few); distinct = t.distinct; long = t.long })
      ]
