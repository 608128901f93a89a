-- ===== src/Verification/Library/Dedupe.antt =====
-- The pattern library of verification_contract.py records every miss, and each of them once.
use mathlib.Core.List.{append-nil}
use youk.Prelude.Memᴰ
use youk.Prelude.{
  String, true, false, none, some, List, [], ◌∷◌, ◌++◌, map, ◌≡◌, ◌⊎◌, inl, inr, refl, sym, ap,
  subst, arith, eq_iff, eq_refl, Memᴰ, Bool-cases, any-mem, any-of_mem,
}
use youk.Verification.Stage.{Claim, SubClaim}
use youk.Verification.SubClaims.{is_verified}
use youk.Verification.Library.{
  Row, Lines, Key, key_eq, row_key, keys_of, has_key, claim_shape, new_entries,
  append_pattern_library_entries,
}

has_key-mem : (k : Key) (ks : List Key) → has_key k ks ≡ true → Memᴰ k ks
unfolding has_key
has_key-mem (a, b) ks h =
    let ((c, d), m, e) = any-mem (key_eq (a, b)) ks h in
    let same : ◌≡◌ {A = Key} (c, d) (a, b) = ground (arith, eq_iff a c, eq_iff b d) in
    subst (λ k. Memᴰ k ks) same m

mem-has_key : (k : Key) (ks : List Key) → Memᴰ k ks → has_key k ks ≡ true
unfolding has_key
mem-has_key (a, b) ks m = any-of_mem (key_eq (a, b)) ks m (ground (arith, eq_refl a, eq_refl b))

keys_of-append :
    (lines : Lines) (rows : List Row)
    → keys_of (lines ++ map some rows) ≡ keys_of lines ++ map row_key rows
unfolding keys_of
keys_of-append [] [] = refl
keys_of-append [] (r ∷ rows) = ap (λ l. row_key r ∷ l) (keys_of-append [] rows)
keys_of-append (none ∷ lines) rows = keys_of-append lines rows
keys_of-append (some r ∷ lines) rows = ap (λ l. row_key r ∷ l) (keys_of-append lines rows)

-- The keys of `rows` are pairwise different, and different from `existing`.
abbrev pub Fresh : List Key → List Row → Type 0
Fresh existing [] = Unit {0}
Fresh existing (r ∷ rows) = (¬ Memᴰ (row_key r) existing) × Fresh (row_key r ∷ existing) rows

module _ (how_found today shape : String) where
  abbrev IsMissed : SubClaim → Type 0
  IsMissed sc = is_verified sc ≡ false

  -- What the loop has recorded from `existing` on.
  record Records (existing : List Key) (subs : List SubClaim) (rows : List Row) : Type 0 where
    fresh : Fresh existing rows
    covers :
        (sc : SubClaim)
        → Memᴰ sc subs
        → IsMissed sc
        → Memᴰ (shape, sc.id) existing ⊎ Memᴰ (shape, sc.id) (map row_key rows)

  new_entries-Records :
      (existing : List Key) (subs : List SubClaim)
      → Records existing subs (new_entries how_found today shape existing subs)
  unfolding new_entries
  new_entries-Records existing [] = record { fresh = tt; covers = λ sc m. elim m [ ] }
  new_entries-Records existing (sc ∷ subs) = elim (Bool-cases (is_verified sc)) [
    | inl good ↦
        let r = new_entries-Records existing subs in
        rw good (record {
          fresh = r.fresh;
          covers = λ x m missed. elim (Memᴰ.cases_cons m) [
            | inl e ↦ cc (ap is_verified e)
            | inr i ↦ r.covers x i missed
          ];
        })
    | inr missed_here ↦ elim (Bool-cases (has_key (shape, sc.id) existing)) [
      | inl old ↦
          let r = new_entries-Records existing subs in
          rw (missed_here, old)
            (record {
              fresh = r.fresh;
              covers = λ x m missed. elim (Memᴰ.cases_cons m) [
                | inl e ↦ inl (
                    subst (λ (y : SubClaim). Memᴰ (shape, y.id) existing) (sym e)
                      (has_key-mem (shape, sc.id) existing old))
                | inr i ↦ r.covers x i missed
              ];
            })
      | inr new ↦
          let r = new_entries-Records ((shape, sc.id) ∷ existing) subs in
          rw (missed_here, new)
            (record {
              fresh = (λ m. cc (mem-has_key (shape, sc.id) existing m, new), r.fresh);
              covers = λ x m missed. elim (Memᴰ.cases_cons m) [
                | inl e ↦ inr (Memᴰ.head (ap (λ (y : SubClaim). (shape, y.id)) e))
                | inr i ↦ elim (r.covers x i missed) [
                  | inl j ↦ elim (Memᴰ.cases_cons j) [ inl e ↦ inr (Memᴰ.head e) | inr k ↦ inl k ]
                  | inr j ↦ inr (Memᴰ.tail j)
                ]
              ];
            })
    ]
  ]

  -- Nothing is recorded when all misses are known.
  new_entries-nil :
      (existing : List Key) (subs : List SubClaim)
      → ((sc : SubClaim) → Memᴰ sc subs → IsMissed sc → Memᴰ (shape, sc.id) existing)
      → new_entries how_found today shape existing subs ≡ []
  unfolding new_entries
  new_entries-nil existing [] known = refl
  new_entries-nil existing (sc ∷ subs) known =
      let rest = new_entries-nil existing subs (λ x m. known x (Memᴰ.tail m)) in
      elim (Bool-cases (is_verified sc)) [
        | inl good ↦ rw good rest
        | inr missed ↦
            let old = mem-has_key (shape, sc.id) existing (known sc (Memᴰ.head refl) missed) in
            rw (missed, old) rest
      ]

-- What one call of append_pattern_library_entries leaves in the file.
pub record Appended (c : Claim) (lines : Lines) (r : List Row × Lines) : Type 0 where
  pub extends : r.1 ≡ lines ++ map some r.0
  pub fresh : Fresh (keys_of lines) r.0
  pub covers :
      (sc : SubClaim)
      → Memᴰ sc c.sub_claims
      → is_verified sc ≡ false
      → Memᴰ (claim_shape c, sc.id) (keys_of r.1)

module _ (how_found today : String) (c : Claim) (lines : Lines) where
  -- append_pattern_library_entries only appends to the file; the entries that it appends have
  -- keys that differ from each other and from all on record; and afterwards every sub-claim that
  -- is not verified is on record.
  pub append_pattern_library_entries-Appended :
      Appended c lines (append_pattern_library_entries how_found today c lines)
  unfolding append_pattern_library_entries
  append_pattern_library_entries-Appended =
      let shape = claim_shape c in
      let rows = new_entries how_found today shape (keys_of lines) c.sub_claims in
      let r = new_entries-Records how_found today shape (keys_of lines) c.sub_claims in
      record {
        extends = refl;
        fresh = r.fresh;
        covers = λ sc m missed. rw (keys_of-append lines rows) (elim (r.covers sc m missed) [
          | inl old ↦ Memᴰ.append_left (map row_key rows) old
          | inr new ↦ Memᴰ.append_right (keys_of lines) new
        ]);
      }

  -- A second call for the same claim appends nothing, on whatever day and however found.
  append_pattern_library_entries_again :
      (found' today' : String)
      → append_pattern_library_entries found' today' c
          (append_pattern_library_entries how_found today c lines).1
        ≡ ([], (append_pattern_library_entries how_found today c lines).1)
  append_pattern_library_entries_again found' today' =
      let first = append_pattern_library_entries how_found today c lines in
      let a = append_pattern_library_entries-Appended in
      unfold append_pattern_library_entries in
      rw (new_entries-nil found' today' (claim_shape c) (keys_of first.1) c.sub_claims a.covers)
        (rw append-nil)
