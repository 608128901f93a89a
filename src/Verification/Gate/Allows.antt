-- ===== src/Verification/Gate/Allows.antt =====
-- When the gate of verification_contract.py allows "done".
use youk.Prelude.Memᴰ
use youk.Prelude.{
  String, Bool, true, false, ◌||◌, Option, none, some, List, [], ◌∷◌, any, select, ◌≡◌, ◌≢◌, ◌↔◌,
  ◌⊎◌, inl, inr, refl, sym, ap, subst, arith, Memᴰ, any-mem, any-of_mem, Bool-cases, List-cases,
  select-mem, mem-select, eq_iff,
}
use youk.Verification.Stage.{
  Stage, verified, Level, asserted, internally_checked, externally_verified, Result, ok, raise,
  Error, malformed_file, ◌>>=◌, rework_edges, Result-cases,
}
use youk.Verification.Gate.{
  StoredSub, StoredClaim, ClaimFile, malformed, readable, load_claim, cons_deny, is_external,
  is_open, Deny, large, review_gate, deny_open, gate_claim_done, denials, gate_all_claims,
}

abbrev pub IsVerified : StoredSub → Type 0
IsVerified sc = sc.status ≡ verified

-- What a claim file must show before its claim may be reported done.
pub record MayBeDone (require : Bool) (c : StoredClaim) : Type 0 where
  pub resolved : (sc : StoredSub) → Memᴰ sc c.sub_claims → sc.status ≡ verified
  pub reviewed :
      (require ≡ false) × (c.size ≢ "L") × (c.size ≢ "XL")
      ⊎ ((sc : StoredSub) × Memᴰ sc c.sub_claims
          × (sc.verification_level ≡ some externally_verified))

large-false : (size : String) → (large size ≡ false) ↔ ((size ≢ "L") × (size ≢ "XL"))
large-false size = ground (arith, eq_iff size "L", eq_iff size "XL")

is_external_sound : (l : Option Level) → is_external l ≡ true → l ≡ some externally_verified
is_external_sound none e = cc
is_external_sound (some asserted) e = cc
is_external_sound (some internally_checked) e = cc
is_external_sound (some externally_verified) e = refl

deny_open-ne-none :
    (subs : List StoredSub) (preferred : Option Stage) → deny_open subs preferred ≢ ok none
unfolding deny_open
deny_open-ne-none subs preferred e = ground arith

module _ (c : StoredClaim) (preferred : Option Stage) (require : Bool) where
  abbrev Reviewed : Type 0
  Reviewed =
      (require ≡ false) × (c.size ≢ "L") × (c.size ≢ "XL")
      ⊎ ((sc : StoredSub) × Memᴰ sc c.sub_claims
          × (sc.verification_level ≡ some externally_verified))

  review_gate-none : review_gate c preferred require ≡ none → Reviewed
  unfolding review_gate
  review_gate-none e = elim (Bool-cases (require || large c.size)) [
    | inr small ↦ let (l, xl) = (large-false c.size).0 (ground arith) in inl (ground arith, l, xl)
    | inl due ↦
        let found : any (λ sc. is_external sc.verification_level) c.sub_claims ≡ true =
          ground arith in
        let (sc, m, h) =
          any-mem (λ (sc : StoredSub). is_external sc.verification_level) c.sub_claims found in
        inr (sc, m, is_external_sound sc.verification_level h)
  ]

  Reviewed-none : Reviewed → review_gate c preferred require ≡ none
  unfolding review_gate
  Reviewed-none (inl (off, l, xl)) = rw (off, (large-false c.size).1 (l, xl))
  Reviewed-none (inr (sc, m, h)) =
      let found =
        any-of_mem (λ (sc : StoredSub). is_external sc.verification_level) c.sub_claims m
          (ap is_external h) in
      ground arith

  all_resolved :
      select is_open c.sub_claims ≡ []
      → (sc : StoredSub) → Memᴰ sc c.sub_claims
      → sc.status ≡ verified
  all_resolved e sc m = elim (Bool-cases (is_open sc)) [
    | inl open_sub ↦ elim (subst (Memᴰ sc) e (mem-select is_open c.sub_claims m open_sub)) [ ]
    | inr closed ↦ ground arith
  ]

  -- For a claim file that exists, gate_claim_done allows exactly when every sub-claim is verified
  -- and, where review is required or the claim's size is L or XL, some sub-claim is externally
  -- verified.
  pub gate_claim_done_iff :
      (gate_claim_done (some c) preferred require ≡ ok none) ↔ MayBeDone require c
  unfolding gate_claim_done
  gate_claim_done_iff = elim (List-cases (select is_open c.sub_claims)) [
    | inl closed ↦ (
      λ e. record { resolved = all_resolved closed; reviewed = review_gate-none (ground arith) },
      λ d. rw (closed, gate_claim_done) (ap ok (Reviewed-none d.reviewed)),
    )
    | inr (sc, rest, h) ↦
        let (m, open_sub) =
          select-mem is_open c.sub_claims (subst (Memᴰ sc) (sym h) (Memᴰ.head refl)) in
        (
          λ e. absurd (deny_open-ne-none (sc ∷ rest) preferred (rw (h, gate_claim_done) at e)),
          λ d. let v = d.resolved sc m in absurd (ground arith),
        )
  ]

-- With no preferred stage, a claim that could be loaded raises nothing.
deny_decompose :
    (c : StoredClaim) (require : Bool) (e : Error) → gate_claim_done (some c) none require ≢ raise e
unfolding gate_claim_done deny_open rework_edges any
deny_decompose c require e h = elim (List-cases (select is_open c.sub_claims)) [
  | inl closed ↦ let h' = rw (closed, gate_claim_done) at h in cc
  | inr (sc, rest, k) ↦ let h' = rw (k, gate_claim_done) at h in cc
]

-- What the aggregated gate answers: it raises when some file is malformed; with none, it allows when
-- every claim may be done, and denies when some may not.
pub data AllGated (files : List ClaimFile) (require : Bool)
    : Result (Option (List Deny)) → Type 0 where
  allowed :
      ¬ Memᴰ malformed files
      → ((c : StoredClaim) → Memᴰ (readable c) files → MayBeDone require c)
      → AllGated files require (ok none)
  denied :
      (d : Deny) (ds : List Deny) (c : StoredClaim)
      → ¬ Memᴰ malformed files
      → Memᴰ (readable c) files
      → ¬ MayBeDone require c
      → AllGated files require (ok (some (d ∷ ds)))
  raised : Memᴰ malformed files → AllGated files require (raise malformed_file)

is_readable : ClaimFile → Bool
is_readable malformed = false
is_readable (readable c) = true

readable-malformed : {c : StoredClaim} → readable c ≢ malformed
unfolding is_readable
readable-malformed e = let h : true ≡ false = ap is_readable e in cc h

readable-eq : {c d : StoredClaim} → readable c ≡ readable d → c ≡ d
readable-eq e = cc e

module _ (require : Bool) where
  -- The loop: a malformed file, or no denial, or a file that may not be done.
  data LoopAnswer (files : List ClaimFile) : Result (List Deny) → Type 0 where
    clear :
        ¬ Memᴰ malformed files
        → ((c : StoredClaim) → Memᴰ (readable c) files → MayBeDone require c)
        → LoopAnswer files (ok [])
    some_deny :
        (d : Deny) (ds : List Deny) (c : StoredClaim)
        → ¬ Memᴰ malformed files
        → Memᴰ (readable c) files
        → ¬ MayBeDone require c
        → LoopAnswer files (ok (d ∷ ds))
    stops : Memᴰ malformed files → LoopAnswer files (raise malformed_file)

  well_formed_cons :
      (c : StoredClaim) (files : List ClaimFile)
      → ¬ Memᴰ malformed files
      → ¬ Memᴰ malformed (readable c ∷ files)
  well_formed_cons c files h m = elim (Memᴰ.cases_cons m) [
    | inl e ↦ readable-malformed (sym e)
    | inr i ↦ h i
  ]

  all_cons :
      (c : StoredClaim) (files : List ClaimFile)
      → MayBeDone require c
      → ((x : StoredClaim) → Memᴰ (readable x) files → MayBeDone require x)
      → (x : StoredClaim) → Memᴰ (readable x) (readable c ∷ files)
      → MayBeDone require x
  all_cons c files here all x m = elim (Memᴰ.cases_cons m) [
    | inl same ↦ subst (MayBeDone require) (sym (readable-eq same)) here
    | inr i ↦ all x i
  ]

  -- One more readable file, once its claim may be done.
  cons-allowed :
      (c : StoredClaim) (files : List ClaimFile) (r : Result (List Deny))
      → MayBeDone require c
      → LoopAnswer files r
      → LoopAnswer (readable c ∷ files) (r >>= λ rest. ok (cons_deny none rest))
  cons-allowed c files (ok []) here (clear h all) =
      clear (well_formed_cons c files h) (all_cons c files here all)
  cons-allowed c files (ok (d ∷ ds)) here (some_deny _ _ x h m bad) =
      some_deny d ds x (well_formed_cons c files h) (Memᴰ.tail m) bad
  cons-allowed c files (raise e) here (stops m) = stops (Memᴰ.tail m)

  -- One more readable file, when its claim is denied.
  cons-denied :
      (c : StoredClaim) (files : List ClaimFile) (d : Deny) (r : Result (List Deny))
      → ¬ MayBeDone require c
      → LoopAnswer files r
      → LoopAnswer (readable c ∷ files) (r >>= λ rest. ok (cons_deny (some d) rest))
  cons-denied c files d (ok []) bad (clear h all) =
      some_deny d [] c (well_formed_cons c files h) (Memᴰ.head refl) bad
  cons-denied c files d (ok (x ∷ ds)) bad (some_deny _ _ y h m other) =
      some_deny d (x ∷ ds) c (well_formed_cons c files h) (Memᴰ.head refl) bad
  cons-denied c files d (raise e) bad (stops m) = stops (Memᴰ.tail m)

  denials_loop : (files : List ClaimFile) → LoopAnswer files (denials files require)
  unfolding denials load_claim
  denials_loop [] = clear (λ m. elim m [ ]) λ c m. elim m [ ]
  denials_loop (malformed ∷ files) = stops (Memᴰ.head refl)
  denials_loop (readable c ∷ files) = elim (Result-cases (gate_claim_done (some c) none require)) [
    | inr (e, h) ↦ absurd (deny_decompose c require e h)
    | inl (none, h) ↦ rw h (
        cons-allowed c files (denials files require) ((gate_claim_done_iff c none require).0 h)
          (denials_loop files))
    | inl (some d, h) ↦
        let bad : ¬ MayBeDone require c =
          λ may. cc ((gate_claim_done_iff c none require).1 may, h) in
        rw h (cons-denied c files d (denials files require) bad (denials_loop files))
  ]

  aggregated :
      (files : List ClaimFile) (r : Result (List Deny))
      → LoopAnswer files r
      → AllGated files require
          (r >>= λ ds. elim ds [ [] ↦ ok none | d ∷ rest ↦ ok (some (d ∷ rest)) ])
  aggregated files (ok []) (clear h all) = allowed h all
  aggregated files (ok (d ∷ ds)) (some_deny _ _ c h m bad) = denied d ds c h m bad
  aggregated files (raise e) (stops m) = raised m

-- gate_all_claims raises exactly when some claim file is malformed; otherwise it allows when every
-- claim may be done, and denies when some claim may not.
pub gate_all_claims-AllGated :
    (files : List ClaimFile) (require : Bool)
    → AllGated files require (gate_all_claims files require)
unfolding gate_all_claims
gate_all_claims-AllGated files require =
    aggregated require files (denials files require) (denials_loop require files)
