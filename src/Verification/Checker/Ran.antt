-- ===== src/Verification/Checker/Ran.antt =====
-- What run_checker of verification_contract.py leaves behind.
use youk.Prelude.Memᴰ
use youk.Prelude.{
  String, Bool, false, Option, none, some, List, [], ◌∷◌, ◌≡◌, ◌≢◌, ◌⊎◌, inl, inr, refl, sym, ap,
  ◌∙◌, subst, Memᴰ, sort_by,
}
use youk.Verification.Stage.{
  Claim, SubClaim, Stage, verify, decompose, pattern_capture, ok, Hint, advance, advanced_to,
  internally_checked,
}
use youk.Verification.SubClaims.{
  Graph, sub_claim, from_sorted, generate_sub_claims, build_claim, is_verified,
}
use youk.Verification.SubClaims.Coverage.{Decomposes, generate_sub_claims-Decomposes}
use youk.Verification.Library.{keys_of, claim_shape, append_pattern_library_entries}
use youk.Verification.Library.Dedupe.{append_pattern_library_entries-Appended}
use youk.Verification.Gate.{StoredSub, store_sub, to_dict, gate_claim_done}
use youk.Verification.Gate.Stored.{Says, to_dict-Says}
use youk.Verification.Gate.Allows.{gate_claim_done_iff}
use youk.Verification.Checker.{Disk, run_checker, write_claim}

module _ (le : String → String → Bool) (today slug : String) where
  pub record Ran (graph : Graph) (hints : List Hint) (size : String) (c : Claim) (d : Disk)
      : Type 0 where
    pub stage : c.stage ≡ pattern_capture
    pub history : c.stage_history ≡ decompose ∷ verify ∷ []
    pub size_kept : c.size ≡ size
    pub file : d.claim_file ≡ some (to_dict c)
    pub says : Says c (to_dict c)
    pub decomposes : Decomposes le hints graph c.sub_claims
    pub recorded :
        (sc : SubClaim)
        → Memᴰ sc c.sub_claims
        → is_verified sc ≡ false
        → Memᴰ (claim_shape c, sc.id) (keys_of d.library)

  -- run_checker, for the dimension "host", returns: the claim went by DECOMPOSE and VERIFY to
  -- PATTERN_CAPTURE, has the sub-claims of the graph's pairs and the given size, and the file says
  -- all of it and whether every sub-claim is verified; and each sub-claim that is not verified is in the pattern library.
  pub run_checker-Ran :
      (statement : String) (graph : Graph) (hints : List Hint) (how_found size : String) (d : Disk)
      → (c : Claim) × (d' : Disk) × (run_checker le today slug statement "host" graph hints
            how_found size d
          ≡ ok (c, d'))
        × Ran graph hints size c d'
  unfolding run_checker
  run_checker-Ran statement graph hints how_found size d =
      let subs = from_sorted le hints (sort_by le (λ item. item.0) graph) in
      let built : Claim = record {
        statement = statement;
        dimension = "host";
        sub_claims = subs;
        stage = decompose;
        stage_history = [];
        rework_rounds = 0;
        rework_log = [];
        size = size;
      } in
      let r1 = advanced_to (some slug) (record { claim = built; events = d.events }) verify in
      let library = (append_pattern_library_entries how_found today r1.claim d.library).1 in
      let r2 = advanced_to (some slug) r1 pattern_capture in
      let added = append_pattern_library_entries-Appended how_found today r1.claim d.library in
      (
        r2.claim,
        write_claim r2.claim
            (record { claim_file = d.claim_file; library = library; events = r2.events }),
        unfold build_claim in unfold generate_sub_claims in unfold advance in refl,
        record {
          stage = refl;
          history = refl;
          size_kept = refl;
          file = refl;
          says = to_dict-Says r2.claim;
          decomposes =
              generate_sub_claims-Decomposes le hints "host" graph subs
                (unfold generate_sub_claims in refl);
          recorded = added.covers;
        },
      )

  level-internal :
      {graph : Graph} {hints : List Hint} {size : String} {c : Claim} {d : Disk}
      → Ran graph hints size c d
      → (sc : StoredSub) → Memᴰ sc (to_dict c).sub_claims
      → sc.verification_level ≡ some internally_checked
  unfolding to_dict sub_claim
  level-internal {c = c} ran sc m =
      let (x, i, k) = Memᴰ.of_map store_sub c.sub_claims m in
      let (mechanism, host, info, there, e) = ran.decomposes.only x i in
      sym (ap (λ (s : StoredSub). s.verification_level) k)
      ∙ ap some (sym (ap (λ (s : SubClaim). s.verification_level) e))

  -- What run_checker has written for a claim of size L or XL does not pass the gate.
  run_checker-gated :
      (statement : String) (graph : Graph) (hints : List Hint) (how_found size : String) (d : Disk)
      (preferred : Option Stage) (require : Bool)
      → (size ≡ "L") ⊎ (size ≡ "XL")
      → (c : Claim) × (d' : Disk) × (run_checker le today slug statement "host" graph hints
            how_found size d
          ≡ ok (c, d'))
        × (gate_claim_done d'.claim_file preferred require ≢ ok none)
  unfolding to_dict
  run_checker-gated statement graph hints how_found size d preferred require large =
      let (c, d', e, ran) = run_checker-Ran statement graph hints how_found size d in
      (
        c,
        d',
        e,
        λ passed.
            let may =
              (gate_claim_done_iff (to_dict c) preferred require).0 (
                subst (λ file. gate_claim_done file preferred require ≡ ok none) ran.file passed) in
            elim (may.reviewed) [
              | inl (off, l, xl) ↦ elim large [
                | inl is_l ↦ l (ran.size_kept ∙ is_l)
                | inr is_xl ↦ xl (ran.size_kept ∙ is_xl)
              ]
              | inr (sc, m, external) ↦ cc (level-internal ran sc m, external)
            ],
      )
