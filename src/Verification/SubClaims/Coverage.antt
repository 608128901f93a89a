-- ===== src/Verification/SubClaims/Coverage.antt =====
-- The sub-claims of verification_contract.py are exactly the pairs of the scanner's graph.
use youk.Prelude.Memᴰ
use youk.Prelude.{
  String, Bool, true, false, not, List, [], ◌∷◌, any, sort_by, ◌≡◌, ◌≢◌, ◌↔◌, ◌∙◌, eq_iff, inl, inr,
  refl, sym, ap, subst, arith, Memᴰ, sort_by-mem, mem-sort_by, any-mem, any-false, Bool-cases,
}
use youk.Verification.Stage.{
  SubClaim, Hint, ok, raise, verified, Result-cases, unsupported_dimension,
}
use youk.Verification.SubClaims.{
  Info, Hosts, Graph, is_verified, all_verified, sub_claim, from_hosts, from_sorted,
  generate_sub_claims,
}

-- The pair (mechanism, host) stands in the graph, with what the scanner found.
pub record InGraph (graph : Graph) (mechanism host : String) (info : Info) : Type 0 where
  pub hosts : Hosts
  pub listed : Memᴰ (mechanism, hosts) graph
  pub found : Memᴰ (host, info) hosts

module _ (le : String → String → Bool) (hints : List Hint) where
  mem-from_hosts :
      (mechanism : String) (hosts : Hosts) {item : String × Info}
      → Memᴰ item hosts
      → Memᴰ (sub_claim hints mechanism item) (from_hosts le hints mechanism hosts)
  unfolding from_hosts
  mem-from_hosts mechanism hosts m =
      Memᴰ.map (sub_claim hints mechanism) (mem-sort_by le (λ item. item.0) hosts m)

  from_hosts-mem :
      (mechanism : String) (hosts : Hosts) {sc : SubClaim}
      → Memᴰ sc (from_hosts le hints mechanism hosts)
      → (item : String × Info) × Memᴰ item hosts × (sub_claim hints mechanism item ≡ sc)
  unfolding from_hosts
  from_hosts-mem mechanism hosts m =
      let (item, i, e) =
        Memᴰ.of_map (sub_claim hints mechanism) (sort_by le (λ item. item.0) hosts) m in
      (item, sort_by-mem le (λ item. item.0) hosts i, e)

  mem-from_sorted :
      (graph : Graph) (mechanism : String) (hosts : Hosts) {item : String × Info}
      → Memᴰ (mechanism, hosts) graph
      → Memᴰ item hosts
      → Memᴰ (sub_claim hints mechanism item) (from_sorted le hints graph)
  unfolding from_sorted
  mem-from_sorted [] mechanism hosts m i = elim m [ ]
  mem-from_sorted ((m', hs) ∷ graph) mechanism hosts {item} (Memᴰ.head e) i =
      let found : Memᴰ (sub_claim hints m' item) (from_hosts le hints m' hs) =
        mem-from_hosts m' hs (subst (Memᴰ item) (ap (λ (x : String × Hosts). x.1) e) i) in
      Memᴰ.append_left (from_sorted le hints graph) (
        subst (λ x. Memᴰ (sub_claim hints x item) (from_hosts le hints m' hs))
          (sym (ap (λ (x : String × Hosts). x.0) e)) found)
  mem-from_sorted ((m', hs) ∷ graph) mechanism hosts (Memᴰ.tail m) i =
      Memᴰ.append_right (from_hosts le hints m' hs) (mem-from_sorted graph mechanism hosts m i)

  from_sorted-mem :
      (graph : Graph) {sc : SubClaim}
      → Memᴰ sc (from_sorted le hints graph)
      → (mechanism : String) × (hosts : Hosts) × (item : String × Info) × Memᴰ
          (mechanism, hosts)
          graph
        × Memᴰ item hosts
        × (sub_claim hints mechanism item ≡ sc)
  unfolding from_sorted
  from_sorted-mem [] m = elim m [ ]
  from_sorted-mem ((m', hs) ∷ graph) m = elim (Memᴰ.append_cases (from_hosts le hints m' hs) m) [
    | inl i ↦ let (item, j, e) = from_hosts-mem m' hs i in (m', hs, item, Memᴰ.head refl, j, e)
    | inr i ↦
        let (mechanism, hosts, item, j, k, e) = from_sorted-mem graph i in
        (mechanism, hosts, item, Memᴰ.tail j, k, e)
  ]

  -- What the sub-claims `subs` of a graph are: one for each pair of it, and no other.
  pub record Decomposes (graph : Graph) (subs : List SubClaim) : Type 0 where
    pub covers :
        (mechanism host : String) (info : Info)
        → InGraph graph mechanism host info
        → Memᴰ (sub_claim hints mechanism (host, info)) subs
    pub only :
        (sc : SubClaim)
        → Memᴰ sc subs
        → (mechanism : String) × (host : String) × (info : Info) × InGraph graph mechanism host info
          × (sub_claim hints mechanism (host, info) ≡ sc)

  pub generate_sub_claims-Decomposes :
      (dimension : String) (graph : Graph) (subs : List SubClaim)
      → generate_sub_claims le dimension graph hints ≡ ok subs
      → Decomposes graph subs
  unfolding generate_sub_claims sub_claim
  generate_sub_claims-Decomposes dimension graph subs e =
      let items = sort_by le (λ (item : String × Hosts). item.0) graph in
      let same : from_sorted le hints items ≡ subs = ground arith in
      record {
        covers = λ mechanism host info g.
            subst (Memᴰ (sub_claim hints mechanism (host, info))) same (
              mem-from_sorted items mechanism g.hosts
                (mem-sort_by le (λ item. item.0) graph g.listed) g.found);
        only = λ sc m.
            let (mechanism, hosts, item, i, j, k) =
              from_sorted-mem items (subst (Memᴰ sc) (sym same) m) in
            (
              mechanism,
              item.0,
              item.1,
              record { hosts = hosts; listed = sort_by-mem le (λ item. item.0) graph i; found = j },
              k,
            );
      }

  pub data DecomposeOutcome (dimension : String) (graph : Graph) : Type 0 where
    decomposed :
        (subs : List SubClaim)
        → generate_sub_claims le dimension graph hints ≡ ok subs
        → dimension ≡ "host"
        → Decomposes graph subs
        → DecomposeOutcome dimension graph
    unsupported :
        generate_sub_claims le dimension graph hints ≡ raise unsupported_dimension
        → dimension ≢ "host"
        → DecomposeOutcome dimension graph

  -- For the dimension "host", generate_sub_claims answers sub-claims that have the one of every
  -- (mechanism, host) pair of the graph, each being that of a pair of the graph; for any other
  -- dimension it raises.
  pub generate_sub_claims_lem :
      (dimension : String) (graph : Graph) → DecomposeOutcome dimension graph
  unfolding generate_sub_claims
  generate_sub_claims_lem dimension graph =
      elim (Result-cases (generate_sub_claims le dimension graph hints)) [
        | inl (subs, e) ↦
            let host : dimension ≡ "host" = ground (arith, eq_iff dimension "host") in
            decomposed subs e host (generate_sub_claims-Decomposes dimension graph subs e)
        | inr (x, e) ↦
            let other : dimension ≢ "host" = ground (arith, eq_iff dimension "host") in
            let same : x ≡ unsupported_dimension = ground arith in
            unsupported (e ∙ ap raise same) other
      ]

  -- The claim that generate_sub_claims decomposes is all verified exactly when the scanner found
  -- every mechanism wired on every host.
  all_verified_iff :
      (dimension : String) (graph : Graph) (subs : List SubClaim)
      → generate_sub_claims le dimension graph hints ≡ ok subs
      → (all_verified subs ≡ true) ↔ (
          (mechanism host : String) (info : Info)
          → InGraph graph mechanism host info
          → info.wired ≡ true)
  unfolding all_verified sub_claim
  all_verified_iff dimension graph subs e =
      let d = generate_sub_claims-Decomposes dimension graph subs e in
      let bad = λ (sc : SubClaim). not (is_verified sc) in
      (
        λ all mechanism host info g.
            let good : any bad subs ≡ false = ground arith in
            let here = any-false bad subs good (d.covers mechanism host info g) in ground arith,
        λ wired. elim (Bool-cases (any bad subs)) [
          | inr good ↦ ap not good
          | inl found ↦
              let (sc, m, b) = any-mem bad subs found in
              let (mechanism, host, info, g, k) = d.only sc m in
              let w = wired mechanism host info g in
              let st : sc.status ≡ verified = cc (ap (λ (x : SubClaim). x.status) k, w) in
              absurd (ground arith)
        ],
      )
