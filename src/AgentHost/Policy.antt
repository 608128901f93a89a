-- ===== src/AgentHost/Policy.antt =====
-- evaluate_capability and require_capability of agent_host.py fail closed.
use youk.Prelude.{
  String, true, none, some, any, nat_eq, ◌≡◌, ◌↔◌, ◌⊎◌, inl, inr, sym, ap, ◌∙◌, subst, arith, Memᴰ,
  any-mem, any-of_mem, Bool-cases, Option-cases,
}
use youk.AgentHost.{
  HostCapability, value, capability_of, capability_eq, CapabilityRequirement, safety, advisory,
  available, blocked, requirements, capability_schema_version, HostCapabilities, decide,
  evaluate_capability, require_capability,
}
use youk.AgentHost.Values.{
  value-capability_of, capability_of-value, capability_eq_sound, capability_eq_refl,
  requirement-total, requirement-cases, status-cases,
}

module _ (host : HostCapabilities) where
  -- The host declares the capability `c`.
  abbrev pub Declares : HostCapability → Type 0
  Declares c = Memᴰ c host.supported

  decide-status-available :
      (c : HostCapability) (r : CapabilityRequirement)
      → ((decide host c r).status ≡ available) ↔ Declares c
  unfolding decide
  decide-status-available c r = elim (Bool-cases (any (capability_eq c) host.supported)) [
    | inl found ↦
        let (d, m, e) = any-mem (capability_eq c) host.supported found in
        let here : Declares c =
          subst (λ x. Memᴰ x host.supported) (sym (capability_eq_sound c d e)) m in
        (λ _. here, λ _. rw found)
    | inr lacking ↦ (
      λ e. absurd (ground arith),
      λ m.
          absurd
            (ground (arith, any-of_mem (capability_eq c) host.supported m (capability_eq_refl c))),
    )
  ]

  decide-status-blocked :
      (c : HostCapability) (r : CapabilityRequirement)
      → (decide host c r).status ≡ blocked
      → (r ≡ safety) × (¬ Declares c)
  unfolding decide
  decide-status-blocked c r e = elim (Bool-cases (any (capability_eq c) host.supported)) [
    | inl found ↦ absurd (ground arith)
    | inr lacking ↦ (
      ground arith,
      λ m. ground (arith, any-of_mem (capability_eq c) host.supported m (capability_eq_refl c)),
    )
  ]

  decide-of_safety : (c : HostCapability) → (¬ Declares c) → (decide host c safety).status ≡ blocked
  unfolding decide
  decide-of_safety c lacking = elim (Bool-cases (any (capability_eq c) host.supported)) [
    | inl found ↦
        absurd (lacking ((decide-status-available c safety).0 (unfold decide in rw found)))
    | inr h ↦ rw h
  ]

  evaluate_capability-known :
      (name : String) (c : HostCapability) (r : CapabilityRequirement)
      → host.schema_version ≡ capability_schema_version
      → value c ≡ name
      → requirements c ≡ some r
      → evaluate_capability host name ≡ decide host c r
  unfolding evaluate_capability
  evaluate_capability-known name c r schema e known =
      let current : nat_eq host.schema_version capability_schema_version ≡ true = ground arith in
      let parsed : capability_of name ≡ some c =
        subst (λ x. capability_of x ≡ some c) e (capability_of-value c) in
      rw (current, evaluate_capability, parsed, known)

  -- Of the five names, with the current schema: what evaluate_capability can decide about.
  record Known (name : String) : Type 0 where
    capability : HostCapability
    requirement : CapabilityRequirement
    schema : host.schema_version ≡ capability_schema_version
    named : value capability ≡ name
    required : requirements capability ≡ some requirement

  evaluate_capability-cases :
      (name : String)
      → Known name ⊎ ((evaluate_capability host name).status ≡ blocked) × (¬ Known name)
  unfolding evaluate_capability
  evaluate_capability-cases name =
      elim (Bool-cases (nat_eq host.schema_version capability_schema_version)) [
        | inr old ↦ inr (rw (old, evaluate_capability), λ k. let s = k.schema in ground arith)
        | inl current ↦ elim (Option-cases (capability_of name)) [
          | inl unknown ↦ inr (
            rw (current, evaluate_capability, unknown),
            λ k.
                let p : capability_of name ≡ some k.capability =
                  subst (λ x. capability_of x ≡ some k.capability) k.named
                    (capability_of-value k.capability) in
                cc,
          )
          | inr (c, parsed) ↦
              let (r, known) = requirement-total c in
              inl (record {
                capability = c;
                requirement = r;
                schema = ground arith;
                named = value-capability_of name c parsed;
                required = known;
              })
        ]
      ]

  -- The name is one of the five, the schema is the current one, and `May` holds of the capability.
  pub record Of (name : String) (May : HostCapability → Type 0) : Type 0 where
    pub capability : HostCapability
    pub schema : host.schema_version ≡ capability_schema_version
    pub named : value capability ≡ name
    pub may : May capability

  Known-of : {name : String} {May : HostCapability → Type 0} → Of name May → Known name
  Known-of o =
      let (r, required) = requirement-total o.capability in
      record {
        capability = o.capability;
        requirement = r;
        schema = o.schema;
        named = o.named;
        required = required;
      }

  -- evaluate_capability answers AVAILABLE exactly for the name of a capability that the host
  -- declares under the current schema version.
  evaluate_capability-available :
      (name : String) → ((evaluate_capability host name).status ≡ available) ↔ Of name Declares
  evaluate_capability-available name = elim (evaluate_capability-cases name) [
    | inr (closed, unknown) ↦ (λ e. absurd (cc (closed, e)), λ o. absurd (unknown (Known-of o)))
    | inl k ↦
        let known =
          evaluate_capability-known name k.capability k.requirement k.schema k.named k.required in
        (
          λ e. record {
            capability = k.capability;
            schema = k.schema;
            named = k.named;
            may =
                (decide-status-available k.capability k.requirement).0
                  (sym (ap (λ d. d.status) known) ∙ e);
          },
          λ o.
              let (r, required) = requirement-total o.capability in
              ap (λ d. d.status)
                (evaluate_capability-known name o.capability r o.schema o.named required)
              ∙ (decide-status-available o.capability r).1 o.may,
        )
  ]

  -- Declared by the host, or advisory.
  abbrev pub Spared : HostCapability → Type 0
  Spared c = Declares c ⊎ (requirements c ≡ some advisory)

  blocked-not-Spared :
      (name : String) → (evaluate_capability host name).status ≡ blocked → ¬ Of name Spared
  blocked-not-Spared name e o =
      let (r, required) = requirement-total o.capability in
      let known = evaluate_capability-known name o.capability r o.schema o.named required in
      let (safe, lacking) =
        decide-status-blocked o.capability r (sym (ap (λ d. d.status) known) ∙ e) in
      elim (o.may) [ inl declared ↦ lacking declared | inr mild ↦ cc (required, safe, mild) ]

  Spared-or_blocked :
      (name : String) → Of name Spared ⊎ ((evaluate_capability host name).status ≡ blocked)
  Spared-or_blocked name = elim (evaluate_capability-cases name) [
    | inr (closed, unknown) ↦ inr closed
    | inl k ↦ elim (Bool-cases (any (capability_eq k.capability) host.supported)) [
      | inl found ↦
          let (d, m, e) = any-mem (capability_eq k.capability) host.supported found in
          inl (record {
            capability = k.capability;
            schema = k.schema;
            named = k.named;
            may =
                inl (
                  subst (λ x. Memᴰ x host.supported) (sym (capability_eq_sound k.capability d e))
                    m);
          })
      | inr lacking ↦
          let known =
            evaluate_capability-known name k.capability k.requirement k.schema k.named k.required in
          elim (requirement-cases k.requirement) [
            | inr mild ↦ inl (record {
              capability = k.capability;
              schema = k.schema;
              named = k.named;
              may = inr (k.required ∙ ap some mild);
            })
            | inl safe ↦
                let lacks : ¬ Declares k.capability = λ m. cc (
                  lacking,
                  any-of_mem (capability_eq k.capability) host.supported m
                      (capability_eq_refl k.capability),
                ) in
                inr (
                  ap (λ d. d.status) (known ∙ ap (decide host k.capability) safe)
                  ∙ decide-of_safety k.capability lacks)
          ]
    ]
  ]

  -- require_capability lets a call through exactly for the name of a capability that the host
  -- declares, or that is advisory, under the current schema version; for any other name, and for
  -- any name under another schema version, it raises.
  pub require_capability_iff :
      (name : String) → (require_capability host name ≡ none) ↔ Of name Spared
  unfolding require_capability
  require_capability_iff name = elim (Spared-or_blocked name) [
    | inr closed ↦ (
      λ e. absurd (cc (rw (closed, require_capability) at e)),
      λ o. absurd (blocked-not-Spared name closed o),
    )
    | inl o ↦ (
      λ _. o,
      λ _. elim (status-cases (evaluate_capability host name).status) [
        | inl closed ↦ absurd (blocked-not-Spared name closed o)
        | inr (inl e) ↦ rw (e, require_capability)
        | inr (inr e) ↦ rw (e, require_capability)
      ],
    )
  ]
