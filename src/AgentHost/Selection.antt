-- ===== src/AgentHost/Selection.antt =====
-- select_host of agent_host.py picks a host only from the configuration or from a single probe.
use youk.Prelude.{
  String, true, Option, none, some, List, [], ◌∷◌, ◌==◌, ◌≡◌, ◌≢◌, ◌⊎◌, inl, inr, refl, sym, ap,
  ◌∙◌, subst, arith, eq_iff, Bool-cases, Option-cases,
}
use youk.AgentHost.{
  HostCapability, session_context, value, HostCapabilities, require_capability, claude_code_host,
  codex_host, hosts, HostSelection, selected, ambiguous, incompatible, only_host, wanted,
  select_host,
}

-- Whom the arguments name: the configuration if it names anyone, else the only host probed.
pub data Wanted (runtime : List String) (configured : Option String) (host : String) : Type 0 where
  by_configuration : configured ≡ some host → host ≢ "" → Wanted runtime configured host
  by_probe :
      (configured ≡ none) ⊎ (configured ≡ some "")
      → runtime ≡ host ∷ []
      → host ≢ ""
      → Wanted runtime configured host

only_host-cases :
    (runtime : List String) {h : String} → only_host runtime ≡ h → h ≢ "" → runtime ≡ h ∷ []
only_host-cases [] e some_host = absurd (some_host (sym e))
only_host-cases (x ∷ []) e some_host = ap (λ y. y ∷ []) e
only_host-cases (x ∷ y ∷ xs) e some_host = absurd (some_host (sym e))

wanted-Wanted :
    (runtime : List String) (configured : Option String)
    → wanted runtime configured ≢ ""
    → Wanted runtime configured (wanted runtime configured)
wanted-Wanted runtime none some_host =
    by_probe (inl refl) (only_host-cases runtime refl some_host) some_host
wanted-Wanted runtime (some name) some_host = elim (Bool-cases (name == "")) [
  | inl empty ↦
      let e : wanted runtime (some name) ≡ only_host runtime = rw empty in
      let blank : name ≡ "" = (eq_iff name "").0 empty in
      by_probe (inr (ap some blank)) (only_host-cases runtime (sym e) some_host) some_host
  | inr given ↦
      let e : wanted runtime (some name) ≡ name = rw given in
      by_configuration (ap some (sym e)) some_host
]

Wanted-wanted :
    (runtime : List String) (configured : Option String) {h : String}
    → Wanted runtime configured h
    → wanted runtime configured ≡ h
Wanted-wanted runtime none {h} (by_configuration e some_host) = cc
Wanted-wanted runtime (some name) {h} (by_configuration e some_host) =
    ground (arith, eq_iff name "")
Wanted-wanted runtime none (by_probe c e some_host) = ap only_host e
Wanted-wanted runtime (some name) (by_probe (inl c) e some_host) = cc
Wanted-wanted runtime (some name) {h} (by_probe (inr c) e some_host) =
    let same : name ≡ "" = cc in
    let blank : name == "" ≡ true = (eq_iff name "").1 same in rw blank (ap only_host e)

-- Both hosts declare all that require_capability can ask for.
claude_code_host-serves :
    (c : HostCapability) → require_capability claude_code_host (value c) ≡ none
unfolding require_capability
claude_code_host-serves session_context = refl
claude_code_host-serves _ = refl

codex_host-serves : (c : HostCapability) → require_capability codex_host (value c) ≡ none
unfolding require_capability
codex_host-serves session_context = refl
codex_host-serves _ = refl

hosts-serve :
    (name : String) (host : HostCapabilities)
    → hosts name ≡ some host
    → (c : HostCapability) → require_capability host (value c) ≡ none
unfolding hosts
hosts-serve name host e c = elim (Bool-cases (name == "claude-code")) [
  | inl claude ↦
      let same : claude_code_host ≡ host = ground arith in
      subst (λ h. require_capability h (value c) ≡ none) same (claude_code_host-serves c)
  | inr other ↦
      let same : codex_host ≡ host = ground arith in
      subst (λ h. require_capability h (value c) ≡ none) same (codex_host-serves c)
]

pub data SelectOutcome (runtime : List String) (configured : Option String) (s : HostSelection)
    : Type 0 where
  chosen :
      s.status ≡ selected
      → Wanted runtime configured s.host_id
      → (host : HostCapabilities) → hosts s.host_id ≡ some host
      → ((c : HostCapability) → require_capability host (value c) ≡ none)
      → SelectOutcome runtime configured s
  not_installed :
      s.status ≡ incompatible
      → Wanted runtime configured s.host_id
      → hosts s.host_id ≡ none
      → SelectOutcome runtime configured s
  unclear :
      s.status ≡ ambiguous
      → s.host_id ≡ ""
      → ((h : String) → ¬ Wanted runtime configured h)
      → SelectOutcome runtime configured s

Wanted-not_blank :
    {runtime : List String} {configured : Option String} {h : String}
    → Wanted runtime configured h
    → h ≢ ""
Wanted-not_blank (by_configuration e some_host) = some_host
Wanted-not_blank (by_probe c e some_host) = some_host

-- select_host selects the host that the configuration names, or else the only one probed, and
-- then it is a registered host that require_capability lets through for every capability; or that
-- host is not registered, and the answer is incompatible; or the arguments name no host at all,
-- and the answer is ambiguous.
pub select_host_lem :
    (runtime : List String) (configured : Option String)
    → SelectOutcome runtime configured (select_host runtime configured)
unfolding select_host
select_host_lem runtime configured = elim (Bool-cases (wanted runtime configured == "")) [
  | inl empty ↦
      rw (empty, select_host)
        (unclear refl refl λ h w. Wanted-not_blank w (
          sym (Wanted-wanted runtime configured w)
          ∙ (eq_iff (wanted runtime configured) "").0 empty))
  | inr named ↦
      let some_host : wanted runtime configured ≢ "" =
        λ e. cc (named, (eq_iff (wanted runtime configured) "").1 e) in
      let w = wanted-Wanted runtime configured some_host in
      elim (Option-cases (hosts (wanted runtime configured))) [
        | inl unknown ↦ rw (named, select_host, unknown) (not_installed refl w unknown)
        | inr (host, known) ↦
            rw (named, select_host, known)
              (chosen refl w host known (hosts-serve (wanted runtime configured) host known))
      ]
]
