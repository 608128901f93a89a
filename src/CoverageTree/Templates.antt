-- ===== src/CoverageTree/Templates.antt =====
-- The concept templates of coverage_tree.py and their overlay of additions on disk.
pub mod Durable
use youk.Prelude.{
  String, Bool, true, false, Option, none, some, List, [], ◌∷◌, ◌++◌, if◌then◌else◌, contains,
}
use youk.CoverageTree.{Templates, template_for, set_template}

-- _SEED_TEMPLATES
abbrev pub seed_templates : Templates
seed_templates =
    (
      "security",
      "authn / identity" ∷ "authz / access control" ∷ "input validation" ∷ "secrets handling"
          ∷ "injection (sql/cmd/path)" ∷ "rate-limit / dos" ∷ [],
    )
    ∷ ("correctness", "happy path" ∷ "edge cases" ∷ "error states" ∷ "concurrency / races" ∷ [])
    ∷ ("data", "schema change" ∷ "migration / revert" ∷ "data volume / scale" ∷ [])
    ∷ ("nfr", "idempotency" ∷ "retry / timeout" ∷ "observability" ∷ "caching" ∷ [])
    ∷ []

-- `if concept not in bucket: bucket.append(concept)`
unfoldable pub add_once : String → List String → List String
unfolding contains
add_once concept bucket = if contains bucket concept then bucket else bucket ++ concept ∷ []

unfoldable pub add_each : List String → List String → List String
unfolding add_once
add_each [] bucket = bucket
add_each (concept ∷ extra) bucket = add_each extra (add_once concept bucket)

-- The loop of `_merged_templates` over the items of the overlay.
unfoldable pub merge : Templates → Templates → Templates
unfolding add_each template_for set_template
merge merged [] = merged
merge merged ((domain, extra) ∷ overlay) =
    merge (set_template domain (add_each extra (template_for domain merged)) merged) overlay

-- What `_load_overlay` reads: a file that is missing or corrupt is an empty overlay.
abbrev pub load_overlay : Option Templates → Templates
load_overlay none = []
load_overlay (some overlay) = overlay

unfoldable pub merged_templates : Option Templates → Templates
unfolding merge
merged_templates file = merge seed_templates (load_overlay file)

-- add_concept_to_template on TEMPLATES and the overlay's file; `writable` tells whether the write
-- succeeds. The answer is whether the concept is new.
unfoldable pub add_concept_to_template :
    String → String → Bool → Templates → Option Templates → Bool × Templates × Option Templates
unfolding add_once template_for set_template
add_concept_to_template domain concept writable templates file =
    let bucket = template_for domain templates in
    let overlay = load_overlay file in
    let kept = set_template domain (add_once concept (template_for domain overlay)) overlay in
    if contains bucket concept then (false, set_template domain bucket templates, file) else (
      true,
      set_template domain (bucket ++ concept ∷ []) templates,
      if writable then some kept else file,
    )
