-- ===== src/CoverageTree/Templates/Durable.antt =====
-- What add_concept_to_template of coverage_tree.py adds survives a restart.
use youk.Prelude.Memᴰ
use youk.Prelude.{
  String, Bool, true, false, Option, some, List, [], ◌∷◌, ◌==◌, if◌then◌else◌, contains, ◌≡◌, ◌≢◌,
  inl, inr, refl, sym, ap, subst, arith, eq_iff, eq_refl, Memᴰ, Bool-cases, mem-contains,
  contains-mem,
}
use youk.CoverageTree.{Templates, template_for, set_template}
use youk.CoverageTree.Templates.{
  add_once, add_each, merge, load_overlay, merged_templates, seed_templates,
  add_concept_to_template,
}

-- The concept is in the template of the domain.
abbrev pub InTemplate : String → String → Templates → Type 0
InTemplate domain concept templates = Memᴰ concept (template_for domain templates)

template_for-set_template :
    (d : String) (cs : List String) (t : Templates) → template_for d (set_template d cs t) ≡ cs
unfolding template_for set_template
template_for-set_template d cs [] = rw (eq_refl d)
template_for-set_template d cs ((e, old) ∷ t) = elim (Bool-cases (e == d)) [
  | inl here ↦ rw here (rw here)
  | inr other ↦ rw other (rw other (template_for-set_template d cs t))
]

template_for-set_template_other :
    (d e : String) (cs : List String) (t : Templates)
    → d ≢ e
    → template_for e (set_template d cs t) ≡ template_for e t
unfolding template_for set_template
template_for-set_template_other d e cs [] differ =
    let away : d == e ≡ false = ground (arith, eq_iff d e) in rw away
template_for-set_template_other d e cs ((k, old) ∷ t) differ = elim (Bool-cases (k == d)) [
  | inl here ↦
      let away : k == e ≡ false = ground (arith, eq_iff k d, eq_iff k e) in rw here (rw away)
  | inr other ↦
      rw other
        (ap (λ l. if k == e then old else l) (template_for-set_template_other d e cs t differ))
]

mem-add_once_self : (c : String) (cs : List String) → Memᴰ c (add_once c cs)
unfolding add_once
mem-add_once_self c cs = elim (Bool-cases (contains cs c)) [
  | inl there ↦ rw there (contains-mem cs there)
  | inr new ↦ rw new (Memᴰ.append_right cs (Memᴰ.head refl))
]

mem-add_once : (c : String) (cs : List String) {x : String} → Memᴰ x cs → Memᴰ x (add_once c cs)
unfolding add_once
mem-add_once c cs m = elim (Bool-cases (contains cs c)) [
  | inl there ↦ rw there m
  | inr new ↦ rw new (Memᴰ.append_left (c ∷ []) m)
]

mem-add_each_old : (extra cs : List String) {x : String} → Memᴰ x cs → Memᴰ x (add_each extra cs)
unfolding add_each
mem-add_each_old [] cs m = m
mem-add_each_old (c ∷ extra) cs m = mem-add_each_old extra (add_once c cs) (mem-add_once c cs m)

mem-add_each : (extra cs : List String) {x : String} → Memᴰ x extra → Memᴰ x (add_each extra cs)
unfolding add_each
mem-add_each [] cs m = elim m [ ]
mem-add_each (c ∷ extra) cs {x} (Memᴰ.head e) =
    mem-add_each_old extra (add_once c cs)
      (subst (λ y. Memᴰ y (add_once c cs)) (sym e) (mem-add_once_self c cs))
mem-add_each (c ∷ extra) cs (Memᴰ.tail m) = mem-add_each extra (add_once c cs) m

InTemplate-grown :
    (d e c : String) (extra : List String) (t : Templates)
    → InTemplate e c t
    → InTemplate e c (set_template d (add_each extra (template_for d t)) t)
InTemplate-grown d e c extra t m = elim (Bool-cases (d == e)) [
  | inl here ↦
      let same : d ≡ e = (eq_iff d e).0 here in
      let old : Memᴰ c (template_for d t) = subst (λ x. Memᴰ c (template_for x t)) (sym same) m in
      let grown : Memᴰ c (template_for d (set_template d (add_each extra (template_for d t)) t)) =
        subst (Memᴰ c) (sym (template_for-set_template d _ t))
          (mem-add_each_old extra (template_for d t) old) in
      subst (λ x. Memᴰ c (template_for x (set_template d (add_each extra (template_for d t)) t)))
        same grown
  | inr other ↦
      let differ : d ≢ e = λ s. cc (other, (eq_iff d e).1 s) in
      subst (Memᴰ c) (sym (template_for-set_template_other d e _ t differ)) m
]

InTemplate-merge_old :
    (overlay t : Templates) (d c : String) → InTemplate d c t → InTemplate d c (merge t overlay)
unfolding merge
InTemplate-merge_old [] t d c m = m
InTemplate-merge_old ((domain, extra) ∷ overlay) t d c m =
    InTemplate-merge_old overlay _ d c (InTemplate-grown domain d c extra t m)

InTemplate-merge :
    (overlay t : Templates) (d c : String)
    → InTemplate d c overlay
    → InTemplate d c (merge t overlay)
unfolding merge template_for
InTemplate-merge [] t d c m = elim m [ ]
InTemplate-merge ((domain, extra) ∷ overlay) t d c m = elim (Bool-cases (domain == d)) [
  | inr other ↦ InTemplate-merge overlay _ d c (rw other at m)
  | inl here ↦
      let same : domain ≡ d = (eq_iff domain d).0 here in
      let listed : Memᴰ c extra = rw here at m in
      let grown : InTemplate domain c
          (set_template domain (add_each extra (template_for domain t)) t) =
        subst (Memᴰ c) (sym (template_for-set_template domain _ t))
          (mem-add_each extra (template_for domain t) listed) in
      InTemplate-merge_old overlay _ d c (
        subst (λ x. InTemplate x c (set_template domain (add_each extra (template_for domain t)) t))
          same grown)
]

-- What add_concept_to_template answers and leaves: the live templates and the overlay's file.
pub data Added (domain concept : String) (templates : Templates) (file : Option Templates)
    : Bool × Templates × Option Templates → Type 0 where
  known :
      {live : Templates}
      → InTemplate domain concept templates
      → InTemplate domain concept live
      → Added domain concept templates file (false, live, file)
  new :
      {live : Templates} (file' : Option Templates)
      → (¬ InTemplate domain concept templates)
      → InTemplate domain concept live
      → InTemplate domain concept (merged_templates file')
      → Added domain concept templates file (true, live, file')

-- When the overlay can be written, add_concept_to_template answers True exactly for a concept that
-- is not in the domain's template; the concept is in it afterwards, and then also in the template
-- that is merged from the seed and the written file at the next start.
pub add_concept_to_template-Added :
    (domain concept : String) (templates : Templates) (file : Option Templates)
    → Added domain concept templates file
        (add_concept_to_template domain concept true templates file)
unfolding add_concept_to_template merged_templates
add_concept_to_template-Added domain concept templates file =
    elim (Bool-cases (contains (template_for domain templates) concept)) [
      | inl there ↦
          let m = contains-mem (template_for domain templates) there in
          rw (add_concept_to_template, there)
            (known m (subst (Memᴰ concept) (sym (template_for-set_template domain _ templates)) m))
      | inr absent ↦
          let overlay = load_overlay file in
          let bucket = add_once concept (template_for domain overlay) in
          let stored : InTemplate domain concept (set_template domain bucket overlay) =
            subst (Memᴰ concept) (sym (template_for-set_template domain bucket overlay))
              (mem-add_once_self concept (template_for domain overlay)) in
          rw (add_concept_to_template, absent)
            (new (some (set_template domain bucket overlay))
              (λ m. cc (absent, mem-contains (template_for domain templates) m))
              (subst (Memᴰ concept) (sym (template_for-set_template domain _ templates))
                (Memᴰ.append_right (template_for domain templates) (Memᴰ.head refl)))
              (InTemplate-merge (set_template domain bucket overlay) seed_templates domain concept
                stored))
    ]
