-- ===== src/Routing/Escalation/Pending.antt =====
-- The escalation that a session has pending, for routing.py, and what consuming it does.
use youk.Prelude.{
  ◌≤◌, ◌<◌, Texts, head, subst, ℕ, String, true, false, not, ◌||◌, Option, none, some, ◌==◌,
  if◌then◌else◌, ◌≡◌, ◌≢◌, inl, inr, refl, sym, ap, ◌∙◌, arith, eq_iff, eq_refl, Bool-cases,
  Option-cases,
}
use youk.Routing.Size.{TaskSize, xs, s, m, l, xl, size_of, size_value, rank}
use youk.Routing.Escalation.{
  Escalation, Escalations, directory, put, at_least_m, EscalateReply, invalid_size,
  target_too_small, escalated, write_scope_escalation, consume_scope_escalation,
}

abbrev pub rank_or_zero : Option TaskSize → ℕ
rank_or_zero none = 0
rank_or_zero (some size) = rank size

-- The rank that the escalation on record for a session asks for; 0: it asks for none.
abbrev pub asked_by : String → Option Escalation → ℕ
asked_by key none = 0
asked_by key (some e) =
    if e.consumed then 0 else if e.slug == key then rank_or_zero (size_of e.suggested_size) else 0

abbrev pub pending : String → Escalations → ℕ
pending slug files = asked_by (directory slug) (files (directory slug))

-- What consuming an escalation leaves behind.
pub record Consumed (slug : String) (files : Escalations) (r : Option TaskSize × Escalations)
    : Type 0 where
  pub size : rank_or_zero r.0 ≡ pending slug files
  pub spent : pending slug r.1 ≡ 0
  pub others : (key : String) → key ≢ directory slug → r.1 key ≡ files key

Consumed-none :
    (slug : String) (files : Escalations)
    → pending slug files ≡ 0
    → Consumed slug files (none, files)
Consumed-none slug files e = record { size = sym e; spent = e; others = λ key h. refl }

pub put_same : (key : String) (e : Escalation) (files : Escalations) → put key e files key ≡ some e
put_same key e files = rw (eq_refl key) refl

pub put_other :
    (key other : String) (e : Escalation) (files : Escalations)
    → other ≢ key
    → put key e files other ≡ files other
put_other key other e files h = ground (arith, eq_iff other key)

Consumed-some :
    (slug : String) (files : Escalations) (e : Escalation) (size : TaskSize)
    → pending slug files ≡ rank size
    → Consumed slug files (some size, put (directory slug) (record e { consumed = true }) files)
Consumed-some slug files e size h = record {
  size = sym h;
  spent =
      ap (asked_by (directory slug))
        (put_same (directory slug) (record e { consumed = true }) files);
  others = λ key other. put_other (directory slug) key (record e { consumed = true }) files other;
}

asked_by_unusable :
    (key : String) (e : Escalation)
    → e.consumed || not (e.slug == key) ≡ true
    → asked_by key (some e) ≡ 0
asked_by_unusable key e h = ground arith

asked_by_usable :
    (key : String) (e : Escalation)
    → e.consumed || not (e.slug == key) ≡ false
    → asked_by key (some e) ≡ rank_or_zero (size_of e.suggested_size)
asked_by_usable key e h = ground arith

pub consume_scope_escalation-Consumed :
    (slug : String) (files : Escalations)
    → Consumed slug files (consume_scope_escalation slug files)
unfolding consume_scope_escalation
consume_scope_escalation-Consumed slug files = elim (Option-cases (files (directory slug))) [
  | inl missing ↦
      rw (consume_scope_escalation, missing)
        (Consumed-none slug files (ap (asked_by (directory slug)) missing))
  | inr (e, found) ↦ elim (Bool-cases (e.consumed || not (e.slug == directory slug))) [
    | inl unusable ↦
        rw (consume_scope_escalation, found, unusable)
          (Consumed-none slug files
            (ap (asked_by (directory slug)) found ∙ asked_by_unusable (directory slug) e unusable))
    | inr usable ↦ elim (Option-cases (size_of e.suggested_size)) [
      | inl misnamed ↦
          rw (consume_scope_escalation, found, usable, misnamed)
            (Consumed-none slug files (
              ap (asked_by (directory slug)) found
              ∙ asked_by_usable (directory slug) e usable
              ∙ ap rank_or_zero misnamed))
      | inr (size, named) ↦
          rw (consume_scope_escalation, found, usable, named)
            (Consumed-some slug files e size (
              ap (asked_by (directory slug)) found
              ∙ asked_by_usable (directory slug) e usable
              ∙ ap rank_or_zero named))
    ]
  ]
]

-- What asking for a larger size does: a size below M, or none, changes nothing.
pub data Escalated (slug suggested : String) (files : Escalations)
    : EscalateReply × Escalations → Type 0 where
  refused :
      (reply : EscalateReply)
      → ((size : TaskSize) → size_of suggested ≡ some size → rank size < 3)
      → Escalated slug suggested files (reply, files)
  recorded :
      (size : TaskSize) (after : Escalations)
      → size_of suggested ≡ some size
      → 3 ≤ rank size
      → pending slug after ≡ rank size
      → ((key : String) → key ≢ directory slug → after key ≡ files key)
      → Escalated slug suggested files (escalated size, after)

size_of-value : (size : TaskSize) → size_of (size_value size) ≡ some size
unfolding size_of
size_of-value xs = refl
size_of-value s = refl
size_of-value m = refl
size_of-value l = refl
size_of-value xl = refl

pub write_scope_escalation-Escalated :
    (texts : Texts) (slug task reason suggested source : String) (files : Escalations)
    → Escalated slug
        (texts.upper suggested)
        files
        (write_scope_escalation texts slug task reason suggested source files)
unfolding write_scope_escalation
write_scope_escalation-Escalated texts slug task reason suggested source files =
    elim (Option-cases (size_of (texts.upper suggested))) [
      | inl unnamed ↦
          rw (write_scope_escalation, unnamed) (refused invalid_size λ size e. cc (e, unnamed))
      | inr (size, named) ↦ elim (Bool-cases (at_least_m size)) [
        | inl large ↦
            let entry : Escalation = record {
              slug = directory slug;
              task = head 200 task;
              reason = reason;
              suggested_size = size_value size;
              source = source;
              consumed = false;
            } in
            rw (write_scope_escalation, named, large)
              (recorded size (put (directory slug) entry files) named (ground arith)
                (ap (asked_by (directory slug)) (put_same (directory slug) entry files)
                  ∙ asked_by_usable (directory slug) entry (rw (eq_refl (directory slug)) refl)
                  ∙ ap rank_or_zero (size_of-value size))
                (λ key h. put_other (directory slug) key entry files h))
        | inr small ↦
            rw (write_scope_escalation, named, small)
              (refused target_too_small λ other e.
                let h : size ≡ other = cc (named, e) in subst (λ t. rank t < 3) h (ground arith))
      ]
    ]

pub recorded-pending :
    {slug suggested : String} {files : Escalations} (r : EscalateReply × Escalations)
    (target : TaskSize)
    → size_of suggested ≡ some target
    → 3 ≤ rank target
    → Escalated slug suggested files r
    → pending slug r.1 ≡ rank target
recorded-pending r target named large (refused reply small) =
    absurd (omega (arith, small target named, large))
recorded-pending r target named large (recorded size after e f p k) =
    let same : size ≡ target = cc (e, named) in p ∙ ap rank same
