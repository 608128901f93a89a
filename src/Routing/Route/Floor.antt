-- ===== src/Routing/Route/Floor.antt =====
-- The size that route_task of routing.py decides, and the one escalation that it uses up.
use youk.Prelude.{
  ℕ, ◌<◌, max, String, Bool, true, false, Option, none, some, List, ◌==◌, if◌then◌else◌, length,
  ◌≡◌, ◌≢◌, ◌⊎◌, ◌↔◌, inl, inr, refl, sym, ap, ◌∙◌, subst, arith, eq_iff, eq_refl, Bool-cases,
  Option-cases, Texts, head,
}
use youk.Routing.Size.{TaskSize, size_value, rank, score_size}
use youk.Routing.Escalation.{Escalations, directory, at_least_m, consume_scope_escalation}
use youk.Routing.Escalation.Pending.{
  rank_or_zero, pending, Consumed, consume_scope_escalation-Consumed,
}
use youk.Routing.Decision.{
  IntentBrief, Routes, RoutingDecision, Breadcrumb, Session, blocked_on, ambiguity_question,
  high_risk_question, medium_risk_question, SizingDecision,
}
use youk.Routing.Route.{
  resolve_size, raise_size, log_size, decision_for, conclude, settle, route_task, note_question,
}
use youk.Routing.Route.Raising.{
  estimated, Resolved, resolve_size-Resolved, Raised, raise_size-Raised,
}

module _ (texts : Texts) (signal_in : String → String → Bool) (routes : Routes) where
  -- The size that the keywords of a task give, if _score_size does not raise.
  abbrev pub keyword_size : String → Option TaskSize
  keyword_size task =
      score_size (λ t. signal_in t (texts.lower task)) (length (texts.words task)) routes.task_sizes

  abbrev pub breadcrumb_of : String → TaskSize → Breadcrumb
  breadcrumb_of task size = record { task = head 200 task; size = size_value size }

  abbrev pub floor_of : TaskSize → IntentBrief → ℕ
  floor_of deterministic brief = max (rank deterministic) (estimated brief)

  -- What an answer of route_task that is not blocked does: the size is the largest of the three,
  -- each flag says which of them prevailed, the escalation is used up and no other one is, and
  -- the breadcrumb is written from size M on.
  pub record Settled (task : String) (brief : IntentBrief) (slug : String)
      (deterministic : TaskSize) (before : Session) (r : RoutingDecision × Session) : Type 0 where
    pub size : rank r.0.size ≡ max (floor_of deterministic brief) (pending slug before.escalations)
    pub unblocked : r.0.blocked ≡ false
    pub mismatch :
        (r.0.size_mismatch_flag ≡ true)
        ↔ ((0 < estimated brief) × (estimated brief < rank deterministic))
    pub raised :
        (r.0.scope_escalated ≡ true)
        ↔ (floor_of deterministic brief < pending slug before.escalations)
    pub spent : pending slug r.1.escalations ≡ 0
    pub others :
        (key : String) → key ≢ directory slug → r.1.escalations key ≡ before.escalations key
    pub breadcrumb : r.1.breadcrumbs slug ≡ (
        if at_least_m r.0.size then some (breadcrumb_of task r.0.size) else before.breadcrumbs slug)

  log_size-files :
      (entry : SizingDecision) (before : Session)
      → ((log_size texts signal_in routes entry before).escalations ≡ before.escalations)
        × ((log_size texts signal_in routes entry before).breadcrumbs ≡ before.breadcrumbs)
  unfolding log_size
  log_size-files entry before = elim (Bool-cases (texts.strip entry.task == "")) [
    | inl blank ↦ rw blank (refl, refl)
    | inr named ↦ rw named (refl, refl)
  ]

  conclude_lem :
      (task : String) (invoked : List String) (brief : IntentBrief) (slug : String)
      (deterministic : TaskSize) (before : Session) (r : TaskSize × String × Bool)
      (logged : Session) (c : Option TaskSize × Escalations) (rr : TaskSize × Bool)
      → Resolved deterministic brief r
      → (logged.escalations ≡ before.escalations) × (logged.breadcrumbs ≡ before.breadcrumbs)
      → Consumed slug logged.escalations c
      → Raised r.0 c.0 rr
      → Settled task brief slug deterministic before (
          conclude texts signal_in routes task invoked brief slug rr.0 r.2 rr.1
            (record logged { escalations = c.1 }))
  unfolding conclude decision_for
  conclude_lem task invoked brief slug deterministic before r logged c rr resolved (same, crumbs)
        consumed lifted =
      let asked : rank_or_zero c.0 ≡ pending slug before.escalations =
        consumed.size ∙ ap (pending slug) same in
      let size : rank rr.0 ≡ max (floor_of deterministic brief) (pending slug before.escalations) =
        omega (arith, lifted.rank_is, resolved.size, asked) in
      let flag : (rr.1 ≡ true) ↔ (floor_of deterministic brief < pending slug before.escalations) =
        ground (arith, lifted.flag, resolved.size, asked) in
      let others : (key : String) → key ≢ directory slug → c.1 key ≡ before.escalations key =
        λ key h. consumed.others key h ∙ ap (λ (f : Escalations). f key) same in
      elim (Bool-cases (at_least_m rr.0)) [
        | inl large ↦ rw large (record {
          size = size;
          unblocked = refl;
          mismatch = resolved.mismatch;
          raised = flag;
          spent = consumed.spent;
          others = others;
          breadcrumb = rw (large, eq_refl slug) refl;
        })
        | inr small ↦ rw small (record {
          size = size;
          unblocked = refl;
          mismatch = resolved.mismatch;
          raised = flag;
          spent = consumed.spent;
          others = others;
          breadcrumb = rw small (ap (λ (f : String → Option Breadcrumb). f slug) crumbs);
        })
      ]

  settle-Settled :
      (task : String) (invoked : List String) (brief : IntentBrief) (slug : String)
      (deterministic : TaskSize) (before start : Session)
      → (start.escalations ≡ before.escalations) × (start.breadcrumbs ≡ before.breadcrumbs)
      → Settled task brief slug deterministic before
          (settle texts signal_in routes task invoked brief slug deterministic start)
  unfolding settle
  settle-Settled task invoked brief slug deterministic before start (files, crumbs) =
      let r = resolve_size deterministic brief in
      let entry : SizingDecision = record {
        task = task;
        deterministic_size = size_value deterministic;
        llm_estimated_size = r.1;
        resolved_size = size_value r.0;
        mismatch_flag = r.2;
      } in
      let logged = log_size texts signal_in routes entry start in
      let kept = log_size-files entry start in
      let c = consume_scope_escalation slug logged.escalations in
      conclude_lem task invoked brief slug deterministic before r logged c (raise_size r.0 c.0)
        (resolve_size-Resolved deterministic brief) (kept.0 ∙ files, kept.1 ∙ crumbs)
        (consume_scope_escalation-Consumed slug logged.escalations) (raise_size-Raised r.0 c.0)

  note_question-files :
      (slug question : String) (before : Session)
      → ((note_question slug question before).escalations ≡ before.escalations)
        × ((note_question slug question before).breadcrumbs ≡ before.breadcrumbs)
  note_question-files slug question before = elim (Bool-cases (question == "")) [
    | inl none_asked ↦ rw none_asked (refl, refl)
    | inr asked ↦ rw asked (refl, refl)
  ]

  -- What route_task does.
  pub data RouteOutcome (task : String) (brief : IntentBrief) (slug : String) (before : Session)
      : Option RoutingDecision × Session → Type 0 where
    halted :
        (d : RoutingDecision)
        → d.blocked ≡ true
        → (brief.ambiguity_detected ≡ true) ⊎ (brief.translation_risk ≡ "high")
        → RouteOutcome task brief slug before (some d, before)
    misnamed :
        (after : Session)
        → keyword_size task ≡ none
        → after.escalations ≡ before.escalations
        → after.breadcrumbs ≡ before.breadcrumbs
        → RouteOutcome task brief slug before (none, after)
    routed :
        (deterministic : TaskSize) (r : RoutingDecision × Session)
        → brief.ambiguity_detected ≡ false
        → brief.translation_risk ≢ "high"
        → keyword_size task ≡ some deterministic
        → Settled task brief slug deterministic before r
        → RouteOutcome task brief slug before (some r.0, r.1)

  pub route_task_lem :
      (task : String) (invoked : List String) (brief : IntentBrief) (slug : String)
      (before : Session)
      → RouteOutcome task brief slug before
          (route_task texts signal_in routes task invoked brief slug before)
  unfolding route_task blocked_on
  route_task_lem task invoked brief slug before =
      let r = route_task texts signal_in routes task invoked brief slug before in
      elim (Bool-cases brief.ambiguity_detected) [
        | inl ambiguous ↦
            let d = blocked_on task (ambiguity_question brief) in
            let e : r ≡ (some d, before) = rw ambiguous refl in
            subst (RouteOutcome task brief slug before) (sym e) (halted d refl (inl ambiguous))
        | inr clear ↦ elim (Bool-cases (brief.translation_risk == "high")) [
          | inl high ↦
              let d = blocked_on task (high_risk_question brief) in
              let e : r ≡ (some d, before) = rw (clear, high) refl in
              let risk = (eq_iff brief.translation_risk "high").0 high in
              subst (RouteOutcome task brief slug before) (sym e) (halted d refl (inr risk))
          | inr low ↦
              let asked = note_question slug (medium_risk_question brief) before in
              let kept = note_question-files slug (medium_risk_question brief) before in
              let safe : brief.translation_risk ≢ "high" =
                λ e. cc (low, (eq_iff brief.translation_risk "high").1 e) in
              elim (Option-cases (keyword_size task)) [
                | inl raises ↦
                    let e : r ≡ (none, asked) = rw (clear, low, raises) refl in
                    subst (RouteOutcome task brief slug before) (sym e)
                      (misnamed asked raises kept.0 kept.1)
                | inr (deterministic, scored) ↦
                    let t =
                      settle texts signal_in routes task invoked brief slug deterministic asked in
                    let e : r ≡ (some t.0, t.1) = rw (clear, low, scored) refl in
                    subst (RouteOutcome task brief slug before) (sym e) (
                      routed deterministic t clear safe scored
                        (settle-Settled task invoked brief slug deterministic before asked kept))
              ]
        ]
      ]
