-- ===== src/Routing/Route/Once.antt =====
-- An escalation of routing.py raises the next routing of its session, and only that one.
use youk.Prelude.{
  ℕ, ◌≤◌, max, String, Bool, false, Option, some, List, ◌≡◌, ◌≢◌, inl, inr, refl, sym, ap, ◌∙◌,
  subst, arith, Texts,
}
use youk.Routing.Size.{TaskSize, size_of, rank}
use youk.Routing.Escalation.{write_scope_escalation}
use youk.Routing.Escalation.Pending.{pending, write_scope_escalation-Escalated, recorded-pending}
use youk.Routing.Decision.{IntentBrief, Routes, RoutingDecision, Session}
use youk.Routing.Route.{route_task}
use youk.Routing.Route.Floor.{
  keyword_size, floor_of, RouteOutcome, halted, misnamed, routed, route_task_lem,
}

module _ (texts : Texts) (signal_in : String → String → Bool) (routes : Routes) where
  -- A routing that decides a size.
  pub record Decides (task : String) (invoked : List String) (brief : IntentBrief) (slug : String)
      (before : Session) (bound : ℕ) : Type 0 where
    pub decision : RoutingDecision
    pub after : Session
    pub answer :
        route_task texts signal_in routes task invoked brief slug before ≡ (some decision, after)
    pub size : rank decision.size ≡ bound
    pub spent : pending slug after.escalations ≡ 0

  -- A brief that blocks nothing, and keywords that give a size.
  pub record Unblocked (task : String) (brief : IntentBrief) (deterministic : TaskSize)
      : Type 0 where
    pub clear : brief.ambiguity_detected ≡ false
    pub safe : brief.translation_risk ≢ "high"
    pub scored : keyword_size texts signal_in routes task ≡ some deterministic

  outcome-Decides :
      (task : String) (invoked : List String) (brief : IntentBrief) (slug : String)
      (before : Session) (deterministic : TaskSize) (r : Option RoutingDecision × Session)
      → Unblocked task brief deterministic
      → r ≡ route_task texts signal_in routes task invoked brief slug before
      → RouteOutcome texts signal_in routes task brief slug before r
      → Decides task invoked brief slug before (
          max
            (floor_of texts signal_in routes deterministic brief)
            (pending slug before.escalations))
  outcome-Decides task invoked brief slug before deterministic r u e (halted d b (inl ambiguous)) =
      cc (ambiguous, u.clear)
  outcome-Decides task invoked brief slug before deterministic r u e (halted d b (inr high)) =
      absurd (u.safe high)
  outcome-Decides task invoked brief slug before deterministic r u e (misnamed after raises f g) =
      cc (raises, u.scored)
  outcome-Decides task invoked brief slug before deterministic r u e
        (routed other t c s scored settled) =
      let same : other ≡ deterministic = cc (scored, u.scored) in
      record {
        decision = t.0;
        after = t.1;
        answer = sym e;
        size =
            subst
              (λ d.
                rank t.0.size
                ≡ max (floor_of texts signal_in routes d brief) (pending slug before.escalations))
              same settled.size;
        spent = settled.spent;
      }

  pub route_task-Decides :
      (task : String) (invoked : List String) (brief : IntentBrief) (slug : String)
      (before : Session) (deterministic : TaskSize)
      → Unblocked task brief deterministic
      → Decides task invoked brief slug before (
          max
            (floor_of texts signal_in routes deterministic brief)
            (pending slug before.escalations))
  route_task-Decides task invoked brief slug before deterministic u =
      outcome-Decides task invoked brief slug before deterministic
        (route_task texts signal_in routes task invoked brief slug before) u refl
        (route_task_lem texts signal_in routes task invoked brief slug before)

  -- Once write_scope_escalation is asked for a size from M on, the next route_task of the session
  -- that is not blocked decides the largest of that size, the keywords' and the brief's, and the
  -- one after it decides without it, as if nothing had been asked.
  pub write_scope_escalation-route_task :
      (task next_task : String) (invoked : List String) (brief next_brief : IntentBrief)
      (slug : String) (before : Session) (deterministic next_size target : TaskSize)
      (reason suggested source : String)
      → Unblocked task brief deterministic
      → Unblocked next_task next_brief next_size
      → size_of (texts.upper suggested) ≡ some target
      → 3 ≤ rank target
      → (d : Decides task invoked brief slug
          (record before {
            escalations =
                (write_scope_escalation texts slug task reason suggested source
                  before.escalations).1;
          })
          (max (floor_of texts signal_in routes deterministic brief) (rank target)))
        × Decides next_task invoked next_brief slug d.after
            (floor_of texts signal_in routes next_size next_brief)
  write_scope_escalation-route_task task next_task invoked brief next_brief slug before
        deterministic next_size target reason suggested source u v named large =
      let r = write_scope_escalation texts slug task reason suggested source before.escalations in
      let start : Session = record before { escalations = r.1 } in
      let p = recorded-pending r target named large (
        write_scope_escalation-Escalated texts slug task reason suggested source
          before.escalations) in
      let d = route_task-Decides task invoked brief slug start deterministic u in
      let n = route_task-Decides next_task invoked next_brief slug d.after next_size v in
      (
        record {
          decision = d.decision;
          after = d.after;
          answer = d.answer;
          size = d.size ∙ ap (max (floor_of texts signal_in routes deterministic brief)) p;
          spent = d.spent;
        },
        record {
          decision = n.decision;
          after = n.after;
          answer = n.answer;
          size = omega (arith, n.size, d.spent);
          spent = n.spent;
        },
      )
