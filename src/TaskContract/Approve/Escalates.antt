-- ===== src/TaskContract/Approve/Escalates.antt =====
-- An ESCALATE disposition of task_contract.py raises the size that route_task of routing.py decides next.
use Prim.Native.Nat.{min}
use youk.Prelude.{
  ℕ, suc, refl, sym, subst, ◌≤◌, max, String, Bool, true, some, List, [], ◌∷◌, ◌==◌, any, Texts,
  ◌≡◌, ◌⊎◌, inl, inr, ap, arith, ◌∙◌, Bool-cases,
}
use youk.Routing.Size.{TaskSize, xs, s, m, l, xl, size_of, size_value, rank}
use youk.Routing.Escalation.{Escalations, write_scope_escalation}
use youk.Routing.Escalation.Pending.{pending, recorded-pending, write_scope_escalation-Escalated}
use youk.Routing.Decision.{IntentBrief, Routes, Session}
use youk.Routing.Route.Floor.{floor_of}
use youk.Routing.Route.Once.{Unblocked, Decides, route_task-Decides}
use youk.TaskContract.Desk.{Contract, Desk, Formats}
use youk.TaskContract.Approve.{
  next_size_up, find_file, escalate_all, approve_parsed, approve_task_contract,
}

-- What ESCALATE asks for on a contract of the size `z`: one size above, from L on, XL at most.
abbrev pub one_above : TaskSize → ℕ
one_above z = max 4 (min 5 (suc (rank z)))

one_above-large : (z : TaskSize) → 3 ≤ one_above z
one_above-large z = omega arith

module _ (texts : Texts) (formats : Formats) where
  abbrev pub escalates : String × String → Bool
  escalates d = texts.upper d.1 == "ESCALATE"

  module _ (c : Contract) (lines : List String) (target : TaskSize)
      (named : size_of (texts.upper (next_size_up c.size)) ≡ some target)
      (large : 3 ≤ rank target) where
    written-pending :
        (reason : String) (files : Escalations)
        → pending c.project
            (write_scope_escalation texts c.project c.task reason
              (next_size_up c.size)
              "task_contract_provocation"
              files).1
          ≡ rank target
    written-pending reason files = recorded-pending _ target named large (
        write_scope_escalation-Escalated texts c.project c.task reason (next_size_up c.size)
          "task_contract_provocation" files)

    escalate_all-pending :
        (ds : List (String × String)) (files : Escalations)
        → (any escalates ds ≡ true) ⊎ (pending c.project files ≡ rank target)
        → pending c.project (escalate_all texts formats c lines ds files).1 ≡ rank target
    unfolding escalate_all any
    escalate_all-pending [] files (inl e) = cc e
    escalate_all-pending [] files (inr h) = h
    escalate_all-pending ((key, disposition) ∷ rest) files h =
        elim (Bool-cases (texts.upper disposition == "ESCALATE")) [
          | inl here ↦
              rw (escalate_all, here) (escalate_all-pending rest _ (inr (written-pending _ files)))
          | inr away ↦
              rw (escalate_all, away)
                (escalate_all-pending rest files
                  (elim h [ inl e ↦ inl (rw away at e) | inr p ↦ inr p ]))
        ]

  next_size_up-one_above :
      texts.upper "L" ≡ "L"
      → texts.upper "XL" ≡ "XL"
      → (z : TaskSize)
      → (target : TaskSize) × (size_of (texts.upper (next_size_up (size_value z))) ≡ some target)
        × (rank target ≡ one_above z)
  unfolding next_size_up size_of
  next_size_up-one_above large largest xs = (l, rw large refl, refl)
  next_size_up-one_above large largest s = (l, rw large refl, refl)
  next_size_up-one_above large largest m = (l, rw large refl, refl)
  next_size_up-one_above large largest l = (xl, rw largest refl, refl)
  next_size_up-one_above large largest xl = (xl, rw largest refl, refl)

  -- Where str.upper leaves "L" and "XL" alone: when the contract of the first file with the id has
  -- the size z and some disposition is ESCALATE, the first route_task of its project after
  -- approve_task_contract that is not blocked decides the largest of the keywords' size, the brief's
  -- and the size one above z, where a contract below L asks for L and one of XL for XL.
  pub approve_task_contract-route_task :
      (signal_in : String → String → Bool) (routes : Routes) (contract_id as_approved name : String)
      (dispositions : List (String × String)) (c : Contract) (before : Desk)
      (z deterministic : TaskSize) (task : String) (invoked : List String) (brief : IntentBrief)
      (session : Session)
      → texts.upper "L" ≡ "L"
      → texts.upper "XL" ≡ "XL"
      → find_file contract_id before.contracts ≡ some (name, some c)
      → c.size ≡ size_value z
      → any escalates dispositions ≡ true
      → Unblocked texts signal_in routes task brief deterministic
      → Decides texts signal_in routes task invoked brief c.project
          (record session {
            escalations =
                (approve_task_contract texts formats contract_id as_approved dispositions
                  before).1.escalations;
          })
          (max (floor_of texts signal_in routes deterministic brief) (one_above z))
  unfolding approve_task_contract approve_parsed
  approve_task_contract-route_task signal_in routes contract_id as_approved name dispositions c
        before z deterministic task invoked brief session large largest found sized some_escalate
        unblocked =
      let after =
        (approve_task_contract texts formats contract_id as_approved dispositions before).1 in
      let (target, named, above) = next_size_up-one_above large largest z in
      let named' : size_of (texts.upper (next_size_up c.size)) ≡ some target =
        ap (λ t. size_of (texts.upper (next_size_up t))) sized ∙ named in
      let big : 3 ≤ rank target = subst (λ n. 3 ≤ n) (sym above) (one_above-large z) in
      let p : pending c.project after.escalations ≡ one_above z =
        rw (approve_task_contract, found)
          (escalate_all-pending c (formats.splitlines as_approved) target named' big dispositions
            before.escalations (inl some_escalate))
        ∙ above in
      let start : Session = record session { escalations = after.escalations } in
      let d =
        route_task-Decides texts signal_in routes task invoked brief c.project start deterministic
          unblocked in
      record {
        decision = d.decision;
        after = d.after;
        answer = d.answer;
        size = d.size ∙ ap (max (floor_of texts signal_in routes deterministic brief)) p;
        spent = d.spent;
      }
