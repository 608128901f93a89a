-- ===== src/Routing/Escalation.antt =====
-- Scope escalation of servers/core/src/routing.py: the signal that raises the next task's size.
pub mod Pending
use youk.Prelude.{
  String, Bool, true, false, not, ◌||◌, Option, none, some, ◌==◌, if◌then◌else◌, leb, Texts, head,
}
use youk.Routing.Size.{TaskSize, size_of, size_value, rank}

pub record Escalation : Type 0 where
  pub slug : String
  pub task : String
  pub reason : String
  pub suggested_size : String
  pub source : String
  pub consumed : Bool

-- The files by session directory; `none`: no file, or one that is not JSON.
abbrev pub Escalations : Type 0
Escalations = String → Option Escalation

-- `slug or "unknown"`
abbrev pub directory : String → String
directory slug = if slug == "" then "unknown" else slug

abbrev pub put : String → Escalation → Escalations → Escalations
put key e files k = if k == key then some e else files k

-- `size in (TaskSize.M, TaskSize.L, TaskSize.XL)`
abbrev pub at_least_m : TaskSize → Bool
at_least_m size = leb 3 (rank size)

pub data EscalateReply : Type 0 where
  invalid_size : EscalateReply
  target_too_small : EscalateReply
  escalated : TaskSize → EscalateReply

unfoldable pub write_scope_escalation :
    Texts → String → String → String → String → String → Escalations → EscalateReply × Escalations
unfolding size_of head
write_scope_escalation texts slug task reason suggested source files =
    elim (size_of (texts.upper suggested)) [
      | none ↦ (invalid_size, files)
      | some target ↦
          if at_least_m target
          then (
            escalated target,
            put (directory slug)
                (record {
                  slug = directory slug;
                  task = head 200 task;
                  reason = reason;
                  suggested_size = size_value target;
                  source = source;
                  consumed = false;
                })
                files,
          )
          else (target_too_small, files)
    ]

unfoldable pub consume_scope_escalation : String → Escalations → Option TaskSize × Escalations
unfolding size_of
consume_scope_escalation slug files = elim (files (directory slug)) [
  | none ↦ (none, files)
  | some e ↦
      if e.consumed || not (e.slug == directory slug)
      then (none, files)
      else (elim (size_of e.suggested_size) [
        | none ↦ (none, files)
        | some size ↦ (some size, put (directory slug) (record e { consumed = true }) files)
      ])
]
