-- ===== src/TaskContract/Frames.antt =====
-- The adversarial frames of servers/core/src/task_contract.py, and which of them a task meets.
use youk.Prelude.{ℕ, String, Bool, true, false, List, [], ◌∷◌, if◌then◌else◌, leb, any, within}
use youk.Routing.Size.{TaskSize, rank}

pub data Frame : Type 0 where
  f1 f2 f3 f4 f5 f6 f7 : Frame

abbrev pub frame_id : Frame → String
frame_id f1 = "F1"
frame_id f2 = "F2"
frame_id f3 = "F3"
frame_id f4 = "F4"
frame_id f5 = "F5"
frame_id f6 = "F6"
frame_id f7 = "F7"

-- _FRAME_LABELS
abbrev pub frame_label : Frame → String
frame_label f1 = "USER-VALUE"
frame_label f2 = "ENGINEERING-RIGOR"
frame_label f3 = "EVIDENCE"
frame_label f4 = "GOODHART"
frame_label f5 = "TRUST"
frame_label f6 = "ADOPTION-ECONOMICS"
frame_label f7 = "SCALE/FAILURE"

pub data Severity : Type 0 where
  high medium low : Severity

-- sev_order
abbrev pub severity_rank : Severity → ℕ
severity_rank high = 0
severity_rank medium = 1
severity_rank low = 2

-- `any(s in task_lower for s in signals)`
abbrev pub meets : String → List String → Bool
meets task_lower signals = any (λ t. within t task_lower) signals

unfoldable pub check_f1 : String → Bool × String
unfolding any
check_f1 task_lower =
    if meets task_lower
      ("automat" ∷ "track" ∷ "metric" ∷ "measur" ∷ "report" ∷ "dashboard" ∷ "alert" ∷ "log" ∷ [])
    then (
      true,
      "If this mechanism works perfectly, does the developer actually feel the benefit — or is it a metric that doesn't correspond to a felt change?",
    )
    else (
      true,
      "Does the user benefit materialize without requiring behavior change that isn't incentivized?",
    )

unfoldable pub check_f2 : String → Bool × String
unfolding any
check_f2 task_lower =
    if meets task_lower
      ("new" ∷ "add" ∷ "build" ∷ "create" ∷ "implement" ∷ "write" ∷ "tool" ∷ "system" ∷ [])
    then (
      true,
      "Is there a simpler or more robust technical approach being overlooked before adding new machinery?",
    )
    else (false, "")

unfoldable pub check_f3 : String → Bool × String
unfolding any
check_f3 task_lower =
    if meets task_lower
      ("fix" ∷ "bug" ∷ "broken" ∷ "wrong" ∷ "fail" ∷ "error" ∷ "issue" ∷ "problem" ∷ [])
    then (
      true,
      "What evidence confirms this is the root cause? Have we traced it or are we fixing a symptom?",
    )
    else (
      true,
      "What observable evidence would confirm success — and can we verify it before calling the task done?",
    )

unfoldable pub check_f4 : String → Bool × String
unfolding any
check_f4 task_lower =
    if meets task_lower
      ("rate" ∷ "score" ∷ "percent" ∷ "count" ∷ "metric" ∷ "track" ∷ "measur" ∷ "kpi" ∷ [])
    then (
      true,
      "Could optimizing the stated metric miss the real goal? Is the proxy measurement aligned with actual developer value?",
    )
    else (false, "")

unfoldable pub check_f5 : String → Bool × String
unfolding any
check_f5 task_lower =
    if meets task_lower
      ("hook" ∷ "auto" ∷ "detect" ∷ "silent" ∷ "background" ∷ "persist" ∷ "state" ∷ "file" ∷ [])
    then (
      true,
      "What silent failure mode exists here? What are we trusting that could break without surfacing an error?",
    )
    else (false, "")

-- `size in (TaskSize.L, TaskSize.XL)`
abbrev pub at_least_l : TaskSize → Bool
at_least_l size = leb 4 (rank size)

unfoldable pub check_f6 : TaskSize → Bool × String
check_f6 size =
    if at_least_l size
    then (
      true,
      "Is the ceremony this creates proportionate to the value? Does the developer need to do something different for every task?",
    )
    else (false, "")

unfoldable pub check_f7 : String → Bool × String
unfolding any
check_f7 task_lower =
    if meets task_lower
      ("session" ∷ "audit" ∷ "log" ∷ "file" ∷ "state" ∷ "persist" ∷ "write" ∷ "read" ∷ "store" ∷ [])
    then (
      true,
      "What happens to this mechanism when the session count or file size grows 10×? Is there a cleanup or cap?",
    )
    else (false, "")

-- An entry of `frame_checks`.
pub record FrameCheck : Type 0 where
  pub frame : Frame
  pub check : Bool × String
  pub severity : Severity

unfoldable pub frame_checks : String → TaskSize → List FrameCheck
unfolding check_f1 check_f2 check_f3 check_f4 check_f5 check_f6 check_f7
frame_checks task_lower size =
    record { frame = f1; check = check_f1 task_lower; severity = high }
    ∷ record { frame = f2; check = check_f2 task_lower; severity = high }
    ∷ record { frame = f3; check = check_f3 task_lower; severity = medium }
    ∷ record { frame = f4; check = check_f4 task_lower; severity = high }
    ∷ record { frame = f5; check = check_f5 task_lower; severity = medium }
    ∷ record { frame = f6; check = check_f6 size; severity = medium }
    ∷ record { frame = f7; check = check_f7 task_lower; severity = low }
    ∷ []
