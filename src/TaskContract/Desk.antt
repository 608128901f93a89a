-- ===== src/TaskContract/Desk.antt =====
-- The files that servers/core/src/task_contract.py reads and writes, and the texts of a contract.
use Prim.Native.String.{◌++◌ as str_append}
use youk.Prelude.{ℕ, suc, String, Option, some, List, [], ◌∷◌, ◌++◌, ◌==◌, if◌then◌else◌, nat_eq}
use youk.Routing.Size.{TaskSize, size_value, rank}
use youk.Routing.Escalation.{Escalations, EscalateReply}
use youk.Routing.Route.{join}
use youk.TaskGraph.Store.{Db}
use youk.TaskContract.Frames.{frame_id, frame_label}
use youk.TaskContract.Provoke.{
  RiskEntry, Provocation, Citation, no_citation, accepted_before, recurring_gap, prior_failed,
}

-- The front matter of a contract's file; the rate of edits is kept as its two numbers.
pub record Contract : Type 0 where
  pub contract_id : String
  pub task : String
  pub size : String
  pub date : String
  pub project : String
  pub as_presented : String
  pub as_approved : Option String
  pub dispositions : List (String × String)
  pub edit_rate : ℕ × ℕ
  pub unresolved_provocations : List String
  pub escalations : List (String × EscalateReply)

-- The directory of contracts, in the order of `glob`; `none` is a file that cannot be parsed.
abbrev pub Files : Type 0
Files = List (String × Option Contract)

pub record Desk : Type 0 where
  pub contracts : Files
  pub risk_ledger : List RiskEntry
  pub escalations : Escalations
  pub graph : Db

-- What is Python's or a regular expression's: str.splitlines, the decimal form of a number, the same
-- with three digits, a file name's part from a text, `\s*(P\d+)`, the frame and the risk in a
-- provocation's line, and the start of a text's SHA-1.
pub record Formats : Type 0 where
  pub splitlines : String → List String
  pub decimal : ℕ → String
  pub padded : ℕ → String
  pub file_slug : String → String
  pub provocation_key : String → Option String
  pub provocation_parts : String → Option (String × String)
  pub short_hash : String → String

-- `path.write_text`
unfoldable pub set_file : String → Contract → Files → Files
set_file name c [] = (name, some c) ∷ []
set_file name c ((n, d) ∷ rest) =
    let later = (n, d) ∷ set_file name c rest in if n == name then (n, some c) ∷ rest else later

abbrev pub disposition_vocab : String
disposition_vocab = "IN-SCOPE | DEFER | ACCEPT-RISK | ESCALATE | N/A"

-- The suffix that marks a provocation without a disposition.
abbrev pub open_mark : String
open_mark = str_append "→ " disposition_vocab

module _ (formats : Formats) where
  -- `f" ({p['citation']})" if p["citation"] else ""`
  unfoldable pub citation_suffix : Citation → String
  citation_suffix no_citation = ""
  citation_suffix (accepted_before n) =
      str_append " (you accepted this risk "
        (str_append (formats.decimal n) " time(s) in recent contracts)")
  citation_suffix (recurring_gap t) = str_append " (recurring gap theme: " (str_append t ")")
  citation_suffix (prior_failed t) = str_append " (prior FAILED outcome: " (str_append t ")")

  unfoldable pub provocation_line : ℕ → Provocation → String
  unfolding citation_suffix
  provocation_line i p = str_append "  P" (
      str_append (formats.decimal i) (
        str_append " [" (
          str_append (frame_id p.frame) (
            str_append " " (
              str_append (frame_label p.frame) (
                str_append "] " (
                  str_append p.risk (
                    str_append (citation_suffix p.citation)
                      (str_append "          " open_mark)))))))))

  -- `enumerate(provocations, i)`
  unfoldable pub provocation_lines : ℕ → List Provocation → List String
  unfolding provocation_line
  provocation_lines i [] = []
  provocation_lines i (p ∷ ps) = provocation_line i p ∷ provocation_lines (suc i) ps

  abbrev pub opening_lines : String → String → String → TaskSize → List String
  opening_lines contract_id date task size =
      str_append "TASK CONTRACT " (
        str_append contract_id
          (str_append " — " (str_append date (str_append " — size " (size_value size)))))
      ∷ str_append "GOAL (in youk's words):        " task
      ∷ "DONE-MEANS (observable):       [describe what a reviewer could check to confirm done]"
      ∷ "SCOPE-IN:"
      ∷ "  - [primary deliverable]"
      ∷ "  - [secondary deliverable]"
      ∷ "SCOPE-OUT (will NOT touch):"
      ∷ "  - [highest-value exclusion — write this carefully]"
      ∷ "  - [second exclusion]"
      ∷ "ASSUMPTIONS:"
      ∷ "  - [stated-by-you] [assumption the developer stated explicitly]"
      ∷ "  - [inferred] [assumption youk inferred from context]"
      ∷ "  - [default] [assumption that holds unless stated otherwise]"
      ∷ "APPROACH:                      [2 lines max — what will be built and how]"
      ∷ ""
      ∷ "PROVOCATIONS (dispositions required before work starts):"
      ∷ []

  abbrev pub cut_list : List String
  cut_list =
      "" ∷ "CUT-LIST (in a complete version but NOT this pass):"
      ∷ "  - [honest triage — what would be built in a follow-up]" ∷ []

  abbrev pub closing_lines : List String
  closing_lines =
      ""
      ∷ "LOWEST-CONFIDENCE FIELD: DONE-MEANS — observable acceptance criteria require developer input"
      ∷ "OPEN QUESTION (max 1):   none" ∷ []

  unfoldable pub render_contract : String → String → TaskSize → List Provocation → String → String
  unfolding provocation_lines join
  render_contract contract_id task size provocations date = join "\n" (
      opening_lines contract_id date task size
      ++ provocation_lines 1 provocations
      ++ (if nat_eq (rank size) 3 then [] else cut_list)
      ++ closing_lines)
