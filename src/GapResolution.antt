-- ===== src/GapResolution.antt =====
-- classify_gap and reverify_gap_signals of servers/core/src/gap_resolution.py.
pub mod Partition
mod Tests
use Prim.Native.Nat.{◌*◌}
use youk.Prelude.{
  ℕ, suc, ◌+◌, String, Bool, true, false, List, [], ◌∷◌, ◌++◌, ◌==◌, if◌then◌else◌, length, select,
  contains, ltb, leb,
}

pub data Verdict : Type 0 where
  resolved open_gap unknown : Verdict

abbrev pub is_resolved : Verdict → Bool
is_resolved resolved = true
is_resolved open_gap = false
is_resolved unknown = false

pub record Signal : Type 0 where
  pub skill : String
  pub gaps : List String

pub record ResolvedGap : Type 0 where
  pub skill : String
  pub gap : String

pub record Split : Type 0 where
  pub open_signals : List Signal
  pub resolved_gaps : List ResolvedGap
  pub unverifiable : List Signal
  pub checked : ℕ

-- `tokens` is _tokens, the distinct words of a text, `strip` str.strip, and `skill_text` the text of
-- a skill's SKILL.md, "" where it cannot be read.
module _ (tokens : String → List String) (strip : String → String)
    (skill_text : String → String) where
  -- The share of the tokens is compared with 0.75.
  unfoldable pub classify_gap : String → String → Verdict
  unfolding select contains
  classify_gap gap text =
      if ltb (length (tokens gap)) 3
      then unknown
      else if strip text == ""
      then open_gap
      else if leb (3 * length (tokens gap))
          (4 * length (select (contains (tokens text)) (tokens gap)))
      then resolved
      else open_gap

  unfoldable pub split_gaps : String → String → List String → List ResolvedGap × List String
  unfolding classify_gap
  split_gaps name text [] = ([], [])
  split_gaps name text (gap ∷ gaps) =
      let (settled, still_open) = split_gaps name text gaps in
      if is_resolved (classify_gap gap text)
      then (record { skill = name; gap = gap } ∷ settled, still_open)
      else (settled, gap ∷ still_open)

  abbrev pub reopened : String → List String → List Signal
  reopened name [] = []
  reopened name (gap ∷ gaps) = record { skill = name; gaps = gap ∷ gaps } ∷ []

  unfoldable pub reverify_gap_signals : List Signal → Split
  unfolding split_gaps
  reverify_gap_signals [] = record {
    open_signals = [];
    resolved_gaps = [];
    unverifiable = [];
    checked = 0;
  }
  reverify_gap_signals (signal ∷ signals) =
      let rest = reverify_gap_signals signals in
      let (settled, still_open) = split_gaps signal.skill (skill_text signal.skill) signal.gaps in
      if skill_text signal.skill == ""
      then record rest {
        open_signals = signal ∷ rest.open_signals;
        unverifiable = signal ∷ rest.unverifiable;
      }
      else record rest {
        open_signals = reopened signal.skill still_open ++ rest.open_signals;
        resolved_gaps = settled ++ rest.resolved_gaps;
        checked = length signal.gaps + rest.checked;
      }
