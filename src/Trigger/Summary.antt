-- ===== src/Trigger/Summary.antt =====
-- print_patched_unpatched of tools/trigger.c: which lines it prints for a process. A line is its
-- word and the result that it is about.
use libpulp.Base.{
  ℕ, List, [], ◌∷◌, Option, none, some, Bool, true, false, ◌==◌, ◌||◌, ◌&&◌, not, if◌then◌else◌,
}
use libpulp.Errors.Codes.{ebuildid, enotargetlib, eunknown}
use libpulp.Trigger.Defs.{TriggerResult, skippable_error}

pub data Tag : Type 0 where
  skipped : Tag
  failed : Tag
  success : Tag

-- What is printed for a process; a summary has an error and at most one result, by the name of its
-- patch.
pub data Report : Type 0 where
  silent : Report
  summary : Tag → ℕ → Option TriggerResult → Report
  listing : List (Tag × TriggerResult) → Report

-- An error of a patch that was not for the process.
abbrev pub is_minor : ℕ → Bool
is_minor err = err == ebuildid || err == enotargetlib

-- The first loop: `err` and `hide_skipped`.
unfoldable pub find_error : List TriggerResult → ℕ → Bool → ℕ × Bool
find_error [] err hide = (err, hide)
find_error (r ∷ rs) err hide =
    if r.err == 0 || not (is_minor r.err) then find_error rs r.err true else find_error rs err hide

-- The second loop: `summarized` and `summarized_result`.
unfoldable pub summarize_step :
    ℕ → Bool → TriggerResult → Bool × Option TriggerResult → Bool × Option TriggerResult
summarize_step err hide r (summarized, found) =
    if hide && is_minor r.err
    then (summarized, found)
    else if not (r.err == err)
    then (false, found)
    else if is_minor r.err
    then (summarized, found)
    else elim found [ none ↦ (summarized, some r) | some f ↦ (false, some f) ]

unfoldable pub find_summary :
    ℕ → Bool → List TriggerResult → Bool × Option TriggerResult → Bool × Option TriggerResult
find_summary err hide [] s = s
find_summary err hide (r ∷ rs) s = find_summary err hide rs (summarize_step err hide r s)

unfoldable pub first_error : List TriggerResult → ℕ
first_error [] = eunknown
first_error (r ∷ rs) = r.err

unfoldable pub summary_tag : ℕ → Tag
summary_tag err = if skippable_error err then skipped else if err == 0 then success else failed

unfoldable pub line_tag : ℕ → Tag
line_tag err = if is_minor err then skipped else if err == 0 then success else failed

-- The loop that lists the results.
unfoldable pub list_results : Bool → List TriggerResult → List (Tag × TriggerResult)
list_results hide [] = []
list_results hide (r ∷ rs) =
    if is_minor r.err && hide
    then list_results hide rs
    else (line_tag r.err, r) ∷ list_results hide rs

unfoldable pub is_none : Option TriggerResult → Bool
is_none none = true
is_none (some r) = false

-- The result whose patch a summary names: the line with SKIPPED has only the text of the error.
unfoldable pub named : ℕ → Option TriggerResult → Option TriggerResult
named err found = if skippable_error err then none else found

unfoldable pub report_of :
    Bool → ℕ → Bool → Bool × Option TriggerResult → List TriggerResult → Report
report_of summarize err hide (summarized, found) results =
    if is_none found && summarized
    then silent
    else if summarized && summarize
    then summary (summary_tag err) err (named err found)
    else listing (list_results (hide && summarize) results)

-- print_patched_unpatched
unfoldable pub print_patched_unpatched : Bool → List TriggerResult → Report
print_patched_unpatched summarize results =
    let (err, hide) = find_error results (first_error results) false in
    report_of summarize err hide (find_summary err hide results (true, none)) results
