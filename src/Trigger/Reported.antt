-- ===== src/Trigger/Reported.antt =====
-- What is printed for a process, against the results that matter.
use mathlib.Core.List.{append_assoc}
use libpulp.Base.{
  append_nil, subst, ◌⊎◌, ℕ, List, [], ◌∷◌, ◌++◌, Option, none, some, Bool, true, false, ◌&&◌,
  if◌then◌else◌, ◌≡◌, refl, sym, ap, ◌∙◌, arith, ◌↔◌, inl, inr, Bool-cases,
}
use libpulp.Trigger.Defs.{TriggerResult, skippable_error}
use libpulp.Trigger.Summary.{
  Tag, success, Report, silent, summary, listing, is_minor, find_error, summarize_step,
  find_summary, first_error, summary_tag, line_tag, list_results, is_none, report_of,
  print_patched_unpatched, named, skipped,
}

-- The results that are not about a patch for another process.
unfoldable pub important : List TriggerResult → List TriggerResult
important [] = []
important (r ∷ rs) = if is_minor r.err then important rs else r ∷ important rs

-- The results that a report names, each with its word.
unfoldable pub lines : Report → List (Tag × TriggerResult)
lines silent = []
lines (summary tag err none) = []
lines (summary tag err (some r)) = (tag, r) ∷ []
lines (listing ls) = ls

abbrev pub results_of : List (Tag × TriggerResult) → List TriggerResult
results_of [] = []
results_of ((tag, r) ∷ ls) = r ∷ results_of ls

-- SUCCESS stands exactly at the results without an error.
abbrev pub Truthful : List (Tag × TriggerResult) → Type 0
Truthful [] = Unit
Truthful ((tag, r) ∷ ls) = ((tag ≡ success) ↔ (r.err ≡ 0)) × Truthful ls

abbrev found_list : Option TriggerResult → List TriggerResult
found_list none = []
found_list (some r) = r ∷ []

abbrev Matches : ℕ → Option TriggerResult → Type 0
Matches err none = Unit
Matches err (some r) = (r.err ≡ err) × (is_minor r.err ≡ false)

list_results-important :
    (hide : Bool) (rs : List TriggerResult)
    → important (results_of (list_results hide rs)) ≡ important rs
unfolding list_results important
list_results-important hide [] = refl
list_results-important hide (r ∷ rs) = let rest = list_results-important hide rs in ground arith

line_tag_lem : (err : ℕ) → (line_tag err ≡ success) ↔ (err ≡ 0)
unfolding line_tag
line_tag_lem err = ((λ h. ground arith), (λ z. ground arith))

if-Truthful :
    (c : Bool) (xs ys : List (Tag × TriggerResult))
    → Truthful xs
    → Truthful ys
    → Truthful (if c then xs else ys)
if-Truthful true xs ys h k = h
if-Truthful false xs ys h k = k

list_results-Truthful : (hide : Bool) (rs : List TriggerResult) → Truthful (list_results hide rs)
unfolding list_results
list_results-Truthful hide [] = tt
list_results-Truthful hide (r ∷ rs) =
    let rest = list_results-Truthful hide rs in
    if-Truthful (is_minor r.err && hide) (list_results hide rs) _ rest (line_tag_lem r.err, rest)

step_cases :
    (err : ℕ) (hide : Bool) (r : TriggerResult) (b : Bool) (found : Option TriggerResult)
    → ((is_minor r.err ≡ true) × (summarize_step err hide r (b, found) ≡ (b, found)))
      ⊎ (((summarize_step err hide r (b, found)).0 ≡ false)
          ⊎ ((is_minor r.err ≡ false)
              × (r.err ≡ err)
              × (found ≡ none)
              × (summarize_step err hide r (b, found) ≡ (b, some r))))
unfolding summarize_step
step_cases err hide r b none = ground arith
step_cases err hide r b (some f) = ground arith

-- The summary so far, not given up: it holds every result that matters.
abbrev Kept : ℕ → Option TriggerResult → List TriggerResult → Bool × Option TriggerResult → Type 0
Kept err found rs s =
    (found_list s.1 ≡ found_list found ++ important rs) × (Matches err found → Matches err s.1)

step-Kept :
    (err : ℕ) (hide : Bool) (r : TriggerResult) (b : Bool) (found : Option TriggerResult)
    → (summarize_step err hide r (b, found)).0 ≡ true
    → (b ≡ true) × Kept err found (r ∷ []) (summarize_step err hide r (b, found))
unfolding important
step-Kept err hide r b found h = elim (step_cases err hide r b found) [
  | inl (minor, e) ↦
      let nothing : important (r ∷ []) ≡ [] = rw minor refl in
      (
        sym (ap (λ s. s.0) e) ∙ h,
        subst (Kept err found (r ∷ [])) (sym e) (
          sym (append_nil (found_list found)) ∙ ap (λ l. found_list found ++ l) (sym nothing),
          λ m. m,
        ),
      )
  | inr (inl e) ↦ absurd (ground arith)
  | inr (inr (major, same, empty, e)) ↦
      let here : important (r ∷ []) ≡ r ∷ [] = rw major refl in
      (
        sym (ap (λ s. s.0) e) ∙ h,
        subst (Kept err found (r ∷ [])) (sym e) (
          sym here ∙ ap (λ o. found_list o ++ important (r ∷ [])) (sym empty),
          λ m. (same, major),
        ),
      )
]

important-cons :
    (r : TriggerResult) (rs : List TriggerResult)
    → important (r ∷ rs) ≡ important (r ∷ []) ++ important rs
unfolding important
important-cons r rs = ground arith

find_summary-Kept :
    (err : ℕ) (hide : Bool) (rs : List TriggerResult) (s : Bool × Option TriggerResult)
    → (find_summary err hide rs s).0 ≡ true
    → (s.0 ≡ true) × Kept err s.1 rs (find_summary err hide rs s)
unfolding find_summary important
find_summary-Kept err hide [] s h = (h, (sym (append_nil (found_list s.1)), λ m. m))
find_summary-Kept err hide (r ∷ rs) s h =
    let next = summarize_step err hide r s in
    let (kept, (list, good)) = find_summary-Kept err hide rs next h in
    let (start, (one, first)) = step-Kept err hide r s.0 s.1 kept in
    (
      start,
      (
        list
            ∙ ap (λ l. l ++ important rs) one
            ∙ append_assoc (found_list s.1) (important (r ∷ [])) (important rs)
            ∙ ap (λ l. found_list s.1 ++ l) (sym (important-cons r rs)),
        λ m. good (first m),
      ),
    )

summary_tag_lem : (err : ℕ) → (summary_tag err ≡ success) ↔ (err ≡ 0)
unfolding summary_tag
summary_tag_lem err = ((λ h. ground arith), (λ z. ground arith))

-- What is printed names the results that matter, in their order, and calls them what they are.
abbrev pub Complete : Report → List TriggerResult → Type 0
Complete report rs =
    (important (results_of (lines report)) ≡ important rs) × Truthful (lines report)

-- What is printed is only the text of an error for which patches are skipped, and just one result
-- matters, which has that error.
abbrev pub IsUnnamed : Report → List TriggerResult → Type 0
IsUnnamed report rs =
    (r : TriggerResult) × (important rs ≡ r ∷ [])
    × (skippable_error r.err ≡ true)
    × (report ≡ summary skipped r.err none)

summary_tag-skips : (err : ℕ) → skippable_error err ≡ true → summary_tag err ≡ skipped
unfolding summary_tag
summary_tag-skips err h = rw h refl

-- The summary of one result.
summary_lines :
    (err : ℕ) (hide : Bool) (f : TriggerResult) (rs : List TriggerResult)
    → f ∷ [] ≡ important rs
    → f.err ≡ err
    → is_minor f.err ≡ false
    → let report = report_of true err hide (true, some f) rs in
      IsUnnamed report rs ⊎ Complete report rs
unfolding report_of is_none lines important named
summary_lines err hide f rs kept same major = elim (Bool-cases (skippable_error err)) [
  | inl skip ↦ inl (
    f,
    sym kept,
    ap skippable_error same ∙ skip,
    rw (skip, summary_tag-skips err skip, same) refl,
  )
  | inr other ↦ inr (
    rw (other, major) kept,
    rw other
        ((λ e. same ∙ (summary_tag_lem err).0 e, λ e. (summary_tag_lem err).1 (sym same ∙ e)), tt),
  )
]

-- Every way that the printing ends.
report_lines :
    (summarize : Bool) (err : ℕ) (hide b : Bool) (found : Option TriggerResult)
    (rs : List TriggerResult)
    → (b ≡ true → (found_list found ≡ important rs) × Matches err found)
    → let report = report_of summarize err hide (b, found) rs in
      IsUnnamed report rs ⊎ Complete report rs
unfolding report_of is_none lines important
report_lines summarize err hide false none rs h =
    inr (list_results-important _ rs, list_results-Truthful _ rs)
report_lines summarize err hide false (some f) rs h =
    inr (list_results-important _ rs, list_results-Truthful _ rs)
report_lines summarize err hide true none rs h = inr ((h refl).0, tt)
report_lines true err hide true (some f) rs h =
    let (kept, (same, major)) = h refl in summary_lines err hide f rs kept same major
report_lines false err hide true (some f) rs h =
    inr (list_results-important _ rs, list_results-Truthful _ rs)

-- What is printed for a process, with summaries or without, is one of two things. It names exactly
-- the results that are neither EBUILDID nor ENOTARGETLIB, in their order, besides results with these
-- two errors, and SUCCESS stands exactly at results without an error; it names nothing only if there
-- is no such result. Or there is exactly one such result, with a skippable error, and SKIPPED is
-- printed with the text of that error and without the name of the patch.
pub print_patched_unpatched-important :
    (summarize : Bool) (rs : List TriggerResult)
    → let report = print_patched_unpatched summarize rs in IsUnnamed report rs ⊎ Complete report rs
unfolding print_patched_unpatched
print_patched_unpatched-important summarize rs =
    let (err, hide) = find_error rs (first_error rs) false in
    let start : Bool × Option TriggerResult = (true, none) in
    let s = find_summary err hide rs start in
    report_lines summarize err hide s.0 s.1 rs
      (λ e. let (ok, (list, good)) = find_summary-Kept err hide rs start e in (list, good tt))
