-- ===== src/Gui/JobsMap.antt =====
-- The map that UpdateContent of src/CustomerPrintClientGui/JobsPage/PageJobsList.cpp makes of the jobs
-- of the page and their windows.
use customer_print_client.Prelude.{
  ℕ, ◌+◌, ◌≤◌, ◌≡◌, refl, Bool, true, false, List, [], ◌∷◌, inl, inr, Option, some, Text, text_eq,
  text_eq_iff, arith, leb, if◌then◌else◌, is_some, length, Bool-cases,
}
use customer_print_client.Prelude.Dict.{find, insert, erase, find-insert}
use customer_print_client.Networking.Http.Request.{text_key}
use customer_print_client.Cloud.JobInfo.{PrintJobInfo}
use customer_print_client.Gui.JobsPage.{Item, pending_item, details_item, JobUiItem, current_jobs}

-- How often a job with this id is in the list.
abbrev pub times : Text → List PrintJobInfo → ℕ
times i [] = 0
times i (job ∷ jobs) = (if text_eq job.id i then 1 else 0) + times i jobs

abbrev pub Current : Type 0
Current = List (Text × JobUiItem)

abbrev pub Distinct : List PrintJobInfo → Type 0
Distinct jobs = (i : Text) → times i jobs ≤ 1

-- Every job has a window of its own.
abbrev pub Windowed : Current → Type 0
Windowed [] = Unit
Windowed ((id, (job, window)) ∷ current) = (is_some window ≡ true) × Windowed current

abbrev pub all_details : List Item → Bool
all_details [] = true
all_details (pending_item w job ∷ items) = false
all_details (details_item w job ∷ items) = all_details items

insert-Windowed :
    (id : Text) (job : PrintJobInfo) (w : Option ℕ) (current : Current)
    → is_some w ≡ true
    → Windowed current
    → Windowed (insert id (job, w) current)
unfolding insert
insert-Windowed id job w [] h ok = (h, tt)
insert-Windowed id job w ((k, (j, v)) ∷ current) h ok = elim (Bool-cases (text_eq k id)) [
  | inl e ↦ rw (insert, e) ok
  | inr e ↦ rw (insert, e) (ok.0, insert-Windowed id job w current h ok.1)
]

pub erase-Windowed :
    (id : Text) (current : Current) → Windowed current → Windowed (erase id current)
unfolding erase
erase-Windowed id [] ok = tt
erase-Windowed id ((k, (j, v)) ∷ current) ok = elim (Bool-cases (text_eq k id)) [
  | inl e ↦ rw (erase, e) (erase-Windowed id current ok.1)
  | inr e ↦ rw (erase, e) (ok.0, erase-Windowed id current ok.1)
]

pub find-Windowed :
    (id : Text) (current : Current) (old : PrintJobInfo) (w : Option ℕ)
    → Windowed current
    → find id current ≡ some (old, w)
    → is_some w ≡ true
unfolding find
find-Windowed id [] old w ok e = cc
find-Windowed id ((k, (j, v)) ∷ current) old w ok e = ground (arith, find-Windowed id current old w)

-- The first loop, on windows of jobs alone: it finds a window for each job.
pub current_jobs-Windowed :
    (jobs : List PrintJobInfo) (items : List Item) (found : Current)
    → all_details items ≡ true
    → length jobs ≤ length items
    → Windowed found
    → (current : Current) × (current_jobs jobs items found ≡ some current)
      × Windowed current
      × ((i : Text)
          → is_some (find i current)
            ≡ (if is_some (find i found) then true else leb 1 (times i jobs)))
unfolding current_jobs
current_jobs-Windowed [] items found d n ok = (found, refl, ok, λ i. ground arith)
current_jobs-Windowed (job ∷ jobs) [] found d n ok = absurd (omega (arith, n))
current_jobs-Windowed (job ∷ jobs) (pending_item w j ∷ items) found d n ok = cc
current_jobs-Windowed (job ∷ jobs) (details_item w j ∷ items) found d n ok =
    let (current, e, ok', finds) =
      current_jobs-Windowed jobs items (insert job.id (job, some w) found) d (omega (arith, n))
        (insert-Windowed job.id job (some w) found refl ok) in
    (
      current,
      e,
      ok',
      λ i. ground (arith, finds i, find-insert job.id i (job, some w) found, text_eq_iff job.id i),
    )
