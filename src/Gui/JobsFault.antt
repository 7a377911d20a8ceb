-- ===== src/Gui/JobsFault.antt =====
-- UpdateContent of src/CustomerPrintClientGui/JobsPage/PageJobsList.cpp while a pending job is shown
-- in front of the jobs: its index into the sizer does not pass over the pending jobs.
use customer_print_client.Prelude.{
  ℕ, ◌≡◌, refl, ◌∙◌, false, List, [], ◌∷◌, inl, inr, Option, none, some, Text, text_eq, text_eq_iff,
  arith, and_then, Option-cases, Bool-cases,
}
use customer_print_client.Prelude.Dict.{find, insert, erase, find-insert, find-erase}
use customer_print_client.Networking.Http.Request.{text_key}
use customer_print_client.Cloud.JobInfo.{PrintJobInfo, jobs_differ}
use customer_print_client.Gui.JobsPage.{
  remove_gone, Item, pending_item, JobsPage, JobUiItem, details_window, current_jobs, merge_job,
  merge_jobs, destroy_gone, update_content,
}
use customer_print_client.Gui.PendingJob.{PendingJob}
use customer_print_client.Gui.JobsMap.{times}

abbrev Current : Type 0
Current = List (Text × JobUiItem)

abbrev Result : Type 0
Result = Option (JobsPage × Current)

-- A loop faults, or leaves the job without a window.
abbrev KeepsIn : Text → PrintJobInfo → Option Current → Type 0
KeepsIn id old none = Unit
KeepsIn id old (some current) = find id current ≡ some (old, none)

abbrev Keeps : Text → PrintJobInfo → Result → Type 0
Keeps id old none = Unit
Keeps id old (some (p, current)) = find id current ≡ some (old, none)

current_jobs-KeepsIn :
    (id : Text) (old : PrintJobInfo) (jobs : List PrintJobInfo) (items : List Item)
    (found : Current)
    → find id found ≡ some (old, none)
    → KeepsIn id old (current_jobs jobs items found)
unfolding current_jobs
current_jobs-KeepsIn id old [] items found h = h
current_jobs-KeepsIn id old (job ∷ jobs) [] found h = tt
current_jobs-KeepsIn id old (job ∷ jobs) (item ∷ items) found h =
    let item' : JobUiItem = (job, details_window item) in
    let kept : find id (insert job.id item' found) ≡ some (old, none) =
      find-insert job.id id item' found ∙ rw h refl in
    current_jobs-KeepsIn id old jobs items (insert job.id item' found) kept

erase-keeps :
    (id k : Text) (old : PrintJobInfo) (current : Current)
    → text_eq k id ≡ false
    → find id current ≡ some (old, none)
    → find id (erase k current) ≡ some (old, none)
erase-keeps id k old current other h = find-erase k id current ∙ rw other h

merge_job-Keeps :
    (job old : PrintJobInfo) (id : Text) (p : JobsPage) (current : Current)
    → text_eq job.id id ≡ false
    → find id current ≡ some (old, none)
    → Keeps id old (merge_job job (p, current))
unfolding merge_job
merge_job-Keeps job old id p current other h = elim (Option-cases (find job.id current)) [
  | inl e ↦ rw (merge_job, e) h
  | inr ((j, w), e) ↦ elim (Bool-cases (jobs_differ j job)) [
    | inl d ↦ elim (Option-cases w) [
      | inl no_window ↦ rw (merge_job, e, d) (rw no_window tt)
      | inr (v, there) ↦ rw (merge_job, e, d) (rw there (erase-keeps id job.id old current other h))
    ]
    | inr d ↦ rw (merge_job, e, d) (erase-keeps id job.id old current other h)
  ]
]

next-Keeps :
    (job old : PrintJobInfo) (id : Text) (state : Result)
    → text_eq job.id id ≡ false
    → Keeps id old state
    → Keeps id old (and_then state (merge_job job))
next-Keeps job old id none other h = tt
next-Keeps job old id (some (p, current)) other h = merge_job-Keeps job old id p current other h

merge_jobs-Keeps :
    (js : List PrintJobInfo) (old : PrintJobInfo) (id : Text) (p : JobsPage) (current : Current)
    → times id js ≡ 0
    → find id current ≡ some (old, none)
    → Keeps id old (merge_jobs js (p, current))
unfolding merge_jobs
merge_jobs-Keeps [] old id p current gone h = h
merge_jobs-Keeps (job ∷ js) old id p current gone h =
    next-Keeps job old id (merge_jobs js (p, current)) (ground arith)
      (merge_jobs-Keeps js old id p current (ground arith) h)

destroy_gone-faults :
    (gone : Current) (id : Text) (old : PrintJobInfo) (p : JobsPage)
    → find id gone ≡ some (old, none)
    → destroy_gone gone p ≡ none
unfolding destroy_gone find
destroy_gone-faults [] id old p h = cc
destroy_gone-faults ((k, (job, none)) ∷ gone) id old p h = refl
destroy_gone-faults ((k, (job, some w)) ∷ gone) id old p h = elim (Bool-cases (text_eq k id)) [
  | inl e ↦ absurd (ground arith)
  | inr e ↦ destroy_gone-faults gone id old _ (ground arith)
]

-- The end of UpdateContent.
abbrev shown : Current → JobsPage → Option JobsPage
shown gone left = some (record left { jobs = remove_gone gone left.jobs })

merged-faults :
    (id : Text) (old : PrintJobInfo) (state : Result)
    → Keeps id old state
    → and_then state (λ (merged, gone). and_then (destroy_gone gone merged) (shown gone)) ≡ none
merged-faults id old none h = refl
merged-faults id old (some (p, gone)) h = rw (destroy_gone-faults gone id old p h) refl

found-faults :
    (id : Text) (old : PrintJobInfo) (js : List PrintJobInfo) (p : JobsPage)
    (found : Option Current)
    → times id js ≡ 0
    → KeepsIn id old found
    → and_then found (λ current.
      and_then
        (merge_jobs js (p, current))
        (λ (merged, gone). and_then (destroy_gone gone merged) (shown gone)))
      ≡ none
found-faults id old js p none gone h = refl
found-faults id old js p (some current) gone h =
    merged-faults id old (merge_jobs js (p, current)) (merge_jobs-Keeps js old id p current gone h)

-- While a pending job stands in front of the jobs, UpdateContent runs into a null pointer whenever the
-- new list lacks the first job of the page.
pub update_content_faults :
    (p : JobsPage) (w : ℕ) (pending : PendingJob) (items : List Item) (job : PrintJobInfo)
    (jobs js : List PrintJobInfo)
    → p.sizer ≡ pending_item w pending ∷ items
    → p.jobs ≡ job ∷ jobs
    → times job.id js ≡ 0
    → update_content js p ≡ none
unfolding update_content current_jobs insert find
update_content_faults p w pending items job jobs js front first gone =
    let one : Current = (job.id, (job, none)) ∷ [] in
    let kept : find job.id one ≡ some (job, none) = rw ((text_eq_iff job.id job.id).1 refl) refl in
    let p' : JobsPage = record p {
      need_update_content = false;
      jobs = job ∷ jobs;
      sizer = pending_item w pending ∷ items;
    } in
    rw (update_content, front, first)
      (found-faults job.id job js p' (current_jobs jobs items one) gone
        (current_jobs-KeepsIn job.id job jobs items one kept))
