-- ===== src/Gui/JobsLayout.antt =====
-- The order of the windows on the page of src/CustomerPrintClientGui/JobsPage/PageJobsList.cpp: the
-- pending jobs, as many as m_pendingCount, then the jobs.
use customer_print_client.Gui.JobsItems.{
  pending_first, inserted, destroyed_details, changed, shown, destroyed_pending, found_still,
}
use customer_print_client.Prelude.{
  ℕ, suc, ◌+◌, ◌≡◌, refl, ap, ◌∙◌, true, false, List, [], ◌∷◌, inl, inr, Option, none, some, Text,
  arith, and_then, and_then-some, Option-cases, Bool-cases,
}
use mathlib.Core.Path.{subst}
use customer_print_client.Prelude.Dict.{find}
use customer_print_client.Networking.Http.Request.{text_key}
use customer_print_client.Cloud.JobInfo.{PrintJobInfo, jobs_differ}
use customer_print_client.Gui.JobsPage.{
  Item, pending_item, details_item, JobsPage, JobUiItem, new_jobs_page, insert_at,
  get_pending_job_ctrl, create_pending_job, delete_pending_job, update_pending_job_status,
  replace_pending_job_with_complete, on_job_clicked, current_jobs, merge_job, merge_jobs,
  destroy_gone, remove_gone, update_content,
}
use customer_print_client.Gui.PendingJob.{new_pending_job, PendingJob, Status, update_status}

-- The calls of the page.
pub data PageEvent : Type 0 where
  pending_created : ℕ → ℕ → PageEvent
  pending_deleted : ℕ → PageEvent
  status_updated : ℕ → Status → PageEvent
  replaced : ℕ → PrintJobInfo → PageEvent
  job_clicked : ℕ → PageEvent
  content_updated : List PrintJobInfo → PageEvent

unfoldable pub page_step : JobsPage → PageEvent → Option JobsPage
page_step p (pending_created id pages) = some (create_pending_job id pages p)
page_step p (pending_deleted id) = some (delete_pending_job id p)
page_step p (status_updated id status) = some (update_pending_job_status id status p)
page_step p (replaced id job) = some (replace_pending_job_with_complete id job p)
page_step p (job_clicked w) = some (on_job_clicked w p)
page_step p (content_updated jobs) = update_content jobs p

unfoldable pub page_run : JobsPage → List PageEvent → Option JobsPage
page_run p [] = some p
page_run p (e ∷ es) = and_then (page_step p e) λ p'. page_run p' es

abbrev LaidOut : JobsPage → Type 0
LaidOut p = pending_first p.pending_count p.sizer ≡ true

delete-LaidOut : (id : ℕ) (p : JobsPage) → LaidOut p → LaidOut (delete_pending_job id p)
unfolding delete_pending_job
delete-LaidOut id p h = elim (Option-cases (get_pending_job_ctrl id p.pending_count p.sizer)) [
  | inl e ↦ rw (delete_pending_job, e) h
  | inr (w, e) ↦ rw (delete_pending_job, e) (destroyed_pending id p.pending_count w p.sizer h e)
]

update-LaidOut :
    (id : ℕ) (status : Status) (p : JobsPage)
    → LaidOut p
    → LaidOut (update_pending_job_status id status p)
unfolding update_pending_job_status
update-LaidOut id status p h =
    elim (Option-cases (get_pending_job_ctrl id p.pending_count p.sizer)) [
      | inl e ↦ rw (update_pending_job_status, e) h
      | inr (w, e) ↦
          rw (update_pending_job_status, e)
            (changed p.pending_count w (update_status status) p.sizer h)
    ]

replace-LaidOut :
    (id : ℕ) (job : PrintJobInfo) (p : JobsPage)
    → LaidOut p
    → LaidOut (replace_pending_job_with_complete id job p)
unfolding replace_pending_job_with_complete
replace-LaidOut id job p h = elim (Option-cases (get_pending_job_ctrl id p.pending_count p.sizer)) [
  | inl e ↦ rw (replace_pending_job_with_complete, e) h
  | inr (w, e) ↦
      let n = p.pending_count in
      let items = insert_at n (details_item p.next_window job) p.sizer in
      rw (replace_pending_job_with_complete, e)
        (destroyed_pending id n w items (inserted n p.next_window job p.sizer h)
          (found_still id n p.next_window job p.sizer ∙ e))
]

-- The loops of UpdateContent fault, or keep the order.
abbrev Keeps : Option (JobsPage × List (Text × JobUiItem)) → Type 0
Keeps none = Unit
Keeps (some (p, current)) = LaidOut p

merge_job-Keeps :
    (job : PrintJobInfo) (p : JobsPage) (current : List (Text × JobUiItem))
    → LaidOut p
    → Keeps (merge_job job (p, current))
unfolding merge_job
merge_job-Keeps job p current h = elim (Option-cases (find job.id current)) [
  | inl e ↦ rw (merge_job, e) (inserted p.pending_count p.next_window job p.sizer h)
  | inr ((j, w), e) ↦ elim (Bool-cases (jobs_differ j job)) [
    | inl d ↦ elim (Option-cases w) [
      | inl no_window ↦ rw (merge_job, e, d) (rw no_window tt)
      | inr (v, there) ↦ rw (merge_job, e, d) (rw there (shown p.pending_count v job p.sizer h))
    ]
    | inr d ↦ rw (merge_job, e, d) h
  ]
]

next-Keeps :
    (job : PrintJobInfo) (state : Option (JobsPage × List (Text × JobUiItem)))
    → Keeps state
    → Keeps (and_then state (merge_job job))
next-Keeps job none h = tt
next-Keeps job (some (p, current)) h = merge_job-Keeps job p current h

merge_jobs-Keeps :
    (js : List PrintJobInfo) (p : JobsPage) (current : List (Text × JobUiItem))
    → LaidOut p
    → Keeps (merge_jobs js (p, current))
unfolding merge_jobs
merge_jobs-Keeps [] p current h = h
merge_jobs-Keeps (job ∷ js) p current h =
    next-Keeps job (merge_jobs js (p, current)) (merge_jobs-Keeps js p current h)

abbrev LaidOutIn : Option JobsPage → Type 0
LaidOutIn none = Unit
LaidOutIn (some p) = LaidOut p

destroy_gone-LaidOutIn :
    (gone : List (Text × JobUiItem)) (p : JobsPage) → LaidOut p → LaidOutIn (destroy_gone gone p)
unfolding destroy_gone
destroy_gone-LaidOutIn [] p h = h
destroy_gone-LaidOutIn ((id, (job, none)) ∷ gone) p h = tt
destroy_gone-LaidOutIn ((id, (job, some w)) ∷ gone) p h =
    destroy_gone-LaidOutIn gone _ (destroyed_details p.pending_count w p.sizer h)

ended-LaidOutIn :
    (gone : List (Text × JobUiItem)) (left : Option JobsPage)
    → LaidOutIn left
    → LaidOutIn (and_then left λ left. some (record left { jobs = remove_gone gone left.jobs }))
ended-LaidOutIn gone none h = tt
ended-LaidOutIn gone (some left) h = h

merged-LaidOutIn :
    (state : Option (JobsPage × List (Text × JobUiItem)))
    → Keeps state
    → LaidOutIn (
        and_then state λ (merged, gone).
          and_then
            (destroy_gone gone merged)
            λ left. some (record left { jobs = remove_gone gone left.jobs }))
merged-LaidOutIn none h = tt
merged-LaidOutIn (some (p, gone)) h =
    ended-LaidOutIn gone (destroy_gone gone p) (destroy_gone-LaidOutIn gone p h)

content-LaidOutIn :
    (js : List PrintJobInfo) (p : JobsPage) → LaidOut p → LaidOutIn (update_content js p)
unfolding update_content
content-LaidOutIn js p h = elim (Option-cases (current_jobs p.jobs p.sizer [])) [
  | inl e ↦ rw (update_content, e) tt
  | inr (current, e) ↦
      let p' : JobsPage = record p { need_update_content = false } in
      rw (update_content, e)
        (merged-LaidOutIn (merge_jobs js (p', current)) (merge_jobs-Keeps js p' current h))
]

created_first :
    (n w : ℕ) (job : PendingJob) (items : List Item)
    → pending_first n items ≡ true
    → pending_first (n + 1) (pending_item w job ∷ items) ≡ true
created_first n w job items h =
    let next : n + 1 ≡ suc n = omega arith in
    ap (λ k. pending_first k (pending_item w job ∷ items)) next ∙ h

step-LaidOutIn : (e : PageEvent) (p : JobsPage) → LaidOut p → LaidOutIn (page_step p e)
unfolding page_step create_pending_job on_job_clicked
step-LaidOutIn (pending_created id pages) p h =
    created_first p.pending_count p.next_window (new_pending_job id pages) p.sizer h
step-LaidOutIn (pending_deleted id) p h = delete-LaidOut id p h
step-LaidOutIn (status_updated id status) p h = update-LaidOut id status p h
step-LaidOutIn (replaced id job) p h = replace-LaidOut id job p h
step-LaidOutIn (job_clicked w) p h = h
step-LaidOutIn (content_updated jobs) p h = content-LaidOutIn jobs p h

run-LaidOut :
    (es : List PageEvent) (p p' : JobsPage) → LaidOut p → page_run p es ≡ some p' → LaidOut p'
unfolding page_run
run-LaidOut [] p p' h e = subst LaidOutIn e h
run-LaidOut (e ∷ es) p p' h ran =
    let (next, stepped, rest) = and_then-some (page_step p e) (λ q. page_run q es) p' ran in
    let laid : LaidOutIn (some next) = subst LaidOutIn stepped (step-LaidOutIn e p h) in
    run-LaidOut es next p' laid rest

-- Over any history of the page that does not fault, the first windows are the pending jobs, as many
-- as the page counts, and behind them are jobs only.
pub pending_in_front :
    (es : List PageEvent) (p : JobsPage)
    → page_run new_jobs_page es ≡ some p
    → pending_first p.pending_count p.sizer ≡ true
unfolding new_jobs_page
pending_in_front es p e = run-LaidOut es new_jobs_page p refl e
