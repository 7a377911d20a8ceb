-- ===== src/Gui/JobsPage.antt =====
-- The list of jobs in src/CustomerPrintClientGui/JobsPage: PageJobsList.cpp. A wxSizer is the list of its windows; a window is a number and is taken off the
-- sizer when it is destroyed. `none` is undefined behaviour: a call through a null pointer.
use customer_print_client.Prelude.{
  ℕ, zero, suc, ◌+◌, ◌-◌, Bool, true, false, List, [], ◌∷◌, Option, none, some, Text, text_eq, ◌==◌,
  if◌then◌else◌, and_then,
}
use customer_print_client.Gui.PendingJob.{PendingJob, new_pending_job, Status, update_status}
use customer_print_client.Prelude.Dict.{find, insert, erase}
use customer_print_client.Networking.Http.Request.{text_key}
use customer_print_client.Cloud.JobInfo.{PrintJobInfo, jobs_differ, update_job_from_another}

-- A window of the sizer: CtrlPendingJob, or CtrlJobDetails with the job as it shows it.
pub data Item : Type 0 where
  pending_item : ℕ → PendingJob → Item
  details_item : ℕ → PrintJobInfo → Item

pub record JobsPage : Type 0 where
  pub pending_count : ℕ
  pub need_update_content : Bool
  pub jobs : List PrintJobInfo
  pub selected_child : Option ℕ
  pub sizer : List Item
  pub next_window : ℕ

unfoldable pub new_jobs_page : JobsPage
new_jobs_page = record {
  pending_count = 0;
  need_update_content = true;
  jobs = [];
  selected_child = none;
  sizer = [];
  next_window = 0;
}

-- wxSizer::Insert
unfoldable pub insert_at : ℕ → Item → List Item → List Item
insert_at zero item items = item ∷ items
insert_at (suc n) item [] = item ∷ []
insert_at (suc n) item (x ∷ items) = x ∷ insert_at n item items

-- GetPendingJobCtrl: a loop over the first m_pendingCount windows.
unfoldable pub get_pending_job_ctrl : ℕ → ℕ → List Item → Option ℕ
get_pending_job_ctrl id zero items = none
get_pending_job_ctrl id (suc n) [] = none
get_pending_job_ctrl id (suc n) (pending_item w job ∷ items) =
    let rest = get_pending_job_ctrl id n items in if job.pending_job_id == id then some w else rest
get_pending_job_ctrl id (suc n) (details_item w job ∷ items) = get_pending_job_ctrl id n items

-- Destroy of a CtrlPendingJob and of a CtrlJobDetails.
unfoldable pub destroy_pending : ℕ → List Item → List Item
destroy_pending w [] = []
destroy_pending w (pending_item v job ∷ items) =
    let rest = destroy_pending w items in if v == w then items else pending_item v job ∷ rest
destroy_pending w (item ∷ items) = item ∷ destroy_pending w items

unfoldable pub destroy_details : ℕ → List Item → List Item
destroy_details w [] = []
destroy_details w (details_item v job ∷ items) =
    let rest = destroy_details w items in if v == w then items else details_item v job ∷ rest
destroy_details w (item ∷ items) = item ∷ destroy_details w items

unfoldable pub change_pending : ℕ → (PendingJob → PendingJob) → List Item → List Item
change_pending w f [] = []
change_pending w f (pending_item v job ∷ items) =
    let rest = change_pending w f items in
    if v == w then pending_item v (f job) ∷ items else pending_item v job ∷ rest
change_pending w f (item ∷ items) = item ∷ change_pending w f items

unfoldable pub create_pending_job : ℕ → ℕ → JobsPage → JobsPage
unfolding new_pending_job
create_pending_job id page_count p = record p {
  pending_count = p.pending_count + 1;
  sizer = pending_item p.next_window (new_pending_job id page_count) ∷ p.sizer;
  next_window = p.next_window + 1;
}

unfoldable pub delete_pending_job : ℕ → JobsPage → JobsPage
delete_pending_job id p = elim (get_pending_job_ctrl id p.pending_count p.sizer) [
  | none ↦ p
  | some w ↦ record p { sizer = destroy_pending w p.sizer; pending_count = p.pending_count - 1 }
]

-- UpdatePendingJobStatusRendering and the four others.
unfoldable pub update_pending_job_status : ℕ → Status → JobsPage → JobsPage
update_pending_job_status id status p = elim (get_pending_job_ctrl id p.pending_count p.sizer) [
  | none ↦ p
  | some w ↦ record p { sizer = change_pending w (update_status status) p.sizer }
]

abbrev pub selects : Option ℕ → ℕ → Bool
selects none w = false
selects (some v) w = v == w

unfoldable pub replace_pending_job_with_complete : ℕ → PrintJobInfo → JobsPage → JobsPage
replace_pending_job_with_complete id job p =
    elim (get_pending_job_ctrl id p.pending_count p.sizer) [
      | none ↦ p
      | some w ↦ record p {
        jobs = job ∷ p.jobs;
        selected_child =
            if selects p.selected_child w then some p.next_window else p.selected_child;
        sizer =
            destroy_pending w (insert_at p.pending_count (details_item p.next_window job) p.sizer);
        pending_count = p.pending_count - 1;
        next_window = p.next_window + 1;
      }
    ]

unfoldable pub on_job_clicked : ℕ → JobsPage → JobsPage
on_job_clicked w p = record p { selected_child = some w }

-- JobUiItem: a job of m_jobs and the window that `dynamic_cast<CtrlJobDetails*>` finds for it.
abbrev pub JobUiItem : Type 0
JobUiItem = PrintJobInfo × Option ℕ

abbrev pub details_window : Item → Option ℕ
details_window (pending_item w job) = none
details_window (details_item w job) = some w

-- The first loop of UpdateContent, with itemIdx from 0.
unfoldable pub current_jobs :
    List PrintJobInfo → List Item → List (Text × JobUiItem) → Option (List (Text × JobUiItem))
current_jobs [] items found = some found
current_jobs (job ∷ jobs) [] found = none
current_jobs (job ∷ jobs) (item ∷ items) found =
    current_jobs jobs items (insert job.id (job, details_window item) found)

-- UpdateJobFromAnother through the shared pointer, and UpdateJob of the window.
unfoldable pub update_shared : PrintJobInfo → List PrintJobInfo → List PrintJobInfo
update_shared job [] = []
update_shared job (j ∷ jobs) =
    let rest = update_shared job jobs in
    if text_eq j.id job.id then update_job_from_another j job ∷ jobs else j ∷ rest

unfoldable pub show_job : ℕ → PrintJobInfo → List Item → List Item
show_job w job [] = []
show_job w job (details_item v j ∷ items) =
    let rest = show_job w job items in
    if v == w
    then details_item v (update_job_from_another j job) ∷ items
    else details_item v j ∷ rest
show_job w job (item ∷ items) = item ∷ show_job w job items

-- The body of the second loop, for a job of the new list.
unfoldable pub merge_job :
    PrintJobInfo → JobsPage × List (Text × JobUiItem) → Option (JobsPage × List (Text × JobUiItem))
merge_job job (p, current) = elim (find job.id current) [
  | none ↦ some (
    record p {
      jobs = job ∷ p.jobs;
      sizer = insert_at p.pending_count (details_item p.next_window job) p.sizer;
      next_window = p.next_window + 1;
    },
    current,
  )
  | some (old, window) ↦
      if jobs_differ old job
      then elim window [
        | none ↦ none
        | some w ↦ some (
          record p { jobs = update_shared job p.jobs; sizer = show_job w job p.sizer },
          erase job.id current,
        )
      ]
      else some (p, erase job.id current)
]

-- The second loop runs over the new list from its end.
unfoldable pub merge_jobs :
    List PrintJobInfo
    → JobsPage × List (Text × JobUiItem)
    → Option (JobsPage × List (Text × JobUiItem))
merge_jobs [] state = some state
merge_jobs (job ∷ jobs) state = and_then (merge_jobs jobs state) (merge_job job)

-- The third loop: the windows of the jobs that are gone.
unfoldable pub destroy_gone : List (Text × JobUiItem) → JobsPage → Option JobsPage
destroy_gone [] p = some p
destroy_gone ((id, (job, none)) ∷ gone) p = none
destroy_gone ((id, (job, some w)) ∷ gone) p = destroy_gone gone (record p {
  selected_child = if selects p.selected_child w then none else p.selected_child;
  sizer = destroy_details w p.sizer;
})

-- m_jobs->remove_if, for one key: the first job with it.
unfoldable pub remove_job : Text → List PrintJobInfo → List PrintJobInfo
remove_job id [] = []
remove_job id (job ∷ jobs) =
    let rest = remove_job id jobs in if text_eq job.id id then jobs else job ∷ rest

unfoldable pub remove_gone : List (Text × JobUiItem) → List PrintJobInfo → List PrintJobInfo
remove_gone [] jobs = jobs
remove_gone ((id, item) ∷ gone) jobs = remove_gone gone (remove_job id jobs)

unfoldable pub update_content : List PrintJobInfo → JobsPage → Option JobsPage
update_content jobs p = and_then (current_jobs p.jobs p.sizer []) λ current.
    and_then (merge_jobs jobs (record p { need_update_content = false }, current)) λ (merged, gone).
      and_then (destroy_gone gone merged)
        λ left. some (record left { jobs = remove_gone gone left.jobs })
