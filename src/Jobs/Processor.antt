-- ===== src/Jobs/Processor.antt =====
-- The state of JobProcessorImpl and of its PendingJob objects, and the registry of pending jobs
-- (src/CustomerPrintClientCore/JobProcessor.cpp).
use customer_print_client.Prelude.{
  ℕ, ◌+◌, Bool, true, false, List, [], ◌∷◌, Option, none, some, Text, ◌==◌, ==_iff, if◌then◌else◌,
  length,
}
use customer_print_client.Prelude.Dict.{Key, find, insert, assign, erase}
use customer_print_client.Printing.ImageFormat.{ImageFormat}
use customer_print_client.Jobs.Types.{
  Exception, PendingJobInfo, Progress, on_destroy, Request, Task,
}

instance abbrev pub id_key : Key ℕ
id_key = record { eq = ◌==◌; eq_iff = ==_iff }

-- What a promise is set to: a RenderAndUploadResult, with the job that the server reports or
-- with none, or an exception. The job's PrintJobInfo is handed on unread, so its id stands for it.
pub data Outcome : Type 0 where
  value : Option Text → ℕ → Outcome
  exception : Exception → Outcome

-- `pending_jobs` is m_pendingJobs and `last_id` is PendingJob::s_lastId. `tasks` holds the render
-- queue and the callbacks that the HTTP client keeps, each under its job's id. The rest records
-- effects, the latest first: the promises that were set, the notifications, the requests sent to
-- the server and the ids handed to CancelRequest. `faulted` is set where the code would read
-- through a null pointer or take the front of an empty list. `logged_in` says that the client has
-- a login context, and `now` is std::time. `to_utf8` is std::wstring_convert.
pub record Processor : Type 0 where
  pub out_format : ImageFormat
  pub to_utf8 : Text → Text
  pub last_id : ℕ
  pub pending_jobs : List (ℕ × PendingJobInfo)
  pub tasks : List (ℕ × Task)
  pub settled : List (ℕ × Outcome)
  pub progress : List Progress
  pub requests : List Request
  pub cancel_requests : List ℕ
  pub logged_in : Bool
  pub now : ℕ
  pub faulted : Bool

abbrev pub set_promise : ℕ → Outcome → Processor → Processor
set_promise j o p = record p { settled = (j, o) ∷ p.settled }

abbrev pub notify : Progress → Processor → Processor
notify n p = record p { progress = n ∷ p.progress }

abbrev pub fault : Processor → Processor
fault p = record p { faulted = true }

abbrev pub wait_for : ℕ → Task → Processor → Processor
wait_for j t p = record p { tasks = (j, t) ∷ p.tasks }

unfoldable pub add_job_to_pending_list : ℕ → Processor → Processor
add_job_to_pending_list j p = record p {
  pending_jobs =
      insert j (record { cancelling = false; current_http_request_id = 0 }) p.pending_jobs;
}

unfoldable pub remove_job_to_pending_list : ℕ → Processor → Processor
remove_job_to_pending_list j p = record p { pending_jobs = erase j p.pending_jobs }

unfoldable pub set_pending_job_http_cancel_id : ℕ → ℕ → Processor → Processor
set_pending_job_http_cancel_id j cancel_id p = elim (find j p.pending_jobs) [
  | none ↦ p
  | some info ↦ record p {
    pending_jobs = assign j (record info { current_http_request_id = cancel_id }) p.pending_jobs;
  }
]

unfoldable pub is_job_canceling : ℕ → Processor → Bool
is_job_canceling j p = elim (find j p.pending_jobs) [ none ↦ false | some info ↦ info.cancelling ]

-- `m_cloudPrintClient.CancelRequest`, under the code's test that the id is not 0.
abbrev cancel_request : ℕ → Processor → Processor
cancel_request rid p =
    if rid == 0 then p else record p { cancel_requests = rid ∷ p.cancel_requests }

unfoldable pub cancel_pending_job : ℕ → Processor → Processor
cancel_pending_job j p = elim (find j p.pending_jobs) [
  | none ↦ p
  | some info ↦
      cancel_request info.current_http_request_id
        (record p { pending_jobs = assign j (record info { cancelling = true }) p.pending_jobs })
]

-- The loop of CancelAllPendingJobs over the entries: the new entries and the ids to cancel.
unfoldable pub mark_all : List (ℕ × PendingJobInfo) → List (ℕ × PendingJobInfo)
mark_all [] = []
mark_all ((j, info) ∷ m) =
    (j, record { cancelling = true; current_http_request_id = 0 }) ∷ mark_all m

unfoldable pub requests_in_flight : List (ℕ × PendingJobInfo) → List ℕ → List ℕ
requests_in_flight [] out = out
requests_in_flight ((j, info) ∷ m) out =
    requests_in_flight m
      (if info.current_http_request_id == 0 then out else info.current_http_request_id ∷ out)

unfoldable pub cancel_all_pending_jobs : Processor → Processor
cancel_all_pending_jobs p = record p {
  pending_jobs = mark_all p.pending_jobs;
  cancel_requests = requests_in_flight p.pending_jobs p.cancel_requests;
}

unfoldable pub get_pending_jobs_count : Processor → ℕ
get_pending_jobs_count p = length p.pending_jobs

-- How many entries of a list stand under an id.
unfoldable pub count {ℓ} : {A : Type ℓ} → ℕ → List (ℕ × A) → ℕ
count j [] = 0
count j ((i, a) ∷ l) = (if i == j then 1 else 0) + count j l

-- ~PendingJob, run when no task holds the job any more.
unfoldable pub release_job : ℕ → Processor → Processor
unfolding remove_job_to_pending_list count
release_job j p =
    if count j p.tasks == 0 then notify (on_destroy j) (remove_job_to_pending_list j p) else p
