-- ===== src/Jobs/Machine.antt =====
-- The processor as a state machine: what the user does, what the renderer, the server and the
-- clock answer, one step each. A step runs one whole callback; the steps of different jobs, and
-- cancellations, come in any order.
use customer_print_client.Prelude.{
  ℕ, Bool, false, List, [], ◌∷◌, ◌⊎◌, inl, inr, Option, none, some, Text,
}
use customer_print_client.Prelude.Dict.{find, erase}
use customer_print_client.Printing.ImageFormat.{ImageFormat}
use customer_print_client.Jobs.Types.{
  Exception, CreateJobResult, UploadPageResult, Document, Task, rendering, creating, uploading,
  completing, retrieving, cancelling,
}
use customer_print_client.Jobs.Processor.{
  id_key, Processor, cancel_pending_job, cancel_all_pending_jobs, release_job,
}
use customer_print_client.Jobs.Upload.{
  create_job_callback, upload_next_page, complete_job_callback, get_job_callback,
  cancel_job_callback,
}
use customer_print_client.Jobs.Render.{Rendered, render_round, render_and_upload}

pub data Answer : Type 0 where
  rendered : Rendered → Answer
  created : CreateJobResult ⊎ Exception → Answer
  uploaded : UploadPageResult ⊎ Exception → Answer
  completed : Option Exception → Answer
  retrieved : Text ⊎ Exception → Answer
  server_cancelled : Option Exception → Answer

pub data Event : Type 0 where
  submit : Document → Text → Text → ℕ → Event
  answer : ℕ → Answer → Event
  cancel : ℕ → Event
  cancel_all : Event
  time_is : ℕ → Event
  login : Bool → Event

-- The callback that a task stands for, at an answer of its kind.
unfoldable pub callback : Task → Answer → Processor → Option Processor
callback (rendering ctx) (rendered r) p = some (render_round ctx r p)
callback (creating ctx) (created r) p = some (create_job_callback ctx r p)
callback (uploading ctx) (uploaded (inl r)) p = some (upload_next_page ctx (some r) none p)
callback (uploading ctx) (uploaded (inr ex)) p = some (upload_next_page ctx none (some ex) p)
callback (completing ctx) (completed ex) p = some (complete_job_callback ctx ex p)
callback (retrieving ctx) (retrieved r) p = some (get_job_callback ctx r p)
callback (cancelling ctx ex) (server_cancelled _) p = some (cancel_job_callback ctx ex p)
callback _ _ p = none

-- The job `j` gets an answer: its task is done, and the job is released if it left no other. An
-- answer that the job does not wait for does not come.
unfoldable pub deliver : ℕ → Answer → Processor → Processor
unfolding callback
deliver j a p = elim (find j p.tasks) [
  | none ↦ p
  | some t ↦ elim (callback t a (record p { tasks = erase j p.tasks })) [
    | none ↦ p
    | some q ↦ release_job j q
  ]
]

unfoldable pub step : Processor → Event → Processor
step p (submit doc office_id profile_id copies) =
    render_and_upload doc office_id profile_id copies p
step p (answer j a) = deliver j a p
step p (cancel j) = cancel_pending_job j p
step p cancel_all = cancel_all_pending_jobs p
step p (time_is t) = record p { now = t }
step p (login b) = record p { logged_in = b }

unfoldable pub run : Processor → List Event → Processor
run p [] = p
run p (e ∷ es) = run (step p e) es

-- The state that the constructor leaves.
unfoldable pub start : ImageFormat → (Text → Text) → Processor
start out_format to_utf8 = record {
  out_format = out_format;
  to_utf8 = to_utf8;
  last_id = 0;
  pending_jobs = [];
  tasks = [];
  settled = [];
  progress = [];
  requests = [];
  cancel_requests = [];
  logged_in = false;
  now = 0;
  faulted = false;
}
