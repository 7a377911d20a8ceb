-- ===== src/Jobs/Cancelling.antt =====
-- What a cancelled job still does: it sends nothing to the server but the cancellation, and stays
-- cancelled until it is gone.
use customer_print_client.Prelude.{
  ℕ, ◌+◌, ◌++◌, length, ◌≡◌, refl, ◌⊎◌, inl, inr, Bool, true, false, List, [], ◌∷◌, Option, none,
  some, Text, arith, Option-cases, Bool-cases,
}
use customer_print_client.Prelude.Dict.{find, erase}
use customer_print_client.Printing.ImageFormat.{ImageFormat}
use customer_print_client.Jobs.Types.{
  create_error, failed_to_complete, failed_to_retrieve, failed_to_upload, Exception, tcp, JobError,
  UploadContext, Request, cancel_job, Task, rendering, creating, uploading, completing, retrieving,
  cancelling,
}
use customer_print_client.Jobs.Processor.{
  id_key, Processor, release_job, is_job_canceling, set_pending_job_http_cancel_id,
}
use customer_print_client.Jobs.Upload.{
  cancel_job_callback, cancel_server_job, process_server_exception, upload_continue,
  upload_next_page, create_job_callback, complete_job_callback, get_job_callback, upload_failed,
}
use customer_print_client.Jobs.Render.{render_round, render_callback}
use customer_print_client.Jobs.Machine.{
  run, start, Event, Answer, rendered, created, uploaded, completed, retrieved, server_cancelled,
  callback, deliver,
}
use customer_print_client.Jobs.Advance.{HasJob, TaskOk}
use customer_print_client.Jobs.Settled.{Inv, find-TaskOk, reached-Inv}

-- At most one request more, and that a cancellation.
abbrev pub SendsOnlyCancel : List Request → List Request → Type 0
SendsOnlyCancel before after =
    (after ≡ before) ⊎ ((juid : Text) × (after ≡ cancel_job juid ∷ before))

set_id-requests :
    (j c : ℕ) (p : Processor) → (set_pending_job_http_cancel_id j c p).requests ≡ p.requests
unfolding set_pending_job_http_cancel_id
set_id-requests j c p = ground arith

cancel_server_job-sends :
    (ctx : UploadContext) (ex : Option Exception) (p : Processor)
    → HasJob ctx
    → SendsOnlyCancel p.requests (cancel_server_job ctx ex p).requests
unfolding cancel_server_job set_pending_job_http_cancel_id
cancel_server_job-sends ctx ex p (info, e) = elim (Bool-cases p.logged_in) [
  | inl on ↦ inr (info.job_id, ground arith)
  | inr off ↦ inl ground arith
]

process_server_exception-sends :
    (ctx : UploadContext) (ex : Exception) (title : JobError) (need : Bool) (p : Processor)
    → (need ≡ true → HasJob ctx)
    → SendsOnlyCancel p.requests (process_server_exception ctx ex title need p).requests
unfolding process_server_exception
process_server_exception-sends ctx (tcp msg true) title true p h =
    cancel_server_job-sends ctx none p (h refl)
process_server_exception-sends ctx (tcp msg true) title false p h = inl refl
process_server_exception-sends ctx _ title need p h = inl refl

-- With the flag set, a callback of the job sends nothing but a cancellation.
callback-sends :
    (j : ℕ) (t : Task) (a : Answer) (p : Processor) {q : Processor}
    → TaskOk j t
    → is_job_canceling j p ≡ true
    → callback t a p ≡ some q
    → SendsOnlyCancel p.requests q.requests
unfolding callback
callback-sends j (rendering ctx) (rendered r) p ok c e =
    unfold render_round render_callback in ground arith
callback-sends j (creating ctx) (created (inl r)) p ok c e =
    unfold create_job_callback upload_next_page in
    ground (arith, cancel_server_job-sends (record ctx { job_info = some r }) none p (r, refl))
callback-sends j (creating ctx) (created (inr ex)) p ok c e =
    unfold create_job_callback in
    ground (arith, process_server_exception-sends ctx ex create_error false p (λ n. cc))
callback-sends j (uploading ctx) (uploaded (inl r)) p ok c e =
    let ctx' = record ctx { upload_results = ctx.upload_results ++ r ∷ [] } in
    unfold upload_next_page upload_continue in
    ground (arith, cancel_server_job-sends ctx' none p ok.1)
callback-sends j (uploading ctx) (uploaded (inr ex)) p ok c e =
    unfold upload_next_page upload_failed in
    ground (
      arith,
      process_server_exception-sends ctx ex (failed_to_upload (length ctx.upload_results + 1)) true
          p (λ n. ok.1),
    )
callback-sends j (completing ctx) (completed (some ex)) p ok c e =
    unfold complete_job_callback in
    ground (arith, process_server_exception-sends ctx ex failed_to_complete true p (λ n. ok.1))
callback-sends j (completing ctx) (completed none) p ok c e =
    unfold complete_job_callback in ground (arith, cancel_server_job-sends ctx none p ok.1)
callback-sends j (retrieving ctx) (retrieved (inl info)) p ok c e =
    unfold get_job_callback in ground arith
callback-sends j (retrieving ctx) (retrieved (inr ex)) p ok c e =
    unfold get_job_callback in
    ground (arith, process_server_exception-sends ctx ex failed_to_retrieve true p (λ n. ok.1))
callback-sends j (cancelling ctx ex) (server_cancelled r) p ok c e =
    unfold cancel_job_callback in ground arith
callback-sends j _ _ p ok c e = cc

release-requests : (j : ℕ) (q : Processor) → (release_job j q).requests ≡ q.requests
unfolding release_job
release-requests j q = ground arith

deliver-sends :
    (j : ℕ) (a : Answer) (p : Processor)
    → Inv p
    → is_job_canceling j p ≡ true
    → SendsOnlyCancel p.requests (deliver j a p).requests
unfolding deliver is_job_canceling
deliver-sends j a p inv c = elim (Option-cases (find j p.tasks)) [
  | inl e ↦ rw (e, deliver) (inl refl)
  | inr (t, e) ↦
      let p' = record p { tasks = erase j p.tasks } in
      elim (Option-cases (callback t a p')) [
        | inl refused ↦ rw (e, deliver) (rw refused (inl refl))
        | inr (q, accepted) ↦
            let ok = find-TaskOk j t p.tasks inv.tasks_ok e in
            rw (e, deliver)
              (rw accepted (rw release-requests (callback-sends j t a p' ok c accepted)))
      ]
]

-- After any history, an answer to a job that is being cancelled makes the processor send nothing
-- at all, or one request to cancel a job on the server: no job is created, no page uploaded, no
-- job completed or retrieved.
pub cancelled-SendsOnlyCancel :
    (out_format : ImageFormat) (to_utf8 : Text → Text) (es : List Event) (j : ℕ) (a : Answer)
    → is_job_canceling j (run (start out_format to_utf8) es) ≡ true
    → let p = run (start out_format to_utf8) es in
      SendsOnlyCancel p.requests (deliver j a p).requests
cancelled-SendsOnlyCancel out_format to_utf8 es j a c =
    deliver-sends j a _ (reached-Inv out_format to_utf8 es) c
