-- ===== src/Jobs/Successes.antt =====
-- What single callbacks of a job do when every answer is a success and nobody cancels.
use customer_print_client.Prelude.{
  ℕ, ◌<◌, ◌+◌, ◌≡◌, refl, ◌∙◌, true, false, List, ◌∷◌, inl, inr, some, Text, arith, ==_iff,
  Option-cases, length,
}
use customer_print_client.Prelude.Dict.{find, erase, find-assign}
use customer_print_client.Printing.ImageFormat.{ImageFormat}
use customer_print_client.Jobs.Types.{
  on_uploading, UploadContext, CreateJobResult, FileStream, Request, upload_page, complete_job,
  get_job, Task, uploading, completing, retrieving,
}
use customer_print_client.Jobs.Processor.{
  id_key, notify, Outcome, Processor, count, release_job, is_job_canceling,
  set_pending_job_http_cancel_id,
}
use customer_print_client.Jobs.Upload.{
  not_authorized, upload_failed, with_job_id, call_cancellable, get_content_type, send_front,
  complete_successful_job, get_new_job_info, complete_job_callback, get_job_callback,
}
use customer_print_client.Jobs.Settled.{count_of_find}
use customer_print_client.Jobs.Machine.{Answer, callback, deliver}

-- The client is logged in, the job `j` is not being cancelled, and this is what was sent and
-- settled so far.
pub record Idle (j : ℕ) (fmt : ImageFormat) (rs : List Request) (ss : List (ℕ × Outcome))
    (p : Processor) : Type 0 where
  pub online : p.logged_in ≡ true
  pub going : is_job_canceling j p ≡ false
  pub format : p.out_format ≡ fmt
  pub sent : p.requests ≡ rs
  pub settled_eq : p.settled ≡ ss

-- So it is, and the job waits with the task `t`.
pub record Waits (j : ℕ) (t : Task) (fmt : ImageFormat) (rs : List Request)
    (ss : List (ℕ × Outcome)) (p : Processor) : Type 0 where
  pub waiting : find j p.tasks ≡ some t
  pub idle : Idle j fmt rs ss p

canceling-set_id :
    (i j c : ℕ) (p : Processor)
    → is_job_canceling i (set_pending_job_http_cancel_id j c p) ≡ is_job_canceling i p
unfolding is_job_canceling set_pending_job_http_cancel_id
canceling-set_id i j c p = elim (Option-cases (find j p.pending_jobs)) [
  | inl e ↦ rw (e, set_pending_job_http_cancel_id)
  | inr (info, e) ↦ ground (
    arith,
    e,
    find-assign j i (record info { current_http_request_id = c }) p.pending_jobs,
    ==_iff j i,
  )
]

release_eq : (j : ℕ) (q : Processor) → 0 < count j q.tasks → release_job j q ≡ q
unfolding release_job
release_eq j q lt = ground arith

-- An answer that the callback takes.
pub deliver-eq :
    (j : ℕ) (t : Task) (a : Answer) (p : Processor) {q : Processor}
    → find j p.tasks ≡ some t
    → callback t a (record p { tasks = erase j p.tasks }) ≡ some q
    → deliver j a p ≡ release_job j q
unfolding deliver
deliver-eq j t a p e accepted = rw (e, deliver) (rw accepted)

abbrev pub page_request : CreateJobResult → ImageFormat → ℕ → FileStream → Request
page_request info fmt k fs =
    upload_page info.job_id k fs.name fs.content fs.content_size (get_content_type fmt)

module _ {j : ℕ} {fmt : ImageFormat} {ss : List (ℕ × Outcome)} where
  set_id-Waits :
      {t : Task} {rs : List Request} (c : ℕ) {p : Processor}
      → Waits j t fmt rs ss p
      → Waits j t fmt rs ss (set_pending_job_http_cancel_id j c p)
  set_id-Waits c {p} w = record {
    waiting = unfold set_pending_job_http_cancel_id in ground arith;
    idle = record {
      online = unfold set_pending_job_http_cancel_id in ground arith;
      going = canceling-set_id j j c p ∙ w.idle.going;
      format = unfold set_pending_job_http_cancel_id in ground arith;
      sent = unfold set_pending_job_http_cancel_id in ground arith;
      settled_eq = unfold set_pending_job_http_cancel_id in ground arith;
    };
  }

  call_cancellable-Waits :
      {rs : List Request} (request : Request) (task : Task) (failed : Processor → Processor)
      (p : Processor)
      → Idle j fmt rs ss p
      → Waits j task fmt (request ∷ rs) ss (call_cancellable j request task failed p)
  unfolding is_job_canceling find
  call_cancellable-Waits request task failed p w = rw w.online (
      set_id-Waits p.now (record {
        waiting = ground (arith, ==_iff j j);
        idle = record {
          online = refl;
          going = w.going;
          format = w.format;
          sent = ground arith;
          settled_eq = w.settled_eq;
        };
      }))

  pub release-Waits :
      {t : Task} {rs : List Request} {q : Processor}
      → Waits j t fmt rs ss q
      → Waits j t fmt rs ss (release_job j q)
  release-Waits {t} {rs} {q} w = rw (release_eq j q (count_of_find j t q.tasks w.waiting)) w

  with_job_id-Waits :
      {t : Task} {rs : List Request} (ctx : UploadContext) (info : CreateJobResult)
      (use_id : Text → Processor → Processor) (p : Processor)
      → ctx.job_info ≡ some info
      → Waits j t fmt rs ss (use_id info.job_id p)
      → Waits j t fmt rs ss (with_job_id ctx use_id p)
  with_job_id-Waits ctx info use_id p e w = rw e w

module _ (ctx : UploadContext) (info : CreateJobResult) {fmt : ImageFormat}
    {ss : List (ℕ × Outcome)} where
  pub send_front-Waits :
      (fs : FileStream) (rest : List FileStream) {rs : List Request} (p : Processor)
      → ctx.job_info ≡ some info
      → Idle ctx.job fmt rs ss p
      → Waits ctx.job
          (uploading (record ctx { input_streams = rest }))
          fmt
          (page_request info fmt (length ctx.upload_results + 1) fs ∷ rs)
          ss
          (send_front ctx (fs ∷ rest) p)
  unfolding send_front is_job_canceling
  send_front-Waits fs rest {rs} p e w =
      let sent = record ctx { input_streams = rest } in
      let k = length ctx.upload_results + 1 in
      let failed = upload_failed sent not_authorized in
      let request = λ (juid : Text).
        upload_page juid k fs.name fs.content fs.content_size (get_content_type p.out_format) in
      let p' = notify (on_uploading ctx.job k fs.name) p in
      rw (← w.format) (
        with_job_id-Waits sent info
          (λ juid. call_cancellable ctx.job (request juid) (uploading sent) failed) p' e
          (call_cancellable-Waits (request info.job_id) (uploading sent) failed p' (record {
            online = w.online;
            going = w.going;
            format = refl;
            sent = w.sent;
            settled_eq = w.settled_eq;
          })))

  pub complete_successful_job-Waits :
      {rs : List Request} (p : Processor)
      → ctx.job_info ≡ some info
      → Idle ctx.job fmt rs ss p
      → Waits ctx.job
          (completing ctx)
          fmt
          (complete_job info.job_id ∷ rs)
          ss
          (complete_successful_job ctx p)
  unfolding complete_successful_job
  complete_successful_job-Waits p e w =
      let failed = complete_job_callback ctx (some not_authorized) in
      with_job_id-Waits ctx info
        (λ juid. call_cancellable ctx.job (complete_job juid) (completing ctx) failed) p e
        (call_cancellable-Waits (complete_job info.job_id) (completing ctx) failed p w)

  pub get_new_job_info-Waits :
      {rs : List Request} (p : Processor)
      → ctx.job_info ≡ some info
      → Idle ctx.job fmt rs ss p
      → Waits ctx.job (retrieving ctx) fmt (get_job info.job_id ∷ rs) ss (get_new_job_info ctx p)
  unfolding get_new_job_info
  get_new_job_info-Waits p e w =
      let failed = get_job_callback ctx (inr not_authorized) in
      with_job_id-Waits ctx info
        (λ juid. call_cancellable ctx.job (get_job juid) (retrieving ctx) failed) p e
        (call_cancellable-Waits (get_job info.job_id) (retrieving ctx) failed p w)
