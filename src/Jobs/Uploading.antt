-- ===== src/Jobs/Uploading.antt =====
-- The way of a job through the server when every answer is a success and nobody cancels.
use customer_print_client.Prelude.{
  ℕ, suc, ◌+◌, ◌≡◌, refl, ap, List, [], ◌∷◌, ◌++◌, inl, none, some, Text, arith, length,
  length-append,
}
use customer_print_client.Prelude.Dict.{erase}
use customer_print_client.Printing.ImageFormat.{ImageFormat}
use customer_print_client.Jobs.Types.{
  UploadContext, CreateJobResult, UploadPageResult, FileStream, Request, complete_job, get_job,
  creating, uploading, completing, retrieving,
}
use customer_print_client.Jobs.Processor.{
  id_key, Outcome, value, Processor, release_job, is_job_canceling,
}
use customer_print_client.Jobs.Upload.{
  upload_continue, send_front, upload_next_page, create_job_callback, complete_job_callback,
  get_job_callback,
}
use customer_print_client.Jobs.Machine.{
  created, uploaded, completed, retrieved, Event, answer, callback, deliver, step, run,
}
use customer_print_client.Jobs.Successes.{
  Idle, Waits, deliver-eq, page_request, release-Waits, send_front-Waits,
  complete_successful_job-Waits, get_new_job_info-Waits,
}

-- The state after taking the job's task out.
abbrev taken : ℕ → Processor → Processor
taken j p = record p { tasks = erase j p.tasks }

taken-Idle :
    {j : ℕ} {fmt : ImageFormat} {rs : List Request} {ss : List (ℕ × Outcome)} {p : Processor}
    → Idle j fmt rs ss p
    → Idle j fmt rs ss (taken j p)
unfolding is_job_canceling
taken-Idle w = record {
  online = w.online;
  going = w.going;
  format = w.format;
  sent = w.sent;
  settled_eq = w.settled_eq;
}

module _ (ctx : UploadContext) (info : CreateJobResult) {fmt : ImageFormat}
    {ss : List (ℕ × Outcome)} (known : ctx.job_info ≡ some info) where
  send-Waits :
      (streams : List FileStream) (fs : FileStream) (rest : List FileStream) {rs : List Request}
      (p : Processor)
      → streams ≡ fs ∷ rest
      → Idle ctx.job fmt rs ss p
      → Waits ctx.job
          (uploading (record ctx { input_streams = rest }))
          fmt
          (page_request info fmt (length ctx.upload_results + 1) fs ∷ rs)
          ss
          (send_front ctx streams p)
  send-Waits streams fs rest p e w = rw e (send_front-Waits ctx info fs rest p known w)

  continue_last :
      (streams : List FileStream) {rs : List Request} (p : Processor)
      → streams ≡ []
      → Idle ctx.job fmt rs ss p
      → Waits ctx.job
          (completing ctx)
          fmt
          (complete_job info.job_id ∷ rs)
          ss
          (upload_continue ctx streams p)
  unfolding upload_continue
  continue_last streams p e w = rw (e, w.going) (complete_successful_job-Waits ctx info p known w)

  continue_more :
      (streams : List FileStream) (fs : FileStream) (rest : List FileStream) {rs : List Request}
      (p : Processor)
      → streams ≡ fs ∷ rest
      → ctx.input_streams ≡ fs ∷ rest
      → Idle ctx.job fmt rs ss p
      → Waits ctx.job
          (uploading (record ctx { input_streams = rest }))
          fmt
          (page_request info fmt (length ctx.upload_results + 1) fs ∷ rs)
          ss
          (upload_continue ctx streams p)
  unfolding upload_continue
  continue_more streams fs rest p e e' w =
      rw (e, w.going) (send-Waits ctx.input_streams fs rest p e' w)

-- One answer each, delivered.
module _ (ctx : UploadContext) (info : CreateJobResult) {fmt : ImageFormat}
    {ss : List (ℕ × Outcome)} {rs : List Request} (p : Processor) where
  deliver_last :
      (r : UploadPageResult)
      → ctx.job_info ≡ some info
      → ctx.input_streams ≡ []
      → Waits ctx.job (uploading ctx) fmt rs ss p
      → Waits ctx.job
          (completing (record ctx { upload_results = ctx.upload_results ++ r ∷ [] }))
          fmt
          (complete_job info.job_id ∷ rs)
          ss
          (deliver ctx.job (uploaded (inl r)) p)
  unfolding callback upload_next_page
  deliver_last r known none_left w =
      rw (deliver-eq ctx.job (uploading ctx) (uploaded (inl r)) p w.waiting refl) (
        release-Waits (
          continue_last (record ctx { upload_results = ctx.upload_results ++ r ∷ [] }) info known
            ctx.input_streams (taken ctx.job p) none_left (taken-Idle w.idle)))

  deliver_more :
      (r : UploadPageResult) (fs : FileStream) (rest : List FileStream)
      → ctx.job_info ≡ some info
      → ctx.input_streams ≡ fs ∷ rest
      → Waits ctx.job (uploading ctx) fmt rs ss p
      → Waits ctx.job
          (uploading
            (record ctx { upload_results = ctx.upload_results ++ r ∷ []; input_streams = rest }))
          fmt
          (page_request info fmt (length (ctx.upload_results ++ r ∷ []) + 1) fs ∷ rs)
          ss
          (deliver ctx.job (uploaded (inl r)) p)
  unfolding callback upload_next_page
  deliver_more r fs rest known left w =
      rw (deliver-eq ctx.job (uploading ctx) (uploaded (inl r)) p w.waiting refl) (
        release-Waits (
          continue_more (record ctx { upload_results = ctx.upload_results ++ r ∷ [] }) info known
            ctx.input_streams fs rest (taken ctx.job p) left left (taken-Idle w.idle)))

  deliver_created :
      (fs : FileStream) (rest : List FileStream)
      → ctx.input_streams ≡ fs ∷ rest
      → Waits ctx.job (creating ctx) fmt rs ss p
      → Waits ctx.job
          (uploading (record ctx { job_info = some info; input_streams = rest }))
          fmt
          (page_request info fmt (length ctx.upload_results + 1) fs ∷ rs)
          ss
          (deliver ctx.job (created (inl info)) p)
  unfolding callback create_job_callback upload_next_page
  deliver_created fs rest left w =
      let ctx' = record ctx { job_info = some info } in
      rw (deliver-eq ctx.job (creating ctx) (created (inl info)) p w.waiting refl) (
        release-Waits (
          rw (taken-Idle w.idle).going (
            send-Waits ctx' info refl ctx.input_streams fs rest (taken ctx.job p) left
              (taken-Idle w.idle))))

  deliver_completed :
      ctx.job_info ≡ some info
      → Waits ctx.job (completing ctx) fmt rs ss p
      → Waits ctx.job
          (retrieving ctx)
          fmt
          (get_job info.job_id ∷ rs)
          ss
          (deliver ctx.job (completed none) p)
  unfolding callback complete_job_callback
  deliver_completed known w =
      rw (deliver-eq ctx.job (completing ctx) (completed none) p w.waiting refl) (
        release-Waits (
          rw (taken-Idle w.idle).going
            (get_new_job_info-Waits ctx info (taken ctx.job p) known (taken-Idle w.idle))))

  deliver_retrieved :
      (job_info : Text)
      → Waits ctx.job (retrieving ctx) fmt rs ss p
      → let q = deliver ctx.job (retrieved (inl job_info)) p in
        (q.requests ≡ rs) × (q.settled ≡ (ctx.job, value (some job_info) ctx.job) ∷ ss)
  unfolding callback get_job_callback release_job
  deliver_retrieved job_info w =
      rw (deliver-eq ctx.job (retrieving ctx) (retrieved (inl job_info)) p w.waiting refl)
        (ground arith)

-- The requests for the pages, numbered from `k`, on top of those that were sent.
abbrev pub page_requests :
    CreateJobResult → ImageFormat → ℕ → List FileStream → List Request → List Request
page_requests info fmt k [] rs = rs
page_requests info fmt k (fs ∷ rest) rs =
    page_requests info fmt (k + 1) rest (page_request info fmt k fs ∷ rs)

-- The server's answers to the pages: one for the page in flight and one for each that follows.
abbrev pub page_answers : ℕ → List UploadPageResult → List Event → List Event
page_answers j [] es = es
page_answers j (r ∷ rs) es = answer j (uploaded (inl r)) ∷ page_answers j rs es

abbrev pub finish : ℕ → Text → List Event
finish j job_info = answer j (completed none) ∷ answer j (retrieved (inl job_info)) ∷ []

-- From the page in flight on: the rest of the pages, the completion, the retrieval.
pages_uploaded :
    (ctx : UploadContext) (info : CreateJobResult) {fmt : ImageFormat} {ss : List (ℕ × Outcome)}
    (streams : List FileStream) (results : List UploadPageResult) (job_info : Text) (k : ℕ)
    {rs : List Request} (p : Processor)
    → ctx.job_info ≡ some info
    → ctx.input_streams ≡ streams
    → length results ≡ suc (length streams)
    → k ≡ length ctx.upload_results + 2
    → Waits ctx.job (uploading ctx) fmt rs ss p
    → let q = run p (page_answers ctx.job results (finish ctx.job job_info)) in
      (q.requests
        ≡ get_job info.job_id ∷ complete_job info.job_id ∷ page_requests info fmt k streams rs)
      × (q.settled ≡ (ctx.job, value (some job_info) ctx.job) ∷ ss)
unfolding run step
pages_uploaded ctx info streams [] job_info k p known left len hk w = absurd (omega arith)
pages_uploaded ctx info [] (r ∷ []) job_info k p known left len hk w =
    let ctx' = record ctx { upload_results = ctx.upload_results ++ r ∷ [] } in
    deliver_retrieved ctx' info _ job_info
      (deliver_completed ctx' info _ known (deliver_last ctx info p r known left w))
pages_uploaded ctx info [] (r ∷ r' ∷ results) job_info k p known left len hk w =
    absurd (omega arith)
pages_uploaded ctx info {fmt} {ss} (fs ∷ rest) (r ∷ results) job_info k p known left len hk w =
    let ctx' = record ctx { upload_results = ctx.upload_results ++ r ∷ []; input_streams = rest } in
    let counted = length-append ctx.upload_results (r ∷ []) in
    let number : length (ctx.upload_results ++ r ∷ []) + 1 ≡ k = omega (arith, counted, hk) in
    pages_uploaded ctx' info rest results job_info (k + 1) (deliver ctx.job (uploaded (inl r)) p)
      known refl (omega arith) (omega (arith, counted, hk))
      (rw number at (deliver_more ctx info p r fs rest known left w))

-- A job that waits for the server to create it, with the client logged in and nobody cancelling,
-- and that gets a success for each of its pages and steps, sends exactly: each page once, in order
-- and numbered from 1, then the completion, then the retrieval (the log has the latest first). Then
-- its promise is set to the job that the server reports, and nothing else is settled.
pub job_uploaded :
    (ctx : UploadContext) (info : CreateJobResult) {fmt : ImageFormat} {ss : List (ℕ × Outcome)}
    (fs : FileStream) (rest : List FileStream) (results : List UploadPageResult) (job_info : Text)
    {rs : List Request} (p : Processor)
    → ctx.input_streams ≡ fs ∷ rest
    → ctx.upload_results ≡ []
    → length results ≡ length (fs ∷ rest)
    → Waits ctx.job (creating ctx) fmt rs ss p
    → let q = run p (
        answer ctx.job (created (inl info))
        ∷ page_answers ctx.job results (finish ctx.job job_info)) in
      (q.requests
        ≡ get_job info.job_id ∷ complete_job info.job_id ∷ page_requests info fmt 1 (fs ∷ rest) rs)
      × (q.settled ≡ (ctx.job, value (some job_info) ctx.job) ∷ ss)
unfolding run step
job_uploaded ctx info fs rest results job_info p left fresh len w =
    let ctx' = record ctx { job_info = some info; input_streams = rest } in
    let first : length ctx.upload_results + 1 ≡ 1 = omega (arith, ap length fresh) in
    pages_uploaded ctx' info rest results job_info 2 (deliver ctx.job (created (inl info)) p) refl
      refl len (omega arith) (rw first at (deliver_created ctx info p fs rest left w))
