-- ===== src/Jobs/Callbacks.antt =====
-- Every callback advances its job: a lemma for each function of Jobs/Upload.antt and
-- Jobs/Render.antt.
use customer_print_client.Jobs.Types.{rendering}
use customer_print_client.Jobs.Types.{completing}
use customer_print_client.Prelude.{length}
use customer_print_client.Prelude.{
  ℕ, ◌+◌, ◌<◌, ap, arith, ltb, Bool-cases, length-append, ◌≡◌, refl, ◌≢◌, Bool, true, false, List,
  [], ◌∷◌, ◌++◌, ◌⊎◌, inl, inr, Option, none, some, Text,
}
use customer_print_client.Jobs.Types.{
  JobError, cancel_job, get_job, complete_job, upload_page, Exception, tcp, CreateJobResult,
  UploadPageResult, FileStream, UploadContext, RenderContext, creating, uploading, retrieving,
  cancelling,
}
use customer_print_client.Jobs.Processor.{Processor}
use customer_print_client.Jobs.Upload.{
  not_authorized, call_server, call_cancellable, get_content_type, handle_job_cancelling,
  cancel_job_callback, cancel_server_job, process_server_exception, get_job_callback,
  get_new_job_info, complete_job_callback, complete_successful_job, upload_failed, send_front,
  upload_continue, upload_next_page, create_job_callback, create_job_and_upload_pages,
}
use customer_print_client.Jobs.Render.{Rendered, render_callback, store_page, render_round}
use customer_print_client.Jobs.Advance.{
  HasJob, rank, Advances, notify-Quiet, set_id-Quiet, Advances-after, Advances-if,
  set_promise-Advances, wait_for-Advances, call_server-Advances, call_cancellable-Advances,
  with_job_id-Advances,
}

handle_job_cancelling-Advances :
    (j : ℕ) (name : Text) {n : ℕ} (p : Processor)
    → 0 < n
    → Advances j n p (handle_job_cancelling j name p)
unfolding handle_job_cancelling
handle_job_cancelling-Advances j name p lt =
    Advances-after (notify-Quiet _ p) (set_promise-Advances j _ _ lt)

pub cancel_job_callback-Advances :
    (ctx : UploadContext) (ex : Option Exception) {n : ℕ} (p : Processor)
    → 0 < n
    → Advances ctx.job n p (cancel_job_callback ctx ex p)
unfolding cancel_job_callback
cancel_job_callback-Advances ctx (some ex) p lt = set_promise-Advances ctx.job _ p lt
cancel_job_callback-Advances ctx none p lt =
    handle_job_cancelling-Advances ctx.job ctx.job_name p lt

cancel_server_job-Advances :
    (ctx : UploadContext) (ex : Option Exception) {n : ℕ} (p : Processor)
    → HasJob ctx
    → 1 < n
    → Advances ctx.job n p (cancel_server_job ctx ex p)
unfolding cancel_server_job
cancel_server_job-Advances ctx ex p h lt =
    let failed = cancel_job_callback ctx ex in
    Advances-after (set_id-Quiet ctx.job 0 p) (
      with_job_id-Advances ctx
        (λ juid. call_server ctx.job (cancel_job juid) (cancelling ctx ex) failed) h
        (λ juid.
          call_server-Advances ctx.job (cancel_job juid) (cancelling ctx ex) failed _ (refl, h) lt
            (cancel_job_callback-Advances ctx ex _ (omega arith))))

-- Without a job on the server this needs that no job is to be cancelled there.
process_server_exception-Advances :
    (ctx : UploadContext) (ex : Exception) (title : JobError) (need : Bool) {n : ℕ} (p : Processor)
    → (need ≡ true → HasJob ctx)
    → 1 < n
    → Advances ctx.job n p (process_server_exception ctx ex title need p)
unfolding process_server_exception
process_server_exception-Advances ctx (tcp msg true) title true p h lt =
    cancel_server_job-Advances ctx none p (h refl) lt
process_server_exception-Advances ctx (tcp msg true) title false p h lt =
    handle_job_cancelling-Advances ctx.job ctx.job_name p (omega arith)
process_server_exception-Advances ctx _ title need p h lt =
    Advances-after (notify-Quiet _ p) (set_promise-Advances ctx.job _ _ (omega arith))

pub get_job_callback-Advances :
    (ctx : UploadContext) (r : Text ⊎ Exception) {n : ℕ} (p : Processor)
    → HasJob ctx
    → 1 < n
    → Advances ctx.job n p (get_job_callback ctx r p)
unfolding get_job_callback
get_job_callback-Advances ctx (inr ex) p h lt =
    process_server_exception-Advances ctx ex _ true p (λ _. h) (omega arith)
get_job_callback-Advances ctx (inl info) p h lt =
    Advances-after (notify-Quiet _ p) (set_promise-Advances ctx.job _ _ (omega arith))

get_new_job_info-Advances :
    (ctx : UploadContext) {n : ℕ} (p : Processor)
    → HasJob ctx
    → 2 < n
    → Advances ctx.job n p (get_new_job_info ctx p)
unfolding get_new_job_info
get_new_job_info-Advances ctx p h lt =
    let failed = get_job_callback ctx (inr not_authorized) in
    with_job_id-Advances ctx
      (λ juid. call_cancellable ctx.job (get_job juid) (retrieving ctx) failed) h
      λ juid.
        call_cancellable-Advances ctx.job (get_job juid) (retrieving ctx) failed p (refl, h) lt
          (get_job_callback-Advances ctx (inr not_authorized) p h (omega arith))

pub complete_job_callback-Advances :
    (ctx : UploadContext) (ex : Option Exception) {n : ℕ} (p : Processor)
    → HasJob ctx
    → 2 < n
    → Advances ctx.job n p (complete_job_callback ctx ex p)
unfolding complete_job_callback
complete_job_callback-Advances ctx (some ex) p h lt =
    process_server_exception-Advances ctx ex _ true p (λ _. h) (omega arith)
complete_job_callback-Advances ctx none p h lt =
    Advances-if _ (cancel_server_job-Advances ctx none p h (omega arith))
      (get_new_job_info-Advances ctx p h lt)

complete_successful_job-Advances :
    (ctx : UploadContext) {n : ℕ} (p : Processor)
    → HasJob ctx
    → 3 < n
    → Advances ctx.job n p (complete_successful_job ctx p)
unfolding complete_successful_job
complete_successful_job-Advances ctx p h lt =
    let failed = complete_job_callback ctx (some not_authorized) in
    with_job_id-Advances ctx
      (λ juid. call_cancellable ctx.job (complete_job juid) (completing ctx) failed) h
      λ juid.
        call_cancellable-Advances ctx.job (complete_job juid) (completing ctx) failed p (refl, h) lt
          (complete_job_callback-Advances ctx (some not_authorized) p h (omega arith))

upload_failed-Advances :
    (ctx : UploadContext) (ex : Exception) {n : ℕ} (p : Processor)
    → HasJob ctx
    → 1 < n
    → Advances ctx.job n p (upload_failed ctx ex p)
unfolding upload_failed
upload_failed-Advances ctx ex p h lt =
    process_server_exception-Advances ctx ex _ true p (λ _. h) (omega arith)

send_front-Advances :
    (ctx : UploadContext) (streams : List FileStream) {n : ℕ} (p : Processor)
    → HasJob ctx
    → streams ≢ []
    → 3 + length streams < n
    → Advances ctx.job n p (send_front ctx streams p)
unfolding send_front
send_front-Advances ctx [] p h ne lt = absurd (ne refl)
send_front-Advances ctx (fs ∷ rest) p h ne lt =
    let sent = record ctx { input_streams = rest } in
    let failed = upload_failed sent not_authorized in
    let request = λ (juid : Text).
      upload_page juid (length ctx.upload_results + 1) fs.name fs.content fs.content_size
        (get_content_type p.out_format) in
    Advances-after (notify-Quiet _ p) (
      with_job_id-Advances sent
        (λ juid. call_cancellable ctx.job (request juid) (uploading sent) failed) h
        λ juid.
          call_cancellable-Advances ctx.job (request juid) (uploading sent) failed _ (refl, h)
            (omega arith) (upload_failed-Advances sent not_authorized _ h (omega arith)))

upload_continue-Advances :
    (ctx : UploadContext) (streams : List FileStream) {n : ℕ} (p : Processor)
    → HasJob ctx
    → ctx.input_streams ≡ streams
    → 3 + length streams < n
    → Advances ctx.job n p (upload_continue ctx streams p)
unfolding upload_continue
upload_continue-Advances ctx [] p h e lt =
    Advances-if _ (cancel_server_job-Advances ctx none p h (omega arith))
      (complete_successful_job-Advances ctx p h (omega arith))
upload_continue-Advances ctx (fs ∷ rest) p h e lt =
    Advances-if _ (cancel_server_job-Advances ctx none p h (omega arith))
      (send_front-Advances ctx ctx.input_streams p h (λ n. cc) (omega (arith, ap length e)))

-- With no page before it, UploadNextPage needs a stream at the front.
pub upload_next_page-Advances :
    (ctx : UploadContext) (prev : Option UploadPageResult) (ex : Option Exception) {n : ℕ}
    (p : Processor)
    → HasJob ctx
    → (prev ≡ none → ctx.input_streams ≢ []) ⊎ (ex ≢ none)
    → 3 + length ctx.input_streams < n
    → Advances ctx.job n p (upload_next_page ctx prev ex p)
unfolding upload_next_page
upload_next_page-Advances ctx prev (some ex) p h ne lt =
    upload_failed-Advances ctx ex p h (omega arith)
upload_next_page-Advances ctx (some r) none p h ne lt =
    upload_continue-Advances (record ctx { upload_results = ctx.upload_results ++ r ∷ [] })
      ctx.input_streams p h refl lt
upload_next_page-Advances ctx none none p h (inl ne) lt =
    Advances-if _ (cancel_server_job-Advances ctx none p h (omega arith))
      (send_front-Advances ctx ctx.input_streams p h (ne refl) lt)
upload_next_page-Advances ctx none none p h (inr ne) lt = absurd (ne refl)

pub create_job_callback-Advances :
    (ctx : UploadContext) (r : CreateJobResult ⊎ Exception) {n : ℕ} (p : Processor)
    → ctx.input_streams ≢ []
    → 3 + length ctx.input_streams < n
    → Advances ctx.job n p (create_job_callback ctx r p)
unfolding create_job_callback
create_job_callback-Advances ctx (inr ex) p ne lt =
    process_server_exception-Advances ctx ex _ false p (λ e. cc) (omega arith)
create_job_callback-Advances ctx (inl created) p ne lt =
    upload_next_page-Advances (record ctx { job_info = some created }) none none p (created, refl)
      (inl (λ _. ne)) (omega arith)

create_job_and_upload_pages-Advances :
    (j : ℕ) (name office_id profile_id : Text) (streams : List FileStream) (copies : ℕ) {n : ℕ}
    (p : Processor)
    → streams ≢ []
    → 4 + length streams < n
    → Advances j n p (create_job_and_upload_pages j name office_id profile_id streams copies p)
unfolding create_job_and_upload_pages
create_job_and_upload_pages-Advances j name office_id profile_id streams copies p ne lt =
    let ctx : UploadContext = record {
      job = j;
      job_name = name;
      job_info = none;
      input_streams = streams;
      upload_results = [];
    } in
    Advances-if _ (handle_job_cancelling-Advances j name p (omega arith)) (
      call_cancellable-Advances j _ (creating ctx) (create_job_callback ctx (inr not_authorized)) p
        (refl, ne) lt (create_job_callback-Advances ctx (inr not_authorized) p ne (omega arith)))

-- How many streams a render task hands over.
abbrev handed : List FileStream ⊎ Exception → ℕ
handed (inl streams) = length streams
handed (inr ex) = 0

render_callback-Advances :
    (ctx : RenderContext) (r : List FileStream ⊎ Exception) {n : ℕ} (p : Processor)
    → 4 + handed r < n
    → Advances ctx.job n p (render_callback ctx r p)
unfolding render_callback
render_callback-Advances ctx (inr ex) p lt =
    Advances-after (notify-Quiet _ p) (set_promise-Advances ctx.job _ _ (omega arith))
render_callback-Advances ctx (inl []) p lt =
    handle_job_cancelling-Advances ctx.job ctx.job_name p (omega arith)
render_callback-Advances ctx (inl (fs ∷ rest)) p lt =
    create_job_and_upload_pages-Advances ctx.job _ _ _ (fs ∷ rest) ctx.copies p (λ e. cc) lt

store_page-Advances :
    (ctx : RenderContext) (r : Rendered) (p : Processor)
    → ctx.page_num < ctx.document.page_count
    → Advances ctx.job (rank (rendering ctx)) p (store_page ctx r p)
unfolding store_page
store_page-Advances ctx (inr ex) p more = render_callback-Advances ctx (inr ex) p (omega arith)
store_page-Advances ctx (inl (content, size)) p more =
    wait_for-Advances ctx.job _ p refl (omega (arith, length-append {0} {A = FileStream}))

pub render_round-Advances :
    (ctx : RenderContext) (r : Rendered) (p : Processor)
    → Advances ctx.job (rank (rendering ctx)) p (render_round ctx r p)
unfolding render_round
render_round-Advances ctx r p = elim (Bool-cases (ltb ctx.page_num ctx.document.page_count)) [
  | inl more ↦ rw more (
      Advances-if _ (render_callback-Advances ctx (inl []) p (omega arith))
        (Advances-after (notify-Quiet _ p) (store_page-Advances ctx r _ (ground arith))))
  | inr last ↦ rw last (render_callback-Advances ctx (inl ctx.streams) p (omega arith))
]
