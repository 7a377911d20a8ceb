-- ===== src/Jobs/Upload.antt =====
-- The callbacks of src/CustomerPrintClientCore/JobProcessor.cpp that take a job through the
-- server: create, upload each page, complete, retrieve, and cancel. Each is a function on the
-- state, which leaves the next callback behind as a task.
use customer_print_client.Prelude.{codes}
use customer_print_client.Prelude.{
  ℕ, ◌+◌, Bool, true, false, List, [], ◌∷◌, ◌++◌, ◌⊎◌, inl, inr, Option, none, some, Text,
  if◌then◌else◌, length,
}
use customer_print_client.Printing.ImageFormat.{ImageFormat, bmp, png, jpeg, image_format_to_string}
use customer_print_client.Networking.Http.Definitions.{
  ContentType, image_bmp, image_png, image_jpeg, application_octet_stream,
}
use customer_print_client.Jobs.Types.{
  JobError, create_error, failed_to_complete, failed_to_retrieve, failed_to_upload, Exception, tcp,
  http, other, titled, CreateJobResult, UploadPageResult, FileStream, on_uploading, on_error,
  on_complete, on_cancel, UploadContext, Request, create_job, upload_page, complete_job, get_job,
  cancel_job, Task, creating, uploading, completing, retrieving, cancelling,
}
use customer_print_client.Jobs.Processor.{
  value, exception, Processor, set_promise, notify, fault, wait_for, set_pending_job_http_cancel_id,
  is_job_canceling,
}

-- HttpException(500, NotAuthorized), with which a call made without a login context calls back.
abbrev pub not_authorized : Exception
not_authorized = http 500 (codes "Not authorized")

-- A call of CloudPrintClient that is not to be recorded for cancelling: without a login context
-- it calls back at once, otherwise the callback waits for the response.
abbrev pub call_server : ℕ → Request → Task → (Processor → Processor) → Processor → Processor
call_server j request callback failed p =
    if p.logged_in
    then wait_for j callback (record p { requests = request ∷ p.requests })
    else failed p

-- `cancelId = AsyncX(…, callback); SetPendingJobHttpCancelId(id, cancelId)`. The id is the time of
-- the request, or 0 without a login context.
abbrev pub call_cancellable : ℕ → Request → Task → (Processor → Processor) → Processor → Processor
call_cancellable j request callback failed p =
    set_pending_job_http_cancel_id j (if p.logged_in then p.now else 0)
      (call_server j request callback failed p)

-- `uploadCtx->JobInfo->JobId`
abbrev pub with_job_id : UploadContext → (Text → Processor → Processor) → Processor → Processor
with_job_id ctx use_id p = elim ctx.job_info [ none ↦ fault p | some info ↦ use_id info.job_id p ]

unfoldable pub handle_job_cancelling : ℕ → Text → Processor → Processor
handle_job_cancelling j name p = set_promise j (value none j) (notify (on_cancel j name) p)

-- The callback of CancelServerJob; the outcome of the cancellation is only logged.
unfoldable pub cancel_job_callback : UploadContext → Option Exception → Processor → Processor
unfolding handle_job_cancelling
cancel_job_callback ctx (some ex) p = set_promise ctx.job (exception ex) p
cancel_job_callback ctx none p = handle_job_cancelling ctx.job ctx.job_name p

unfoldable pub cancel_server_job : UploadContext → Option Exception → Processor → Processor
unfolding cancel_job_callback set_pending_job_http_cancel_id
cancel_server_job ctx ex p =
    with_job_id ctx
      (λ juid.
        call_server ctx.job (cancel_job juid) (cancelling ctx ex) (cancel_job_callback ctx ex))
      (set_pending_job_http_cancel_id ctx.job 0 p)

-- What `ex.what()` gives.
abbrev pub what : Exception → Text
what (tcp msg was_cancel) = msg
what (http code msg) = msg
what (other msg) = msg
what (titled title msg) = msg

abbrev report : UploadContext → Exception → JobError → Processor → Processor
report ctx ex local_error p =
    set_promise ctx.job (exception (titled local_error (what ex)))
      (notify (on_error ctx.job local_error) p)

unfoldable pub process_server_exception :
    UploadContext → Exception → JobError → Bool → Processor → Processor
unfolding cancel_server_job handle_job_cancelling
process_server_exception ctx (tcp msg true) local_error need_cancel_job p =
    if need_cancel_job
    then cancel_server_job ctx none p
    else handle_job_cancelling ctx.job ctx.job_name p
process_server_exception ctx ex local_error need_cancel_job p = report ctx ex local_error p

unfoldable pub get_content_type : ImageFormat → ContentType
get_content_type bmp = image_bmp
get_content_type png = image_png
get_content_type jpeg = image_jpeg
get_content_type _ = application_octet_stream

-- The callback of GetNewJobInfo: the job that the server reports, or the exception.
unfoldable pub get_job_callback : UploadContext → Text ⊎ Exception → Processor → Processor
unfolding process_server_exception
get_job_callback ctx (inr ex) p = process_server_exception ctx ex failed_to_retrieve true p
get_job_callback ctx (inl job_info) p =
    set_promise ctx.job (value (some job_info) ctx.job) (notify (on_complete ctx.job) p)

unfoldable pub get_new_job_info : UploadContext → Processor → Processor
unfolding get_job_callback set_pending_job_http_cancel_id
get_new_job_info ctx = with_job_id ctx λ juid.
    call_cancellable ctx.job (get_job juid) (retrieving ctx)
      (get_job_callback ctx (inr not_authorized))

unfoldable pub complete_job_callback : UploadContext → Option Exception → Processor → Processor
unfolding process_server_exception is_job_canceling cancel_server_job get_new_job_info
complete_job_callback ctx (some ex) p = process_server_exception ctx ex failed_to_complete true p
complete_job_callback ctx none p =
    if is_job_canceling ctx.job p then cancel_server_job ctx none p else get_new_job_info ctx p

unfoldable pub complete_successful_job : UploadContext → Processor → Processor
unfolding complete_job_callback set_pending_job_http_cancel_id
complete_successful_job ctx = with_job_id ctx λ juid.
    call_cancellable ctx.job (complete_job juid) (completing ctx)
      (complete_job_callback ctx (some not_authorized))

-- UploadNextPage called back with an exception.
unfoldable pub upload_failed : UploadContext → Exception → Processor → Processor
unfolding process_server_exception
upload_failed ctx ex =
    process_server_exception ctx ex (failed_to_upload (length ctx.upload_results + 1)) true

-- The last part of UploadNextPage: send the stream at the front.
unfoldable pub send_front : UploadContext → List FileStream → Processor → Processor
unfolding upload_failed set_pending_job_http_cancel_id get_content_type
send_front ctx [] p = fault p
send_front ctx (fs ∷ rest) p =
    let sent = record ctx { input_streams = rest } in
    let page_num = length ctx.upload_results + 1 in
    with_job_id sent
      (λ juid.
        call_cancellable ctx.job
          (upload_page juid page_num fs.name fs.content fs.content_size
            (get_content_type p.out_format))
          (uploading sent) (upload_failed sent not_authorized))
      (notify (on_uploading ctx.job page_num fs.name) p)

abbrev upload_front : UploadContext → Processor → Processor
upload_front ctx p =
    if is_job_canceling ctx.job p
    then cancel_server_job ctx none p
    else send_front ctx ctx.input_streams p

-- UploadNextPage, after a page was uploaded and its result appended: `elim` on whether
-- InputStreams is empty.
unfoldable pub upload_continue : UploadContext → List FileStream → Processor → Processor
unfolding is_job_canceling cancel_server_job complete_successful_job send_front
upload_continue ctx [] p =
    if is_job_canceling ctx.job p
    then cancel_server_job ctx none p
    else complete_successful_job ctx p
upload_continue ctx (fs ∷ rest) p = upload_front ctx p

-- UploadNextPage: the result of the page before, if there was one, or an exception.
unfoldable pub upload_next_page :
    UploadContext → Option UploadPageResult → Option Exception → Processor → Processor
unfolding upload_failed upload_continue is_job_canceling cancel_server_job send_front
upload_next_page ctx prev (some ex) p = upload_failed ctx ex p
upload_next_page ctx (some result) none p =
    upload_continue (record ctx { upload_results = ctx.upload_results ++ result ∷ [] })
      ctx.input_streams p
upload_next_page ctx none none p = upload_front ctx p

unfoldable pub create_job_callback :
    UploadContext → CreateJobResult ⊎ Exception → Processor → Processor
unfolding process_server_exception upload_next_page
create_job_callback ctx (inr ex) p = process_server_exception ctx ex create_error false p
create_job_callback ctx (inl created) p =
    upload_next_page (record ctx { job_info = some created }) none none p

unfoldable pub create_job_and_upload_pages :
    ℕ → Text → Text → Text → List FileStream → ℕ → Processor → Processor
unfolding is_job_canceling handle_job_cancelling create_job_callback set_pending_job_http_cancel_id
create_job_and_upload_pages j name office_id profile_id streams copies p =
    if is_job_canceling j p
    then handle_job_cancelling j name p
    else (let ctx : UploadContext = record {
      job = j;
      job_name = name;
      job_info = none;
      input_streams = streams;
      upload_results = [];
    } in
        call_cancellable j
          (create_job office_id profile_id name (image_format_to_string p.out_format)
            (length streams) copies)
          (creating ctx) (create_job_callback ctx (inr not_authorized)) p)
