-- ===== src/Jobs/Tests.antt =====
-- Concrete runs of the processor of src/CustomerPrintClientCore/JobProcessor.cpp.
use customer_print_client.Prelude.{
  ◌≡◌, refl, ◌⊎◌, inl, inr, true, false, List, [], ◌∷◌, ◌++◌, none, some, Text, arith, codes,
}
use customer_print_client.Prelude.Dict.{find, erase, assign, insert}
use customer_print_client.Printing.ImageFormat.{png}
use customer_print_client.Jobs.Types.{
  Document, UploadContext, CreateJobResult, UploadPageResult, FileStream, tcp, get_job,
  complete_job, creating,
}
use customer_print_client.Jobs.Processor.{
  Processor, value, count, release_job, add_job_to_pending_list, remove_job_to_pending_list,
  set_pending_job_http_cancel_id, is_job_canceling, cancel_pending_job,
}
use customer_print_client.Jobs.Upload.{
  create_job_and_upload_pages, create_job_callback, upload_next_page, upload_continue, send_front,
  complete_successful_job, complete_job_callback, get_new_job_info, get_job_callback,
  process_server_exception, cancel_server_job, cancel_job_callback, handle_job_cancelling,
}
use customer_print_client.Jobs.Render.{render_and_upload, render_round, store_page, render_callback}
use customer_print_client.Jobs.Machine.{
  Event, submit, answer, cancel, login, time_is, rendered, created, uploaded, completed, retrieved,
  server_cancelled, callback, deliver, step, run, start,
}
use customer_print_client.Jobs.Advance.{is_pending}
use customer_print_client.Jobs.Settled.{settled_exactly_once, never_faulted}
use customer_print_client.Jobs.Termination.{answers, job_settles}
use customer_print_client.Jobs.Cancelling.{SendsOnlyCancel, cancelled-SendsOnlyCancel}
use customer_print_client.Jobs.Successes.{Waits}
use customer_print_client.Jobs.Uploading.{page_requests, page_answers, finish, job_uploaded}

abbrev letter : Document
letter = record {
  job_name = codes "letter.pdf";
  page_count = 1;
  page_file_name = λ n. codes "letter_1.x";
}

abbrev page : FileStream
page = record { name = codes "letter_1.png"; content = 1 ∷ 2 ∷ []; content_size = 2 }

abbrev job_7 : CreateJobResult
job_7 = record { job_id = codes "7"; access_code = codes "abc" }

abbrev page_1 : UploadPageResult
page_1 = record { url = codes "u"; page_id = codes "1" }

abbrev same : Text → Text
same t = t

abbrev submitted : List Event
submitted = login true ∷ time_is 5 ∷ submit letter (codes "o") (codes "f") 1 ∷ []

-- A job is rendered, created, uploaded, completed and retrieved.
abbrev printing : List Event
printing =
    answer 0 (rendered (inl (1 ∷ 2 ∷ [], 2)))
    ∷ answer 0 (rendered (inl ([], 0)))
    ∷ answer 0 (created (inl job_7))
    ∷ page_answers 0 (page_1 ∷ []) (finish 0 (codes "info"))

abbrev done : Processor
done = run (start png same) (submitted ++ printing)

submitted_once : done.last_id ≡ 1
unfolding run step start deliver release_job count callback render_and_upload
    add_job_to_pending_list remove_job_to_pending_list set_pending_job_http_cancel_id
    is_job_canceling cancel_pending_job render_round store_page render_callback
    create_job_and_upload_pages create_job_callback upload_next_page upload_continue send_front
    complete_successful_job complete_job_callback get_new_job_info get_job_callback
    process_server_exception cancel_server_job cancel_job_callback handle_job_cancelling answers
    find erase assign insert
submitted_once = refl

settled_exactly_once_example :
    ((count 0 done.tasks ≡ 1) × (count 0 done.settled ≡ 0) × (is_pending 0 done ≡ true))
    ⊎ ((count 0 done.tasks ≡ 0) × (count 0 done.settled ≡ 1) × (is_pending 0 done ≡ false))
settled_exactly_once_example =
    settled_exactly_once png same (submitted ++ printing) 0 (omega (arith, submitted_once))

never_faulted_example : done.faulted ≡ false
never_faulted_example = never_faulted png same (submitted ++ printing)

-- The longest way of a job of one page: the request for the job itself is cancelled.
abbrev long_way : List Event
long_way =
    answer 0 (rendered (inl (1 ∷ 2 ∷ [], 2)))
    ∷ answer 0 (rendered (inl ([], 0)))
    ∷ answer 0 (created (inl job_7))
    ∷ answer 0 (uploaded (inl page_1))
    ∷ answer 0 (completed none)
    ∷ answer 0 (retrieved (inr (tcp [] true)))
    ∷ answer 0 (server_cancelled none)
    ∷ []

abbrev online : Processor
online = run (start png same) (login true ∷ [])

abbrev queued : Processor
queued = step online (submit letter (codes "o") (codes "f") 1)

seven_answers : answers 0 queued long_way ≡ 7
unfolding run step start deliver release_job count callback render_and_upload
    add_job_to_pending_list remove_job_to_pending_list set_pending_job_http_cancel_id
    is_job_canceling cancel_pending_job render_round store_page render_callback
    create_job_and_upload_pages create_job_callback upload_next_page upload_continue send_front
    complete_successful_job complete_job_callback get_new_job_info get_job_callback
    process_server_exception cancel_server_job cancel_job_callback handle_job_cancelling answers
    find erase assign insert
seven_answers = refl

job_settles_example : count 0 (run queued long_way).settled ≡ 1
unfolding answers run step start
job_settles_example =
    job_settles png same (login true ∷ []) long_way letter (codes "o") (codes "f") 1
      (omega (arith, seven_answers))

abbrev stopped : Processor
stopped = run (start png same) (submitted ++ cancel 0 ∷ [])

is_stopped : is_job_canceling 0 stopped ≡ true
unfolding run step start deliver release_job count callback render_and_upload
    add_job_to_pending_list remove_job_to_pending_list set_pending_job_http_cancel_id
    is_job_canceling cancel_pending_job render_round store_page render_callback
    create_job_and_upload_pages create_job_callback upload_next_page upload_continue send_front
    complete_successful_job complete_job_callback get_new_job_info get_job_callback
    process_server_exception cancel_server_job cancel_job_callback handle_job_cancelling answers
    find erase assign insert
is_stopped = refl

cancelled-SendsOnlyCancel_example :
    SendsOnlyCancel stopped.requests (deliver 0 (rendered (inl ([], 0))) stopped).requests
cancelled-SendsOnlyCancel_example =
    cancelled-SendsOnlyCancel png same (submitted ++ cancel 0 ∷ []) 0 (rendered (inl ([], 0)))
      is_stopped

-- The job of two pages waits for the server to create it.
abbrev two_pages : UploadContext
two_pages = record {
  job = 0;
  job_name = codes "letter.pdf";
  job_info = none;
  input_streams = page ∷ page ∷ [];
  upload_results = [];
}

abbrev waiting_job : Processor
waiting_job = record online {
  last_id = 1;
  pending_jobs = (0, record { cancelling = false; current_http_request_id = 5 }) ∷ [];
  tasks = (0, creating two_pages) ∷ [];
}

waiting_job-Waits : Waits 0 (creating two_pages) png [] [] waiting_job
unfolding run step start deliver release_job count callback render_and_upload
    add_job_to_pending_list remove_job_to_pending_list set_pending_job_http_cancel_id
    is_job_canceling cancel_pending_job render_round store_page render_callback
    create_job_and_upload_pages create_job_callback upload_next_page upload_continue send_front
    complete_successful_job complete_job_callback get_new_job_info get_job_callback
    process_server_exception cancel_server_job cancel_job_callback handle_job_cancelling answers
    find erase assign insert
waiting_job-Waits = record {
  waiting = refl;
  idle = record { online = refl; going = refl; format = refl; sent = refl; settled_eq = refl };
}

job_uploaded_example :
    let q = run waiting_job (
      answer 0 (created (inl job_7))
      ∷ page_answers 0 (page_1 ∷ page_1 ∷ []) (finish 0 (codes "info"))) in
    (q.requests
      ≡ get_job (codes "7")
        ∷ complete_job (codes "7")
        ∷ page_requests job_7 png 1 (page ∷ page ∷ []) [])
    × (q.settled ≡ (0, value (some (codes "info")) 0) ∷ [])
job_uploaded_example =
    job_uploaded two_pages job_7 page (page ∷ []) (page_1 ∷ page_1 ∷ []) (codes "info") waiting_job
      refl refl refl waiting_job-Waits
