-- ===== src/Jobs/Render.antt =====
-- The render side of src/CustomerPrintClientCore/JobProcessor.cpp: RenderAndUpload, the render
-- task and its callback.
use customer_print_client.Prelude.{
  ℕ, ◌+◌, List, [], ◌∷◌, ◌++◌, ◌⊎◌, inl, inr, Text, ltb, if◌then◌else◌,
}
use customer_print_client.Core.Strings.{replace_file_extension}
use customer_print_client.Printing.ImageFormat.{image_format_to_wstring}
use customer_print_client.Jobs.Types.{
  failed_to_render, Exception, titled, FileStream, on_create, on_rendering, on_error, Document,
  RenderContext, rendering,
}
use customer_print_client.Jobs.Processor.{
  exception, Processor, set_promise, notify, wait_for, add_job_to_pending_list, is_job_canceling,
}
use customer_print_client.Jobs.Upload.{what, handle_job_cancelling, create_job_and_upload_pages}

-- The callback of the render task, `renderCallback` of RenderAndUpload.
unfoldable pub render_callback : RenderContext → List FileStream ⊎ Exception → Processor → Processor
unfolding handle_job_cancelling create_job_and_upload_pages
render_callback ctx (inr ex) p =
    set_promise ctx.job (exception (titled failed_to_render (what ex)))
      (notify (on_error ctx.job failed_to_render) p)
render_callback ctx (inl []) p = handle_job_cancelling ctx.job ctx.job_name p
render_callback ctx (inl (fs ∷ rest)) p =
    create_job_and_upload_pages ctx.job ctx.job_name ctx.office_id ctx.profile_id (fs ∷ rest)
      ctx.copies p

-- What RenderForPrinting wrote, with the size that it reports, or the exception that it threw.
abbrev pub Rendered : Type 0
Rendered = (Text × ℕ) ⊎ Exception

-- The loop body from RenderForPrinting on.
unfoldable pub store_page : RenderContext → Rendered → Processor → Processor
unfolding render_callback
store_page ctx (inr ex) p = render_callback ctx (inr ex) p
store_page ctx (inl (content, size)) p =
    let name = p.to_utf8 (
      replace_file_extension (ctx.document.page_file_name ctx.page_num)
        (image_format_to_wstring p.out_format)) in
    let page : FileStream = record { name = name; content = content; content_size = size } in
    wait_for ctx.job
      (rendering (record ctx { page_num = ctx.page_num + 1; streams = ctx.streams ++ page ∷ [] })) p

-- One round of the loop of the render task, with what the renderer does at this page; past the
-- last page, the call of the callback.
unfoldable pub render_round : RenderContext → Rendered → Processor → Processor
unfolding render_callback is_job_canceling store_page
render_round ctx rendered p =
    if ltb ctx.page_num ctx.document.page_count
    then (if is_job_canceling ctx.job p
        then render_callback ctx (inl []) p
        else store_page ctx rendered (
            notify
              (on_rendering ctx.job (ctx.page_num + 1)
                (p.to_utf8 (ctx.document.page_file_name ctx.page_num)))
              p))
    else render_callback ctx (inl ctx.streams) p

-- RenderAndUpload, with the constructor of PendingJob and with Render, which queues the task.
unfoldable pub render_and_upload : Document → Text → Text → ℕ → Processor → Processor
unfolding add_job_to_pending_list
render_and_upload doc office_id profile_id copies p =
    let j = p.last_id in
    let ctx : RenderContext = record {
      job = j;
      job_name = doc.job_name;
      document = doc;
      office_id = office_id;
      profile_id = profile_id;
      copies = copies;
      page_num = 0;
      streams = [];
    } in
    wait_for j (rendering ctx) (
      notify (on_create j doc.job_name doc.page_count copies office_id profile_id)
        (add_job_to_pending_list j (record p { last_id = j + 1 })))
