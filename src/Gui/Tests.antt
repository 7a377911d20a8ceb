-- ===== src/Gui/Tests.antt =====
-- Concrete runs of the windows of src/CustomerPrintClientGui.
use customer_print_client.Prelude.{
  ℕ, ◌+◌, ◌≤◌, ◌≡◌, refl, true, false, List, [], ◌∷◌, none, some, Text, codes, arith, text_eq,
  text_eq_iff, if◌then◌else◌,
}
use customer_print_client.Cloud.JobInfo.{PrintJobInfo, PrintJobStatus}
use customer_print_client.Gui.PendingJob.{new_pending_job}
use customer_print_client.Gui.JobsPage.{
  pending_item, details_item, JobsPage, new_jobs_page, create_pending_job,
  replace_pending_job_with_complete, update_content, get_pending_job_ctrl, insert_at,
  destroy_pending,
}
use customer_print_client.Gui.JobsMap.{times, Distinct}
use customer_print_client.Gui.JobsWindows.{shown}
use customer_print_client.Gui.JobsContents.{UpToDate}
use customer_print_client.Gui.JobsShown.{update_content_shows}
use customer_print_client.Gui.JobsFault.{update_content_faults}
use customer_print_client.Gui.JobsItems.{pending_first}
use customer_print_client.Gui.JobsLayout.{
  PageEvent, pending_created, replaced, page_step, page_run, pending_in_front,
}
use customer_print_client.Gui.MainWindow.{
  Map, on_view_port_timer, UpdateEvent, check_called, checked, received, failed_download,
  new_updates, update_run, update_step, check_for_updates, update_checked,
  handle_receive_updates_info, download_failed,
}
use customer_print_client.Gui.PreviewPages.{
  PageInfo, page_at, on_scroll, reset_bitmap, scroll_keeps_visible,
}
use customer_print_client.Gui.Decisions.{under_way, check_enabled_again, moved, last_move_searched}

abbrev job_of : Text → PrintJobInfo
job_of id = record {
  id = id;
  access_code = codes "1";
  name = codes "a.pdf";
  update_time = 1;
  office_id = codes "o";
  profile_id = codes "p";
  status = PrintJobStatus.uploaded;
  copies = 1;
  pages_count = 1;
  payed_off = false;
  office_name = [];
  currency_symbol = [];
}

-- A page with the jobs a and b.
abbrev two_jobs : JobsPage
two_jobs = record new_jobs_page {
  jobs = job_of (codes "a") ∷ job_of (codes "b") ∷ [];
  sizer = details_item 0 (job_of (codes "a")) ∷ details_item 1 (job_of (codes "b")) ∷ [];
  next_window = 2;
}

-- Two ids that differ are not both this one.
two_ids :
    (x y : Text)
    → text_eq x y ≡ false
    → (i : Text) → (if text_eq x i then 1 else 0) + ((if text_eq y i then 1 else 0) + 0) ≤ 1
two_ids x y apart i = ground (arith, text_eq_iff x i, text_eq_iff y i, text_eq_iff x y)

page-Distinct : Distinct two_jobs.jobs
page-Distinct = two_ids (codes "a") (codes "b") (unfold text_eq in refl)

abbrev sent : List PrintJobInfo
sent = job_of (codes "c") ∷ record (job_of (codes "b")) { update_time = 2 } ∷ []

sent-Distinct : Distinct sent
sent-Distinct = two_ids (codes "c") (codes "b") (unfold text_eq in refl)

update_content_shows_example :
    (p' : JobsPage) × (update_content sent two_jobs ≡ some p')
    × ((i : Text) → times i p'.jobs ≡ times i sent)
    × UpToDate sent p'.jobs
    × (shown p'.sizer ≡ p'.jobs)
unfolding new_jobs_page
update_content_shows_example =
    update_content_shows two_jobs sent (refl, refl, refl) page-Distinct sent-Distinct

-- A job is rendered when the list comes, and the job a is gone.
abbrev with_pending : JobsPage
with_pending = record two_jobs {
  pending_count = 1;
  sizer =
      pending_item 2 (new_pending_job 5 4)
      ∷ details_item 0 (job_of (codes "a"))
      ∷ details_item 1 (job_of (codes "b"))
      ∷ [];
}

update_content_faults_example : update_content sent with_pending ≡ none
update_content_faults_example =
    update_content_faults with_pending 2 (new_pending_job 5 4)
      (details_item 0 (job_of (codes "a")) ∷ details_item 1 (job_of (codes "b")) ∷ [])
      (job_of (codes "a")) (job_of (codes "b") ∷ []) sent refl refl (unfold text_eq in refl)

abbrev printed_once : List PageEvent
printed_once = pending_created 5 4 ∷ replaced 5 (job_of (codes "a")) ∷ pending_created 6 1 ∷ []

abbrev after_printing : JobsPage
after_printing = record new_jobs_page {
  pending_count = 1;
  jobs = job_of (codes "a") ∷ [];
  sizer = pending_item 2 (new_pending_job 6 1) ∷ details_item 1 (job_of (codes "a")) ∷ [];
  next_window = 3;
}

after_printing-run : page_run new_jobs_page printed_once ≡ some after_printing
unfolding page_run page_step create_pending_job replace_pending_job_with_complete new_jobs_page
    get_pending_job_ctrl insert_at destroy_pending new_pending_job
after_printing-run = refl

pending_in_front_example : pending_first 1 after_printing.sizer ≡ true
pending_in_front_example = pending_in_front printed_once after_printing after_printing-run

-- A check finds an update, whose download fails.
abbrev failed_update : List UpdateEvent
failed_update = check_called true 5 ∷ checked true true ∷ received true true ∷ failed_download ∷ []

nothing_under_way : under_way (update_run (new_updates 0) failed_update) ≡ 0
unfolding update_run new_updates update_step check_for_updates update_checked
    handle_receive_updates_info download_failed
nothing_under_way = refl

check_enabled_again_example :
    (update_run (new_updates 0) failed_update).processing_check_update ≡ false
check_enabled_again_example = check_enabled_again failed_update 0 nothing_under_way

abbrev still : Map ℕ
still = record { view_port_history = []; searches = []; timer = none }

last_move_searched_example :
    let m' = on_view_port_timer 2100 (moved ((1000, 1) ∷ (1100, 2) ∷ []) still) in
    (m'.searches ≡ 2 ∷ []) × (m'.view_port_history ≡ [])
last_move_searched_example =
    last_move_searched 1000 ((1000, 1) ∷ []) still 1100 2100 2 refl
      (omega arith, omega arith, (omega arith, omega arith, tt)) (omega arith)

abbrev drawn_page : ℕ → PageInfo
drawn_page y = record {
  rect = record { y = y; height = 100 };
  bitmap_is_set = true;
  bitmap = some y;
}

scroll_keeps_visible_example :
    (page_at 0 (on_scroll (record { y = 0; height = 120 }) (drawn_page 20 ∷ drawn_page 144 ∷ []))
      ≡ some (drawn_page 20))
    × (page_at 1 (on_scroll (record { y = 0; height = 120 }) (drawn_page 20 ∷ drawn_page 144 ∷ []))
        ≡ some (reset_bitmap (drawn_page 144)))
scroll_keeps_visible_example =
    scroll_keeps_visible (record { y = 0; height = 120 }) (drawn_page 20 ∷ drawn_page 144 ∷ []) 0 1
      50 (drawn_page 20) (drawn_page 144) ((omega arith, tt), (tt, tt)) refl
      (omega arith, omega arith, omega arith, omega arith) refl (omega arith)
