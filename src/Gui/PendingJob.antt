-- ===== src/Gui/PendingJob.antt =====
-- The window of a pending job, src/CustomerPrintClientGui/JobsPage/CtrlPendingJob.cpp: its label, its
-- gauge of 100 and what its button does.
use native.Mathlib.Nat.{div-lt_iff_lt-mul}
use customer_print_client.Prelude.{◌≤◌, ◌<◌, arith, ℕ, ◌+◌, ◌-◌, ◌*◌, ◌/◌, Bool, true, false, Text}
use customer_print_client.Networking.Http.Request.{text_key}

-- The label of a CtrlPendingJob.
pub data Label : Type 0 where
  no_label complete_label cancelled_label : Label
  rendering_label uploading_label : ℕ → Text → Label
  error_label : Text → Label

pub record PendingJob : Type 0 where
  pub pending_job_id : ℕ
  pub page_count : ℕ
  pub label : Label
  pub gauge : ℕ
  pub can_cancel : Bool

unfoldable pub new_pending_job : ℕ → ℕ → PendingJob
new_pending_job id page_count = record {
  pending_job_id = id;
  page_count = page_count;
  label = no_label;
  gauge = 0;
  can_cancel = true;
}

-- The methods UpdateStatus... of CtrlPendingJob. Pages count from 1.
pub data Status : Type 0 where
  rendering uploading : ℕ → Text → Status
  complete cancelled : Status
  failed : Text → Status

unfoldable pub update_status : Status → PendingJob → PendingJob
update_status (rendering page name) job = record job {
  label = rendering_label page name;
  gauge = (2 * page - 1) * 50 / (2 * job.page_count);
}
update_status (uploading page name) job = record job {
  label = uploading_label page name;
  gauge = 50 + (2 * page - 1) * 50 / (2 * job.page_count);
}
update_status complete job = record job { label = complete_label; gauge = 100; can_cancel = false }
update_status (failed error) job = record job { label = error_label error; can_cancel = false }
update_status cancelled job = record job { label = cancelled_label; can_cancel = false }

below : (page n : ℕ) → 1 ≤ page → page ≤ n → (2 * page - 1) * 50 / (2 * n) < 50
below page n lo hi = (div-lt_iff_lt-mul (omega arith)).1 (omega arith)

-- For a page from 1 to the count of pages, the gauge stays below its half while the page is rendered,
-- and is at least at its half and below its end while the page is uploaded.
pub gauge_in_halves :
    (job : PendingJob) (page : ℕ) (name : Text)
    → 1 ≤ page
    → page ≤ job.page_count
    → ((update_status (rendering page name) job).gauge < 50)
      × (50 ≤ (update_status (uploading page name) job).gauge)
      × ((update_status (uploading page name) job).gauge < 100)
unfolding update_status
gauge_in_halves job page name lo hi =
    let half = below page job.page_count lo hi in (half, omega arith, omega (arith, half))
