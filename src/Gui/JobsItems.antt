-- ===== src/Gui/JobsItems.antt =====
-- The windows of the page of src/CustomerPrintClientGui/JobsPage/PageJobsList.cpp, in order: the pending
-- jobs come first. What each change of the sizer does to that.
use customer_print_client.Prelude.{
  ℕ, zero, suc, ◌-◌, ◌≡◌, refl, ap, ◌∙◌, Bool, true, false, List, [], ◌∷◌, inl, inr, some, arith,
  ◌==◌, if◌then◌else◌, Bool-cases,
}
use customer_print_client.Networking.Http.Request.{text_key}
use customer_print_client.Cloud.JobInfo.{PrintJobInfo}
use customer_print_client.Gui.JobsPage.{
  Item, pending_item, details_item, insert_at, get_pending_job_ctrl, destroy_pending,
  destroy_details, change_pending, show_job,
}
use customer_print_client.Gui.PendingJob.{PendingJob}

abbrev pub pending_first : ℕ → List Item → Bool
pending_first zero [] = true
pending_first zero (pending_item w job ∷ items) = false
pending_first zero (details_item w job ∷ items) = pending_first zero items
pending_first (suc n) [] = false
pending_first (suc n) (pending_item w job ∷ items) = pending_first n items
pending_first (suc n) (details_item w job ∷ items) = false

pub inserted :
    (n w : ℕ) (job : PrintJobInfo) (items : List Item)
    → pending_first n items ≡ true
    → pending_first n (insert_at n (details_item w job) items) ≡ true
unfolding insert_at
inserted zero w job items h = h
inserted (suc n) w job [] h = cc
inserted (suc n) w job (pending_item v j ∷ items) h = inserted n w job items h
inserted (suc n) w job (details_item v j ∷ items) h = cc

pub destroyed_details :
    (n w : ℕ) (items : List Item)
    → pending_first n items ≡ true
    → pending_first n (destroy_details w items) ≡ true
unfolding destroy_details
destroyed_details zero w [] h = refl
destroyed_details zero w (pending_item v j ∷ items) h = cc
destroyed_details zero w (details_item v j ∷ items) h =
    ground (arith, destroyed_details zero w items)
destroyed_details (suc n) w [] h = cc
destroyed_details (suc n) w (pending_item v j ∷ items) h = destroyed_details n w items h
destroyed_details (suc n) w (details_item v j ∷ items) h = cc

pub changed :
    (n w : ℕ) (f : PendingJob → PendingJob) (items : List Item)
    → pending_first n items ≡ true
    → pending_first n (change_pending w f items) ≡ true
unfolding change_pending
changed zero w f [] h = refl
changed zero w f (pending_item v j ∷ items) h = cc
changed zero w f (details_item v j ∷ items) h = changed zero w f items h
changed (suc n) w f [] h = cc
changed (suc n) w f (pending_item v j ∷ items) h = ground (arith, changed n w f items)
changed (suc n) w f (details_item v j ∷ items) h = cc

pub shown :
    (n w : ℕ) (job : PrintJobInfo) (items : List Item)
    → pending_first n items ≡ true
    → pending_first n (show_job w job items) ≡ true
unfolding show_job
shown zero w job [] h = refl
shown zero w job (pending_item v j ∷ items) h = cc
shown zero w job (details_item v j ∷ items) h = ground (arith, shown zero w job items)
shown (suc n) w job [] h = cc
shown (suc n) w job (pending_item v j ∷ items) h = shown n w job items h
shown (suc n) w job (details_item v j ∷ items) h = cc

-- A pending job that was found makes room.
taken_off :
    (id n w : ℕ) (items : List Item)
    → pending_first (suc n) items ≡ true
    → get_pending_job_ctrl id (suc n) items ≡ some w
    → pending_first n (destroy_pending w items) ≡ true
unfolding get_pending_job_ctrl destroy_pending
taken_off id n w [] h e = cc
taken_off id n w (details_item v j ∷ items) h e = cc
taken_off id zero w (pending_item v j ∷ items) h e = ground arith
taken_off id (suc n) w (pending_item v j ∷ items) h e = elim (Bool-cases (j.pending_job_id == id)) [
  | inl this ↦ ground arith
  | inr other ↦
      let later : get_pending_job_ctrl id (suc n) items ≡ some w = ground arith in
      ground (arith, taken_off id n w items h later)
]

pub destroyed_pending :
    (id n w : ℕ) (items : List Item)
    → pending_first n items ≡ true
    → get_pending_job_ctrl id n items ≡ some w
    → pending_first (n - 1) (destroy_pending w items) ≡ true
destroyed_pending id zero w items h e = unfold get_pending_job_ctrl in cc
destroyed_pending id (suc n) w items h e =
    ap (λ k. pending_first k (destroy_pending w items)) (omega arith) ∙ taken_off id n w items h e

-- Inserting behind the pending jobs does not change which of them is found.
pub found_still :
    (id n w : ℕ) (job : PrintJobInfo) (items : List Item)
    → get_pending_job_ctrl id n (insert_at n (details_item w job) items)
      ≡ get_pending_job_ctrl id n items
unfolding get_pending_job_ctrl insert_at
found_still id zero w job items = refl
found_still id (suc zero) w job [] = refl
found_still id (suc (suc n)) w job [] = refl
found_still id (suc n) w job (pending_item v j ∷ items) =
    ap (λ rest. if j.pending_job_id == id then some v else rest) (found_still id n w job items)
found_still id (suc n) w job (details_item v j ∷ items) = found_still id n w job items
