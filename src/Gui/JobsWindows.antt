-- ===== src/Gui/JobsWindows.antt =====
-- The windows of src/CustomerPrintClientGui/JobsPage/PageJobsList.cpp after UpdateContent: the jobs of
-- the page, in their order.
use customer_print_client.Gui.JobsMap.{all_details}
use customer_print_client.Prelude.{
  length, ◌≤◌, ℕ, ◌+◌, ◌≡◌, refl, Bool, true, false, not, ◌&&◌, List, [], ◌∷◌, inl, inr, Option,
  none, some, Text, text_eq, text_eq_iff, arith, ltb, ◌==◌, if◌then◌else◌, Bool-cases,
}
use customer_print_client.Networking.Http.Request.{text_key}
use customer_print_client.Cloud.JobInfo.{PrintJobInfo, update_job_from_another}
use customer_print_client.Gui.JobsPage.{
  Item, pending_item, update_shared, remove_job, show_job, details_item, destroy_details,
}

-- The jobs that the windows show.
abbrev pub shown : List Item → List PrintJobInfo
shown [] = []
shown (pending_item w job ∷ items) = shown items
shown (details_item w job ∷ items) = job ∷ shown items

-- The window of the first job with an id.
abbrev pub window_of : Text → List Item → Option ℕ
window_of i [] = none
window_of i (pending_item w job ∷ items) = window_of i items
window_of i (details_item w job ∷ items) =
    let rest = window_of i items in if text_eq job.id i then some w else rest

-- No window of the list is this one.
abbrev pub absent : ℕ → List Item → Bool
absent w [] = true
absent w (pending_item v job ∷ items) = absent w items
absent w (details_item v job ∷ items) = not (v == w) && absent w items

-- Windows of jobs alone, each once, with numbers below the next one.
abbrev pub separate : ℕ → List Item → Bool
separate n [] = true
separate n (pending_item w job ∷ items) = false
separate n (details_item w job ∷ items) = ltb w n && (absent w items && separate n items)

window_present :
    (i : Text) (w : ℕ) (items : List Item) → window_of i items ≡ some w → absent w items ≡ false
window_present i w [] h = ground arith
window_present i w (pending_item v job ∷ items) h = window_present i w items h
window_present i w (details_item v job ∷ items) h = ground (arith, window_present i w items)

pub shown-show_job :
    (n w : ℕ) (job : PrintJobInfo) (items : List Item)
    → separate n items ≡ true
    → window_of job.id items ≡ some w
    → shown (show_job w job items) ≡ update_shared job (shown items)
unfolding show_job update_shared
shown-show_job n w job [] s h = refl
shown-show_job n w job (pending_item v j ∷ items) s h = ground arith
shown-show_job n w job (details_item v j ∷ items) s h = elim (Bool-cases (text_eq j.id job.id)) [
  | inl e ↦ ground arith
  | inr e ↦ ground (arith, shown-show_job n w job items, window_present job.id w items)
]

pub shown-destroy :
    (n w : ℕ) (id : Text) (items : List Item)
    → separate n items ≡ true
    → window_of id items ≡ some w
    → shown (destroy_details w items) ≡ remove_job id (shown items)
unfolding destroy_details remove_job
shown-destroy n w id [] s h = refl
shown-destroy n w id (pending_item v j ∷ items) s h = ground arith
shown-destroy n w id (details_item v j ∷ items) s h = elim (Bool-cases (text_eq j.id id)) [
  | inl e ↦ ground arith
  | inr e ↦ ground (arith, shown-destroy n w id items, window_present id w items)
]

absent-show_job :
    (v w : ℕ) (job : PrintJobInfo) (items : List Item)
    → absent v (show_job w job items) ≡ absent v items
unfolding show_job
absent-show_job v w job [] = refl
absent-show_job v w job (pending_item u j ∷ items) = absent-show_job v w job items
absent-show_job v w job (details_item u j ∷ items) = ground (arith, absent-show_job v w job items)

pub separate-show_job :
    (n w : ℕ) (job : PrintJobInfo) (items : List Item)
    → separate n (show_job w job items) ≡ separate n items
unfolding show_job
separate-show_job n w job [] = refl
separate-show_job n w job (pending_item u j ∷ items) = refl
separate-show_job n w job (details_item u j ∷ items) =
    ground (arith, separate-show_job n w job items, absent-show_job u w job items)

pub window_of-show_job :
    (i : Text) (w : ℕ) (job : PrintJobInfo) (items : List Item)
    → window_of i (show_job w job items) ≡ window_of i items
unfolding show_job update_job_from_another
window_of-show_job i w job [] = refl
window_of-show_job i w job (pending_item u j ∷ items) = window_of-show_job i w job items
window_of-show_job i w job (details_item u j ∷ items) =
    ground (arith, window_of-show_job i w job items)

absent-destroy :
    (v w : ℕ) (items : List Item)
    → absent v items ≡ true
    → absent v (destroy_details w items) ≡ true
unfolding destroy_details
absent-destroy v w [] h = refl
absent-destroy v w (pending_item u j ∷ items) h = absent-destroy v w items h
absent-destroy v w (details_item u j ∷ items) h = ground (arith, absent-destroy v w items)

pub separate-destroy :
    (n w : ℕ) (items : List Item)
    → separate n items ≡ true
    → separate n (destroy_details w items) ≡ true
unfolding destroy_details
separate-destroy n w [] h = refl
separate-destroy n w (pending_item u j ∷ items) h = ground arith
separate-destroy n w (details_item u j ∷ items) h =
    ground (arith, separate-destroy n w items, absent-destroy u w items)

pub window_of-destroy :
    (i id : Text) (n w : ℕ) (items : List Item)
    → separate n items ≡ true
    → window_of id items ≡ some w
    → text_eq id i ≡ false
    → window_of i (destroy_details w items) ≡ window_of i items
unfolding destroy_details
window_of-destroy i id n w [] s h apart = refl
window_of-destroy i id n w (pending_item u j ∷ items) s h apart = ground arith
window_of-destroy i id n w (details_item u j ∷ items) s h apart =
    elim (Bool-cases (text_eq j.id id)) [
      | inl e ↦ ground (arith, text_eq_iff j.id id, text_eq_iff j.id i, text_eq_iff id i)
      | inr e ↦ ground (arith, window_of-destroy i id n w items, window_present id w items)
    ]

absent_later :
    (n w : ℕ) (items : List Item)
    → separate n items ≡ true
    → (ltb w n ≡ false)
    → absent w items ≡ true
absent_later n w [] h g = refl
absent_later n w (pending_item u j ∷ items) h g = ground arith
absent_later n w (details_item u j ∷ items) h g = ground (arith, absent_later n w items)

pub absent-fresh : (n : ℕ) (items : List Item) → separate n items ≡ true → absent n items ≡ true
absent-fresh n items h = absent_later n n items h (ground arith)

pub separate_later :
    (n : ℕ) (items : List Item) → separate n items ≡ true → separate (n + 1) items ≡ true
separate_later n [] h = refl
separate_later n (pending_item u j ∷ items) h = ground arith
separate_later n (details_item u j ∷ items) h = ground (arith, separate_later n items)

pub separate-all_details :
    (n : ℕ) (items : List Item) → separate n items ≡ true → all_details items ≡ true
separate-all_details n [] h = refl
separate-all_details n (pending_item w job ∷ items) h = ground arith
separate-all_details n (details_item w job ∷ items) h = ground (arith, separate-all_details n items)

pub length-shown : (items : List Item) → length (shown items) ≤ length items
length-shown [] = omega arith
length-shown (pending_item w job ∷ items) = omega (arith, length-shown items)
length-shown (details_item w job ∷ items) = omega (arith, length-shown items)
