-- ===== src/Gui/JobsAligned.antt =====
-- How the loops of UpdateContent of src/CustomerPrintClientGui/JobsPage/PageJobsList.cpp keep the
-- windows and the jobs of the page in one order.
use customer_print_client.Gui.JobsWindows.{
  shown, window_of, separate, shown-show_job, shown-destroy, separate-show_job, window_of-show_job,
  separate-destroy, window_of-destroy, absent-fresh, separate_later,
}
use mathlib.Core.Path.{subst}
use mathlib.Core.Option.{some-injective, none-ne-some}
use customer_print_client.Gui.JobsMap.{Current, all_details}
use customer_print_client.Prelude.{
  ℕ, ◌≡◌, refl, sym, ap, ◌∙◌, Bool, true, false, not, ◌&&◌, List, [], ◌∷◌, ◌⊎◌, inl, inr, Option,
  none, some, Text, text_eq, text_eq_iff, arith, Option-cases, Bool-cases, and_then-some, is_some,
}
use customer_print_client.Prelude.Dict.{find, insert, erase, find-insert, find-erase}
use customer_print_client.Networking.Http.Request.{text_key}
use customer_print_client.Cloud.JobInfo.{PrintJobInfo, jobs_differ}
use customer_print_client.Gui.JobsPage.{
  Item, pending_item, JobUiItem, details_window, current_jobs, JobsPage, update_shared, merge_job,
  merge_jobs, remove_gone, show_job, insert_at, details_item, destroy_gone,
}

-- Each entry of the map has the window of its job.
abbrev pub WindowLinked : Current → List Item → Type 0
WindowLinked current items =
    (i : Text) (old : PrintJobInfo) (w : Option ℕ)
    → find i current ≡ some (old, w)
    → (v : ℕ) × (w ≡ some v) × (window_of i items ≡ some v)

-- The windows show the jobs of the page, in their order.
abbrev pub Aligned : JobsPage → Type 0
Aligned p =
    (shown p.sizer ≡ p.jobs) × (separate p.next_window p.sizer ≡ true) × (p.pending_count ≡ 0)

abbrev Laid : JobsPage × Current → Type 0
Laid state = Aligned state.0 × WindowLinked state.1 state.0.sizer

-- The map without a job, over windows that are those of before for the others.
linked-erase :
    (id : Text) (current : Current) (items items' : List Item)
    → ((i : Text) → text_eq id i ≡ false → window_of i items' ≡ window_of i items)
    → WindowLinked current items
    → WindowLinked (erase id current) items'
linked-erase id current items items' elsewhere linked i old w h = elim (Bool-cases (text_eq id i)) [
  | inl same ↦ absurd (none-ne-some (old, w) (sym (find-erase id i current ∙ rw same refl) ∙ h))
  | inr other ↦
      let (v, is_v, there) = linked i old w (sym (find-erase id i current ∙ rw other refl) ∙ h) in
      (v, is_v, elsewhere i other ∙ there)
]

linked-add :
    (n : ℕ) (job : PrintJobInfo) (current : Current) (items : List Item)
    → find job.id current ≡ none
    → WindowLinked current items
    → WindowLinked current (details_item n job ∷ items)
linked-add n job current items e linked i old w h = elim (Bool-cases (text_eq job.id i)) [
  | inl same ↦
      absurd (
        none-ne-some (old, w)
          (sym e ∙ ap (λ k. find k current) ((text_eq_iff job.id i).0 same) ∙ h))
  | inr other ↦ let (v, is_v, there) = linked i old w h in (v, is_v, rw other there)
]

merge_job-Laid :
    (job : PrintJobInfo) (p : JobsPage) (current : Current) (state : JobsPage × Current)
    → merge_job job (p, current) ≡ some state
    → Laid (p, current)
    → Laid state
unfolding merge_job insert_at
merge_job-Laid job p current state h ((same, apart, front), linked) =
    elim (Option-cases (find job.id current)) [
      | inl e ↦ subst Laid (some-injective _ state (rw (merge_job, e, front) at h)) (
        (
          ap (λ jobs. job ∷ jobs) same,
          ground (
            arith,
            apart,
            absent-fresh p.next_window p.sizer apart,
            separate_later p.next_window p.sizer apart,
          ),
          refl,
        ),
        linked-add p.next_window job current p.sizer e linked,
      )
      | inr ((old, w), e) ↦ elim (Bool-cases (jobs_differ old job)) [
        | inr d ↦ subst Laid (some-injective _ state (rw (merge_job, e, d) at h)) (
          (same, apart, front),
          linked-erase job.id current p.sizer p.sizer (λ i other. refl) linked,
        )
        | inl d ↦
            let (v, there, here) = linked job.id old w e in
            subst Laid (some-injective _ state (rw there at (rw (merge_job, e, d) at h))) (
              (
                shown-show_job p.next_window v job p.sizer apart here ∙ ap (update_shared job) same,
                separate-show_job p.next_window v job p.sizer ∙ apart,
                front,
              ),
              linked-erase job.id current p.sizer (show_job v job p.sizer)
                  (λ i other. window_of-show_job i v job p.sizer) linked,
            )
      ]
    ]

pub merge_jobs-Laid :
    (js : List PrintJobInfo) (p : JobsPage) (current : Current) (state : JobsPage × Current)
    → merge_jobs js (p, current) ≡ some state
    → Aligned p × WindowLinked current p.sizer
    → Aligned state.0 × WindowLinked state.1 state.0.sizer
unfolding merge_jobs
merge_jobs-Laid [] p current state h laid = subst Laid (some-injective (p, current) state h) laid
merge_jobs-Laid (job ∷ js) p current state h laid =
    let (before, done, last) = and_then-some (merge_jobs js (p, current)) (merge_job job) state h in
    merge_job-Laid job before.0 before.1 state last (merge_jobs-Laid js p current before done laid)

-- The first loop over the jobs of the windows.
found_windows :
    (items : List Item) (found current : Current)
    → all_details items ≡ true
    → current_jobs (shown items) items found ≡ some current
    → (i : Text) (old : PrintJobInfo) (w : Option ℕ) → find i current ≡ some (old, w)
    → (find i found ≡ some (old, w))
      ⊎ ((find i found ≡ none) × ((v : ℕ) × (w ≡ some v) × (window_of i items ≡ some v)))
unfolding current_jobs
found_windows [] found current d h i old w e =
    inl (ap (find i) (some-injective found current h) ∙ e)
found_windows (pending_item u j ∷ items) found current d h i old w e = ground arith
found_windows (details_item u j ∷ items) found current d h i old w e =
    let entry : JobUiItem = (j, some u) in
    let inserted = find-insert j.id i entry found in
    let after = found_windows items (insert j.id entry found) current d h i old w e in
    elim (Option-cases (find i found)) [
      | inr (x, known) ↦
          let same : find i (insert j.id entry found) ≡ some x = rw known at inserted in
          elim after [
            | inl there ↦ inl (known ∙ sym same ∙ there)
            | inr (missing, later) ↦ absurd (none-ne-some x (sym missing ∙ same))
          ]
      | inl unknown ↦ elim (Bool-cases (text_eq j.id i)) [
        | inl here ↦
            let same : find i (insert j.id entry found) ≡ some entry =
              rw here at (rw unknown at inserted) in
            elim after [
              | inl there ↦ inr (
                unknown,
                (
                  u,
                  sym (ap (λ x. x.1) (some-injective entry (old, w) (sym same ∙ there))),
                  rw here refl,
                ),
              )
              | inr (missing, later) ↦ absurd (none-ne-some entry (sym missing ∙ same))
            ]
        | inr other ↦
            let same : find i (insert j.id entry found) ≡ none =
              rw other at (rw unknown at inserted) in
            elim after [
              | inl there ↦ absurd (none-ne-some (old, w) (sym same ∙ there))
              | inr (missing, (v, is_v, later)) ↦ inr (unknown, (v, is_v, rw other later))
            ]
      ]
    ]

pub current_jobs-WindowLinked :
    (items : List Item) (current : Current)
    → all_details items ≡ true
    → current_jobs (shown items) items [] ≡ some current
    → WindowLinked current items
unfolding find
current_jobs-WindowLinked items current d h i old w e =
    elim (found_windows items [] current d h i old w e) [
      | inl there ↦ absurd (none-ne-some (old, w) there)
      | inr (missing, there) ↦ there
    ]

-- No key twice.
abbrev pub once : Current → Bool
once [] = true
once ((id, item) ∷ current) = not (is_some (find id current)) && once current

once-insert : (k : Text) (v : JobUiItem) (m : Current) → once m ≡ true → once (insert k v m) ≡ true
unfolding find insert
once-insert k v [] h = refl
once-insert k v ((i, w) ∷ m) h =
    ground (arith, once-insert k v m, find-insert k i v m, text_eq_iff i k, text_eq_iff k i)

once-erase : (k : Text) (m : Current) → once m ≡ true → once (erase k m) ≡ true
unfolding find erase
once-erase k [] h = refl
once-erase k ((i, w) ∷ m) h = ground (arith, once-erase k m, find-erase k i m)

pub once-current_jobs :
    (jobs : List PrintJobInfo) (items : List Item) (found current : Current)
    → once found ≡ true
    → current_jobs jobs items found ≡ some current
    → once current ≡ true
unfolding current_jobs
once-current_jobs [] items found current o h =
    subst (λ c. once c ≡ true) (some-injective found current h) o
once-current_jobs (job ∷ jobs) [] found current o h = absurd (none-ne-some current h)
once-current_jobs (job ∷ jobs) (item ∷ items) found current o h =
    once-current_jobs jobs items (insert job.id (job, details_window item) found) current
      (once-insert job.id (job, details_window item) found o) h

once-merge_job :
    (job : PrintJobInfo) (p : JobsPage) (current : Current) (state : JobsPage × Current)
    → merge_job job (p, current) ≡ some state
    → once current ≡ true
    → once state.1 ≡ true
unfolding merge_job
once-merge_job job p current state h o =
    let P : JobsPage × Current → Type 0 = λ s. once s.1 ≡ true in
    elim (Option-cases (find job.id current)) [
      | inl e ↦ subst P (some-injective _ state (rw (merge_job, e) at h)) o
      | inr ((old, w), e) ↦ elim (Bool-cases (jobs_differ old job)) [
        | inr d ↦
            subst P (some-injective _ state (rw (merge_job, e, d) at h))
              (once-erase job.id current o)
        | inl d ↦ elim (Option-cases w) [
          | inl gone ↦ absurd (none-ne-some state (rw gone at (rw (merge_job, e, d) at h)))
          | inr (v, there) ↦
              subst P (some-injective _ state (rw there at (rw (merge_job, e, d) at h)))
                (once-erase job.id current o)
        ]
      ]
    ]

pub once-merge_jobs :
    (js : List PrintJobInfo) (p : JobsPage) (current : Current) (state : JobsPage × Current)
    → merge_jobs js (p, current) ≡ some state
    → once current ≡ true
    → once state.1 ≡ true
unfolding merge_jobs
once-merge_jobs [] p current state h o =
    subst (λ (s : JobsPage × Current). once s.1 ≡ true) (some-injective (p, current) state h) o
once-merge_jobs (job ∷ js) p current state h o =
    let (before, done, last) = and_then-some (merge_jobs js (p, current)) (merge_job job) state h in
    once-merge_job job before.0 before.1 state last (once-merge_jobs js p current before done o)

once_parts :
    (id : Text) (gone : Current)
    → (not (is_some (find id gone)) && once gone) ≡ true
    → (find id gone ≡ none) × (once gone ≡ true)
once_parts id gone h = (ground arith, ground arith)

-- The third loop with the erasing from the list: what is gone has neither a job nor a window.
pub destroy_gone-shown :
    (gone : Current) (n : ℕ) (p p' : JobsPage)
    → destroy_gone gone p ≡ some p'
    → once gone ≡ true
    → separate n p.sizer ≡ true
    → WindowLinked gone p.sizer
    → shown p'.sizer ≡ remove_gone gone (shown p.sizer)
unfolding destroy_gone remove_gone find
destroy_gone-shown [] n p p' h o apart linked =
    ap (λ q. shown q.sizer) (sym (some-injective p p' h))
destroy_gone-shown ((id, (job, none)) ∷ gone) n p p' h o apart linked = absurd (none-ne-some p' h)
destroy_gone-shown ((id, (job, some w)) ∷ gone) n p p' h o apart linked =
    let (v, is_v, there) = linked id job (some w) (rw ((text_eq_iff id id).1 refl) refl) in
    let here : window_of id p.sizer ≡ some w = there ∙ sym is_v in
    let (fresh, rest) = once_parts id gone o in
    destroy_gone-shown gone n _ p' h rest (separate-destroy n w p.sizer apart) (λ i old u e.
      elim (Bool-cases (text_eq id i)) [
        | inl same ↦ absurd (
            none-ne-some (old, u)
              (sym fresh ∙ ap (λ k. find k gone) ((text_eq_iff id i).0 same) ∙ e))
        | inr other ↦
            let (x, is_x, seen) = linked i old u (rw other e) in
            (x, is_x, window_of-destroy i id n w p.sizer apart here other ∙ seen)
      ])
    ∙ ap (remove_gone gone) (shown-destroy n w id p.sizer apart here)
