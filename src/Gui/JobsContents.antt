-- ===== src/Gui/JobsContents.antt =====
-- What UpdateContent of src/CustomerPrintClientGui/JobsPage/PageJobsList.cpp leaves in the jobs of the
-- page: the state of each job as the server sent it.
use mathlib.Core.Path.{subst}
use mathlib.Core.Option.{some-injective, none-ne-some}
use customer_print_client.Gui.JobsMap.{Current}
use customer_print_client.Prelude.{
  ℕ, ◌≡◌, refl, sym, ap, ◌∙◌, false, List, [], ◌∷◌, ◌⊎◌, inl, inr, Option, none, some, Text,
  text_eq, text_eq_iff, arith, if◌then◌else◌, Option-cases, Bool-cases, and_then-some,
}
use customer_print_client.Prelude.Dict.{find, insert, erase, find-insert, find-erase}
use customer_print_client.Networking.Http.Request.{text_key}
use customer_print_client.Cloud.JobInfo.{
  PrintJobInfo, jobs_differ, update_job_from_another, update_settles,
}
use customer_print_client.Gui.JobsPage.{
  Item, JobUiItem, details_window, current_jobs, JobsPage, update_shared, merge_job, merge_jobs,
  remove_job, remove_gone,
}

-- The first job with an id.
abbrev pub find_job : Text → List PrintJobInfo → Option PrintJobInfo
find_job i [] = none
find_job i (job ∷ jobs) = let rest = find_job i jobs in if text_eq job.id i then some job else rest

-- The job with this id is there, and does not differ from the one in the new list.
abbrev pub UpToDate : List PrintJobInfo → List PrintJobInfo → Type 0
UpToDate js jobs =
    (i : Text) (j : PrintJobInfo)
    → find_job i js ≡ some j
    → (j' : PrintJobInfo) × (find_job i jobs ≡ some j') × (jobs_differ j' j ≡ false)

-- The map has the jobs of the page.
abbrev pub Linked : Current → List PrintJobInfo → Type 0
Linked current jobs =
    (i : Text) (old : PrintJobInfo) (w : Option ℕ)
    → find i current ≡ some (old, w)
    → find_job i jobs ≡ some old

no_difference : (j : PrintJobInfo) → jobs_differ j j ≡ false
unfolding jobs_differ
no_difference j = ground arith

updated_elsewhere :
    (i : Text) (job : PrintJobInfo) (jobs : List PrintJobInfo)
    → text_eq job.id i ≡ false
    → find_job i (update_shared job jobs) ≡ find_job i jobs
unfolding update_shared update_job_from_another
updated_elsewhere i job [] h = refl
updated_elsewhere i job (j ∷ jobs) h = ground (
  arith,
  updated_elsewhere i job jobs h,
  text_eq_iff j.id job.id,
  text_eq_iff j.id i,
  text_eq_iff job.id i,
)

updated_here :
    (job : PrintJobInfo) (jobs : List PrintJobInfo) (old : PrintJobInfo)
    → find_job job.id jobs ≡ some old
    → find_job job.id (update_shared job jobs) ≡ some (update_job_from_another old job)
unfolding update_shared update_job_from_another
updated_here job [] old h = ground arith
updated_here job (j ∷ jobs) old h = elim (Bool-cases (text_eq j.id job.id)) [
  | inl e ↦
      rw (update_shared, e)
        (rw e (ap (λ x. some (update_job_from_another x job)) (some-injective j old (rw e at h))))
  | inr e ↦ rw (update_shared, e) (rw e (updated_here job jobs old (rw e at h)))
]

removed_elsewhere :
    (i id : Text) (jobs : List PrintJobInfo)
    → text_eq id i ≡ false
    → find_job i (remove_job id jobs) ≡ find_job i jobs
unfolding remove_job
removed_elsewhere i id [] h = refl
removed_elsewhere i id (j ∷ jobs) h = ground (
  arith,
  removed_elsewhere i id jobs h,
  text_eq_iff j.id id,
  text_eq_iff j.id i,
  text_eq_iff id i,
)

pub not_removed :
    (i : Text) (gone : Current) (jobs : List PrintJobInfo)
    → find i gone ≡ none
    → find_job i (remove_gone gone jobs) ≡ find_job i jobs
unfolding remove_gone find
not_removed i [] jobs h = refl
not_removed i ((id, item) ∷ gone) jobs h = elim (Bool-cases (text_eq id i)) [
  | inl e ↦ ground arith
  | inr e ↦ not_removed i gone (remove_job id jobs) (ground arith) ∙ removed_elsewhere i id jobs e
]

-- What holds between the passes of the second loop.
abbrev Merging : List PrintJobInfo → JobsPage × Current → Type 0
Merging js state = Linked state.1 state.0.jobs × UpToDate js state.0.jobs

-- A job that is new stands in front of the others.
added :
    (job : PrintJobInfo) (js jobs : List PrintJobInfo) (current : Current)
    → find job.id current ≡ none
    → Linked current jobs
    → UpToDate js jobs
    → Linked current (job ∷ jobs) × UpToDate (job ∷ js) (job ∷ jobs)
added job js jobs current e linked fresh = (
  λ i old w h. elim (Bool-cases (text_eq job.id i)) [
    | inl same ↦ absurd (
        none-ne-some (old, w)
          (sym e ∙ ap (λ k. find k current) ((text_eq_iff job.id i).0 same) ∙ h))
    | inr other ↦ rw other (linked i old w h)
  ],
  λ i j h. elim (Bool-cases (text_eq job.id i)) [
    | inl same ↦ (
      job,
      rw same refl,
      subst (λ x. jobs_differ job x ≡ false) (some-injective job j (rw same at h))
          (no_difference job),
    )
    | inr other ↦ rw other (fresh i j (rw other at h))
  ],
)

-- A job that is known, once the page has it as it was sent.
taken :
    (job : PrintJobInfo) (js jobs jobs' : List PrintJobInfo) (current : Current)
    → ((i : Text) → text_eq job.id i ≡ false → find_job i jobs' ≡ find_job i jobs)
    → ((j' : PrintJobInfo) × (find_job job.id jobs' ≡ some j') × (jobs_differ j' job ≡ false))
    → Linked current jobs
    → UpToDate js jobs
    → Linked (erase job.id current) jobs' × UpToDate (job ∷ js) jobs'
taken job js jobs jobs' current elsewhere (j', here, settled) linked fresh = (
  λ i old w h. elim (Bool-cases (text_eq job.id i)) [
    | inl same ↦
        absurd (none-ne-some (old, w) (sym (find-erase job.id i current ∙ rw same refl) ∙ h))
    | inr other ↦
        elsewhere i other ∙ linked i old w (sym (find-erase job.id i current ∙ rw other refl) ∙ h)
  ],
  λ i j h. elim (Bool-cases (text_eq job.id i)) [
    | inl same ↦ (
      j',
      ap (λ k. find_job k jobs') (sym ((text_eq_iff job.id i).0 same)) ∙ here,
      subst (λ x. jobs_differ j' x ≡ false) (some-injective job j (rw same at h)) settled,
    )
    | inr other ↦
        let (old, found, same) = fresh i j (rw other at h) in (old, elsewhere i other ∙ found, same)
  ],
)

merge_job-Merging :
    (job : PrintJobInfo) (js : List PrintJobInfo) (p : JobsPage) (current : Current)
    (state : JobsPage × Current)
    → merge_job job (p, current) ≡ some state
    → Merging js (p, current)
    → Merging (job ∷ js) state
unfolding merge_job
merge_job-Merging job js p current state h (linked, fresh) =
    elim (Option-cases (find job.id current)) [
      | inl e ↦
          subst (Merging (job ∷ js)) (some-injective _ state (rw (merge_job, e) at h))
            (added job js p.jobs current e linked fresh)
      | inr ((old, w), e) ↦ elim (Bool-cases (jobs_differ old job)) [
        | inr d ↦ subst (Merging (job ∷ js)) (some-injective _ state (rw (merge_job, e, d) at h)) (
            taken job js p.jobs p.jobs current (λ i other. refl) (old, linked job.id old w e, d)
              linked fresh)
        | inl d ↦ elim (Option-cases w) [
          | inl gone ↦ absurd (none-ne-some state (rw gone at (rw (merge_job, e, d) at h)))
          | inr (v, there) ↦
              subst (Merging (job ∷ js))
                (some-injective _ state (rw there at (rw (merge_job, e, d) at h)))
                (taken job js p.jobs (update_shared job p.jobs) current
                  (λ i other. updated_elsewhere i job p.jobs other)
                  (
                    update_job_from_another old job,
                    updated_here job p.jobs old (linked job.id old w e),
                    (update_settles old job).0,
                  )
                  linked fresh)
        ]
      ]
    ]

pub merge_jobs-Merging :
    (js : List PrintJobInfo) (p : JobsPage) (current : Current) (state : JobsPage × Current)
    → merge_jobs js (p, current) ≡ some state
    → Linked current p.jobs
    → Linked state.1 state.0.jobs × UpToDate js state.0.jobs
unfolding merge_jobs
merge_jobs-Merging [] p current state h linked =
    subst (Merging []) (some-injective (p, current) state h)
      (linked, λ i j e. absurd (none-ne-some j e))
merge_jobs-Merging (job ∷ js) p current state h linked =
    let (before, done, last) = and_then-some (merge_jobs js (p, current)) (merge_job job) state h in
    merge_job-Merging job js before.0 before.1 state last
      (merge_jobs-Merging js p current before done linked)

-- The map of the first loop has each job that it found, as it stands on the page.
found_jobs :
    (jobs : List PrintJobInfo) (items : List Item) (found current : Current)
    → current_jobs jobs items found ≡ some current
    → (i : Text) (old : PrintJobInfo) (w : Option ℕ) → find i current ≡ some (old, w)
    → (find i found ≡ some (old, w)) ⊎ ((find i found ≡ none) × (find_job i jobs ≡ some old))
unfolding current_jobs
found_jobs [] items found current h i old w e =
    inl (ap (find i) (some-injective found current h) ∙ e)
found_jobs (job ∷ jobs) [] found current h i old w e = absurd (none-ne-some current h)
found_jobs (job ∷ jobs) (item ∷ items) found current h i old w e =
    let entry : JobUiItem = (job, details_window item) in
    let inserted = find-insert job.id i entry found in
    let after = found_jobs jobs items (insert job.id entry found) current h i old w e in
    elim (Option-cases (find i found)) [
      | inr (x, known) ↦
          let same : find i (insert job.id entry found) ≡ some x = rw known at inserted in
          elim after [
            | inl there ↦ inl (known ∙ sym same ∙ there)
            | inr (missing, later) ↦ absurd (none-ne-some x (sym missing ∙ same))
          ]
      | inl unknown ↦ elim (Bool-cases (text_eq job.id i)) [
        | inl here ↦
            let same : find i (insert job.id entry found) ≡ some entry =
              rw here at (rw unknown at inserted) in
            elim after [
              | inl there ↦ inr (
                unknown,
                rw here (ap (λ x. some x.0) (some-injective entry (old, w) (sym same ∙ there))),
              )
              | inr (missing, later) ↦ absurd (none-ne-some entry (sym missing ∙ same))
            ]
        | inr other ↦
            let same : find i (insert job.id entry found) ≡ none =
              rw other at (rw unknown at inserted) in
            elim after [
              | inl there ↦ absurd (none-ne-some (old, w) (sym same ∙ there))
              | inr (missing, later) ↦ inr (unknown, rw other later)
            ]
      ]
    ]

pub current_jobs-Linked :
    (jobs : List PrintJobInfo) (items : List Item) (current : Current)
    → current_jobs jobs items [] ≡ some current
    → Linked current jobs
unfolding find
current_jobs-Linked jobs items current h i old w e =
    elim (found_jobs jobs items [] current h i old w e) [
      | inl there ↦ absurd (none-ne-some (old, w) there)
      | inr (missing, there) ↦ there
    ]
