-- ===== src/Gui/JobsShown.antt =====
-- UpdateContent of src/CustomerPrintClientGui/JobsPage/PageJobsList.cpp: what the page shows of the
-- list that the server sent, and where it goes wrong.
use customer_print_client.Gui.JobsMap.{
  times, Current, Distinct, Windowed, erase-Windowed, find-Windowed, current_jobs-Windowed,
}
use mathlib.Core.Path.{subst}
use customer_print_client.Gui.JobsWindows.{shown, separate-all_details, length-shown}
use customer_print_client.Gui.JobsAligned.{
  Aligned, current_jobs-WindowLinked, merge_jobs-Laid, once-merge_jobs, once-current_jobs,
  destroy_gone-shown,
}
use customer_print_client.Gui.JobsContents.{
  find_job, UpToDate, not_removed, merge_jobs-Merging, current_jobs-Linked,
}
use customer_print_client.Prelude.{
  ℕ, ◌+◌, ◌-◌, ◌≤◌, ◌≡◌, refl, sym, ap, ◌∙◌, Bool, true, false, not, ◌&&◌, ◌||◌, List, [], ◌∷◌, inl,
  inr, Option, none, some, Text, text_eq, text_eq_iff, arith, leb, if◌then◌else◌, is_some, length,
  Option-cases, Bool-cases,
}
use customer_print_client.Prelude.Dict.{find, erase, find-erase}
use customer_print_client.Networking.Http.Request.{text_key}
use customer_print_client.Cloud.JobInfo.{PrintJobInfo, jobs_differ, update_job_from_another}
use customer_print_client.Gui.JobsPage.{
  current_jobs, insert_at, show_job, selects, destroy_details, details_item, JobsPage,
  update_shared, merge_job, merge_jobs, destroy_gone, remove_job, remove_gone, update_content,
}

times-update_shared :
    (i : Text) (job : PrintJobInfo) (jobs : List PrintJobInfo)
    → times i (update_shared job jobs) ≡ times i jobs
unfolding update_shared update_job_from_another
times-update_shared i job [] = refl
times-update_shared i job (j ∷ jobs) = ground (arith, times-update_shared i job jobs)

-- Where the second loop stands after the jobs of a list, from jobs that are in the map once each.
abbrev Merged : List PrintJobInfo → Current → JobsPage × Current → Type 0
Merged js before (p, current) =
    Windowed current
    × ((i : Text)
        → (times i p.jobs ≡ (if is_some (find i before) || leb 1 (times i js) then 1 else 0))
          × (is_some (find i current) ≡ (is_some (find i before) && not (leb 1 (times i js)))))

merge_found :
    (job old : PrintJobInfo) (w : Option ℕ) (p : JobsPage) (current : Current)
    → Windowed current
    → find job.id current ≡ some (old, w)
    → (p' : JobsPage) × (merge_job job (p, current) ≡ some (p', erase job.id current))
      × ((i : Text) → times i p'.jobs ≡ times i p.jobs)
unfolding merge_job
merge_found job old w p current ok e = elim (Bool-cases (jobs_differ old job)) [
  | inl d ↦ elim (Option-cases w) [
    | inl none_there ↦ absurd (ground (arith, find-Windowed job.id current old w ok e))
    | inr (v, there) ↦
        let p' : JobsPage = record p {
          jobs = update_shared job p.jobs;
          sizer = show_job v job p.sizer;
        } in
        (p', rw (merge_job, e, d) (rw there refl), λ i. times-update_shared i job p.jobs)
  ]
  | inr d ↦ (p, rw (merge_job, e, d) refl, λ i. refl)
]

-- The counts of one id, when the job is new and when it is known.
count_new :
    (i id : Text) (n m : ℕ) (b c : Bool)
    → (text_eq id i ≡ true → c ≡ false)
    → (if text_eq id i then 1 else 0) + m ≤ 1
    → n ≡ (if b || leb 1 m then 1 else 0)
    → c ≡ (b && not (leb 1 m))
    → ((if text_eq id i then 1 else 0) + n
        ≡ (if b || leb 1 ((if text_eq id i then 1 else 0) + m) then 1 else 0))
      × (c ≡ (b && not (leb 1 ((if text_eq id i then 1 else 0) + m))))
count_new i id n m b c fresh once hn hc = ground arith

count_known :
    (i id : Text) (n m : ℕ) (b c : Bool)
    → (text_eq id i ≡ true → c ≡ true)
    → (if text_eq id i then 1 else 0) + m ≤ 1
    → n ≡ (if b || leb 1 m then 1 else 0)
    → c ≡ (b && not (leb 1 m))
    → (n ≡ (if b || leb 1 ((if text_eq id i then 1 else 0) + m) then 1 else 0))
      × ((if text_eq id i then false else c)
          ≡ (b && not (leb 1 ((if text_eq id i then 1 else 0) + m))))
count_known i id n m b c known once hn hc = ground arith

at_id :
    (i id : Text) (current : Current)
    → text_eq id i ≡ true
    → is_some (find i current) ≡ is_some (find id current)
at_id i id current h = ap (λ k. is_some (find k current)) (sym ((text_eq_iff id i).0 h))

erased :
    (i id : Text) (current : Current)
    → is_some (find i (erase id current))
      ≡ (if text_eq id i then false else is_some (find i current))
erased i id current = ground (arith, find-erase id i current)

merge-Merged :
    (job : PrintJobInfo) (js : List PrintJobInfo) (before : Current) (p : JobsPage)
    (current : Current)
    → Distinct (job ∷ js)
    → Merged js before (p, current)
    → (state : JobsPage × Current) × (merge_job job (p, current) ≡ some state)
      × Merged (job ∷ js) before state
unfolding merge_job
merge-Merged job js before p current once (ok, counts) = elim (Option-cases (find job.id current)) [
  | inl e ↦
      let p' : JobsPage = record p {
        jobs = job ∷ p.jobs;
        sizer = insert_at p.pending_count (details_item p.next_window job) p.sizer;
        next_window = p.next_window + 1;
      } in
      (
        (p', current),
        rw (merge_job, e) refl,
        (
          ok,
          λ i.
              count_new i job.id (times i p.jobs) (times i js) (is_some (find i before))
                (is_some (find i current)) (λ h. at_id i job.id current h ∙ ap is_some e) (once i)
                (counts i).0 (counts i).1,
        ),
      )
  | inr ((old, w), e) ↦
      let (p', done, same) = merge_found job old w p current ok e in
      (
        (p', erase job.id current),
        done,
        (
          erase-Windowed job.id current ok,
          λ i.
              (let (n, c) =
                  count_known i job.id (times i p.jobs) (times i js) (is_some (find i before))
                    (is_some (find i current)) (λ h. at_id i job.id current h ∙ ap is_some e)
                    (once i) (counts i).0 (counts i).1 in
                (same i ∙ n, erased i job.id current ∙ c)),
        ),
      )
]

merge_jobs-Merged :
    (js : List PrintJobInfo) (before : Current) (p : JobsPage)
    → Distinct js
    → Windowed before
    → ((i : Text) → times i p.jobs ≡ (if is_some (find i before) then 1 else 0))
    → (state : JobsPage × Current) × (merge_jobs js (p, before) ≡ some state)
      × Merged js before state
unfolding merge_jobs
merge_jobs-Merged [] before p once ok counts =
    ((p, before), refl, (ok, λ i. ground (arith, counts i)))
merge_jobs-Merged (job ∷ js) before p once ok counts =
    let ((p', current), e, merged) =
      merge_jobs-Merged js before p (λ i. ground (arith, once i)) ok counts in
    let (state, e', merged') = merge-Merged job js before p' current once merged in
    (state, rw (merge_jobs, e) e', merged')

-- The windows of the jobs that are gone are there to be destroyed.
destroy_gone-jobs :
    (gone : Current) (p : JobsPage)
    → Windowed gone
    → (p' : JobsPage) × (destroy_gone gone p ≡ some p') × (p'.jobs ≡ p.jobs)
unfolding destroy_gone
destroy_gone-jobs [] p ok = (p, refl, refl)
destroy_gone-jobs ((id, (job, none)) ∷ gone) p ok = cc
destroy_gone-jobs ((id, (job, some w)) ∷ gone) p ok =
    destroy_gone-jobs gone
      (record p {
        selected_child = if selects p.selected_child w then none else p.selected_child;
        sizer = destroy_details w p.sizer;
      })
      ok.1

times-remove_job :
    (i id : Text) (jobs : List PrintJobInfo)
    → times i (remove_job id jobs) ≡ times i jobs - (if text_eq id i then 1 else 0)
unfolding remove_job
times-remove_job i id [] = omega arith
times-remove_job i id (job ∷ jobs) =
    ground (arith, times-remove_job i id jobs, text_eq_iff job.id id, text_eq_iff id i)

times-remove_gone :
    (i : Text) (gone : Current) (jobs : List PrintJobInfo)
    → times i jobs ≤ 1
    → times i (remove_gone gone jobs) ≡ (if is_some (find i gone) then 0 else times i jobs)
unfolding remove_gone find
times-remove_gone i [] jobs h = refl
times-remove_gone i ((id, item) ∷ gone) jobs h = ground (
  arith,
  times-remove_gone i gone (remove_job id jobs),
  times-remove_job i id jobs,
  text_eq_iff id i,
)

sent_once :
    (i : Text) (j : PrintJobInfo) (js : List PrintJobInfo)
    → find_job i js ≡ some j
    → leb 1 (times i js) ≡ true
sent_once i j [] h = ground arith
sent_once i j (job ∷ js) h = ground (arith, sent_once i j js)

-- What is in the new list is not left in the map.
merged_away :
    (i : Text) (js : List PrintJobInfo) (gone current : Current)
    → is_some (find i gone) ≡ (is_some (find i current) && not (leb 1 (times i js)))
    → leb 1 (times i js) ≡ true
    → find i gone ≡ none
merged_away i js gone current h sent = ground arith

-- What the second and the third loop leave, once the jobs that are gone are erased.
erased_page :
    (js : List PrintJobInfo) (gone current : Current) (merged left : JobsPage)
    → Merged js current (merged, gone)
    → Distinct js
    → UpToDate js merged.jobs
    → shown merged.sizer ≡ merged.jobs
    → left.jobs ≡ merged.jobs
    → shown left.sizer ≡ remove_gone gone (shown merged.sizer)
    → ((i : Text) → times i (remove_gone gone left.jobs) ≡ times i js)
      × UpToDate js (remove_gone gone left.jobs)
      × (shown left.sizer ≡ remove_gone gone left.jobs)
erased_page js gone current merged left (ok, counts) once_sent fresh still same destroyed = (
  λ i.
      ap (λ jobs. times i (remove_gone gone jobs)) same
      ∙ times-remove_gone i gone merged.jobs (ground (arith, (counts i).0))
      ∙ ground (arith, (counts i).0, (counts i).1, once_sent i),
  λ i j sent.
      (let (j', there, settled) = fresh i j sent in
        (
          j',
          ap (λ jobs. find_job i (remove_gone gone jobs)) same
              ∙ not_removed i gone merged.jobs
                  (merged_away i js gone current (counts i).1 (sent_once i j js sent))
              ∙ there,
          settled,
        )),
  destroyed ∙ ap (remove_gone gone) (still ∙ sym same),
)

-- On a page without pending jobs, whose windows show its jobs in their order, each in a window of its
-- own, and with no id twice among the jobs of the page or of the new list, UpdateContent goes through.
-- Then each id is among the jobs of the page as often as in the new list; each job of the new list is
-- there with its time of update, its status and whether it is paid off as the list has them; and the
-- windows show the jobs of the page in their order.
pub update_content_shows :
    (p : JobsPage) (js : List PrintJobInfo)
    → Aligned p
    → Distinct p.jobs
    → Distinct js
    → (p' : JobsPage) × (update_content js p ≡ some p')
      × ((i : Text) → times i p'.jobs ≡ times i js)
      × UpToDate js p'.jobs
      × (shown p'.sizer ≡ p'.jobs)
unfolding update_content find
update_content_shows p js aligned once_here once_sent =
    let (same_jobs, apart, front) = aligned in
    let details = separate-all_details p.next_window p.sizer apart in
    let enough : length p.jobs ≤ length p.sizer =
      subst (λ jobs. length jobs ≤ length p.sizer) same_jobs (length-shown p.sizer) in
    let (current, found, ok, finds) = current_jobs-Windowed p.jobs p.sizer [] details enough tt in
    let p1 : JobsPage = record p { need_update_content = false } in
    let ((merged, gone), done, (ok', counts)) =
      merge_jobs-Merged js current p1 once_sent ok (λ i. ground (arith, finds i, once_here i)) in
    let (linked, fresh) =
      merge_jobs-Merging js p1 current (merged, gone) done
        (current_jobs-Linked p.jobs p.sizer current found) in
    let windows =
      current_jobs-WindowLinked p.sizer current details
        (ap (λ jobs. current_jobs jobs p.sizer []) same_jobs ∙ found) in
    let ((still, still_apart, _), gone_windows) =
      merge_jobs-Laid js p1 current (merged, gone) done (aligned, windows) in
    let keys =
      once-merge_jobs js p1 current (merged, gone) done
        (once-current_jobs p.jobs p.sizer [] current refl found) in
    let (left, destroyed, same) = destroy_gone-jobs gone merged ok' in
    let (as_often, up_to_date, in_order) =
      erased_page js gone current merged left (ok', counts) once_sent fresh still same
        (destroy_gone-shown gone merged.next_window merged left destroyed keys still_apart
          gone_windows) in
    (
      record left { jobs = remove_gone gone left.jobs },
      rw (update_content, found) (rw done (rw destroyed refl)),
      as_often,
      up_to_date,
      in_order,
    )
