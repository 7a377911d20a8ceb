-- ===== src/Jobs/Settled.antt =====
-- The bookkeeping of the processor over any history: each job that was submitted waits for one
-- thing or has its promise set, once.
use customer_print_client.Prelude.{
  ℕ, ◌≡◌, refl, ◌∙◌, ◌<◌, ◌⊎◌, true, false, not, List, [], ◌∷◌, inl, inr, none, some, arith, ◌==◌,
  ==_iff, if◌then◌else◌, ltb, is_some, Option-cases, Text,
}
use customer_print_client.Prelude.Dict.{find, assign, erase, find-assign, find-erase, find-insert}
use customer_print_client.Printing.ImageFormat.{ImageFormat}
use customer_print_client.Jobs.Types.{
  PendingJobInfo, Document, Task, rendering, creating, uploading, completing, retrieving,
  cancelling,
}
use customer_print_client.Jobs.Processor.{
  id_key, Processor, mark_all, cancel_pending_job, cancel_all_pending_jobs, count, release_job,
  add_job_to_pending_list, remove_job_to_pending_list,
}
use customer_print_client.Jobs.Render.{render_and_upload}
use customer_print_client.Jobs.Machine.{
  Answer, rendered, created, uploaded, completed, retrieved, server_cancelled, Event, submit,
  answer, cancel, cancel_all, time_is, login, callback, deliver, step, run, start,
}
use customer_print_client.Jobs.Advance.{TaskOk, TasksOk, rank, weight, is_pending, Advances}
use customer_print_client.Jobs.Callbacks.{
  render_round-Advances, create_job_callback-Advances, upload_next_page-Advances,
  complete_job_callback-Advances, get_job_callback-Advances, cancel_job_callback-Advances,
}

pub record Inv (p : Processor) : Type 0 where
  pub weighs : (i : ℕ) → weight i p ≡ (if ltb i p.last_id then 1 else 0)
  pub tasks_ok : TasksOk p.tasks
  pub sound : p.faulted ≡ false
  pub pending : (i : ℕ) → is_pending i p ≡ not (count i p.tasks == 0)

-- A callback that takes an answer advances the job of its task.
pub callback-Advances :
    (j : ℕ) (t : Task) (a : Answer) (p : Processor) {q : Processor}
    → TaskOk j t
    → callback t a p ≡ some q
    → Advances j (rank t) p q
unfolding callback
callback-Advances j (rendering ctx) (rendered r) p ok e =
    ground (arith, render_round-Advances ctx r p)
callback-Advances j (creating ctx) (created r) p ok e =
    ground
      (arith, create_job_callback-Advances ctx r {n = rank (creating ctx)} p ok.1 (omega arith))
callback-Advances j (uploading ctx) (uploaded (inl r)) p ok e =
    let n : ℕ = rank (uploading ctx) in
    ground (
      arith,
      upload_next_page-Advances ctx (some r) none {n = n} p ok.1 (inl (λ n. cc)) (omega arith),
    )
callback-Advances j (uploading ctx) (uploaded (inr ex)) p ok e =
    let n : ℕ = rank (uploading ctx) in
    ground (
      arith,
      upload_next_page-Advances ctx none (some ex) {n = n} p ok.1 (inr (λ n. cc)) (omega arith),
    )
callback-Advances j (completing ctx) (completed ex) p ok e =
    ground (arith, complete_job_callback-Advances ctx ex {n = 3} p ok.1 (omega arith))
callback-Advances j (retrieving ctx) (retrieved r) p ok e =
    ground (arith, get_job_callback-Advances ctx r {n = 2} p ok.1 (omega arith))
callback-Advances j (cancelling ctx ex) (server_cancelled r) p ok e =
    ground (arith, cancel_job_callback-Advances ctx ex {n = 1} p (omega arith))
callback-Advances j _ _ p ok e = cc

pub find-TaskOk :
    (j : ℕ) (t : Task) (ts : List (ℕ × Task)) → TasksOk ts → find j ts ≡ some t → TaskOk j t
unfolding find
find-TaskOk j t [] ok e = cc
find-TaskOk j t ((i, u) ∷ ts) ok e = ground (arith, find-TaskOk j t ts ok.1, ==_iff i j)

pub erase-TasksOk : (j : ℕ) (ts : List (ℕ × Task)) → TasksOk ts → TasksOk (erase j ts)
unfolding erase
erase-TasksOk j [] ok = tt
erase-TasksOk j ((i, u) ∷ ts) ok = ground (arith, erase-TasksOk j ts ok.1)

pub count-erase :
    (i j : ℕ) (ts : List (ℕ × Task)) → count i (erase j ts) ≡ (if j == i then 0 else count i ts)
unfolding erase count
count-erase i j [] = ground arith
count-erase i j ((k, u) ∷ ts) = ground (arith, count-erase i j ts)

pub count_of_find : (j : ℕ) (t : Task) (ts : List (ℕ × Task)) → find j ts ≡ some t → 0 < count j ts
unfolding find count
count_of_find j t [] e = cc
count_of_find j t ((k, u) ∷ ts) e = ground (arith, count_of_find j t ts)

-- The job's one task is taken out, and the callback puts one task or one promise in.
release-Inv :
    (j : ℕ) (p q : Processor) (t : Task)
    → Inv p
    → find j p.tasks ≡ some t
    → Advances j (rank t) (record p { tasks = erase j p.tasks }) q
    → Inv (release_job j q)
unfolding release_job remove_job_to_pending_list
release-Inv j p q t inv e a =
    let taken = count-erase j j p.tasks in
    let there = count_of_find j t p.tasks e in
    record {
      weighs = λ i.
          ground (arith, a.weighs i, a.last_id_eq, inv.weighs i, count-erase i j p.tasks, there);
      tasks_ok = ground (arith, a.keeps_ok (erase-TasksOk j p.tasks inv.tasks_ok));
      sound = ground (arith, a.faulted_eq, inv.sound);
      pending = λ i. ground (
        arith,
        a.pending_eq i,
        inv.pending i,
        find-erase j i q.pending_jobs,
        a.others i,
        count-erase i j p.tasks,
        there,
      );
    }

deliver-Inv : (j : ℕ) (a : Answer) (p : Processor) → Inv p → Inv (deliver j a p)
unfolding deliver
deliver-Inv j a p inv = elim (Option-cases (find j p.tasks)) [
  | inl e ↦ rw (e, deliver) inv
  | inr (t, e) ↦
      let ok = find-TaskOk j t p.tasks inv.tasks_ok e in
      let p' = record p { tasks = erase j p.tasks } in
      elim (Option-cases (callback t a p')) [
        | inl none_eq ↦ rw (e, deliver) (rw none_eq inv)
        | inr (q, some_eq) ↦
            rw (e, deliver)
              (rw some_eq (release-Inv j p q t inv e (callback-Advances j t a p' ok some_eq)))
      ]
]

cancelled_entry :
    (j i : ℕ) (m : List (ℕ × PendingJobInfo)) (info info' : PendingJobInfo)
    → find j m ≡ some info
    → is_some (find i (assign j info' m)) ≡ is_some (find i m)
cancelled_entry j i m info info' e = rw find-assign (ground (arith, e, ==_iff j i))

cancel_pending_job-Inv : (j : ℕ) (p : Processor) → Inv p → Inv (cancel_pending_job j p)
unfolding cancel_pending_job
cancel_pending_job-Inv j p inv = record {
  weighs = λ i. ground (arith, inv.weighs i);
  tasks_ok = ground (arith, inv.tasks_ok);
  sound = ground (arith, inv.sound);
  pending = λ i. elim (Option-cases (find j p.pending_jobs)) [
    | inl e ↦ rw (e, cancel_pending_job) (inv.pending i)
    | inr (info, e) ↦ ground (
      arith,
      e,
      inv.pending i,
      cancelled_entry j i p.pending_jobs info (record info { cancelling = true }) e,
    )
  ];
}

find-mark_all :
    (i : ℕ) (m : List (ℕ × PendingJobInfo)) → is_some (find i (mark_all m)) ≡ is_some (find i m)
unfolding find mark_all
find-mark_all i [] = refl
find-mark_all i ((j, info) ∷ m) = ground (arith, find-mark_all i m)

cancel_all_pending_jobs-Inv : (p : Processor) → Inv p → Inv (cancel_all_pending_jobs p)
unfolding cancel_all_pending_jobs
cancel_all_pending_jobs-Inv p inv = record {
  weighs = inv.weighs;
  tasks_ok = inv.tasks_ok;
  sound = inv.sound;
  pending = λ i. find-mark_all i p.pending_jobs ∙ inv.pending i;
}

pub render_and_upload-Inv :
    (doc : Document) (office_id profile_id : Text) (copies : ℕ) (p : Processor)
    → Inv p
    → Inv (render_and_upload doc office_id profile_id copies p)
unfolding render_and_upload add_job_to_pending_list count
render_and_upload-Inv doc office_id profile_id copies p inv = record {
  weighs = λ i. ground (arith, inv.weighs i);
  tasks_ok = (refl, inv.tasks_ok);
  sound = inv.sound;
  pending = λ i. ground (
    arith,
    inv.pending i,
    inv.weighs i,
    find-insert p.last_id i (record { cancelling = false; current_http_request_id = 0 })
        p.pending_jobs,
  );
}

pub step-Inv : (e : Event) (p : Processor) → Inv p → Inv (step p e)
unfolding step
step-Inv (submit doc office_id profile_id copies) p inv =
    render_and_upload-Inv doc office_id profile_id copies p inv
step-Inv (answer j a) p inv = deliver-Inv j a p inv
step-Inv (cancel j) p inv = cancel_pending_job-Inv j p inv
step-Inv cancel_all p inv = cancel_all_pending_jobs-Inv p inv
step-Inv (time_is t) p inv = record {
  weighs = inv.weighs;
  tasks_ok = inv.tasks_ok;
  sound = inv.sound;
  pending = inv.pending;
}
step-Inv (login b) p inv = record {
  weighs = inv.weighs;
  tasks_ok = inv.tasks_ok;
  sound = inv.sound;
  pending = inv.pending;
}

pub run-Inv : (es : List Event) (p : Processor) → Inv p → Inv (run p es)
unfolding run
run-Inv [] p inv = inv
run-Inv (e ∷ es) p inv = run-Inv es (step p e) (step-Inv e p inv)

pub start-Inv : (out_format : ImageFormat) (to_utf8 : Text → Text) → Inv (start out_format to_utf8)
unfolding start count find
start-Inv out_format to_utf8 = record {
  weighs = λ i. ground arith;
  tasks_ok = tt;
  sound = refl;
  pending = λ i. refl;
}

pub reached-Inv :
    (out_format : ImageFormat) (to_utf8 : Text → Text) (es : List Event)
    → Inv (run (start out_format to_utf8) es)
reached-Inv out_format to_utf8 es = run-Inv es _ (start-Inv out_format to_utf8)

-- After any history each job that was submitted either waits for exactly one thing, is listed as
-- pending and has no promise set; or it waits for nothing, is not listed, and its promise was set
-- exactly once.
pub settled_exactly_once :
    (out_format : ImageFormat) (to_utf8 : Text → Text) (es : List Event) (j : ℕ)
    → j < (run (start out_format to_utf8) es).last_id
    → let p = run (start out_format to_utf8) es in
      ((count j p.tasks ≡ 1) × (count j p.settled ≡ 0) × (is_pending j p ≡ true))
      ⊎ ((count j p.tasks ≡ 0) × (count j p.settled ≡ 1) × (is_pending j p ≡ false))
settled_exactly_once out_format to_utf8 es j h =
    let inv = reached-Inv out_format to_utf8 es in ground (arith, inv.weighs j, inv.pending j)

-- After any history no callback has read through a null job info nor taken the front of an empty
-- list of streams.
pub never_faulted :
    (out_format : ImageFormat) (to_utf8 : Text → Text) (es : List Event)
    → (run (start out_format to_utf8) es).faulted ≡ false
never_faulted out_format to_utf8 es = (reached-Inv out_format to_utf8 es).sound
