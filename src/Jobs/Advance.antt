-- ===== src/Jobs/Advance.antt =====
-- What every callback of a job does: it leaves one task behind, or sets the promise, and never
-- both, never neither; a task that it leaves behind is nearer to the end.
use customer_print_client.Prelude.{
  ℕ, ◌-◌, ◌*◌, ◌<◌, length, ◌+◌, ◌≡◌, refl, ap, ◌∙◌, ◌≢◌, Bool, true, false, List, [], ◌∷◌, inl,
  inr, some, Text, arith, ◌==◌, ==_iff, if◌then◌else◌, is_some, All, Option-cases,
}
use customer_print_client.Prelude.Dict.{find, find-assign}
use customer_print_client.Prelude.{Option, none, some}
use customer_print_client.Jobs.Types.{
  CreateJobResult, UploadContext, Request, Task, rendering, creating, uploading, completing,
  retrieving, cancelling, Progress,
}
use customer_print_client.Jobs.Processor.{
  id_key, Outcome, Processor, set_promise, notify, wait_for, set_pending_job_http_cancel_id, count,
}
use customer_print_client.Jobs.Upload.{call_server, call_cancellable, with_job_id}

-- The server has created the job of this context.
abbrev pub HasJob : UploadContext → Type 0
HasJob ctx = (info : CreateJobResult) × (ctx.job_info ≡ some info)

-- A task under its job's id, with what its callback will read.
abbrev pub TaskOk : ℕ → Task → Type 0
TaskOk j (rendering ctx) = ctx.job ≡ j
TaskOk j (creating ctx) = (ctx.job ≡ j) × (ctx.input_streams ≢ [])
TaskOk j (uploading ctx) = (ctx.job ≡ j) × HasJob ctx
TaskOk j (completing ctx) = (ctx.job ≡ j) × HasJob ctx
TaskOk j (retrieving ctx) = (ctx.job ≡ j) × HasJob ctx
TaskOk j (cancelling ctx ex) = (ctx.job ≡ j) × HasJob ctx

abbrev pub TasksOk : List (ℕ × Task) → Type 0
TasksOk = All (λ (e : ℕ × Task). TaskOk e.0 e.1)

-- Tasks and settled promises of a job.
abbrev pub weight : ℕ → Processor → ℕ
weight i p = count i p.tasks + count i p.settled

abbrev pub is_pending : ℕ → Processor → Bool
is_pending i p = is_some (find i p.pending_jobs)

-- How many more answers a job with this task can need.
abbrev pub rank : Task → ℕ
rank (rendering ctx) = 5 + length ctx.streams + 2 * (ctx.document.page_count - ctx.page_num)
rank (creating ctx) = 4 + length ctx.input_streams
rank (uploading ctx) = 4 + length ctx.input_streams
rank (completing ctx) = 3
rank (retrieving ctx) = 2
rank (cancelling ctx ex) = 1

abbrev pub task_rank : Option Task → ℕ
task_rank none = 0
task_rank (some t) = rank t

abbrev pub rank_of : ℕ → Processor → ℕ
rank_of j p = task_rank (find j p.tasks)

-- Nothing of the bookkeeping changes.
pub record Quiet (p q : Processor) : Type 0 where
  pub tasks_eq : q.tasks ≡ p.tasks
  pub settled_eq : q.settled ≡ p.settled
  pub faulted_eq : q.faulted ≡ p.faulted
  pub last_id_eq : q.last_id ≡ p.last_id
  pub pending_eq : (i : ℕ) → is_pending i q ≡ is_pending i p

pub record Advances (j n : ℕ) (p q : Processor) : Type 0 where
  pub weighs : (i : ℕ) → weight i q ≡ weight i p + (if j == i then 1 else 0)
  pub others : (i : ℕ) → (j == i) ≡ false → count i q.tasks ≡ count i p.tasks
  pub find_eq : (i : ℕ) → (j == i) ≡ false → find i q.tasks ≡ find i p.tasks
  pub falls : find j p.tasks ≡ none → rank_of j q < n
  pub keeps_ok : TasksOk p.tasks → TasksOk q.tasks
  pub faulted_eq : q.faulted ≡ p.faulted
  pub last_id_eq : q.last_id ≡ p.last_id
  pub pending_eq : (i : ℕ) → is_pending i q ≡ is_pending i p

pub notify-Quiet : (n : Progress) (p : Processor) → Quiet p (notify n p)
notify-Quiet n p = record {
  tasks_eq = refl;
  settled_eq = refl;
  faulted_eq = refl;
  last_id_eq = refl;
  pending_eq = λ i. refl;
}

set_id_pending :
    (j c i : ℕ) (p : Processor)
    → is_pending i (set_pending_job_http_cancel_id j c p) ≡ is_pending i p
unfolding set_pending_job_http_cancel_id
set_id_pending j c i p = elim (Option-cases (find j p.pending_jobs)) [
  | inl e ↦ rw (e, set_pending_job_http_cancel_id)
  | inr (info, e) ↦
      rw (e, set_pending_job_http_cancel_id) (rw find-assign (ground (arith, e, ==_iff j i)))
]

pub set_id-Quiet : (j c : ℕ) (p : Processor) → Quiet p (set_pending_job_http_cancel_id j c p)
unfolding set_pending_job_http_cancel_id
set_id-Quiet j c p = record {
  tasks_eq = ground arith;
  settled_eq = ground arith;
  faulted_eq = ground arith;
  last_id_eq = ground arith;
  pending_eq = λ i. set_id_pending j c i p;
}

module _ {j n : ℕ} where
  pub Advances-after : {p q r : Processor} → Quiet p q → Advances j n q r → Advances j n p r
  Advances-after {p} {q} {r} s a = record {
    weighs = λ i. ground (arith, a.weighs i, s.tasks_eq, s.settled_eq);
    others = λ i ne. a.others i ne ∙ ap (count i) s.tasks_eq;
    find_eq = λ i ne. a.find_eq i ne ∙ ap (find i) s.tasks_eq;
    falls = λ e. a.falls (rw s.tasks_eq e);
    keeps_ok = λ ok. a.keeps_ok (rw s.tasks_eq ok);
    faulted_eq = a.faulted_eq ∙ s.faulted_eq;
    last_id_eq = a.last_id_eq ∙ s.last_id_eq;
    pending_eq = λ i. a.pending_eq i ∙ s.pending_eq i;
  }

  pub Advances-before : {p q r : Processor} → Advances j n p q → Quiet q r → Advances j n p r
  Advances-before {p} {q} {r} a s = record {
    weighs = λ i. ground (arith, a.weighs i, s.tasks_eq, s.settled_eq);
    others = λ i ne. ap (count i) s.tasks_eq ∙ a.others i ne;
    find_eq = λ i ne. ap (find i) s.tasks_eq ∙ a.find_eq i ne;
    falls = λ e. rw s.tasks_eq (a.falls e);
    keeps_ok = λ ok. rw s.tasks_eq (a.keeps_ok ok);
    faulted_eq = s.faulted_eq ∙ a.faulted_eq;
    last_id_eq = s.last_id_eq ∙ a.last_id_eq;
    pending_eq = λ i. s.pending_eq i ∙ a.pending_eq i;
  }

  pub Advances-if :
      {p x y : Processor} (b : Bool)
      → Advances j n p x
      → Advances j n p y
      → Advances j n p (if b then x else y)
  Advances-if true h k = h
  Advances-if false h k = k

pub set_promise-Advances :
    (j : ℕ) {n : ℕ} (o : Outcome) (p : Processor) → 0 < n → Advances j n p (set_promise j o p)
set_promise-Advances j {n} o p pos = record {
  find_eq = λ i ne. refl;
  falls = λ e. rw e pos;
  weighs = λ i. unfold count in omega arith;
  others = λ i ne. refl;
  keeps_ok = λ ok. ok;
  faulted_eq = refl;
  last_id_eq = refl;
  pending_eq = λ i. refl;
}

pub wait_for-Advances :
    (j : ℕ) {n : ℕ} (t : Task) (p : Processor)
    → TaskOk j t
    → rank t < n
    → Advances j n p (wait_for j t p)
wait_for-Advances j {n} t p ok lt = record {
  find_eq = λ i ne. unfold find in ground arith;
  falls = λ e. unfold find in ground (arith, ==_iff j j);
  weighs = λ i. unfold count in omega arith;
  others = λ i ne. unfold count in ground arith;
  keeps_ok = λ rest. (ok, rest);
  faulted_eq = refl;
  last_id_eq = refl;
  pending_eq = λ i. refl;
}

module _ (j : ℕ) {n : ℕ} (request : Request) (callback : Task)
    (failed : Processor → Processor) where
  pub call_server-Advances :
      (p : Processor)
      → TaskOk j callback
      → rank callback < n
      → Advances j n p (failed p)
      → Advances j n p (call_server j request callback failed p)
  call_server-Advances p ok lt h =
      Advances-if p.logged_in
        (Advances-after {q = record p { requests = request ∷ p.requests }}
          (record {
            tasks_eq = refl;
            settled_eq = refl;
            faulted_eq = refl;
            last_id_eq = refl;
            pending_eq = λ i. refl;
          })
          (wait_for-Advances j callback _ ok lt))
        h

  pub call_cancellable-Advances :
      (p : Processor)
      → TaskOk j callback
      → rank callback < n
      → Advances j n p (failed p)
      → Advances j n p (call_cancellable j request callback failed p)
  call_cancellable-Advances p ok lt h =
      Advances-before (call_server-Advances p ok lt h) (set_id-Quiet j _ _)

pub with_job_id-Advances :
    {j n : ℕ} {p : Processor} (ctx : UploadContext) (use_id : Text → Processor → Processor)
    → HasJob ctx
    → ((juid : Text) → Advances j n p (use_id juid p))
    → Advances j n p (with_job_id ctx use_id p)
with_job_id-Advances ctx use_id (info, e) h = rw e (h info.job_id)
