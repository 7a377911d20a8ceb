-- ===== src/Jobs/Termination.antt =====
-- A job takes a bounded number of answers, after which its promise is set.
use customer_print_client.Prelude.{
  ℕ, ◌+◌, ◌*◌, ◌≤◌, ◌<◌, ◌≡◌, refl, inl, inr, Bool, false, ◌&&◌, List, [], ◌∷◌, Option, none, some,
  Text, arith, ◌==◌, ==_iff, if◌then◌else◌, is_some, Option-cases,
}
use customer_print_client.Prelude.Dict.{find, erase, find-erase}
use customer_print_client.Printing.ImageFormat.{ImageFormat}
use customer_print_client.Jobs.Types.{Document, Task}
use customer_print_client.Jobs.Processor.{
  id_key, Processor, count, release_job, cancel_pending_job, cancel_all_pending_jobs,
}
use customer_print_client.Jobs.Render.{render_and_upload}
use customer_print_client.Jobs.Machine.{
  Answer, Event, submit, answer, callback, deliver, step, run, start,
}
use customer_print_client.Jobs.Advance.{rank, task_rank, rank_of}
use customer_print_client.Jobs.Settled.{
  Inv, callback-Advances, find-TaskOk, step-Inv, run-Inv, reached-Inv,
}

-- Whether the job waits for an answer of this kind.
abbrev pub takes : ℕ → Answer → Processor → Bool
takes j a p = elim (find j p.tasks) [
  | none ↦ false
  | some t ↦ is_some (callback t a (record p { tasks = erase j p.tasks }))
]

-- How many of the events are answers that the job `j` waits for when they come.
unfoldable pub answers : ℕ → Processor → List Event → ℕ
answers j p [] = 0
answers j p (answer i a ∷ es) =
    (if i == j && takes i a p then 1 else 0) + answers j (step p (answer i a)) es
answers j p (e ∷ es) = answers j (step p e) es

release_rank : (i j : ℕ) (q : Processor) → rank_of j (release_job i q) ≡ rank_of j q
unfolding release_job
release_rank i j q = ground arith

-- An answer that is taken brings its job nearer to the end, and leaves the others where they are.
deliver_rank :
    (i j : ℕ) (a : Answer) (p : Processor)
    → Inv p
    → (if i == j && takes i a p then 1 else 0) + rank_of j (deliver i a p) ≤ rank_of j p
unfolding deliver
deliver_rank i j a p inv = elim (Option-cases (find i p.tasks)) [
  | inl e ↦ rw (e, deliver) (ground arith)
  | inr (t, e) ↦
      let p' = record p { tasks = erase i p.tasks } in
      elim (Option-cases (callback t a p')) [
        | inl refused ↦ rw (e, deliver) (rw refused (ground arith))
        | inr (q, accepted) ↦
            let adv =
              callback-Advances i t a p' (find-TaskOk i t p.tasks inv.tasks_ok e) accepted in
            rw (e, deliver)
              (rw accepted (
                ground (
                  arith,
                  release_rank i j q,
                  ==_iff i j,
                  e,
                  adv.find_eq j,
                  adv.falls,
                  find-erase i j p.tasks,
                )))
      ]
]

step_rank :
    (j : ℕ) (e : Event) (p : Processor)
    → Inv p
    → j < p.last_id
    → answers j p (e ∷ []) + rank_of j (step p e) ≤ rank_of j p
unfolding answers step render_and_upload cancel_pending_job cancel_all_pending_jobs find
step_rank j (answer i a) p inv lt = omega (arith, deliver_rank i j a p inv)
step_rank j _ p inv lt = ground arith

answers-cons :
    (j : ℕ) (e : Event) (es : List Event) (p : Processor)
    → answers j p (e ∷ es) ≡ answers j p (e ∷ []) + answers j (step p e) es
unfolding answers
answers-cons j (answer i a) es p = omega arith
answers-cons j _ es p = omega arith

deliver_last_id : (i : ℕ) (a : Answer) (p : Processor) → Inv p → (deliver i a p).last_id ≡ p.last_id
unfolding deliver release_job
deliver_last_id i a p inv = elim (Option-cases (find i p.tasks)) [
  | inl e ↦ rw (e, deliver)
  | inr (t, e) ↦
      let p' = record p { tasks = erase i p.tasks } in
      elim (Option-cases (callback t a p')) [
        | inl refused ↦ rw (e, deliver) (rw refused)
        | inr (q, accepted) ↦
            let ok = find-TaskOk i t p.tasks inv.tasks_ok e in
            rw (e, deliver)
              (rw accepted (ground (arith, (callback-Advances i t a p' ok accepted).last_id_eq)))
      ]
]

step_last_id : (e : Event) (p : Processor) → Inv p → p.last_id ≤ (step p e).last_id
unfolding step render_and_upload cancel_pending_job cancel_all_pending_jobs
step_last_id (answer i a) p inv = omega (arith, deliver_last_id i a p inv)
step_last_id _ p inv = ground arith

run_last_id : (es : List Event) (p : Processor) → Inv p → p.last_id ≤ (run p es).last_id
unfolding run
run_last_id [] p inv = omega arith
run_last_id (e ∷ es) p inv =
    omega (arith, step_last_id e p inv, run_last_id es (step p e) (step-Inv e p inv))

run_rank :
    (j : ℕ) (es : List Event) (p : Processor)
    → Inv p
    → j < p.last_id
    → answers j p es + rank_of j (run p es) ≤ rank_of j p
unfolding run
run_rank j [] p inv lt = unfold answers in omega arith
run_rank j (e ∷ es) p inv lt = omega (
  arith,
  answers-cons j e es p,
  step_rank j e p inv lt,
  run_rank j es (step p e) (step-Inv e p inv) (omega (arith, step_last_id e p inv)),
)

rank_pos : (t : Task) → 0 < rank t
rank_pos (Task.rendering ctx) = omega arith
rank_pos _ = omega arith

find_of_rank : (o : Option Task) → task_rank o ≡ 0 → o ≡ none
find_of_rank none h = refl
find_of_rank (some t) h = absurd (omega (arith, rank_pos t))

count_of_none : (j : ℕ) (ts : List (ℕ × Task)) → find j ts ≡ none → count j ts ≡ 0
unfolding find count
count_of_none j [] e = refl
count_of_none j ((i, t) ∷ ts) e = ground (arith, count_of_none j ts)

answered_out :
    (j : ℕ) (es : List Event) (q : Processor)
    → Inv q
    → j < q.last_id
    → rank_of j q ≤ answers j q es
    → count j (run q es).settled ≡ 1
answered_out j es q inv lt enough =
    let idle = find_of_rank (find j (run q es).tasks) (omega (arith, run_rank j es q inv lt)) in
    let inv' = run-Inv es q inv in
    ground (arith, count_of_none j (run q es).tasks idle, inv'.weighs j, run_last_id es q inv)

submit_rank :
    (p : Processor) (doc : Document) (office_id profile_id : Text) (copies : ℕ)
    → let q = step p (submit doc office_id profile_id copies) in
      (rank_of p.last_id q ≡ 5 + 2 * doc.page_count) × (q.last_id ≡ p.last_id + 1)
unfolding step render_and_upload find
submit_rank p doc office_id profile_id copies = ground (arith, ==_iff p.last_id p.last_id)

-- A job of n pages that has had 5 + 2 * n of the answers that it waits for has its promise set,
-- once, whatever else happens in between and whatever the answers are.
pub job_settles :
    (out_format : ImageFormat) (to_utf8 : Text → Text) (before es : List Event) (doc : Document)
    (office_id profile_id : Text) (copies : ℕ)
    → let p = run (start out_format to_utf8) before in
      let q = step p (submit doc office_id profile_id copies) in
      5 + 2 * doc.page_count ≤ answers p.last_id q es → count p.last_id (run q es).settled ≡ 1
job_settles out_format to_utf8 before es doc office_id profile_id copies enough =
    let p = run (start out_format to_utf8) before in
    let submitted = submit doc office_id profile_id copies in
    let (ranked, next) = submit_rank p doc office_id profile_id copies in
    answered_out p.last_id es (step p submitted)
      (step-Inv submitted p (reached-Inv out_format to_utf8 before)) (omega (arith, next))
      (omega (arith, ranked, enough))
