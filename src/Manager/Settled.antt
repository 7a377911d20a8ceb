-- ===== src/Manager/Settled.antt =====
-- A promise of the core manager is settled after as many answers as its callbacks wait for.
use customer_print_client.Prelude.{
  ℕ, suc, ◌+◌, ◌-◌, ◌≤◌, ◌<◌, ◌≡◌, refl, sym, ap, arith, Option, none, some, List, [], ◌∷◌, ◌==◌,
  if◌then◌else◌, Option-cases, Bool-cases, ==_iff, inl, inr,
}
use customer_print_client.Prelude.Dict.{find, erase, find-erase}
use customer_print_client.Jobs.Processor.{id_key}
use customer_print_client.Cloud.Replies.{Reply}
use customer_print_client.Manager.State.{Outside, CoreManager}
use customer_print_client.Manager.Calls.{Waiting, Next, settles, waits, faults, start, answer}
use customer_print_client.Manager.Machine.{
  System, Event, call, answered, selects_office, selects_profile, updates_config, apply, apply_all,
  proceed, step, Reachable,
}
use customer_print_client.Manager.Promises.{
  next-proceed, count, HasOnce, step-HasOnce, Reachable-HasOnce,
}
use customer_print_client.Manager.Progress.{
  answers_left, answers_left_bounds, next_left, answer_left,
}

module _ {J N F : Type 0} (out : Outside J N F) where
  unfoldable pub left_of : Option Waiting → ℕ
  left_of none = 0
  left_of (some w) = answers_left w

  abbrev left : ℕ → System J F → ℕ
  left p s = left_of (find p s.waiting)

  -- The answers to the requests of a promise among events.
  unfoldable pub answers : ℕ → List (Event F) → ℕ
  answers p [] = 0
  answers p (answered q r ∷ es) = (if q == p then 1 else 0) + answers p es
  answers p (_ ∷ es) = answers p es

  unfoldable pub run : List (Event F) → System J F → System J F
  unfolding step
  run [] s = s
  run (e ∷ es) s = run es (step out e s)

  left-apply_all :
      (q p : ℕ) (es : Next) (s : System J F)
      → left p (apply_all out q es s) ≤ (if q == p then next_left es else 0) + left p s
  unfolding apply apply_all left_of find
  left-apply_all q p [] s = ground arith
  left-apply_all q p (settles o ∷ es) s =
      left-apply_all q p es (record s { settled = (q, o) ∷ s.settled })
  left-apply_all q p (waits w ∷ es) s =
      ground (arith, left-apply_all q p es (record s { waiting = (q, w) ∷ s.waiting }))
  left-apply_all q p (faults ∷ es) s =
      left-apply_all q p es (record s { faulted = (q, tt) ∷ s.faulted })

  left-proceed :
      (q p : ℕ) (x : CoreManager J F × Next) (s : System J F)
      → left p (proceed out q x s) ≤ (if q == p then next_left x.1 else 0) + left p s
  unfolding proceed
  left-proceed q p (m, es) s = left-apply_all q p es (record s { manager = m })

  left-apply_all_other :
      (q p : ℕ) (es : Next) (s : System J F) → p < q → left p (apply_all out q es s) ≡ left p s
  unfolding apply apply_all left_of find
  left-apply_all_other q p [] s h = refl
  left-apply_all_other q p (settles o ∷ es) s h =
      left-apply_all_other q p es (record s { settled = (q, o) ∷ s.settled }) h
  left-apply_all_other q p (waits w ∷ es) s h =
      ground (arith, left-apply_all_other q p es (record s { waiting = (q, w) ∷ s.waiting }) h)
  left-apply_all_other q p (faults ∷ es) s h =
      left-apply_all_other q p es (record s { faulted = (q, tt) ∷ s.faulted }) h

  left-proceed_other :
      (q p : ℕ) (x : CoreManager J F × Next) (s : System J F)
      → p < q
      → left p (proceed out q x s) ≡ left p s
  unfolding proceed
  left-proceed_other q p (m, es) s h = left-apply_all_other q p es (record s { manager = m }) h

  left-erase :
      (q p : ℕ) (s : System J F)
      → left_of (find p (erase q s.waiting)) ≡ (if q == p then 0 else left p s)
  unfolding left_of
  left-erase q p s = ground (arith, find-erase q p s.waiting)

  left-same : (q p : ℕ) (s : System J F) → left p s ≡ (if q == p then left q s else left p s)
  left-same q p s = elim (Bool-cases (q == p)) [
    | inl e ↦ rw e (ap (λ i. left i s) (sym ((==_iff q p).0 e)))
    | inr e ↦ rw e
  ]

  step-left_answered :
      (q p : ℕ) (r : Reply) (s : System J F)
      → left p (step out (answered q r) s) ≤ left p s - (if q == p then 1 else 0)
  unfolding step left_of
  step-left_answered q p r s = elim (Option-cases (find q s.waiting)) [
    | inl e ↦ rw (step, e) (ground (arith, left-same q p s, ap left_of e))
    | inr (w, e) ↦
        rw (step, e)
          (ground (
            arith,
            left-same q p s,
            ap left_of e,
            left-erase q p s,
            answer_left out w r s.manager,
            left-proceed q p (answer out w r s.manager) (record s { waiting = erase q s.waiting }),
          ))
  ]

  step-next : (e : Event F) (s : System J F) → s.next_promise ≤ (step out e s).next_promise
  unfolding step
  step-next (call c) s =
      rw
        (next-proceed out s.next_promise (start out c s.manager)
          (record s { next_promise = suc s.next_promise }))
        (omega arith)
  step-next (answered q r) s = elim (Option-cases (find q s.waiting)) [
    | inl e ↦ rw (step, e) (omega arith)
    | inr (w, e) ↦
        rw
          (
            step,
            e,
            next-proceed out q (answer out w r s.manager)
                (record s { waiting = erase q s.waiting }),
          )
          (omega arith)
  ]
  step-next (selects_office ouid) s = omega arith
  step-next (selects_profile a puid) s = omega arith
  step-next updates_config s = omega arith

  step-left :
      (e : Event F) (es : List (Event F)) (p : ℕ) (s : System J F)
      → p < s.next_promise
      → left p (step out e s) - answers p es ≤ left p s - answers p (e ∷ es)
  unfolding step answers
  step-left (call c) es p s h = omega (
    arith,
    left-proceed_other s.next_promise p (start out c s.manager)
        (record s { next_promise = suc s.next_promise }) h,
  )
  step-left (answered q r) es p s h = omega (arith, step-left_answered q p r s)
  step-left (selects_office ouid) es p s h = omega arith
  step-left (selects_profile a puid) es p s h = omega arith
  step-left updates_config es p s h = omega arith

  run-left :
      (es : List (Event F)) (p : ℕ) (s : System J F)
      → p < s.next_promise
      → left p (run es s) ≤ left p s - answers p es
  unfolding run answers
  run-left [] p s h = omega arith
  run-left (e ∷ es) p s h = omega (
    arith,
    step-left e es p s h,
    step-next e s,
    run-left es p (step out e s) (omega (arith, h, step-next e s)),
  )

  run-HasOnce :
      (es : List (Event F)) (s : System J F)
      → HasOnce out s
      → HasOnce out (run es s) × (s.next_promise ≤ (run es s).next_promise)
  unfolding run
  run-HasOnce [] s h = (h, omega arith)
  run-HasOnce (e ∷ es) s h =
      let (rest, n) = run-HasOnce es (step out e s) (step-HasOnce out e s h) in
      (rest, omega (arith, n, step-next e s))

  left-le : (w : Option Waiting) → left_of w ≤ 2
  unfolding left_of
  left-le none = omega arith
  left-le (some w) = omega (arith, answers_left_bounds w)

  waited : (p : ℕ) (xs : List (ℕ × Waiting)) → left_of (find p xs) ≡ 0 → count p xs ≡ 0
  unfolding find count left_of
  waited p [] h = refl
  waited p ((q, w) ∷ xs) h = ground (arith, answers_left_bounds w, waited p xs)

  -- A promise that was made before some events in a reached system, at least two of which answer
  -- its requests, is settled exactly once after them and not waited for, if no callback ran into
  -- undefined behaviour; the other events may be any calls and answers.
  pub answered-IsSettled :
      {m : CoreManager J F} (s : System J F) (p : ℕ) (es : List (Event F))
      → Reachable out m s
      → p < s.next_promise
      → 2 ≤ answers p es
      → (run es s).faulted ≡ []
      → (count p (run es s).settled ≡ 1) × (count p (run es s).waiting ≡ 0)
  unfolding count
  answered-IsSettled s p es reached made enough defined =
      let (once, n) = run-HasOnce es s (Reachable-HasOnce out reached) in
      let gone =
        waited p (run es s).waiting
          (omega (arith, run-left es p s made, left-le (find p s.waiting))) in
      (ground (arith, gone, once p, ap (count p) defined), gone)
