-- ===== src/Manager/Promises.antt =====
-- Each promise of the core manager is settled at most once, and is settled once its requests are
-- answered.
use customer_print_client.Prelude.{
  ℕ, suc, ◌+◌, ◌<◌, ◌≡◌, refl, ◌∙◌, arith, some, List, [], ◌∷◌, ◌==◌, ltb, if◌then◌else◌,
  Option-cases, inl, inr,
}
use customer_print_client.Prelude.Dict.{find, erase}
use customer_print_client.Jobs.Processor.{id_key}
use customer_print_client.Manager.State.{Outside, CoreManager}
use customer_print_client.Manager.Calls.{Next, settles, waits, faults, start, answer}
use customer_print_client.Manager.Effects.{effects, start-IsOne, answer-IsOne}
use customer_print_client.Manager.Machine.{
  System, Event, call, answered, selects_office, selects_profile, updates_config, apply, apply_all,
  proceed, step, Reachable, at_start, after,
}

-- How often a promise stands in a list.
unfoldable pub count : {V : Type 0} → ℕ → List (ℕ × V) → ℕ
count p [] = 0
count p ((q, v) ∷ xs) = (if q == p then 1 else 0) + count p xs

module _ {V : Type 0} where
  count-erase :
      (p q : ℕ) (xs : List (ℕ × V)) → count q (erase p xs) ≡ (if p == q then 0 else count q xs)
  unfolding count erase
  count-erase p q [] = ground arith
  count-erase p q ((r, v) ∷ xs) = ground (arith, count-erase p q xs)

  count-find : (p : ℕ) (v : V) (xs : List (ℕ × V)) → find p xs ≡ some v → 0 < count p xs
  unfolding count find
  count-find p v [] h = ground arith
  count-find p v ((q, w) ∷ xs) h = ground (arith, count-find p v xs)

module _ {J N F : Type 0} (out : Outside J N F) where
  -- The places in which a promise stands.
  abbrev pub total : ℕ → System J F → ℕ
  total p s = count p s.waiting + count p s.settled + count p s.faulted

  -- Each promise that was made is waited for, settled or lost to undefined behaviour, in one place; no
  -- other is in any.
  abbrev pub HasOnce : System J F → Type 0
  HasOnce s = (p : ℕ) → total p s ≡ (if ltb p s.next_promise then 1 else 0)

  total-apply_all :
      (p q : ℕ) (es : Next) (s : System J F)
      → total q (apply_all out p es s) ≡ (if p == q then effects es else 0) + total q s
  unfolding count apply apply_all
  total-apply_all p q [] s = ground arith
  total-apply_all p q (settles o ∷ es) s =
      ground (arith, total-apply_all p q es (record s { settled = (p, o) ∷ s.settled }))
  total-apply_all p q (waits w ∷ es) s =
      ground (arith, total-apply_all p q es (record s { waiting = (p, w) ∷ s.waiting }))
  total-apply_all p q (faults ∷ es) s =
      ground (arith, total-apply_all p q es (record s { faulted = (p, tt) ∷ s.faulted }))

  total-proceed :
      (p q : ℕ) (x : CoreManager J F × Next) (s : System J F)
      → effects x.1 ≡ 1
      → total q (proceed out p x s) ≡ (if p == q then 1 else 0) + total q s
  unfolding proceed
  total-proceed p q (m, es) s one = rw (← one) (total-apply_all p q es (record s { manager = m }))

  next-apply_all :
      (p : ℕ) (es : Next) (s : System J F) → (apply_all out p es s).next_promise ≡ s.next_promise
  unfolding apply apply_all
  next-apply_all p [] s = refl
  next-apply_all p (settles o ∷ es) s = next-apply_all p es _
  next-apply_all p (waits w ∷ es) s = next-apply_all p es _
  next-apply_all p (faults ∷ es) s = next-apply_all p es _

  pub next-proceed :
      (p : ℕ) (x : CoreManager J F × Next) (s : System J F)
      → (proceed out p x s).next_promise ≡ s.next_promise
  unfolding proceed
  next-proceed p (m, es) s = next-apply_all p es (record s { manager = m })

  proceed-HasOnce :
      (q : ℕ) (x : CoreManager J F × Next) (s : System J F)
      → effects x.1 ≡ 1
      → ((p : ℕ) → (if q == p then 1 else 0) + total p s ≡ (if ltb p s.next_promise then 1 else 0))
      → HasOnce (proceed out q x s)
  proceed-HasOnce q x s one h p = rw (next-proceed q x s) (total-proceed q p x s one ∙ h p)

  pub step-HasOnce : (e : Event F) (s : System J F) → HasOnce s → HasOnce (step out e s)
  unfolding step
  step-HasOnce (call c) s h =
      proceed-HasOnce s.next_promise (start out c s.manager)
        (record s { next_promise = suc s.next_promise }) (start-IsOne out c s.manager)
        (λ p. ground (arith, h p))
  step-HasOnce (answered q r) s h = elim (Option-cases (find q s.waiting)) [
    | inl e ↦ λ p. rw (step, e) (h p)
    | inr (w, e) ↦ λ p.
        rw (step, e)
          (proceed-HasOnce q (answer out w r s.manager) (record s { waiting = erase q s.waiting })
            (answer-IsOne out w r s.manager)
            (λ p. ground (arith, h p, h q, count-erase q p s.waiting, count-find q w s.waiting e))
            p)
  ]
  step-HasOnce (selects_office ouid) s h = h
  step-HasOnce (selects_profile a puid) s h = h
  step-HasOnce updates_config s h = h

  -- In each system that events lead to from one without promises, each promise that was made is in
  -- one place, once: its callback waits for an answer, or it was settled, or its callback ran into
  -- undefined behaviour. No other promise is in any place.
  pub Reachable-HasOnce : {m : CoreManager J F} {s : System J F} → Reachable out m s → HasOnce s
  unfolding count
  Reachable-HasOnce at_start = λ p. ground arith
  Reachable-HasOnce (after {s} r e) = step-HasOnce e s (Reachable-HasOnce r)
