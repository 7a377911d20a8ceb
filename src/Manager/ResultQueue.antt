-- ===== src/Manager/ResultQueue.antt =====
-- src/CustomerPrintClientGui/AsyncResultQueue.cpp over src/CustomerPrintClientCore/
-- AsyncResultGeneric.h: the results that the core manager gave to a window, polled when it is idle.
-- RetrieveAsyncResult holds the mutex of the queue while the callback runs.
use customer_print_client.Prelude.{
  ℕ, zero, suc, ◌∙◌, ◌≡◌, refl, ap, Bool, true, false, Option, none, some, List, [], ◌∷◌, ◌++◌,
  Text, codes, if◌then◌else◌, is_some, All, Bool-cases, inl, inr, ◌⊎◌,
}

pub data ExceptionCategory : Type 0 where
  undefined job update : ExceptionCategory

-- A TitledException, or another std::exception.
pub data Thrown : Type 0 where
  titled : Text → Text → ExceptionCategory → Thrown
  standard : Text → Thrown

-- What a callback of a window does: it returns, throws, or calls StoreAsyncResult of its queue.
pub data Callback : Type 0 where
  returns stores : Callback
  throws : Thrown → Callback

-- The future is not ready (`none`), has a value, or has an exception.
pub record AsyncResult : Type 0 where
  pub id : ℕ
  pub future : Option (Option Thrown)
  pub on_value : Callback

unfoldable pub is_ready : AsyncResult → Bool
is_ready r = is_some r.future

-- ExecCallback of a result that is ready.
unfoldable pub exec_callback : AsyncResult → Callback
exec_callback r = elim r.future [
  | none ↦ returns
  | some none ↦ r.on_value
  | some (some ex) ↦ throws ex
]

-- What RetrieveAsyncResult did with the result of an id. `deadlock` is the second lock of a mutex
-- that the thread holds.
pub data Retrieval : Type 0 where
  nothing_ready : Retrieval
  executed : ℕ → Retrieval
  handled : ℕ → Text → Text → ExceptionCategory → Retrieval
  deadlock : ℕ → Retrieval

unfoldable pub store_async_result : AsyncResult → List AsyncResult → List AsyncResult
store_async_result r queue = queue ++ r ∷ []

-- The call of the callback and the catch clauses.
unfoldable pub handle_callback : ℕ → Callback → Retrieval
handle_callback id returns = executed id
handle_callback id stores = deadlock id
handle_callback id (throws (titled title what category)) = handled id title what category
handle_callback id (throws (standard what)) = handled id (codes "Error") what undefined

unfoldable pub retrieve_async_result : List AsyncResult → List AsyncResult × Retrieval
unfolding is_ready exec_callback handle_callback
retrieve_async_result [] = ([], nothing_ready)
retrieve_async_result (r ∷ rs) =
    let rest = retrieve_async_result rs in
    if is_ready r then (rs, handle_callback r.id (exec_callback r)) else (r ∷ rest.0, rest.1)

abbrev NotReady : List AsyncResult → Type 0
NotReady = All λ (r : AsyncResult). is_ready r ≡ false

-- Either no result is ready and the queue stays as it is, or the first ready result is taken out,
-- the others keep their order, and its callback alone runs.
abbrev pub TakesFirstReady : List AsyncResult → List AsyncResult × Retrieval → Type 0
TakesFirstReady queue result =
    ((NotReady queue) × (result ≡ (queue, nothing_ready)))
    ⊎ ((before : List AsyncResult) × (r : AsyncResult) × (behind : List AsyncResult) × (queue
          ≡ before ++ r ∷ behind)
        × (NotReady before)
        × (is_ready r ≡ true)
        × (result ≡ (before ++ behind, handle_callback r.id (exec_callback r))))

-- RetrieveAsyncResult takes the first result that is ready and runs its callback, or does nothing if
-- none is; no other result is lost, run or moved.
pub retrieve_async_result-TakesFirstReady :
    (queue : List AsyncResult) → TakesFirstReady queue (retrieve_async_result queue)
unfolding retrieve_async_result
retrieve_async_result-TakesFirstReady [] = inl (tt, refl)
retrieve_async_result-TakesFirstReady (r ∷ rs) = elim (Bool-cases (is_ready r)) [
  | inl e ↦ inr ([], r, rs, refl, tt, e, rw (retrieve_async_result, e))
  | inr e ↦ elim (retrieve_async_result-TakesFirstReady rs) [
    | inl (none_ready, same) ↦ inl ((e, none_ready), rw (retrieve_async_result, e, same))
    | inr (before, x, behind, split, none_ready, ready, same) ↦ inr (
      r ∷ before,
      x,
      behind,
      ap (λ l. r ∷ l) split,
      (e, none_ready),
      ready,
      rw (retrieve_async_result, e, same),
    )
  ]
]

-- The thread hangs in a second lock.
abbrev is_deadlock : Retrieval → Bool
is_deadlock (deadlock id) = true
is_deadlock _ = false

-- What idle events in a row do, one call of RetrieveAsyncResult each, until the thread hangs.
unfoldable pub idle : ℕ → List AsyncResult → List AsyncResult × List Retrieval
unfolding retrieve_async_result
idle zero queue = (queue, [])
idle (suc n) queue =
    let first = retrieve_async_result queue in
    let rest = idle n first.0 in
    if is_deadlock first.1 then (first.0, first.1 ∷ []) else (rest.0, first.1 ∷ rest.1)

-- What happens with a result that is ready.
abbrev outcome_of : AsyncResult → Retrieval
outcome_of r = handle_callback r.id (exec_callback r)

-- The results of a queue that are ready, what happens with each up to one that hangs, and the
-- others.
unfoldable pub ready_count : List AsyncResult → ℕ
unfolding is_ready
ready_count [] = 0
ready_count (r ∷ rs) = let rest = ready_count rs in if is_ready r then suc rest else rest

unfoldable pub retrievals : List AsyncResult → List Retrieval
unfolding is_ready exec_callback handle_callback
retrievals [] = []
retrievals (r ∷ rs) =
    let rest = retrievals rs in
    if is_ready r
    then (if is_deadlock (outcome_of r) then outcome_of r ∷ [] else outcome_of r ∷ rest)
    else rest

unfoldable pub not_run : List AsyncResult → List AsyncResult
unfolding is_ready exec_callback handle_callback
not_run [] = []
not_run (r ∷ rs) =
    let rest = not_run rs in
    if is_ready r then (if is_deadlock (outcome_of r) then rs else rest) else r ∷ rest

retrieve-skip :
    (r : AsyncResult) (rs : List AsyncResult)
    → is_ready r ≡ false
    → retrieve_async_result (r ∷ rs)
      ≡ (r ∷ (retrieve_async_result rs).0, (retrieve_async_result rs).1)
unfolding retrieve_async_result
retrieve-skip r rs e = rw (retrieve_async_result, e)

retrieve-take :
    (r : AsyncResult) (rs : List AsyncResult)
    → is_ready r ≡ true
    → retrieve_async_result (r ∷ rs) ≡ (rs, outcome_of r)
unfolding retrieve_async_result
retrieve-take r rs e = rw (retrieve_async_result, e)

abbrev then_idle : ℕ → List AsyncResult × Retrieval → List AsyncResult × List Retrieval
then_idle n first =
    if is_deadlock first.1
    then (first.0, first.1 ∷ [])
    else ((idle n first.0).0, first.1 ∷ (idle n first.0).1)

abbrev behind : AsyncResult → List AsyncResult × List Retrieval → List AsyncResult × List Retrieval
behind r x = (r ∷ x.0, x.1)

then_idle-skip :
    (n : ℕ) (r : AsyncResult) (x : List AsyncResult × Retrieval)
    → idle n (r ∷ x.0) ≡ behind r (idle n x.0)
    → then_idle n (r ∷ x.0, x.1) ≡ behind r (then_idle n x)
then_idle-skip n r x h = elim (Bool-cases (is_deadlock x.1)) [
  | inl e ↦ rw e refl
  | inr e ↦ rw e (ap (λ (y : List AsyncResult × List Retrieval). (y.0, x.1 ∷ y.1)) h)
]

idle-skip :
    (n : ℕ) (r : AsyncResult) (rs : List AsyncResult)
    → is_ready r ≡ false
    → idle n (r ∷ rs) ≡ behind r (idle n rs)
unfolding idle
idle-skip zero r rs e = refl
idle-skip (suc n) r rs e =
    ap (then_idle n) (retrieve-skip r rs e)
    ∙ then_idle-skip n r (retrieve_async_result rs) (idle-skip n r (retrieve_async_result rs).0 e)

-- As many idle events as there are ready results run these in the order in which they were stored,
-- each once, up to the first whose callback calls StoreAsyncResult, where the thread hangs in the
-- mutex; what is not run stays in the queue, in its order.
pub idle-retrieves :
    (queue : List AsyncResult) → idle (ready_count queue) queue ≡ (not_run queue, retrievals queue)
unfolding idle ready_count not_run retrievals
idle-retrieves [] = refl
idle-retrieves (r ∷ rs) = elim (Bool-cases (is_ready r)) [
  | inl e ↦ elim (Bool-cases (is_deadlock (outcome_of r))) [
    | inl hangs ↦
        rw (ready_count, not_run, retrievals, e, hangs)
          (ap (then_idle (ready_count rs)) (retrieve-take r rs e) ∙ rw hangs refl)
    | inr goes_on ↦
        rw (ready_count, not_run, retrievals, e, goes_on)
          (ap (then_idle (ready_count rs)) (retrieve-take r rs e)
            ∙ rw goes_on (
                ap (λ (x : List AsyncResult × List Retrieval). (x.0, outcome_of r ∷ x.1))
                  (idle-retrieves rs)))
  ]
  | inr e ↦
      rw (ready_count, not_run, retrievals, e)
        (idle-skip (ready_count rs) r rs e ∙ ap (behind r) (idle-retrieves rs))
]
