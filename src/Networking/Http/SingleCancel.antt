-- ===== src/Networking/Http/SingleCancel.antt =====
-- Cancel of the client with one thread, src/Networking/Http/HttpClient.cpp, while a request is in
-- work.
use customer_print_client.Prelude.{
  ◌-◌, ◌<◌, ◌≡◌, refl, ap, ◌∙◌, Bool, true, false, [], ◌∷◌, ◌++◌, inl, inr, Text, lt→ltb,
  Bool-cases,
}
use customer_print_client.Networking.Http.Exchange.{
  Completion, Stage, Exchange, throw_if_error, operation_aborted, operation_canceled,
  body_read_failed, complete, resolving, connecting, hand_shaking, answered, thrown,
}
use customer_print_client.Networking.Http.SingleClient.{
  canceled_callbacks, HttpRequestContext, SingleClient, poll_next, request_failed, resolved_single,
  shaken_single, connected_single, exchanged_single, handler_single, cancel_single, cancel_called,
  operation_ended, single_step, single_run,
}
use customer_print_client.Networking.Http.SingleOrder.{ended-some}
use customer_print_client.Networking.Http.Outcomes.{is_end, in_body, complete_aborted}

-- The request as it is sent again.
abbrev pub again : HttpRequestContext → HttpRequestContext
again ctx = record ctx { retry = ctx.retry - 1 }

abbrev SentAgain : HttpRequestContext → SingleClient → SingleClient → Type 0
SentAgain ctx c c' =
    (c'.callbacks ≡ c.callbacks)
    × (c'.posted ≡ c.posted ++ again ctx ∷ [])
    × (c'.wait_list ≡ c.wait_list)

failed-SentAgain :
    (ctx : HttpRequestContext) (msg : Text) (was_cancel : Bool) (c : SingleClient)
    → 0 < ctx.retry
    → SentAgain ctx c (request_failed ctx msg was_cancel c)
unfolding request_failed poll_next
failed-SentAgain ctx msg was_cancel c left =
    rw (request_failed, lt→ltb 0 ctx.retry left) (refl, refl, refl)

exchanged-SentAgain :
    (ctx : HttpRequestContext) (e : Exchange) (done : Completion) (c : SingleClient)
    → 0 < ctx.retry
    → is_end e.stage ≡ false
    → done.error ≡ operation_aborted
    → SentAgain ctx c (exchanged_single (complete e done).stage ctx (complete e done) c)
unfolding exchanged_single
exchanged-SentAgain ctx e done c left running aborted =
    let ends = complete_aborted e done running aborted in
    elim (Bool-cases (in_body e.stage)) [
      | inl body ↦ rw (ends, body) (failed-SentAgain ctx body_read_failed false c left)
      | inr head ↦ rw (ends, head) (failed-SentAgain ctx operation_canceled true c left)
    ]

handler-SentAgain :
    (s : Stage) (ctx : HttpRequestContext) (e : Exchange) (done : Completion) (c : SingleClient)
    → e.stage ≡ s
    → is_end s ≡ false
    → 0 < ctx.retry
    → done.error ≡ operation_aborted
    → SentAgain ctx c (handler_single s ctx e done c)
unfolding handler_single resolved_single connected_single shaken_single throw_if_error
handler-SentAgain resolving ctx e done c h running left aborted =
    rw aborted (failed-SentAgain ctx _ _ c left)
handler-SentAgain connecting ctx e done c h running left aborted =
    rw aborted (failed-SentAgain ctx _ _ (record c { cancellable = false }) left)
handler-SentAgain hand_shaking ctx e done c h running left aborted =
    rw aborted (failed-SentAgain ctx _ _ (record c { cancellable = false }) left)
handler-SentAgain (answered r) ctx e done c h running left aborted = cc
handler-SentAgain (thrown m b) ctx e done c h running left aborted = cc
handler-SentAgain _ ctx e done c h running left aborted =
    exchanged-SentAgain ctx e done c left (rw h running) aborted

cancelled_parts :
    (c : SingleClient)
    → let c' = cancel_single c in
      (c'.active ≡ c.active)
      × (c'.posted ≡ c.posted)
      × (c'.callbacks ≡ c.callbacks ++ canceled_callbacks c.wait_list)
      × (c'.wait_list ≡ [])
unfolding cancel_single
cancelled_parts c = elim (Bool-cases c.cancellable) [
  | inl e ↦ rw (cancel_single, e) (refl, refl, refl, refl)
  | inr e ↦ rw (cancel_single, e) (refl, refl, refl, refl)
]

-- Cancel, and then the abort of the operation in work. The requests that wait are called back with
-- the exception of a cancel. The request in work, if it has a retry left, is not called back: it is
-- posted to be sent again, and nothing waits.
pub cancelled_is_sent_again :
    (c : SingleClient) (ctx : HttpRequestContext) (e : Exchange) (done : Completion)
    → c.active ≡ (ctx, e) ∷ []
    → c.posted ≡ []
    → is_end e.stage ≡ false
    → 0 < ctx.retry
    → done.error ≡ operation_aborted
    → let c' = single_run c (cancel_called ∷ operation_ended done ∷ []) in
      (c'.callbacks ≡ c.callbacks ++ canceled_callbacks c.wait_list)
      × (c'.posted ≡ again ctx ∷ [])
      × (c'.wait_list ≡ [])
unfolding single_run single_step
cancelled_is_sent_again c ctx e done active posted running left aborted =
    let (same_active, same_posted, called, none_waits) = cancelled_parts c in
    let c' = cancel_single c in
    let there : c'.active ≡ (ctx, e) ∷ [] = same_active ∙ active in
    let (callbacks, sent, waiting) =
      handler-SentAgain e.stage ctx e done (record c' { active = [] }) refl running left aborted in
    rw (ended-some done ctx e [] c' there) (
      callbacks ∙ called,
      sent ∙ ap (λ l. l ++ again ctx ∷ []) (same_posted ∙ posted),
      waiting ∙ none_waits,
    )
