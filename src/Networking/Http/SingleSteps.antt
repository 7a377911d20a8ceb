-- ===== src/Networking/Http/SingleSteps.antt =====
-- What the handlers of the client with one thread, src/Networking/Http/HttpClient.cpp, do to a
-- request that is taken up while no other is in work.
use customer_print_client.Prelude.{
  ℕ, ◌+◌, ◌-◌, ◌≡◌, refl, ap, ◌∙◌, Bool, true, false, List, [], ◌∷◌, ◌++◌, inl, inr, Option, none,
  some, Text, append_assoc, is_empty, ltb, if◌then◌else◌, length, List-cases, Bool-cases,
}
use customer_print_client.Networking.Http.Response.{HttpResponse}
use customer_print_client.Jobs.Types.{tcp}
use customer_print_client.Networking.Http.Exchange.{
  success, Completion, Stage, Exchange, complete, resolving, connecting, hand_shaking, sending,
  answered, thrown,
}
use customer_print_client.Networking.Http.SingleClient.{
  exchange_at, proceed_at, unless_thrown, HttpRequestContext, Outcome, SingleClient, poll_next,
  finish_single, request_failed, connect_single, send_request_proc, resolved_single, shaken_single,
  connected_single, exchanged_single, handler_single,
}

abbrev pub answered_ids : List (ℕ × Outcome) → List ℕ
answered_ids [] = []
answered_ids ((id, outcome) ∷ callbacks) = id ∷ answered_ids callbacks

abbrev pub context_ids : List HttpRequestContext → List ℕ
context_ids [] = []
context_ids (ctx ∷ ctxs) = ctx.request.id ∷ context_ids ctxs

abbrev pub active_ids : List (HttpRequestContext × Exchange) → List ℕ
active_ids [] = []
active_ids ((ctx, e) ∷ active) = ctx.request.id ∷ active_ids active

-- The requests in the order of their place: called back, in work, waiting.
abbrev pub track : SingleClient → List ℕ
track c =
    answered_ids c.callbacks
    ++ (active_ids c.active ++ (context_ids c.posted ++ context_ids c.wait_list))

-- How many requests are in work.
abbrev pub in_work : SingleClient → ℕ
in_work c = length c.posted + length c.active

-- One request is in work while the client is processing; else none is, and none waits.
abbrev pub OneInWork : SingleClient → Type 0
OneInWork c =
    (in_work c ≡ (if c.is_processing then 1 else 0)) × (c.is_processing ≡ false → c.wait_list ≡ [])

answered_ids-append :
    (l m : List (ℕ × Outcome)) → answered_ids (l ++ m) ≡ answered_ids l ++ answered_ids m
answered_ids-append [] m = refl
answered_ids-append ((id, outcome) ∷ l) m = ap (λ ids. id ∷ ids) (answered_ids-append l m)

pub context_ids-append :
    (l m : List HttpRequestContext) → context_ids (l ++ m) ≡ context_ids l ++ context_ids m
context_ids-append [] m = refl
context_ids-append (ctx ∷ l) m = ap (λ ids. ctx.request.id ∷ ids) (context_ids-append l m)

-- From a client that has just taken up this request and works on no other, the next state works on
-- one at most and keeps the order.
abbrev pub Free : SingleClient → Type 0
Free c = (c.posted ≡ []) × (c.active ≡ []) × (c.is_processing ≡ true)

abbrev pub Continues : HttpRequestContext → SingleClient → SingleClient → Type 0
Continues ctx c c' =
    OneInWork c'
    × (track c' ≡ answered_ids c.callbacks ++ (ctx.request.id ∷ context_ids c.wait_list))

-- PollNext works on the first that waits.
poll_next-track :
    (c : SingleClient)
    → c.posted ≡ []
    → c.active ≡ []
    → OneInWork (poll_next c)
      × (track (poll_next c) ≡ answered_ids c.callbacks ++ context_ids c.wait_list)
unfolding poll_next
poll_next-track c no_posted no_active = elim (List-cases c.wait_list) [
  | inl e ↦ rw (poll_next, e, no_posted, no_active) ((refl, λ _. e), rw e refl)
  | inr (ctx, rest, e) ↦ rw (poll_next, e, no_posted, no_active) ((refl, λ h. cc), refl)
]

finish-Continues :
    (ctx : HttpRequestContext) (response : Option HttpResponse) (c : SingleClient)
    → Free c
    → Continues ctx c (finish_single ctx response c)
unfolding finish_single
finish-Continues ctx response c (no_posted, no_active, _) =
    let c' : SingleClient = record c {
      callbacks = c.callbacks ++ (ctx.request.id, inl response) ∷ [];
    } in
    let (one, order) = poll_next-track c' no_posted no_active in
    let called = answered_ids-append c.callbacks ((ctx.request.id, inl response) ∷ []) in
    (one, order ∙ rw called (append_assoc (answered_ids c.callbacks) (ctx.request.id ∷ []) _))

failed-Continues :
    (ctx : HttpRequestContext) (msg : Text) (was_cancel : Bool) (c : SingleClient)
    → Free c
    → Continues ctx c (request_failed ctx msg was_cancel c)
unfolding request_failed
failed-Continues ctx msg was_cancel c (no_posted, no_active, _) =
    elim (Bool-cases (ltb 0 ctx.retry)) [
      | inl again ↦
          let c' : SingleClient = record c {
            has_socket = false;
            wait_list = (record ctx { retry = ctx.retry - 1 }) ∷ c.wait_list;
          } in
          rw (request_failed, again) (poll_next-track c' no_posted no_active)
      | inr never ↦
          let outcome : Outcome = inr (tcp msg was_cancel) in
          let c' : SingleClient = record c {
            callbacks = c.callbacks ++ (ctx.request.id, outcome) ∷ [];
          } in
          let (one, order) = poll_next-track c' no_posted no_active in
          let called = answered_ids-append c.callbacks ((ctx.request.id, outcome) ∷ []) in
          rw (request_failed, never)
            (
              one,
              order ∙ rw called (append_assoc (answered_ids c.callbacks) (ctx.request.id ∷ []) _),
            )
    ]

-- The request goes on to an operation.
proceeds-Continues :
    (ctx : HttpRequestContext) (e : Exchange) (c : SingleClient)
    → Free c
    → Continues ctx c (record c { active = (ctx, e) ∷ c.active })
proceeds-Continues ctx e c (no_posted, no_active, busy) =
    rw (no_posted, no_active, busy) ((refl, λ h. cc), refl)

if-Continues :
    (b : Bool) (ctx : HttpRequestContext) (c x y : SingleClient)
    → Continues ctx c x
    → Continues ctx c y
    → Continues ctx c (if b then x else y)
if-Continues true ctx c x y hx hy = hx
if-Continues false ctx c x y hx hy = hy

unless_thrown-Continues :
    (s : Stage) (ctx : HttpRequestContext) (c next : SingleClient)
    (caught : Text → Bool → SingleClient)
    → ((msg : Text) (was_cancel : Bool) → Continues ctx c (caught msg was_cancel))
    → Continues ctx c next
    → Continues ctx c (unless_thrown s caught next)
unless_thrown-Continues (thrown msg was_cancel) ctx c next caught h hn = h msg was_cancel
unless_thrown-Continues _ ctx c next caught h hn = hn

connect-Continues :
    (ctx : HttpRequestContext) (c : SingleClient) → Free c → Continues ctx c (connect_single ctx c)
unfolding connect_single
connect-Continues ctx c free =
    let c' : SingleClient = record c { cancellable = true } in
    if-Continues c.host_resolved ctx c (proceed_at connecting ctx c') (proceed_at resolving ctx c')
      (proceeds-Continues ctx (exchange_at connecting c') c' free)
      (proceeds-Continues ctx (exchange_at resolving c') c' free)

pub send-Continues :
    (ctx : HttpRequestContext) (c : SingleClient)
    → Free c
    → Continues ctx c (send_request_proc ctx c)
unfolding send_request_proc
send-Continues ctx c free =
    if-Continues c.has_socket ctx c _ _
      (if-Continues (is_empty ctx.request.path) ctx c _ _ (finish-Continues ctx none c free)
        (proceeds-Continues ctx (exchange_at sending c) c free))
      (connect-Continues ctx c free)

resolved-Continues :
    (ctx : HttpRequestContext) (done : Completion) (c : SingleClient)
    → Free c
    → Continues ctx c (resolved_single ctx done c)
unfolding resolved_single
resolved-Continues ctx done c free =
    unless_thrown-Continues _ ctx c _ _
      (λ msg was_cancel. failed-Continues ctx msg was_cancel c free)
      (connect-Continues ctx (record c { resolve_result = done.results; host_resolved = true })
        free)

shaken-Continues :
    (ctx : HttpRequestContext) (done : Completion) (c : SingleClient)
    → Free c
    → Continues ctx c (shaken_single ctx done c)
unfolding shaken_single
shaken-Continues ctx done c free =
    unless_thrown-Continues _ ctx c _ _
      (λ msg was_cancel.
        failed-Continues ctx msg was_cancel (record c { cancellable = false }) free)
      (send-Continues ctx (record c { has_socket = true }) free)

connected-Continues :
    (ctx : HttpRequestContext) (e : Exchange) (done : Completion) (c : SingleClient)
    → Free c
    → Continues ctx c (connected_single ctx e done c)
unfolding connected_single
connected-Continues ctx e done c free =
    unless_thrown-Continues _ ctx c _ _
      (λ msg was_cancel.
        failed-Continues ctx msg was_cancel (record c { cancellable = false }) free)
      (if-Continues c.https ctx c _ _ (proceeds-Continues ctx (exchange_at hand_shaking c) c free)
        (shaken-Continues ctx (record done { error = success }) c free))

exchanged-Continues :
    (s : Stage) (ctx : HttpRequestContext) (e : Exchange) (c : SingleClient)
    → Free c
    → Continues ctx c (exchanged_single s ctx e c)
unfolding exchanged_single
exchanged-Continues (answered response) ctx e c free = finish-Continues ctx (some response) c free
exchanged-Continues (thrown msg b) ctx e c free = failed-Continues ctx msg b c free
exchanged-Continues _ ctx e c free = proceeds-Continues ctx e c free

pub handler-Continues :
    (s : Stage) (ctx : HttpRequestContext) (e : Exchange) (done : Completion) (c : SingleClient)
    → Free c
    → Continues ctx c (handler_single s ctx e done c)
unfolding handler_single
handler-Continues resolving ctx e done c free = resolved-Continues ctx done c free
handler-Continues connecting ctx e done c free = connected-Continues ctx e done c free
handler-Continues hand_shaking ctx e done c free = shaken-Continues ctx done c free
handler-Continues _ ctx e done c free =
    exchanged-Continues (complete e done).stage ctx (complete e done) c free
