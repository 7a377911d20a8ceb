-- ===== src/Networking/Http/SingleOrder.antt =====
-- The order in which the client with one thread, src/Networking/Http/HttpClient.cpp, works.
use customer_print_client.Networking.Http.SingleSteps.{
  context_ids, context_ids-append, answered_ids, track, in_work, OneInWork, Free, send-Continues,
  handler-Continues,
}
use customer_print_client.Prelude.{
  not, ◌&&◌, ℕ, ◌≡◌, refl, sym, ap, ◌∙◌, Bool, true, false, List, [], ◌∷◌, ◌++◌, inl, inr, Text,
  arith, append-nil, append_assoc, if◌then◌else◌, length, List-cases, Bool-cases,
}
use customer_print_client.Networking.Http.Request.{HttpRequest}
use customer_print_client.Networking.Http.Exchange.{Completion, Exchange}
use customer_print_client.Networking.Http.SingleClient.{
  HttpRequestContext, SingleClient, new_single_client, new_context, post_single, send_request_proc,
  handler_single, cancel_single, SingleEvent, request_posted, proc_run, cancel_called,
  operation_ended, single_step, single_run,
}

-- A posted request is the only one in work.
posted-Free :
    (ctx : HttpRequestContext) (rest : List HttpRequestContext) (c : SingleClient)
    → OneInWork c
    → c.posted ≡ ctx ∷ rest
    → Free (record c { posted = rest })
posted-Free ctx [] c (one, _) e = elim (List-cases c.active) [
  | inl a ↦ (refl, a, ground (arith, ap length e))
  | inr (x, xs, a) ↦ absurd (ground (arith, ap length e, ap length a))
]
posted-Free ctx (x ∷ xs) c (one, _) e = absurd (ground (arith, ap length e))

active-Free :
    (x : HttpRequestContext × Exchange) (rest : List (HttpRequestContext × Exchange))
    (c : SingleClient)
    → OneInWork c
    → c.active ≡ x ∷ rest
    → Free (record c { active = rest })
active-Free x [] c (one, _) e = elim (List-cases c.posted) [
  | inl a ↦ (a, refl, ground (arith, ap length e))
  | inr (y, ys, a) ↦ absurd (ground (arith, ap length e, ap length a))
]
active-Free x (y ∷ ys) c (one, _) e = absurd (ground (arith, ap length e))

-- The ids of the requests that an event posts.
abbrev pub posted_by : SingleEvent → List ℕ
posted_by (request_posted request) = request.id ∷ []
posted_by _ = []

abbrev is_cancel : SingleEvent → Bool
is_cancel cancel_called = true
is_cancel _ = false

length-zero : {A : Type 0} (l : List A) → length l ≡ 0 → l ≡ []
length-zero [] h = refl
length-zero (x ∷ l) h = absurd (omega (arith, h))

-- An event keeps the order, and adds what it posts at the end.
abbrev Extends : List ℕ → SingleClient → SingleClient → Type 0
Extends ids c c' = OneInWork c' × (track c' ≡ track c ++ ids)

post-Extends :
    (request : HttpRequest) (c : SingleClient)
    → OneInWork c
    → Extends (request.id ∷ []) c (post_single request c)
unfolding post_single
post-Extends request c (one, idle) = elim (Bool-cases c.is_processing) [
  | inl busy ↦
      let waits = context_ids-append c.wait_list (new_context request ∷ []) in
      rw (post_single, busy) ((one ∙ rw busy refl, λ h. cc), rw waits (simp append_assoc))
  | inr free ↦
      let none_works : in_work c ≡ 0 = one ∙ rw free refl in
      let no_posted : c.posted ≡ [] = length-zero c.posted (omega (arith, none_works)) in
      let no_active : c.active ≡ [] = length-zero c.active (omega (arith, none_works)) in
      rw (post_single, free)
        (rw (no_posted, no_active, idle free) ((refl, λ h. cc), simp append_assoc))
]

proc_run-none : (c : SingleClient) → c.posted ≡ [] → single_step c proc_run ≡ c
unfolding single_step
proc_run-none c e = rw (single_step, e) (ap (λ posted. record c { posted = posted }) e)

proc_run-some :
    (ctx : HttpRequestContext) (rest : List HttpRequestContext) (c : SingleClient)
    → c.posted ≡ ctx ∷ rest
    → single_step c proc_run ≡ send_request_proc ctx (record c { posted = rest })
unfolding single_step
proc_run-some ctx rest c e = rw (single_step, e) refl

ended-none :
    (done : Completion) (c : SingleClient)
    → c.active ≡ []
    → single_step c (operation_ended done) ≡ c
unfolding single_step
ended-none done c e = rw (single_step, e) (ap (λ active. record c { active = active }) e)

pub ended-some :
    (done : Completion) (ctx : HttpRequestContext) (e : Exchange)
    (rest : List (HttpRequestContext × Exchange)) (c : SingleClient)
    → c.active ≡ (ctx, e) ∷ rest
    → single_step c (operation_ended done)
      ≡ handler_single e.stage ctx e done (record c { active = rest })
unfolding single_step
ended-some done ctx e rest c h = rw (single_step, h) refl

step-Extends :
    (e : SingleEvent) (c : SingleClient)
    → OneInWork c
    → is_cancel e ≡ false
    → Extends (posted_by e) c (single_step c e)
step-Extends (request_posted request) c one quiet = unfold single_step in post-Extends request c one
step-Extends proc_run c one quiet = elim (List-cases c.posted) [
  | inl e ↦ rw (proc_run-none c e) (one, sym (append-nil (track c)))
  | inr (ctx, rest, e) ↦
      let free = posted-Free ctx rest c one e in
      let (one', order) = send-Continues ctx (record c { posted = rest }) free in
      let taken : track c ≡ answered_ids c.callbacks ++ ctx.request.id ∷ context_ids c.wait_list =
        rw (e, free.0, free.1) refl in
      rw (proc_run-some ctx rest c e) (one', order ∙ sym taken ∙ sym (append-nil (track c)))
]
step-Extends (operation_ended done) c one quiet = elim (List-cases c.active) [
  | inl e ↦ rw (ended-none done c e) (one, sym (append-nil (track c)))
  | inr ((ctx, e), rest, h) ↦
      let free = active-Free (ctx, e) rest c one h in
      let (one', order) = handler-Continues e.stage ctx e done (record c { active = rest }) free in
      let taken : track c ≡ answered_ids c.callbacks ++ ctx.request.id ∷ context_ids c.wait_list =
        rw (h, free.0, free.1) refl in
      rw (ended-some done ctx e rest c h) (one', order ∙ sym taken ∙ sym (append-nil (track c)))
]
step-Extends cancel_called c one quiet = cc

-- Cancel keeps what is in work.
cancel-OneInWork : (c : SingleClient) → OneInWork c → OneInWork (cancel_single c)
unfolding cancel_single
cancel-OneInWork c (one, idle) = elim (Bool-cases c.cancellable) [
  | inl e ↦ rw (cancel_single, e) (one, λ _. refl)
  | inr e ↦ rw (cancel_single, e) (one, λ _. refl)
]

step-OneInWork : (e : SingleEvent) (c : SingleClient) → OneInWork c → OneInWork (single_step c e)
step-OneInWork cancel_called c one = unfold single_step in cancel-OneInWork c one
step-OneInWork (request_posted request) c one = (step-Extends (request_posted request) c one refl).0
step-OneInWork proc_run c one = (step-Extends proc_run c one refl).0
step-OneInWork (operation_ended done) c one = (step-Extends (operation_ended done) c one refl).0

run-OneInWork :
    (es : List SingleEvent) (c : SingleClient) → OneInWork c → OneInWork (single_run c es)
unfolding single_run
run-OneInWork [] c one = one
run-OneInWork (e ∷ es) c one = run-OneInWork es (single_step c e) (step-OneInWork e c one)

-- Over any history of posts, runs, ended operations and cancels, the client works on one request
-- while it is processing and on none else, and no request waits while it is not processing.
pub one_in_work :
    (https : Bool) (server_name : Text) (es : List SingleEvent)
    → let c = single_run (new_single_client https server_name) es in
      (in_work c ≡ (if c.is_processing then 1 else 0))
      × (c.is_processing ≡ false → c.wait_list ≡ [])
unfolding new_single_client
one_in_work https server_name es =
    run-OneInWork es (new_single_client https server_name) (refl, λ _. refl)

abbrev pub posted_ids : List SingleEvent → List ℕ
posted_ids [] = []
posted_ids (e ∷ es) = posted_by e ++ posted_ids es

abbrev pub no_cancel : List SingleEvent → Bool
no_cancel [] = true
no_cancel (e ∷ es) = not (is_cancel e) && no_cancel es

run-track :
    (es : List SingleEvent) (c : SingleClient)
    → OneInWork c
    → no_cancel es ≡ true
    → track (single_run c es) ≡ track c ++ posted_ids es
unfolding single_run
run-track [] c one quiet = sym (append-nil (track c))
run-track (e ∷ es) c one quiet =
    let (one', order) = step-Extends e c one (ground arith) in
    run-track es (single_step c e) one' (ground arith)
    ∙ ap (λ ids. ids ++ posted_ids es) order
    ∙ append_assoc (track c) (posted_by e) (posted_ids es)

-- Over any history without a cancel, the requests that were called back, the one in work and those
-- that wait are, in this order, the requests that were posted, each once: the client answers them in
-- the order of their posts, also those that it sent a second time.
pub answered_in_order :
    (https : Bool) (server_name : Text) (es : List SingleEvent)
    → no_cancel es ≡ true
    → track (single_run (new_single_client https server_name) es) ≡ posted_ids es
unfolding new_single_client
answered_in_order https server_name es quiet =
    run-track es (new_single_client https server_name) (refl, λ _. refl) quiet
