-- ===== src/Networking/Http/Sessions.antt =====
-- Over any history of the client of src/Networking/Http/HttpClientMT.cpp: its pool of sockets is
-- bounded, and no request is lost.
use customer_print_client.Prelude.{
  ℕ, ◌+◌, ◌-◌, ◌≤◌, ◌<◌, ◌≡◌, refl, ◌∙◌, ap, Bool, true, List, [], ◌∷◌, ◌++◌, ◌⊎◌, inl, inr, some,
  Text, arith, ◌==◌, ==_iff, if◌then◌else◌, length, length-append, length-drop, drop, Option-cases,
}
use customer_print_client.Prelude.Dict.{find, insert, erase}
use customer_print_client.Networking.Http.Response.{HttpResponse}
use customer_print_client.Jobs.Processor.{id_key, count}
use customer_print_client.Networking.Http.Client.{
  HttpSession, HttpClient, post_to_client, take_socket, cache_socket, start_session,
  finish_read_content, session_failed, cancel_session, ClientEvent, posted, started, finished,
  failed, cancel_requested, client_step, client_run, new_client, new_session,
}

-- The pool fits the threads.
abbrev pub Pooled : HttpClient → Type 0
Pooled c = length c.socket_pool ≤ c.thread_count

cached-Pooled :
    (sock : ℕ) (c : HttpClient)
    → 0 < c.thread_count
    → length (cache_socket sock c).socket_pool ≤ c.thread_count
unfolding cache_socket
cached-Pooled sock c pos =
    let n = length c.socket_pool + 1 - c.thread_count in
    omega (arith, length-append (drop n c.socket_pool) (sock ∷ []), length-drop n c.socket_pool)

-- The client after a step keeps a pool that fits, and its number of threads.
abbrev Keeps : HttpClient → HttpClient → Type 0
Keeps c c' = (length c'.socket_pool ≤ c.thread_count) × (c'.thread_count ≡ c.thread_count)

start-Keeps : (c : HttpClient) → Pooled c → Keeps c (start_session c)
unfolding start_session take_socket
start-Keeps c h = ground arith

finish-Keeps :
    (id : ℕ) (r : HttpResponse) (c : HttpClient)
    → 0 < c.thread_count
    → Pooled c
    → Keeps c (finish_read_content id r c)
unfolding finish_read_content cache_socket
finish-Keeps id r c pos h = elim (Option-cases (find id c.active_sessions)) [
  | inl e ↦ rw (e, finish_read_content) (h, refl)
  | inr (session, e) ↦ elim (Option-cases session.socket) [
    | inl e' ↦ rw (e, finish_read_content) (rw e' (h, refl))
    | inr (sock, e') ↦ rw (e, finish_read_content) (rw e' (cached-Pooled sock c pos, refl))
  ]
]

fail-Keeps :
    (id : ℕ) (msg : Text) (b : Bool) (c : HttpClient)
    → Pooled c
    → Keeps c (session_failed id msg b c)
unfolding session_failed
fail-Keeps id msg b c h = ground arith

cancel-Keeps : (id : ℕ) (c : HttpClient) → Pooled c → Keeps c (cancel_session id c)
unfolding cancel_session
cancel-Keeps id c h = ground arith

step-Keeps :
    (e : ClientEvent) (c : HttpClient) → 0 < c.thread_count → Pooled c → Keeps c (client_step c e)
unfolding client_step post_to_client
step-Keeps (posted request) c pos h = (h, refl)
step-Keeps started c pos h = start-Keeps c h
step-Keeps (finished id response) c pos h = finish-Keeps id response c pos h
step-Keeps (failed id msg was_cancel) c pos h = fail-Keeps id msg was_cancel c h
step-Keeps (cancel_requested id) c pos h = cancel-Keeps id c h

run-Keeps :
    (es : List ClientEvent) (c : HttpClient)
    → 0 < c.thread_count
    → Pooled c
    → Keeps c (client_run c es)
unfolding client_run
run-Keeps [] c pos h = (h, refl)
run-Keeps (e ∷ es) c pos h =
    let (fits, same) = step-Keeps e c pos h in
    let (fits', same') =
      run-Keeps es (client_step c e) (omega (arith, same, pos)) (omega (arith, fits, same)) in
    (omega (arith, fits', same), same' ∙ same)

-- Over any history, the pool of a client with at least one thread holds at most one socket for
-- each thread.
pub pool_bounded :
    (thread_count : ℕ) (es : List ClientEvent)
    → 0 < thread_count
    → length (client_run (new_client thread_count) es).socket_pool ≤ thread_count
unfolding new_client
pool_bounded thread_count es pos = (run-Keeps es (new_client thread_count) pos (omega arith)).0

module _ {A : Type 0} where
  count-append : (i : ℕ) (l m : List (ℕ × A)) → count i (l ++ m) ≡ count i l + count i m
  unfolding count
  count-append i [] m = omega arith
  count-append i ((j, a) ∷ l) m = omega (arith, count-append i l m)

  count-insert :
      (i j : ℕ) (a : A) (m : List (ℕ × A))
      → count j m ≡ 0
      → count i (insert j a m) ≡ (if j == i then 1 else 0) + count i m
  unfolding count insert
  count-insert i j a [] h = omega arith
  count-insert i j a ((k, b) ∷ m) h = ground (arith, count-insert i j a m)

  count-erased :
      (i j : ℕ) (m : List (ℕ × A)) → count i (erase j m) ≡ (if j == i then 0 else count i m)
  unfolding count erase
  count-erased i j [] = ground arith
  count-erased i j ((k, b) ∷ m) = ground (arith, count-erased i j m)

  count-found : (j : ℕ) (a : A) (m : List (ℕ × A)) → find j m ≡ some a → 0 < count j m
  unfolding find count
  count-found j a [] e = cc
  count-found j a ((k, b) ∷ m) e = ground (arith, count-found j a m)

-- Where a request is: in the queue, active, or called back.
abbrev pub places : ℕ → HttpClient → ℕ
places i c = count i c.queue + count i c.active_sessions + count i c.callbacks

-- How many requests with this id were posted.
unfoldable pub posts : ℕ → List ClientEvent → ℕ
posts i [] = 0
posts i (posted request ∷ es) = (if request.id == i then 1 else 0) + posts i es
posts i (e ∷ es) = posts i es

List-cases : {A : Type 0} (l : List A) → (l ≡ []) ⊎ ((a : A) × (m : List A) × (l ≡ a ∷ m))
List-cases [] = inl refl
List-cases (a ∷ m) = inr (a, m, refl)

take_socket-rest :
    (c : HttpClient)
    → let c' = (take_socket c).1 in
      (c'.queue ≡ c.queue) × (c'.active_sessions ≡ c.active_sessions) × (c'.callbacks ≡ c.callbacks)
unfolding take_socket
take_socket-rest c = elim (List-cases c.socket_pool) [
  | inl e ↦ rw (e, take_socket) (refl, refl, refl)
  | inr (s, rest, e) ↦ rw (e, take_socket) (refl, refl, refl)
]

count-one : (j : ℕ) (a : HttpSession) (m : List (ℕ × HttpSession)) → 0 < count j ((j, a) ∷ m)
unfolding count
count-one j a m = ground arith

start_places :
    (i : ℕ) (c : HttpClient) → ((k : ℕ) → places k c ≤ 1) → places i (start_session c) ≡ places i c
unfolding start_session take_socket count
start_places i c once = elim (List-cases c.queue) [
  | inl e ↦ rw (e, start_session) (omega (arith, ap (count i) e))
  | inr ((id, session), rest, e) ↦
      let waits : count i c.queue ≡ count i ((id, session) ∷ rest) = ap (count i) e in
      let itself : count id c.queue ≡ count id ((id, session) ∷ rest) = ap (count id) e in
      let left : HttpClient = record c { queue = rest } in
      let (sock, c') = take_socket left in
      let (queue_eq, active_eq, callbacks_eq) = take_socket-rest left in
      let s = record session { socket = some sock; cancellable = true } in
      let free : count id c'.active_sessions ≡ 0 =
        ap (count id) active_eq ∙ omega (arith, itself, once id, count-one id session rest) in
      let new = count-insert i id s c'.active_sessions free in
      rw (e, start_session)
        (omega (
          arith,
          new,
          waits,
          ap (count i) queue_eq,
          ap (count i) active_eq,
          ap (count i) callbacks_eq,
        ))
]

finish_places :
    (i id : ℕ) (r : HttpResponse) (c : HttpClient)
    → ((k : ℕ) → places k c ≤ 1)
    → places i (finish_read_content id r c) ≡ places i c
unfolding finish_read_content cache_socket count
finish_places i id r c once = elim (Option-cases (find id c.active_sessions)) [
  | inl e ↦ rw (e, finish_read_content) refl
  | inr (session, e) ↦
      let there = count-found id session c.active_sessions e in
      rw (e, finish_read_content)
        (ground (arith, count-erased i id c.active_sessions, there, once id, ==_iff id i))
]

fail_places :
    (i id : ℕ) (msg : Text) (b : Bool) (c : HttpClient)
    → ((k : ℕ) → places k c ≤ 1)
    → places i (session_failed id msg b c) ≡ places i c
unfolding session_failed count
fail_places i id msg b c once = elim (Option-cases (find id c.active_sessions)) [
  | inl e ↦ rw (e, session_failed) refl
  | inr (session, e) ↦
      let there = count-found id session c.active_sessions e in
      let again = new_session session.request (session.retry - 1) in
      rw (e, session_failed)
        (ground (
          arith,
          count-append i c.queue ((id, again) ∷ []),
          count-erased i id c.active_sessions,
          there,
          once id,
          ==_iff id i,
        ))
]

step_places :
    (i : ℕ) (e : ClientEvent) (c : HttpClient)
    → ((k : ℕ) → places k c ≤ 1)
    → places i (client_step c e) ≡ posts i (e ∷ []) + places i c
unfolding client_step posts post_to_client cancel_session count
step_places i (posted request) c once =
    omega (arith, count-append i c.queue ((request.id, new_session request 1) ∷ []))
step_places i started c once = omega (arith, start_places i c once)
step_places i (finished id response) c once = omega (arith, finish_places i id response c once)
step_places i (failed id msg was_cancel) c once =
    omega (arith, fail_places i id msg was_cancel c once)
step_places i (cancel_requested id) c once = ground arith

posts-cons :
    (i : ℕ) (e : ClientEvent) (es : List ClientEvent)
    → posts i (e ∷ es) ≡ posts i (e ∷ []) + posts i es
unfolding posts
posts-cons i (posted request) es = omega arith
posts-cons i _ es = omega arith

run_places :
    (es : List ClientEvent) (c : HttpClient)
    → ((k : ℕ) → places k c + posts k es ≤ 1)
    → (i : ℕ) → places i (client_run c es) ≡ places i c + posts i es
unfolding client_run
run_places [] c once i = unfold posts in omega arith
run_places (e ∷ es) c once i =
    let now = λ (k : ℕ). step_places k e c (λ k'. omega (arith, once k')) in
    let rest : (k : ℕ) → places k (client_step c e) + posts k es ≤ 1 =
      λ k. omega (arith, once k, now k, posts-cons k e es) in
    omega (arith, run_places es (client_step c e) rest i, now i, posts-cons i e es)

-- In a history in which no two requests have the same id, each request that was posted is at any
-- time in one place: waiting to be started, active, or called back, once. No request is lost, and
-- none is called back twice, whichever sessions fail and are tried again.
pub no_request_lost :
    (thread_count : ℕ) (es : List ClientEvent)
    → ((k : ℕ) → posts k es ≤ 1)
    → (i : ℕ) → places i (client_run (new_client thread_count) es) ≡ posts i es
unfolding new_client count
no_request_lost thread_count es once i =
    run_places es (new_client thread_count) (λ k. omega (arith, once k)) i ∙ omega arith
