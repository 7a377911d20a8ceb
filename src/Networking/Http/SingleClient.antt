-- ===== src/Networking/Http/SingleClient.antt =====
-- The client with one thread, src/Networking/Http/HttpClient.cpp. Its requests wait in m_waitList
-- while one is processed. The handlers that read a response are those of HttpClientMT.cpp, word for
-- word, so Exchange stands for them; resolving and connecting differ, since the client keeps the
-- endpoints and one socket.
use customer_print_client.Prelude.{
  ℕ, ◌+◌, ◌-◌, Bool, true, false, List, [], ◌∷◌, ◌++◌, ◌⊎◌, inl, inr, Option, none, some, Text,
  codes, is_empty, ltb, if◌then◌else◌,
}
use customer_print_client.Networking.Http.Request.{HttpRequest}
use customer_print_client.Networking.Http.Response.{HttpResponse}
use customer_print_client.Networking.Http.Exchange.{
  success, Completion, Stage, resolving, connecting, hand_shaking, sending, answered, thrown,
  Exchange, throw_if_error, connection_failed, complete,
}
use customer_print_client.Jobs.Types.{Exception, tcp}

-- HttpRequestContext; its read buffer and response are in the exchange.
pub record HttpRequestContext : Type 0 where
  pub request : HttpRequest
  pub retry : ℕ

-- A callback gets a response, which may be null, or an exception.
abbrev pub Outcome : Type 0
Outcome = Option HttpResponse ⊎ Exception

-- `posted` holds the calls of SendRequestProc that were posted to the io_service, `active` the
-- requests with a pending operation, `cancellable` says that m_cancel is set. `callbacks` records
-- the calls, the latest last, and `aborts` counts the calls of m_cancel.
pub record SingleClient : Type 0 where
  pub https : Bool
  pub server_name : Text
  pub is_processing : Bool
  pub host_resolved : Bool
  pub resolve_result : List Text
  pub has_socket : Bool
  pub cancellable : Bool
  pub wait_list : List HttpRequestContext
  pub posted : List HttpRequestContext
  pub active : List (HttpRequestContext × Exchange)
  pub callbacks : List (ℕ × Outcome)
  pub aborts : ℕ

unfoldable pub new_single_client : Bool → Text → SingleClient
new_single_client https server_name = record {
  https = https;
  server_name = server_name;
  is_processing = false;
  host_resolved = false;
  resolve_result = [];
  has_socket = false;
  cancellable = false;
  wait_list = [];
  posted = [];
  active = [];
  callbacks = [];
  aborts = 0;
}

abbrev pub new_context : HttpRequest → HttpRequestContext
new_context request = record { request = request; retry = 1 }

unfoldable pub post_single : HttpRequest → SingleClient → SingleClient
post_single request c =
    let ctx = new_context request in
    if c.is_processing
    then record c { wait_list = c.wait_list ++ ctx ∷ [] }
    else record c { is_processing = true; posted = c.posted ++ ctx ∷ [] }

unfoldable pub poll_next : SingleClient → SingleClient
poll_next c = elim c.wait_list [
  | [] ↦ record c { is_processing = false }
  | ctx ∷ rest ↦ record c { is_processing = true; wait_list = rest; posted = c.posted ++ ctx ∷ [] }
]

abbrev answer_to : HttpRequestContext → Outcome → SingleClient → SingleClient
answer_to ctx outcome c = record c { callbacks = c.callbacks ++ (ctx.request.id, outcome) ∷ [] }

-- FinishReadContent, behind the reading of the buffer.
unfoldable pub finish_single :
    HttpRequestContext → Option HttpResponse → SingleClient → SingleClient
finish_single ctx response c = poll_next (answer_to ctx (inl response) c)

-- The catch of the thread and what follows it: the request is put in front again while it has a
-- retry, on a new connection.
unfoldable pub request_failed : HttpRequestContext → Text → Bool → SingleClient → SingleClient
request_failed ctx msg was_cancel c =
    if ltb 0 ctx.retry
    then poll_next (record c {
      has_socket = false;
      wait_list = (record ctx { retry = ctx.retry - 1 }) ∷ c.wait_list;
    })
    else poll_next (answer_to ctx (inr (tcp msg was_cancel)) c)

abbrev pub exchange_at : Stage → SingleClient → Exchange
exchange_at stage c = record {
  https = c.https;
  server_name = c.server_name;
  resolve_result = c.resolve_result;
  read_buffer = [];
  stage = stage;
}

abbrev pub proceed_at : Stage → HttpRequestContext → SingleClient → SingleClient
proceed_at stage ctx c = record c { active = (ctx, exchange_at stage c) ∷ c.active }

-- Connect: CreateSocket and the resolver both set m_cancel.
unfoldable pub connect_single : HttpRequestContext → SingleClient → SingleClient
connect_single ctx c =
    let c' = record c { cancellable = true } in
    if c.host_resolved then proceed_at connecting ctx c' else proceed_at resolving ctx c'

-- SendRequestProc. A request with an empty path only connects.
unfoldable pub send_request_proc : HttpRequestContext → SingleClient → SingleClient
send_request_proc ctx c =
    if c.has_socket
    then (if is_empty ctx.request.path then finish_single ctx none c else proceed_at sending ctx c)
    else connect_single ctx c

-- The catch, if the handler threw; else what the handler goes on to.
abbrev pub unless_thrown : Stage → (Text → Bool → SingleClient) → SingleClient → SingleClient
unless_thrown (thrown msg was_cancel) caught next = caught msg was_cancel
unless_thrown _ caught next = next

-- HandleResolve
unfoldable pub resolved_single : HttpRequestContext → Completion → SingleClient → SingleClient
resolved_single ctx done c =
    unless_thrown (throw_if_error done (codes "Failed to resolve " ++ c.server_name) connecting)
      (λ msg was_cancel. request_failed ctx msg was_cancel c)
      (connect_single ctx (record c { resolve_result = done.results; host_resolved = true }))

-- HandleHandShake
unfoldable pub shaken_single : HttpRequestContext → Completion → SingleClient → SingleClient
shaken_single ctx done c =
    unless_thrown (throw_if_error done (codes "SSL handshake failed") sending)
      (λ msg was_cancel. request_failed ctx msg was_cancel (record c { cancellable = false }))
      (send_request_proc ctx (record c { has_socket = true }))

-- HandleConnect, with HandShake of the two protocols.
unfoldable pub connected_single :
    HttpRequestContext → Exchange → Completion → SingleClient → SingleClient
connected_single ctx e done c =
    unless_thrown (throw_if_error done (connection_failed done e) hand_shaking)
      (λ msg was_cancel. request_failed ctx msg was_cancel (record c { cancellable = false }))
      (if c.https
        then proceed_at hand_shaking ctx c
        else shaken_single ctx (record done { error = success }) c)

-- HandleSendRequest, HandleReadStatusLine, HandleReadHeaders and the handlers of the content: where
-- they leave the exchange.
unfoldable pub exchanged_single :
    Stage → HttpRequestContext → Exchange → SingleClient → SingleClient
exchanged_single (answered response) ctx e c = finish_single ctx (some response) c
exchanged_single (thrown msg was_cancel) ctx e c = request_failed ctx msg was_cancel c
exchanged_single _ ctx e c = record c { active = (ctx, e) ∷ c.active }

-- The handler that the ended operation calls.
unfoldable pub handler_single :
    Stage → HttpRequestContext → Exchange → Completion → SingleClient → SingleClient
handler_single resolving ctx e done c = resolved_single ctx done c
handler_single connecting ctx e done c = connected_single ctx e done c
handler_single hand_shaking ctx e done c = shaken_single ctx done c
handler_single _ ctx e done c = exchanged_single (complete e done).stage ctx (complete e done) c

abbrev pub canceled_outcome : Outcome
canceled_outcome = inr (tcp (codes "Canceled") true)

abbrev pub canceled_callbacks : List HttpRequestContext → List (ℕ × Outcome)
canceled_callbacks [] = []
canceled_callbacks (ctx ∷ waiting) = (ctx.request.id, canceled_outcome) ∷ canceled_callbacks waiting

-- Cancel
unfoldable pub cancel_single : SingleClient → SingleClient
cancel_single c =
    let c' = record c {
      callbacks = c.callbacks ++ canceled_callbacks c.wait_list;
      wait_list = [];
    } in
    if c.cancellable then record c' { cancellable = false; aborts = c.aborts + 1 } else c'

pub data SingleEvent : Type 0 where
  request_posted : HttpRequest → SingleEvent
  proc_run cancel_called : SingleEvent
  operation_ended : Completion → SingleEvent

unfoldable pub single_step : SingleClient → SingleEvent → SingleClient
single_step c (request_posted request) = post_single request c
single_step c proc_run = elim c.posted [
  | [] ↦ c
  | ctx ∷ rest ↦ send_request_proc ctx (record c { posted = rest })
]
single_step c cancel_called = cancel_single c
single_step c (operation_ended done) = elim c.active [
  | [] ↦ c
  | (ctx, e) ∷ rest ↦ handler_single e.stage ctx e done (record c { active = rest })
]

unfoldable pub single_run : SingleClient → List SingleEvent → SingleClient
single_run c [] = c
single_run c (e ∷ es) = single_run (single_step c e) es
