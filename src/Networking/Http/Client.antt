-- ===== src/Networking/Http/Client.antt =====
-- The sessions of src/Networking/Http/HttpClientMT.cpp: PostRequest, StartSession, the end of a
-- session in FinishReadContent or in the catch of ThreadLoop, CancelRequest and the pool of
-- sockets. The chain of handlers between the start and the end of a session (resolve, connect,
-- handshake, write, read) is one step, which ends with a response or with an exception.
use customer_print_client.Prelude.{
  ℕ, ◌+◌, ◌-◌, Bool, true, false, not, ◌&&◌, List, [], ◌∷◌, ◌++◌, ◌⊎◌, inl, inr, Option, none, some,
  Text, ltb, if◌then◌else◌, length, drop,
}
use customer_print_client.Prelude.Dict.{find, insert, erase}
use customer_print_client.Core.Strings.{take}
use customer_print_client.Networking.Http.Request.{HttpRequest}
use customer_print_client.Networking.Http.Response.{HttpResponse}
use customer_print_client.Jobs.Types.{Exception, tcp}
use customer_print_client.Jobs.Processor.{id_key}

-- HttpSession. The socket is a number.
pub record HttpSession : Type 0 where
  pub request : HttpRequest
  pub retry : ℕ
  pub socket : Option ℕ
  -- `session->Cancel` is set.
  pub cancellable : Bool

-- `queue` holds the calls of StartSession that were posted to the io_service, `active_sessions` is
-- m_activeSessions. The rest records effects: the callbacks, under their request's id, the
-- sockets that were closed and the sessions that were told to cancel, the latest first.
pub record HttpClient : Type 0 where
  pub thread_count : ℕ
  pub queue : List (ℕ × HttpSession)
  pub active_sessions : List (ℕ × HttpSession)
  pub socket_pool : List ℕ
  pub next_socket : ℕ
  pub callbacks : List (ℕ × (HttpResponse ⊎ Exception))
  pub closed_sockets : List ℕ
  pub cancelled : List ℕ

-- The constructor of HttpSession, with its default of one retry.
abbrev pub new_session : HttpRequest → ℕ → HttpSession
new_session request retry = record {
  request = request;
  retry = retry;
  socket = none;
  cancellable = false;
}

abbrev enqueue : HttpSession → HttpClient → HttpClient
enqueue session c = record c { queue = c.queue ++ (session.request.id, session) ∷ [] }

unfoldable pub post_to_client : HttpRequest → HttpClient → HttpClient
post_to_client request c = enqueue (new_session request 1) c

-- GetCachedSocket, or the socket that Connect creates.
unfoldable pub take_socket : HttpClient → ℕ × HttpClient
take_socket c = elim c.socket_pool [
  | [] ↦ (c.next_socket, record c { next_socket = c.next_socket + 1 })
  | s ∷ rest ↦ (s, record c { socket_pool = rest })
]

-- CacheSocket: the oldest sockets make room, so that the new one is within the thread count.
unfoldable pub cache_socket : ℕ → HttpClient → HttpClient
cache_socket sock c =
    let cnt_to_remove = length c.socket_pool + 1 - c.thread_count in
    record c {
      socket_pool = drop cnt_to_remove c.socket_pool ++ sock ∷ [];
      closed_sockets = take cnt_to_remove c.socket_pool ++ c.closed_sockets;
    }

-- StartSession of the first call in the queue.
unfoldable pub start_session : HttpClient → HttpClient
unfolding take_socket
start_session c = elim c.queue [
  | [] ↦ c
  | (id, session) ∷ rest ↦
      let (sock, c') = take_socket (record c { queue = rest }) in
      record c' {
        active_sessions =
            insert id (record session { socket = some sock; cancellable = true })
              c'.active_sessions;
      }
]

abbrev call_back : ℕ → HttpResponse ⊎ Exception → HttpClient → HttpClient
call_back id outcome c = record c { callbacks = (id, outcome) ∷ c.callbacks }

abbrev cache_socket_of : HttpSession → HttpClient → HttpClient
cache_socket_of session c = elim session.socket [ none ↦ c | some sock ↦ cache_socket sock c ]

-- FinishReadContent
unfoldable pub finish_read_content : ℕ → HttpResponse → HttpClient → HttpClient
unfolding cache_socket
finish_read_content id response c = elim (find id c.active_sessions) [
  | none ↦ c
  | some session ↦
      call_back id (inl response)
        (record (cache_socket_of session c) { active_sessions = erase id c.active_sessions })
]

-- ~HttpSession
abbrev closed_with : HttpSession → List ℕ → List ℕ
closed_with session closed = elim session.socket [ none ↦ closed | some sock ↦ sock ∷ closed ]

-- The catch of ThreadLoop, with a TcpOperationException of this session: the request is posted
-- again, or its callback gets the exception.
unfoldable pub session_failed : ℕ → Text → Bool → HttpClient → HttpClient
session_failed id msg was_cancel c = elim (find id c.active_sessions) [
  | none ↦ c
  | some session ↦
      let c' = record c {
        active_sessions = erase id c.active_sessions;
        closed_sockets = closed_with session c.closed_sockets;
      } in
      if not was_cancel && ltb 0 session.retry
      then record c' {
        queue = c'.queue ++ (id, new_session session.request (session.retry - 1)) ∷ [];
      }
      else call_back id (inr (tcp msg was_cancel)) c'
]

unfoldable pub cancel_session : ℕ → HttpClient → HttpClient
cancel_session id c = elim (find id c.active_sessions) [
  | none ↦ c
  | some session ↦ if session.cancellable then record c { cancelled = id ∷ c.cancelled } else c
]

pub data ClientEvent : Type 0 where
  posted : HttpRequest → ClientEvent
  started : ClientEvent
  finished : ℕ → HttpResponse → ClientEvent
  failed : ℕ → Text → Bool → ClientEvent
  cancel_requested : ℕ → ClientEvent

unfoldable pub client_step : HttpClient → ClientEvent → HttpClient
client_step c (posted request) = post_to_client request c
client_step c started = start_session c
client_step c (finished id response) = finish_read_content id response c
client_step c (failed id msg was_cancel) = session_failed id msg was_cancel c
client_step c (cancel_requested id) = cancel_session id c

unfoldable pub client_run : HttpClient → List ClientEvent → HttpClient
client_run c [] = c
client_run c (e ∷ es) = client_run (client_step c e) es

unfoldable pub new_client : ℕ → HttpClient
new_client thread_count = record {
  thread_count = thread_count;
  queue = [];
  active_sessions = [];
  socket_pool = [];
  next_socket = 0;
  callbacks = [];
  closed_sockets = [];
  cancelled = [];
}
