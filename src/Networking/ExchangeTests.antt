-- ===== src/Networking/ExchangeTests.antt =====
-- Concrete exchanges of src/Networking/Http/HttpClientMT.cpp.
use customer_print_client.Jobs.Processor.{id_key}
use customer_print_client.Prelude.{
  All, ◌≡◌, refl, true, false, List, [], ◌∷◌, ◌++◌, arith, some, none, Text, text_eq, ◌||◌, codes,
}
use customer_print_client.Prelude.Dict.{find}
use customer_print_client.Networking.Http.Definitions.{
  get, content_length_name, http_version_1_0, http_version_1_1,
}
use customer_print_client.Networking.Http.Number.{to_string}
use customer_print_client.Networking.Http.Content.{crlf}
use customer_print_client.Networking.Http.Request.{text_key, headers_text, HttpRequest, new_request}
use customer_print_client.Networking.Http.Response.{HttpResponse}
use customer_print_client.Networking.Http.StatusLine.{status_text}
use customer_print_client.Networking.Http.ReadBack.{
  got, pieces, ReplyOk, reply_read_back, reply_read_to_end,
}
use customer_print_client.Networking.Http.Outcomes.{
  is_end, in_body, Succeeds, exchange_ends, settle, cancelled_request,
}
use customer_print_client.Networking.Http.Exchange.{
  operation_aborted, Completion, Stage, answered, Exchange, complete, complete_all, start_exchange,
}
use customer_print_client.Networking.Http.Client.{HttpSession, HttpClient, new_session, new_client}

-- A reply of ten bytes, cut inside a header and inside the content.
abbrev ten_bytes : HttpResponse
ten_bytes = record {
  http_version = codes "HTTP/1.1";
  status_code = 200;
  status_message = codes "OK";
  headers = (codes "Content-Length", codes "10") ∷ (codes "Via", codes "a b") ∷ [];
  content = codes "0123456789";
}

abbrev cached_exchange : Exchange
cached_exchange = start_exchange true (codes "host") true

abbrev rest_of_head : Text
rest_of_head = codes "Length: 10" ++ crlf ++ codes "Via: a b" ++ crlf ++ crlf ++ codes "0123"

ten_bytes-ReplyOk : ReplyOk ten_bytes
unfolding http_version_1_1 http_version_1_0 text_eq
ten_bytes-ReplyOk = (refl, omega arith, refl, refl, refl, refl)

ten_bytes-announced : find content_length_name ten_bytes.headers ≡ some (to_string 10)
unfolding find content_length_name text_eq to_string
ten_bytes-announced = refl

head_cut : codes "Content-" ++ rest_of_head ≡ headers_text ten_bytes.headers ++ crlf ++ codes "0123"
unfolding headers_text
head_cut = refl

reply_read_back_example :
    (complete_all cached_exchange (
      got []
      ∷ got (status_text ten_bytes ++ codes "Content-")
      ∷ got rest_of_head
      ∷ got (codes "456789")
      ∷ [])).stage
    ≡ answered ten_bytes
reply_read_back_example =
    reply_read_back ten_bytes cached_exchange (codes "Content-") rest_of_head (codes "0123")
      (codes "456789") ten_bytes-ReplyOk ten_bytes-announced (omega arith)
      (unfold start_exchange in refl) (unfold start_exchange in refl) head_cut refl

-- The same without a length.
abbrev endless : HttpResponse
endless = record ten_bytes { headers = (codes "Via", codes "a b") ∷ [] }

endless-ReplyOk : ReplyOk endless
unfolding http_version_1_1 http_version_1_0 text_eq
endless-ReplyOk = (refl, omega arith, refl, refl, refl, refl)

endless-unannounced : find content_length_name endless.headers ≡ none
unfolding find content_length_name text_eq
endless-unannounced = refl

endless_cut : headers_text endless.headers ++ crlf ++ [] ≡ headers_text endless.headers ++ crlf
unfolding headers_text
endless_cut = refl

reply_read_to_end_example :
    (complete_all cached_exchange (
      got []
      ∷ got (status_text endless ++ [])
      ∷ got (headers_text endless.headers ++ crlf ++ [])
      ∷ pieces (codes "012345" ∷ codes "6789" ∷ []))).stage
    ≡ answered endless
reply_read_to_end_example =
    reply_read_to_end endless cached_exchange [] (headers_text endless.headers ++ crlf ++ []) []
      (codes "012345" ∷ codes "6789" ∷ []) endless-ReplyOk endless-unannounced
      (unfold start_exchange in refl) (unfold start_exchange in refl) refl refl

-- The user cancels while the content is read.
abbrev in_content : Exchange
in_content = record cached_exchange { stage = Stage.reading_by_length 10 ten_bytes }

abbrev aborted : Completion
aborted = record (got []) { error = operation_aborted }

abbrev resolved : Completion
resolved = record (got []) { results = codes "10.0.0.1" ∷ [] }

abbrev six_successes : List Completion
six_successes = resolved ∷ resolved ∷ resolved ∷ resolved ∷ resolved ∷ resolved ∷ []

resolved-Succeeds : Succeeds resolved
resolved-Succeeds = (refl, λ e. cc)

six_successes-Succeed : All Succeeds six_successes
six_successes-Succeed = let s = resolved-Succeeds in (s, (s, (s, (s, (s, (s, tt))))))

abbrev from_start : Exchange
from_start = start_exchange true (codes "host") false

exchange_ends_example :
    let s = (complete_all from_start six_successes).stage in
    ((is_end s || in_body s) ≡ true) × (is_end (complete from_start aborted).stage ≡ true)
exchange_ends_example =
    exchange_ends from_start six_successes aborted six_successes-Succeed (omega arith) (λ e. cc)

abbrev some_request : HttpRequest
some_request = new_request 7 get (codes "/a") []

abbrev one_session : HttpSession
one_session = record (new_session some_request 1) { socket = some 0; cancellable = true }

abbrev one_active : HttpClient
one_active = record (new_client 2) { active_sessions = (7, one_session) ∷ [] }

one_active-found : find 7 one_active.active_sessions ≡ some one_session
unfolding find
one_active-found = refl

cancelled_request_example :
    let after = settle 7 (complete in_content aborted).stage one_active in
    (after.queue ≡ one_active.queue ++ (7, new_session some_request 0) ∷ [])
    × (after.callbacks ≡ one_active.callbacks)
cancelled_request_example =
    cancelled_request in_content aborted one_active 7 one_session refl refl one_active-found
      (omega arith)
