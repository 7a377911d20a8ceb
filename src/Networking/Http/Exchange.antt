-- ===== src/Networking/Http/Exchange.antt =====
-- The chain of handlers of one session of src/Networking/Http/HttpClientMT.cpp, from StartSession
-- to the end: Connect, HandleResolve, HandleConnect, HandShake, SendRequest, HandleReadStatusLine,
-- HandleReadHeaders and the reading of the body. Each asynchronous operation of boost ends with a
-- completion, which comes in as an argument.
use customer_print_client.Prelude.{
  ◌&&◌, ℕ, Bool, true, false, ◌||◌, not, List, [], ◌∷◌, ◌++◌, inl, inr, Text, codes, ◌==◌,
  if◌then◌else◌, length,
}
use customer_print_client.Networking.Http.Number.{to_string}
use customer_print_client.Networking.Http.Response.{
  HttpResponse, ReadError, StatusLine, get_content_length, read_status_line, read_headers,
  plan_body, read_all, read_from_buffer, read_exactly, invalid_http_version, invalid_status_code,
  invalid_status_msg, invalid_header, response_body_read_failed,
}

-- The error codes that the handlers tell apart.
pub data ErrorCode : Type 0 where
  success operation_aborted eof failure : ErrorCode

-- What a handler is called with: the error and its message, the bytes that the operation has read
-- into the read buffer, the endpoints of a resolve and the endpoint of a connect.
pub record Completion : Type 0 where
  pub error : ErrorCode
  pub message : Text
  pub received : Text
  pub results : List Text
  pub address : Text
  pub port : ℕ

-- The handler that the pending operation calls. The last two are ends of the session: the response
-- of its callback, and a TcpOperationException.
pub data Stage : Type 0 where
  resolving connecting hand_shaking sending reading_status_line : Stage
  reading_headers : StatusLine → Stage
  reading_by_length : ℕ → HttpResponse → Stage
  reading_all : HttpResponse → Stage
  answered : HttpResponse → Stage
  thrown : Text → Bool → Stage

pub record Exchange : Type 0 where
  pub https : Bool
  pub server_name : Text
  pub resolve_result : List Text
  pub read_buffer : Text
  pub stage : Stage

abbrev at_stage : Stage → Exchange → Exchange
at_stage stage e = record e { stage = stage }

-- namespace Http of StringResources.cpp
unfoldable pub operation_canceled : Text
operation_canceled = codes "Operation canceled"

unfoldable pub body_read_failed : Text
body_read_failed = codes "Failed read response body"

unfoldable pub read_error_message : ReadError → Text
unfolding body_read_failed
read_error_message (invalid_http_version version) =
    codes "Invalid response. HTTP version: " ++ version
read_error_message invalid_status_code = codes "Invalid response. Failed parse status code"
read_error_message invalid_status_msg = codes "Invalid response. Failed parse status message"
read_error_message invalid_header = codes "Invalid response. Failed parse header"
read_error_message response_body_read_failed = body_read_failed

-- THROW_IF_ERROR, with what the handler goes on to.
unfoldable pub throw_if_error : Completion → Text → Stage → Stage
unfolding operation_canceled
throw_if_error c msg next = elim c.error [
  | success ↦ next
  | operation_aborted ↦ thrown operation_canceled true
  | _ ↦ thrown (msg ++ codes ": " ++ c.message) false
]

-- Connect: resolve first, if the host has no endpoints yet.
unfoldable pub connect : Exchange → Stage
connect e = elim e.resolve_result [ [] ↦ resolving | endpoint ∷ rest ↦ connecting ]

unfoldable pub handle_resolve : Completion → Exchange → Exchange
unfolding connect throw_if_error
handle_resolve c e =
    let e' = record e { resolve_result = c.results } in
    let next = throw_if_error c (codes "Failed to resolve " ++ e.server_name) (connect e') in
    elim c.error [ success ↦ at_stage next e' | _ ↦ at_stage next e ]

-- HandShake of the two protocols; without TLS it is HandleHandShake without an error, which sends.
unfoldable pub hand_shake : Exchange → Stage
hand_shake e = if e.https then hand_shaking else sending

abbrev pub connection_failed : Completion → Exchange → Text
connection_failed c e =
    codes "Failed to connect to "
    ++ e.server_name
    ++ codes "("
    ++ c.address
    ++ codes ":"
    ++ to_string c.port
    ++ codes ")"

unfoldable pub handle_connect : Completion → Exchange → Exchange
unfolding throw_if_error hand_shake to_string
handle_connect c e = at_stage (throw_if_error c (connection_failed c e) (hand_shake e)) e

unfoldable pub handle_hand_shake : Completion → Exchange → Exchange
unfolding throw_if_error
handle_hand_shake c e = at_stage (throw_if_error c (codes "SSL handshake failed") sending) e

unfoldable pub handle_send_request : Completion → Exchange → Exchange
unfolding throw_if_error
handle_send_request c e =
    at_stage (throw_if_error c (codes "Failed send request") reading_status_line) e

-- The operation has put its bytes behind what the buffer holds.
abbrev pub filled : Completion → Exchange → Exchange
filled c e = record e { read_buffer = e.read_buffer ++ c.received }

-- The part of HandleReadStatusLine behind THROW_IF_ERROR.
unfoldable pub parse_status_line : Exchange → Exchange
parse_status_line e = elim (read_status_line e.read_buffer) [
  | inl (line, rest) ↦ record e { stage = Stage.reading_headers line; read_buffer = rest }
  | inr error ↦ at_stage (thrown (read_error_message error) false) e
]

unfoldable pub handle_read_status_line : Completion → Exchange → Exchange
unfolding throw_if_error
handle_read_status_line c e = elim c.error [
  | success ↦ parse_status_line (filled c e)
  | _ ↦ at_stage (throw_if_error c (codes "Failed read response") reading_status_line) e
]

-- FinishReadContent, up to the callback: the content is what the buffer holds.
unfoldable pub take_content : HttpResponse → Exchange → Exchange
take_content response e = record e {
  stage = answered (record response { content = response.content ++ e.read_buffer });
  read_buffer = [];
}

abbrev is_failure : ErrorCode → Bool
is_failure success = false
is_failure eof = false
is_failure _ = true

-- HandleReadContentByLength. A cancelled operation is thrown as any other error is.
unfoldable pub handle_read_content_by_length : ℕ → HttpResponse → ErrorCode → Exchange → Exchange
unfolding take_content body_read_failed
handle_read_content_by_length content_length response error e =
    if is_failure error || not (content_length == length e.read_buffer)
    then at_stage (thrown body_read_failed false) e
    else take_content response e

-- The end of HandleReadHeaders.
unfoldable pub read_content : HttpResponse → Exchange → Exchange
read_content response e =
    let content_length = get_content_length response in
    elim (plan_body content_length (length e.read_buffer)) [
      | read_all ↦ at_stage (Stage.reading_all response) e
      | read_from_buffer ↦ handle_read_content_by_length content_length response success e
      | read_exactly n ↦ at_stage (Stage.reading_by_length content_length response) e
    ]

-- CreateResponse, with what HandleReadStatusLine has put into it.
abbrev pub response_of : StatusLine → List (Text × Text) → HttpResponse
response_of line headers = record {
  http_version = line.http_version;
  status_code = line.status_code;
  status_message = line.status_message;
  headers = headers;
  content = [];
}

-- The part of HandleReadHeaders behind THROW_IF_ERROR.
unfoldable pub parse_headers : StatusLine → Exchange → Exchange
parse_headers line e = elim (read_headers [] [] e.read_buffer) [
  | inl (headers, rest) ↦ read_content (response_of line headers) (record e { read_buffer = rest })
  | inr error ↦ at_stage (thrown (read_error_message error) false) e
]

-- The delimiter "\r\n\r\n" stands in a text.
unfoldable pub starts_blank : Text → Bool
starts_blank (a ∷ b ∷ c ∷ d ∷ t) = a == 13 && (b == 10 && (c == 13 && d == 10))
starts_blank _ = false

unfoldable pub has_blank_line : Text → Bool
unfolding starts_blank
has_blank_line [] = false
has_blank_line (c ∷ t) = let rest = has_blank_line t in starts_blank (c ∷ t) || rest

-- How async_read_until ends: with success only where the delimiter is in the buffer; without it, by the
-- end of the stream.
unfoldable pub read_until_blank_line : Completion → Exchange → Completion
unfolding has_blank_line
read_until_blank_line c e = elim c.error [
  | success ↦ if has_blank_line (filled c e).read_buffer then c else record c { error = eof }
  | _ ↦ c
]

unfoldable pub handle_read_headers : StatusLine → Completion → Exchange → Exchange
unfolding throw_if_error
handle_read_headers line c e = elim c.error [
  | success ↦ parse_headers line (filled c e)
  | _ ↦
      at_stage
        (throw_if_error c (codes "Failed read response headers") (Stage.reading_headers line)) e
]

-- HandleReadContentAll: it reads on until the operation ends with an error.
unfoldable pub handle_read_content_all : HttpResponse → ErrorCode → Exchange → Exchange
unfolding take_content body_read_failed
handle_read_content_all response success e = at_stage (Stage.reading_all response) e
handle_read_content_all response eof e = take_content response e
handle_read_content_all response _ e = at_stage (thrown body_read_failed false) e

-- The pending operation ends, and its handler runs.
unfoldable pub complete : Exchange → Completion → Exchange
complete e c = elim e.stage [
  | resolving ↦ handle_resolve c e
  | connecting ↦ handle_connect c e
  | hand_shaking ↦ handle_hand_shake c e
  | sending ↦ handle_send_request c e
  | reading_status_line ↦ handle_read_status_line c e
  | reading_headers line ↦ handle_read_headers line (read_until_blank_line c e) e
  | reading_by_length n response ↦ handle_read_content_by_length n response c.error (filled c e)
  | reading_all response ↦ handle_read_content_all response c.error (filled c e)
  | _ ↦ e
]

unfoldable pub complete_all : Exchange → List Completion → Exchange
complete_all e [] = e
complete_all e (c ∷ cs) = complete_all (complete e c) cs

-- StartSession: a socket from the pool is connected, and sends at once.
unfoldable pub start_exchange : Bool → Text → Bool → Exchange
unfolding connect
start_exchange https server_name cached =
    let e : Exchange = record {
      https = https;
      server_name = server_name;
      resolve_result = [];
      read_buffer = [];
      stage = sending;
    } in
    if cached then e else at_stage (connect e) e
