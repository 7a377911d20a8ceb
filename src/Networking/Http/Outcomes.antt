-- ===== src/Networking/Http/Outcomes.antt =====
-- How an exchange of src/Networking/Http/HttpClientMT.cpp ends, and what its end means to the client:
-- the event of Client that the chain of handlers amounts to.
use customer_print_client.Networking.Http.Exchange.{has_blank_line}
use customer_print_client.Networking.Http.Exchange.{read_until_blank_line}
use customer_print_client.Prelude.{
  ℕ, ◌≤◌, ◌<◌, ◌-◌, List-cases, ◌≡◌, ◌≢◌, inl, inr, refl, sym, Bool, true, false, ◌||◌, List, [],
  ◌∷◌, ◌++◌, arith, All, append-nil, lt→ltb, Sum-cases, Bool-cases, some, length, if◌then◌else◌,
}
use customer_print_client.Prelude.Dict.{find}
use customer_print_client.Jobs.Processor.{id_key}
use customer_print_client.Jobs.Types.{tcp}
use customer_print_client.Networking.Http.Exchange.{
  ErrorCode, success, operation_aborted, Completion, filled, Stage, resolving, connecting,
  hand_shaking, sending, answered, thrown, Exchange, operation_canceled, body_read_failed,
  handle_send_request, parse_status_line, handle_read_status_line, take_content,
  handle_read_content_by_length, read_content, parse_headers, handle_read_headers,
  handle_read_content_all, complete, complete_all, handle_resolve, handle_connect,
  handle_hand_shake, connect, hand_shake,
}
use customer_print_client.Networking.Http.Response.{
  HttpResponse, StatusLine, read_status_line, read_headers, plan_body, get_content_length,
}
use customer_print_client.Networking.Http.Client.{
  HttpSession, HttpClient, finished, failed, client_step, session_failed, new_session,
}

abbrev pub is_end : Stage → Bool
is_end (answered r) = true
is_end (thrown msg was_cancel) = true
is_end _ = false

-- The content of the response is being read.
abbrev pub in_body : Stage → Bool
in_body (Stage.reading_by_length n r) = true
in_body (Stage.reading_all r) = true
in_body _ = false

aborted_at :
    (s : Stage) (e : Exchange) (c : Completion)
    → e.stage ≡ s
    → is_end s ≡ false
    → c.error ≡ operation_aborted
    → (complete e c).stage
      ≡ (if in_body s then thrown body_read_failed false else thrown operation_canceled true)
unfolding complete handle_resolve handle_connect handle_hand_shake handle_send_request
    handle_read_status_line handle_read_headers read_until_blank_line handle_read_content_by_length
    handle_read_content_all
aborted_at resolving e c h _ aborted = rw (complete, h, aborted) refl
aborted_at connecting e c h _ aborted = rw (complete, h, aborted) refl
aborted_at hand_shaking e c h _ aborted = rw (complete, h, aborted) refl
aborted_at sending e c h _ aborted = rw (complete, h, aborted) refl
aborted_at Stage.reading_status_line e c h _ aborted = rw (complete, h, aborted) refl
aborted_at (Stage.reading_headers line) e c h _ aborted = rw (complete, h, aborted) refl
aborted_at (Stage.reading_by_length n r) e c h _ aborted = rw (complete, h, aborted) refl
aborted_at (Stage.reading_all r) e c h _ aborted = rw (complete, h, aborted) refl
aborted_at (answered r) e c h k aborted = cc
aborted_at (thrown msg b) e c h k aborted = cc

-- A cancelled operation ends the exchange with an exception. The exception says that it was a cancel
-- if the content is not being read yet; while it is read, the exception does not say so.
pub complete_aborted :
    (e : Exchange) (c : Completion)
    → is_end e.stage ≡ false
    → c.error ≡ operation_aborted
    → (complete e c).stage
      ≡ (if in_body e.stage then thrown body_read_failed false else thrown operation_canceled true)
complete_aborted e c running aborted = aborted_at e.stage e c refl running aborted

-- How many operations may still come before the content.
abbrev rank : Stage → ℕ
rank resolving = 6
rank connecting = 5
rank hand_shaking = 4
rank sending = 3
rank Stage.reading_status_line = 2
rank (Stage.reading_headers line) = 1
rank _ = 0

by_length-rank :
    (n : ℕ) (r : HttpResponse) (error : ErrorCode) (e : Exchange)
    → is_end (handle_read_content_by_length n r error e).stage ≡ true
unfolding handle_read_content_by_length take_content
by_length-rank n r error e = ground arith

rank-end : (s : Stage) → is_end s ≡ true → rank s ≡ 0
rank-end s h = ground arith

rank-read_content : (r : HttpResponse) (e : Exchange) → rank (read_content r e).stage ≡ 0
unfolding read_content plan_body
rank-read_content r e =
    ground (arith, rank-end _ (by_length-rank (get_content_length r) r success e))

rank-parse_headers : (line : StatusLine) (e : Exchange) → rank (parse_headers line e).stage ≡ 0
unfolding parse_headers
rank-parse_headers line e = elim (Sum-cases (read_headers [] [] e.read_buffer)) [
  | inl ((headers, rest), h) ↦ rw (parse_headers, h) (rank-read_content _ _)
  | inr (error, h) ↦ rw (parse_headers, h) refl
]

rank-parse_status_line : (e : Exchange) → rank (parse_status_line e).stage ≤ 1
unfolding parse_status_line
rank-parse_status_line e = elim (Sum-cases (read_status_line e.read_buffer)) [
  | inl ((line, rest), h) ↦ rw (parse_status_line, h) (omega arith)
  | inr (error, h) ↦ rw (parse_status_line, h) (omega arith)
]

-- A resolve that succeeds has an endpoint.
abbrev pub Resolved : Completion → Type 0
Resolved c = c.results ≢ []

success_at :
    (s : Stage) (e : Exchange) (c : Completion)
    → e.stage ≡ s
    → c.error ≡ success
    → Resolved c
    → rank (complete e c).stage ≤ rank s - 1
unfolding complete handle_resolve handle_connect handle_hand_shake handle_send_request
    handle_read_status_line handle_read_headers read_until_blank_line handle_read_content_all
    connect hand_shake
success_at resolving e c h k some_result = elim (List-cases c.results) [
  | inl none_left ↦ absurd (some_result none_left)
  | inr (endpoint, rest, found) ↦ rw (complete, h, k, found) (omega arith)
]
success_at connecting e c h k _ = rw (complete, h, k) (ground arith)
success_at hand_shaking e c h k _ = rw (complete, h, k) (omega arith)
success_at sending e c h k _ = rw (complete, h, k) (omega arith)
success_at Stage.reading_status_line e c h k _ =
    rw (complete, h, k) (rank-parse_status_line (filled c e))
success_at (Stage.reading_headers line) e c h k _ =
    rw (complete, h, k)
      (elim (Bool-cases (has_blank_line (filled c e).read_buffer)) [
        | inl found ↦ rw found (omega (arith, rank-parse_headers line (filled c e)))
        | inr missing ↦ rw missing (omega arith)
      ])
success_at (Stage.reading_by_length n r) e c h k _ =
    rw (complete, h, k) (omega (arith, rank-end _ (by_length-rank n r success (filled c e))))
success_at (Stage.reading_all r) e c h k _ = rw (complete, h, k) (omega arith)
success_at (answered r) e c h k _ = rw (complete, h) (rw h (omega arith))
success_at (thrown msg b) e c h k _ = rw (complete, h) (rw h (omega arith))

error_at :
    (s : Stage) (e : Exchange) (c : Completion)
    → e.stage ≡ s
    → c.error ≢ success
    → is_end (complete e c).stage ≡ true
unfolding complete handle_resolve handle_connect handle_hand_shake handle_send_request
    handle_read_status_line handle_read_headers read_until_blank_line handle_read_content_all
    take_content
error_at resolving e c h bad = rw (complete, h) (ground arith)
error_at connecting e c h bad = rw (complete, h) (ground arith)
error_at hand_shaking e c h bad = rw (complete, h) (ground arith)
error_at sending e c h bad = rw (complete, h) (ground arith)
error_at Stage.reading_status_line e c h bad = rw (complete, h) (ground arith)
error_at (Stage.reading_headers line) e c h bad = rw (complete, h) (ground arith)
error_at (Stage.reading_by_length n r) e c h bad =
    rw (complete, h) (by_length-rank n r c.error (filled c e))
error_at (Stage.reading_all r) e c h bad = rw (complete, h) (ground arith)
error_at (answered r) e c h bad = rw (complete, h) (rw h refl)
error_at (thrown msg b) e c h bad = rw (complete, h) (rw h refl)

-- Each operation succeeds, a resolve with an endpoint.
abbrev pub Succeeds : Completion → Type 0
Succeeds c = (c.error ≡ success) × Resolved c

successes-rank :
    (e : Exchange) (cs : List Completion)
    → All Succeeds cs
    → rank (complete_all e cs).stage ≤ rank e.stage - length cs
unfolding complete_all
successes-rank e [] ok = omega arith
successes-rank e (c ∷ cs) ok =
    omega (arith, success_at e.stage e c refl ok.0.0 ok.0.1, successes-rank (complete e c) cs ok.1)

rank-zero : (s : Stage) → rank s ≡ 0 → (is_end s || in_body s) ≡ true
rank-zero s h = ground arith

rank-bound : (s : Stage) → rank s ≤ 6
rank-bound s = ground arith

-- From any stage, six operations that succeed bring the exchange to its content or to its end; and
-- from any stage, an operation that fails, be it by the end of the stream, is the last one.
pub exchange_ends :
    (e : Exchange) (cs : List Completion) (c : Completion)
    → All Succeeds cs
    → 6 ≤ length cs
    → c.error ≢ success
    → let s = (complete_all e cs).stage in
      ((is_end s || in_body s) ≡ true) × (is_end (complete e c).stage ≡ true)
exchange_ends e cs c ok many bad = (
  rank-zero (complete_all e cs).stage
      (omega (arith, successes-rank e cs ok, rank-bound e.stage, many)),
  error_at e.stage e c refl bad,
)

-- What the end of a session's chain of handlers is to the client: FinishReadContent, or the catch of
-- ThreadLoop.
unfoldable pub settle : ℕ → Stage → HttpClient → HttpClient
settle id (answered response) client = client_step client (finished id response)
settle id (thrown msg was_cancel) client = client_step client (failed id msg was_cancel)
settle id _ client = client

-- A session with a retry left is cancelled. Before the content is read, its callback gets the
-- exception and the request is not sent again. While the content is read, the callback is not called,
-- and the request is queued to be sent again.
pub cancelled_request :
    (e : Exchange) (c : Completion) (client : HttpClient) (id : ℕ) (session : HttpSession)
    → is_end e.stage ≡ false
    → c.error ≡ operation_aborted
    → find id client.active_sessions ≡ some session
    → 0 < session.retry
    → let after = settle id (complete e c).stage client in
      let again : List (ℕ × HttpSession) =
        (id, new_session session.request (session.retry - 1)) ∷ [] in
      (after.queue ≡ client.queue ++ (if in_body e.stage then again else []))
      × (after.callbacks
          ≡ (if in_body e.stage then [] else (id, inr (tcp operation_canceled true)) ∷ [])
            ++ client.callbacks)
unfolding settle client_step session_failed
cancelled_request e c client id session running aborted found left =
    let ends = complete_aborted e c running aborted in
    elim (Bool-cases (in_body e.stage)) [
      | inl body ↦
          rw (ends, body) (rw (session_failed, found, lt→ltb 0 session.retry left) (refl, refl))
      | inr before ↦
          rw (ends, before) (rw (session_failed, found) (sym (append-nil client.queue), refl))
    ]
