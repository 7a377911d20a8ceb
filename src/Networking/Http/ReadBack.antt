-- ===== src/Networking/Http/ReadBack.antt =====
-- A whole reply that HttpResponse.cpp prints, read by the handlers of HttpClientMT.cpp, however the
-- network cuts it into pieces.
use customer_print_client.Networking.Http.StatusLine.{
  distinct, assign_all-append, absent_nil, status_text, line_of, read_status_line-status_text,
}
use customer_print_client.Prelude.{
  Bool-cases, ◌+◌, ◌^◌, ◌<◌, ◌-◌, ◌≡◌, refl, ap, ◌∙◌, true, false, Bool, List, [], ◌∷◌, ◌++◌, inl,
  inr, none, some, append-nil, append_assoc, Text, arith, leb, length, length-append,
}
use customer_print_client.Prelude.Dict.{find}
use customer_print_client.Networking.Http.Definitions.{content_length_name}
use customer_print_client.Networking.Http.Number.{to_string, extract-to_string}
use customer_print_client.Networking.Http.Content.{crlf}
use customer_print_client.Networking.Http.Request.{text_key, ParamMap, header_text, headers_text}
use customer_print_client.Networking.Http.Response.{
  HttpResponse, get_content_length, is_valid_http_version, plan_body,
}
use customer_print_client.Networking.Http.Headers.{
  no_return, pairs_ok, read_headers-headers_text, get_content_length-find, length_of_number,
}
use customer_print_client.Networking.Http.Exchange.{
  success, eof, Completion, Stage, sending, answered, Exchange, response_of, throw_if_error,
  handle_send_request, parse_status_line, handle_read_status_line, take_content,
  handle_read_content_by_length, read_content, parse_headers, starts_blank, has_blank_line,
  read_until_blank_line, handle_read_headers, handle_read_content_all, complete, complete_all,
}

-- A completed operation that has read these bytes.
abbrev pub got : Text → Completion
got bytes = record {
  error = success;
  message = [];
  received = bytes;
  results = [];
  address = [];
  port = 0;
}

-- The peer has closed the connection.
abbrev pub ended : Completion
ended = record (got []) { error = eof }

abbrev pub with_buffer : Text → Exchange → Exchange
with_buffer buffer e = record e { read_buffer = buffer }

abbrev has_header : ParamMap → Bool
has_header [] = false
has_header _ = true

-- What the reading asks of a reply: a known version, a code of 32 bits, a message on its line, and one
-- header or more, of different names that the printing keeps apart, whose values have two characters
-- or more (a value of one is lost).
abbrev pub ReplyOk : HttpResponse → Type 0
ReplyOk r =
    (is_valid_http_version r.http_version ≡ true)
    × (r.status_code < 2 ^ 32)
    × (no_return r.status_message ≡ true)
    × (pairs_ok r.headers ≡ true)
    × (distinct r.headers ≡ true)
    × (has_header r.headers ≡ true)

parse_status_line-status_text :
    (r : HttpResponse) (e : Exchange) (rest : Text)
    → ReplyOk r
    → e.read_buffer ≡ status_text r ++ rest
    → parse_status_line e
      ≡ record e { stage = Stage.reading_headers (line_of r); read_buffer = rest }
unfolding parse_status_line
parse_status_line-status_text r e rest (ok, h, whole, _, _, _) buffer =
    rw (parse_status_line, buffer, read_status_line-status_text r rest ok h whole) refl

parse_headers-headers_text :
    (r : HttpResponse) (e : Exchange) (body : Text)
    → ReplyOk r
    → e.read_buffer ≡ headers_text r.headers ++ crlf ++ body
    → parse_headers (line_of r) e
      ≡ read_content (response_of (line_of r) r.headers) (with_buffer body e)
unfolding parse_headers
parse_headers-headers_text r e body (_, _, _, pairs, apart, _) buffer =
    let read = read_headers-headers_text r.headers [] body pairs in
    let same = assign_all-append r.headers [] apart (absent_nil r.headers) in
    rw (buffer, parse_headers, read, same) refl

blank_line_behind : (x body : Text) → has_blank_line (x ++ (crlf ++ (crlf ++ body))) ≡ true
unfolding has_blank_line starts_blank
blank_line_behind [] body = refl
blank_line_behind (c ∷ x) body = ground (arith, blank_line_behind x body)

blank_line_further : (x y : Text) → has_blank_line y ≡ true → has_blank_line (x ++ y) ≡ true
unfolding has_blank_line
blank_line_further [] y h = h
blank_line_further (c ∷ x) y h = ground (arith, blank_line_further x y h)

-- The text of one header stands in front of the rest.
front : (x t body : Text) → x ++ t ++ crlf ++ body ≡ x ++ (t ++ crlf ++ body)
front x t body = ap (λ y. y ++ body) (append_assoc x t crlf) ∙ append_assoc x (t ++ crlf) body

-- The headers, if there are any, end in a blank line.
blank_line-headers_text :
    (headers : ParamMap) (body : Text)
    → has_header headers ≡ true
    → has_blank_line (headers_text headers ++ crlf ++ body) ≡ true
unfolding headers_text
blank_line-headers_text [] body h = ground arith
blank_line-headers_text ((name, value) ∷ []) body h =
    let line : Text = header_text name value in
    ap has_blank_line (front (line ++ crlf) [] body ∙ append_assoc line crlf (crlf ++ body))
    ∙ blank_line_behind line body
blank_line-headers_text ((name, value) ∷ (header ∷ headers)) body h =
    let line : Text = header_text name value in
    let rest : Text = headers_text (header ∷ headers) in
    ap has_blank_line (front (line ++ crlf) rest body)
    ∙ blank_line_further (line ++ crlf) (rest ++ crlf ++ body)
        (blank_line-headers_text (header ∷ headers) body refl)

-- The chain from the sent request to the reading of the body.
head_read :
    (r : HttpResponse) (e : Exchange) (u t body : Text)
    → ReplyOk r
    → e.stage ≡ sending
    → e.read_buffer ≡ []
    → u ++ t ≡ headers_text r.headers ++ crlf ++ body
    → (rest : List Completion)
    → complete_all e (got [] ∷ got (status_text r ++ u) ∷ got t ∷ rest)
      ≡ complete_all
          (read_content
            (response_of (line_of r) r.headers)
            (record e { stage = Stage.reading_headers (line_of r); read_buffer = body }))
          rest
unfolding complete_all complete handle_send_request throw_if_error handle_read_status_line
    handle_read_headers read_until_blank_line
head_read r e u t body ok stage empty cut rest =
    let found : has_blank_line (u ++ t) ≡ true =
      ap has_blank_line cut ∙ blank_line-headers_text r.headers body ok.5 in
    rw (stage, empty)
      (rw
        (parse_status_line-status_text r
          (record e { stage = Stage.reading_status_line; read_buffer = status_text r ++ u }) u ok
          refl)
        (rw found (
          ap (λ e. complete_all e rest)
            (parse_headers-headers_text r
              (record e { stage = Stage.reading_headers (line_of r); read_buffer = u ++ t }) body ok
              cut))))

announced :
    (r : HttpResponse)
    → find content_length_name r.headers ≡ some (to_string (length r.content))
    → length r.content < 2 ^ 64 - 1
    → get_content_length (response_of (line_of r) r.headers) ≡ length r.content
announced r found h =
    let n = length r.content in
    get_content_length-find (response_of (line_of r) r.headers) (to_string n) found
    ∙ length_of_number (to_string n) [] n (extract-to_string (2 ^ 64) n (omega (arith, h)))

nothing_left : (t : Text) → length t ≡ 0 → t ≡ []
nothing_left [] h = refl
nothing_left (c ∷ t) h = absurd (omega (arith, h))

-- The body is in the buffer already, or the next operation completes it.
body_read :
    (r : HttpResponse) (e : Exchange) (t : Text)
    → r.content ≡ []
    → get_content_length r < 2 ^ 64 - 1
    → length e.read_buffer + length t ≡ get_content_length r
    → (complete (read_content r e) (got t)).stage
      ≡ answered (record r { content = e.read_buffer ++ t })
unfolding read_content plan_body handle_read_content_by_length take_content complete
body_read r e t empty h counted =
    elim (Bool-cases (leb (get_content_length r) (length e.read_buffer))) [
      | inl there ↦ rw (nothing_left t (ground arith)) (ground (arith, append-nil e.read_buffer))
      | inr waits ↦ ground (arith, length-append e.read_buffer t)
    ]

-- A reply that HttpResponse prints, with different header names and with header values of two
-- characters or more that the reading can tell, and with its length, of two digits or more and below
-- 2 ^ 64 - 1, as Content-Length, is answered as it was sent: behind a sent request,
-- the status line with some of the rest comes first, then what completes the headers, then what
-- completes the content, wherever the cuts are.
pub reply_read_back :
    (r : HttpResponse) (e : Exchange) (u t body t' : Text)
    → ReplyOk r
    → find content_length_name r.headers ≡ some (to_string (length r.content))
    → length r.content < 2 ^ 64 - 1
    → e.stage ≡ sending
    → e.read_buffer ≡ []
    → u ++ t ≡ headers_text r.headers ++ crlf ++ body
    → body ++ t' ≡ r.content
    → (complete_all e (got [] ∷ got (status_text r ++ u) ∷ got t ∷ got t' ∷ [])).stage ≡ answered r
reply_read_back r e u t body t' ok found h stage empty cut cut' =
    let bare = response_of (line_of r) r.headers in
    let at_body : Exchange = record e {
      stage = Stage.reading_headers (line_of r);
      read_buffer = body;
    } in
    let length_is : get_content_length bare ≡ length r.content = announced r found h in
    let counted = length-append body t' in
    let whole : length (body ++ t') ≡ length r.content = ap length cut' in
    let read : (complete (read_content bare at_body) (got t')).stage
        ≡ answered (record bare { content = body ++ t' }) =
      body_read bare at_body t' refl (omega (arith, length_is, h))
        (omega (arith, length_is, counted, whole)) in
    let last : (complete_all (read_content bare at_body) (got t' ∷ [])).stage
        ≡ answered (record bare { content = body ++ t' }) =
      unfold complete_all in read in
    ap (λ e. e.stage) (head_read r e u t body ok stage empty cut (got t' ∷ []))
    ∙ last
    ∙ ap (λ content. answered (record bare { content = content })) cut'

abbrev pub join : List Text → Text
join [] = []
join (t ∷ ts) = t ++ join ts

abbrev pub pieces : List Text → List Completion
pieces [] = ended ∷ []
pieces (t ∷ ts) = got t ∷ pieces ts

-- Without a length the content is what comes until the peer closes the connection.
all_read :
    (r : HttpResponse) (e : Exchange) (ts : List Text)
    → r.content ≡ []
    → e.stage ≡ Stage.reading_all r
    → (complete_all e (pieces ts)).stage
      ≡ answered (record r { content = e.read_buffer ++ join ts })
unfolding complete_all complete handle_read_content_all take_content
all_read r e [] empty stage = rw (stage, empty) refl
all_read r e (t ∷ ts) empty stage = rw stage (
    all_read r (record e { stage = Stage.reading_all r; read_buffer = e.read_buffer ++ t }) ts empty
      refl
    ∙ ap (λ content. answered (record r { content = content }))
        (append_assoc e.read_buffer t (join ts)))

unannounced :
    (r : HttpResponse) (e : Exchange)
    → find content_length_name r.headers ≡ none
    → read_content r e ≡ record e { stage = Stage.reading_all r }
unfolding read_content get_content_length plan_body
unannounced r e missing = rw (read_content, get_content_length, missing) refl

-- A reply with one header or more but without a Content-Length, printed with different header names and
-- with values of two characters or more that the reading can tell, is answered as it was sent once the peer closes the connection, in however many pieces it came.
pub reply_read_to_end :
    (r : HttpResponse) (e : Exchange) (u t body : Text) (ts : List Text)
    → ReplyOk r
    → find content_length_name r.headers ≡ none
    → e.stage ≡ sending
    → e.read_buffer ≡ []
    → u ++ t ≡ headers_text r.headers ++ crlf ++ body
    → body ++ join ts ≡ r.content
    → (complete_all e (got [] ∷ got (status_text r ++ u) ∷ got t ∷ pieces ts)).stage ≡ answered r
reply_read_to_end r e u t body ts ok missing stage empty cut cut' =
    let bare = response_of (line_of r) r.headers in
    let at_body : Exchange = record e {
      stage = Stage.reading_headers (line_of r);
      read_buffer = body;
    } in
    let plan = unannounced bare at_body missing in
    ap (λ e. e.stage)
      (head_read r e u t body ok stage empty cut (pieces ts)
        ∙ ap (λ e. complete_all e (pieces ts)) plan)
    ∙ all_read bare (record at_body { stage = Stage.reading_all bare }) ts refl refl
    ∙ ap (λ content. answered (record bare { content = content })) cut'
