-- ===== src/Networking/Http/Response.antt =====
-- src/Networking/Http/HttpResponse.cpp, and the handlers of HttpClientMT.cpp that read a response
-- from the session's read buffer: HandleReadStatusLine and HandleReadHeaders.
use customer_print_client.Prelude.{
  ℕ, ◌+◌, ◌-◌, ◌^◌, Bool, ◌||◌, [], ◌∷◌, ◌++◌, ◌⊎◌, inl, inr, Option, none, some, Text, codes,
  text_eq, is_empty, length, drop, ltb, leb, not, ◌==◌, if◌then◌else◌,
}
use customer_print_client.Prelude.Dict.{assign, find}
use customer_print_client.Core.Strings.{take}
use customer_print_client.Networking.Http.Definitions.{
  http_version_1_0, http_version_1_1, content_length_name, content_type_name,
}
use customer_print_client.Networking.Http.Number.{is_space, skip_spaces, extract, to_string}
use customer_print_client.Networking.Http.Content.{crlf}
use customer_print_client.Networking.Http.Request.{text_key, ParamMap, headers_text}

pub record HttpResponse : Type 0 where
  pub http_version : Text
  pub status_code : ℕ
  pub status_message : Text
  pub headers : ParamMap
  pub content : Text

-- static_cast<std::size_t>(-1)
abbrev pub invalid_content_length : ℕ
invalid_content_length = 2 ^ 64 - 1

unfoldable pub get_content_length : HttpResponse → ℕ
unfolding extract
get_content_length response = elim (find content_length_name response.headers) [
  | none ↦ invalid_content_length
  | some value ↦ elim (extract (2 ^ 64) value) [
    | none ↦ invalid_content_length
    | some (n, rest) ↦ n
  ]
]

unfoldable pub get_content_type : HttpResponse → Text
get_content_type response = elim (find content_type_name response.headers) [
  | none ↦ []
  | some value ↦ value
]

-- operator<<
unfoldable pub response_text : HttpResponse → Text
unfolding to_string headers_text
response_text response =
    response.http_version
    ++ codes " "
    ++ to_string response.status_code
    ++ codes " "
    ++ response.status_message
    ++ crlf
    ++ headers_text response.headers
    ++ crlf
    ++ response.content

-- What the reading of a response can throw.
pub data ReadError : Type 0 where
  invalid_http_version : Text → ReadError
  invalid_status_code invalid_status_msg invalid_header response_body_read_failed : ReadError

abbrev pub is_valid_http_version : Text → Bool
is_valid_http_version v = text_eq v http_version_1_1 || text_eq v http_version_1_0

-- `ist >> s` without the skip of spaces: up to the next white space.
unfoldable pub read_token : Text → Text → Text × Text
read_token acc [] = (acc, [])
read_token acc (c ∷ cs) =
    let more = read_token (acc ++ c ∷ []) cs in if is_space c then (acc, c ∷ cs) else more

-- `std::getline(ist, line, '\r')` and `ist.get() != '\n'`; `none` is the test that fails.
unfoldable pub read_line : Text → Text → Option (Text × Text)
read_line acc [] = none
read_line acc (c ∷ []) = none
read_line acc (c ∷ d ∷ cs) =
    let more = read_line (acc ++ c ∷ []) (d ∷ cs) in
    if c == 13 then (if d == 10 then some (acc, cs) else none) else more

-- `ist >> code; ist.get()`, and the test of the stream.
unfoldable pub read_code : Text → Option (ℕ × Text)
unfolding extract
read_code s = elim (extract (2 ^ 32) s) [
  | none ↦ none
  | some (code, []) ↦ none
  | some (code, c ∷ rest) ↦ some (code, rest)
]

pub record StatusLine : Type 0 where
  pub http_version : Text
  pub status_code : ℕ
  pub status_message : Text

unfoldable pub read_status_line : Text → (StatusLine × Text) ⊎ ReadError
unfolding skip_spaces read_token read_code read_line
read_status_line buffer =
    let (version, rest) = read_token [] (skip_spaces buffer) in
    if is_valid_http_version version
    then elim (read_code rest) [
      | none ↦ inr invalid_status_code
      | some (code, rest') ↦ elim (read_line [] rest') [
        | none ↦ inr invalid_status_msg
        | some (msg, rest'') ↦
            inl
              (record { http_version = version; status_code = code; status_message = msg }, rest'')
      ]
    ]
    else inr (invalid_http_version version)

unfoldable pub find_first : (ℕ → Bool) → Text → Option ℕ
find_first test [] = none
find_first test (c ∷ cs) =
    let later = find_first test cs in
    if test c then some 0 else (elim later [ none ↦ none | some i ↦ some (i + 1) ])

abbrev pub is_colon : ℕ → Bool
is_colon c = c == b':'

abbrev not_blank : ℕ → Bool
not_blank c = not (c == b' ')

-- `header.find_first_not_of(' ', pos + 1)` and the value that is taken from there.
unfoldable pub header_value : ℕ → Text → Text
unfolding find_first
header_value pos header = elim (find_first not_blank (drop (pos + 1) header)) [
  | none ↦ []
  | some i ↦ if ltb (pos + 1 + i) (length header - 1) then drop (pos + 1 + i) header else []
]

-- The body of the loop on a header that is not empty.
unfoldable pub store_header : Text → ParamMap → ParamMap
unfolding find_first header_value
store_header header headers = elim (find_first is_colon header) [
  | none ↦ headers
  | some pos ↦ assign (take pos header) (header_value pos header) headers
]

-- The loop of HandleReadHeaders; `acc` is what getline has read of the line so far.
unfoldable pub read_headers : Text → ParamMap → Text → (ParamMap × Text) ⊎ ReadError
unfolding store_header
read_headers acc headers [] = inr invalid_header
read_headers acc headers (c ∷ []) = inr invalid_header
read_headers acc headers (c ∷ d ∷ cs) =
    let same_line = read_headers (acc ++ c ∷ []) headers (d ∷ cs) in
    let next_line = read_headers [] (store_header acc headers) cs in
    if c == 13
    then (if d == 10
        then (if is_empty acc then inl (headers, cs) else next_line)
        else inr invalid_header)
    else same_line

-- How the rest of the response is read: until the end of the stream, from what the buffer holds,
-- or after so many more bytes.
pub data BodyPlan : Type 0 where
  read_all : BodyPlan
  read_from_buffer : BodyPlan
  read_exactly : ℕ → BodyPlan

-- The last part of HandleReadHeaders.
unfoldable pub plan_body : ℕ → ℕ → BodyPlan
plan_body content_length buffered =
    if content_length == invalid_content_length
    then BodyPlan.read_all
    else if leb content_length buffered
    then BodyPlan.read_from_buffer
    else BodyPlan.read_exactly (content_length - buffered)
