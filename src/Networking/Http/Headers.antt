-- ===== src/Networking/Http/Headers.antt =====
-- Reading back what was printed: the headers of HttpClientMT.cpp's HandleReadHeaders against the
-- printing of src/Networking/Http/HttpRequest.cpp and HttpResponse.cpp.
use customer_print_client.Prelude.{
  text_eq_iff, not, ◌&&◌, ==_iff, ℕ, zero, suc, ◌+◌, ◌^◌, ◌<◌, ◌≡◌, ◌≢◌, refl, sym, ap, ◌∙◌, Bool,
  true, false, [], ◌∷◌, ◌++◌, inl, inr, none, some, append-nil, append_assoc, Text, codes, arith,
  ◌==◌, ltb, if◌then◌else◌, is_empty, length, length-append, drop, Bool-cases,
}
use customer_print_client.Prelude.Dict.{find, assign, find-assign}
use customer_print_client.Core.Strings.{take}
use customer_print_client.Networking.Http.Definitions.{content_length_name}
use customer_print_client.Networking.Http.Number.{
  to_string, to_string_digits, skip_spaces, read_signed, extract, extract-to_string,
}
use customer_print_client.Networking.Http.Content.{crlf}
use customer_print_client.Networking.Http.Request.{text_key, ParamMap, header_text, headers_text}
use customer_print_client.Networking.Http.Response.{
  HttpResponse, invalid_content_length, get_content_length, find_first, is_colon, header_value,
  store_header, read_headers,
}

-- A name has neither a colon nor a carriage return.
abbrev pub name_ok : Text → Bool
name_ok [] = true
name_ok (c ∷ cs) = not (c == b':') && not (c == 13) && name_ok cs

abbrev pub no_return : Text → Bool
no_return [] = true
no_return (c ∷ cs) = not (c == 13) && no_return cs

-- A value has two characters or more, no carriage return, and no space in front.
abbrev pub value_ok : Text → Bool
value_ok [] = false
value_ok (c ∷ []) = false
value_ok (c ∷ d ∷ cs) = not (c == b' ') && no_return (c ∷ d ∷ cs)

find_colon :
    (name rest : Text)
    → name_ok name ≡ true
    → find_first is_colon (name ++ b':' ∷ rest) ≡ some (length name)
unfolding find_first
find_colon [] rest ok = refl
find_colon (c ∷ name) rest ok = ground (arith, find_colon name rest)

take-append : (name rest : Text) → take (length name) (name ++ rest) ≡ name
unfolding take
take-append [] [] = refl
take-append [] (c ∷ rest) = refl
take-append (c ∷ name) rest = ap (λ s. c ∷ s) (take-append name rest)

drop_at : (name rest : Text) (n k : ℕ) → k ≡ length name + n → drop k (name ++ rest) ≡ drop n rest
drop_at [] rest n k e = ap (λ i. drop i rest) (omega (arith, e))
drop_at (c ∷ name) rest n zero e = absurd (omega (arith, e))
drop_at (c ∷ name) rest n (suc k) e = drop_at name rest n k (omega (arith, e))

-- The value that is taken behind the colon and a space.
header_value_text :
    (name : Text) (c : ℕ) (cs : Text)
    → c ≢ b' '
    → header_value (length name) (name ++ b':' ∷ b' ' ∷ c ∷ cs)
      ≡ (if is_empty cs then [] else c ∷ cs)
unfolding header_value find_first
header_value_text name c cs h =
    let header : Text = name ++ b':' ∷ b' ' ∷ c ∷ cs in
    let behind : drop (length name + 1) header ≡ b' ' ∷ c ∷ cs =
      drop_at name (b':' ∷ b' ' ∷ c ∷ cs) 1 (length name + 1) (omega arith) in
    let counted = length-append name (b':' ∷ b' ' ∷ c ∷ cs) in
    let value : drop (length name + 1 + 1) header ≡ c ∷ cs =
      drop_at name (b':' ∷ b' ' ∷ c ∷ cs) 2 (length name + 1 + 1) (omega arith) in
    rw (behind, header_value) (ground (arith, value, counted, ==_iff c b' '))

store_at :
    (header : Text) (pos : ℕ) (headers : ParamMap)
    → find_first is_colon header ≡ some pos
    → store_header header headers ≡ assign (take pos header) (header_value pos header) headers
unfolding store_header
store_at header pos headers e = rw (e, store_header) refl

-- A name without a colon and a carriage return and a value that is not empty and has no space in
-- front, parted by a colon and a space, are stored as they are if the value has two characters or
-- more. Of a value of one character, nothing is stored: the name gets the empty value.
pub store_printed_header :
    (name : Text) (c : ℕ) (cs : Text) (headers : ParamMap)
    → name_ok name ≡ true
    → c ≢ b' '
    → store_header (header_text name (c ∷ cs)) headers
      ≡ assign name (if is_empty cs then [] else c ∷ cs) headers
unfolding store_header header_text
store_printed_header name c cs headers ok h =
    ap (λ header. store_header header headers) (append_assoc name (codes ": ") (c ∷ cs))
    ∙ store_at (name ++ b':' ∷ b' ' ∷ c ∷ cs) (length name) headers
        (find_colon name (b' ' ∷ c ∷ cs) ok)
    ∙ ap (λ n. assign n (header_value (length name) (name ++ b':' ∷ b' ' ∷ c ∷ cs)) headers)
        (take-append name (b':' ∷ b' ' ∷ c ∷ cs))
    ∙ ap (λ v. assign name v headers) (header_value_text name c cs h)

-- What a Content-Length that is there is worth.
abbrev pub length_of_value : Text → ℕ
length_of_value value = elim (extract (2 ^ 64) value) [
  | none ↦ invalid_content_length
  | some (n, rest) ↦ n
]

length_of_nothing : length_of_value [] ≡ invalid_content_length
unfolding extract skip_spaces read_signed
length_of_nothing = refl

pub length_of_number :
    (s rest : Text) (n : ℕ) → extract (2 ^ 64) s ≡ some (n, rest) → length_of_value s ≡ n
length_of_number s rest n e = rw (e, length_of_value) refl

pub get_content_length-find :
    (response : HttpResponse) (value : Text)
    → find content_length_name response.headers ≡ some value
    → get_content_length response ≡ length_of_value value
unfolding get_content_length
get_content_length-find response value e = rw (e, get_content_length) refl

length_of_digits :
    (n c : ℕ) (cs : Text)
    → n < 2 ^ 64
    → to_string n ≡ c ∷ cs
    → is_empty cs ≡ ltb n 10
    → length_of_value (if is_empty cs then [] else c ∷ cs)
      ≡ (if ltb n 10 then invalid_content_length else n)
length_of_digits n c cs h e short = elim (Bool-cases (ltb n 10)) [
  | inl small ↦ rw (short, small) length_of_nothing
  | inr large ↦
      rw (short, large)
        (length_of_number (c ∷ cs) [] n
          (ap (extract (2 ^ 64)) (sym e) ∙ extract-to_string (2 ^ 64) n h))
]

-- A response whose Content-Length was read from a printed header, of a length below 2 ^ 64, has that
-- length if it has two digits or more. A length of one digit is lost: the response counts as one
-- without a length.
pub get_content_length-store_header :
    (response : HttpResponse) (headers : ParamMap) (n : ℕ)
    → n < 2 ^ 64
    → response.headers ≡ store_header (header_text content_length_name (to_string n)) headers
    → get_content_length response ≡ (if ltb n 10 then invalid_content_length else n)
get_content_length-store_header response headers n h e =
    let (c, cs, digits, lo, short) = to_string_digits n in
    let value : Text = if is_empty cs then [] else c ∷ cs in
    let named : name_ok content_length_name ≡ true = unfold content_length_name in refl in
    let stored : response.headers ≡ assign content_length_name value headers =
      e
      ∙ ap (λ s. store_header (header_text content_length_name s) headers) digits
      ∙ store_printed_header content_length_name c cs headers named (omega (arith, lo)) in
    let found : find content_length_name response.headers ≡ some value =
      ap (find content_length_name) stored
      ∙ find-assign content_length_name content_length_name value headers
      ∙ rw ((text_eq_iff content_length_name content_length_name).1 refl) refl in
    get_content_length-find response value found ∙ length_of_digits n c cs h digits short

-- Reading up to the end of a line that has no carriage return.
read_line_text :
    (acc line : Text) (headers : ParamMap) (rest : Text)
    → no_return line ≡ true
    → is_empty (acc ++ line) ≡ false
    → read_headers acc headers (line ++ 13 ∷ 10 ∷ rest)
      ≡ read_headers [] (store_header (acc ++ line) headers) rest
unfolding read_headers
read_line_text acc [] headers rest ok ne = ground (arith, append-nil acc)
read_line_text acc (c ∷ []) headers rest ok ne = ground arith
read_line_text acc (c ∷ d ∷ line) headers rest ok ne = ground (
  arith,
  read_line_text (acc ++ c ∷ []) (d ∷ line) headers rest,
  append_assoc acc (c ∷ []) (d ∷ line),
)

abbrev pub pairs_ok : ParamMap → Bool
pairs_ok [] = true
pairs_ok ((name, value) ∷ headers) = name_ok name && value_ok value && pairs_ok headers

-- Assigning one after the other.
abbrev pub assign_all : ParamMap → ParamMap → ParamMap
assign_all [] m = m
assign_all ((name, value) ∷ headers) m = assign_all headers (assign name value m)

no_return-name :
    (name rest : Text)
    → name_ok name ≡ true
    → no_return rest ≡ true
    → no_return (name ++ rest) ≡ true
no_return-name [] rest ok h = h
no_return-name (c ∷ name) rest ok h = ground (arith, no_return-name name rest)

no_return-header :
    (name value : Text)
    → name_ok name ≡ true
    → no_return value ≡ true
    → no_return (header_text name value) ≡ true
unfolding header_text
no_return-header name value ok h =
    ap no_return (append_assoc name (codes ": ") value)
    ∙ no_return-name name (b':' ∷ b' ' ∷ value) ok (ground arith)

header-nonempty : (name value : Text) → is_empty (header_text name value) ≡ false
unfolding header_text
header-nonempty [] value = refl
header-nonempty (c ∷ name) value = refl

-- Headers that were printed, with a line break behind them, are read back into the map, if each
-- name has no colon and no carriage return and each value has two characters or more, no carriage
-- return and no space in front. The reading stops behind the empty line, before the body.
pub read_headers-headers_text :
    (headers m : ParamMap) (body : Text)
    → pairs_ok headers ≡ true
    → read_headers [] m (headers_text headers ++ crlf ++ body) ≡ inl (assign_all headers m, body)
unfolding headers_text
read_headers-headers_text [] m body ok = unfold read_headers in refl
read_headers-headers_text ((name, []) ∷ headers) m body ok = ground arith
read_headers-headers_text ((name, c ∷ []) ∷ headers) m body ok = ground arith
read_headers-headers_text ((name, c ∷ d ∷ cs) ∷ headers) m body ok =
    let line : Text = header_text name (c ∷ d ∷ cs) in
    let after : Text = headers_text headers ++ crlf ++ body in
    let stored : store_header line m ≡ assign name (c ∷ d ∷ cs) m =
      store_printed_header name c (d ∷ cs) m (ground arith) (ground arith) in
    let grouped : line ++ crlf ++ headers_text headers ++ crlf ++ body ≡ line ++ (crlf ++ after) =
      simp append_assoc in
    let whole : no_return line ≡ true =
      no_return-header name (c ∷ d ∷ cs) (ground arith) (ground arith) in
    ap (read_headers [] m) grouped
    ∙ read_line_text [] line m after whole (header-nonempty name (c ∷ d ∷ cs))
    ∙ ap (λ m'. read_headers [] m' after) stored
    ∙ read_headers-headers_text headers (assign name (c ∷ d ∷ cs) m) body (ground arith)
