-- ===== src/Networking/Http/StatusLine.antt =====
-- The status line that HttpResponse.cpp prints, read back by HandleReadStatusLine of
-- src/Networking/Http/HttpClientMT.cpp, and headers of different names, which are read into a map
-- in the order of the text.
use customer_print_client.Prelude.{
  is_some, Bool-cases, &&_iff, ℕ, ◌^◌, ◌<◌, ◌≡◌, refl, sym, ap, ◌∙◌, Bool, true, false, not, ◌&&◌,
  [], ◌∷◌, ◌++◌, inl, inr, some, append-nil, append_assoc, Text, codes, text_eq, text_eq_iff, arith,
}
use customer_print_client.Prelude.Dict.{find, assign}
use customer_print_client.Networking.Http.Definitions.{http_version_1_0, http_version_1_1}
use customer_print_client.Networking.Http.Number.{
  to_string, extract, extract-to_string_then, skip_spaces,
}
use customer_print_client.Networking.Http.Content.{crlf}
use customer_print_client.Networking.Http.Request.{text_key, ParamMap}
use customer_print_client.Networking.Http.Response.{
  HttpResponse, StatusLine, read_token, read_line, read_code, read_status_line,
  is_valid_http_version,
}
use customer_print_client.Networking.Http.Headers.{no_return, assign_all}

-- No two headers have one name.
abbrev other_names : Text → ParamMap → Bool
other_names name [] = true
other_names name ((k, v) ∷ headers) = not (text_eq name k) && other_names name headers

abbrev pub distinct : ParamMap → Bool
distinct [] = true
distinct ((name, v) ∷ headers) = other_names name headers && distinct headers

abbrev absent : ParamMap → ParamMap → Bool
absent [] m = true
absent ((name, v) ∷ headers) m = not (is_some (find name m)) && absent headers m

assign_new :
    (name v : Text) (m : ParamMap)
    → is_some (find name m) ≡ false
    → assign name v m ≡ m ++ (name, v) ∷ []
unfolding find assign
assign_new name v [] h = refl
assign_new name v ((k, w) ∷ m) h = ground (arith, assign_new name v m)

find_behind :
    (name k v : Text) (m : ParamMap)
    → is_some (find name m) ≡ false
    → text_eq k name ≡ false
    → is_some (find name (m ++ (k, v) ∷ [])) ≡ false
unfolding find
find_behind name k v [] h other = ground arith
find_behind name k v ((j, w) ∷ m) h other = ground (arith, find_behind name k v m)

absent_behind :
    (headers m : ParamMap) (k v : Text)
    → absent headers m ≡ true
    → other_names k headers ≡ true
    → absent headers (m ++ (k, v) ∷ []) ≡ true
absent_behind [] m k v h other = refl
absent_behind ((name, w) ∷ headers) m k v h other =
    ground (arith, absent_behind headers m k v, find_behind name k v m)

pub assign_all-append :
    (headers m : ParamMap)
    → distinct headers ≡ true
    → absent headers m ≡ true
    → assign_all headers m ≡ m ++ headers
assign_all-append [] m apart h = sym (append-nil m)
assign_all-append ((name, v) ∷ headers) m apart h =
    let (others, rest) = &&_iff (other_names name headers) (distinct headers) apart in
    ap (assign_all headers) (assign_new name v m (ground arith))
    ∙ assign_all-append headers (m ++ (name, v) ∷ []) rest
        (absent_behind headers m name v (ground arith) others)
    ∙ append_assoc m ((name, v) ∷ []) headers

pub absent_nil : (headers : ParamMap) → absent headers [] ≡ true
unfolding find
absent_nil [] = refl
absent_nil ((name, v) ∷ headers) = absent_nil headers

-- The first line of a printed response.
abbrev pub status_text : HttpResponse → Text
status_text r =
    r.http_version ++ codes " " ++ to_string r.status_code ++ codes " " ++ r.status_message ++ crlf

abbrev pub line_of : HttpResponse → StatusLine
line_of r = record {
  http_version = r.http_version;
  status_code = r.status_code;
  status_message = r.status_message;
}

read_line_then :
    (acc msg rest : Text)
    → no_return msg ≡ true
    → read_line acc (msg ++ 13 ∷ 10 ∷ rest) ≡ some (acc ++ msg, rest)
unfolding read_line
read_line_then acc [] rest ok = ground (arith, append-nil acc)
read_line_then acc (c ∷ []) rest ok = ground (arith, read_line_then (acc ++ c ∷ []) [] rest)
read_line_then acc (c ∷ d ∷ msg) rest ok =
    ground
      (arith, read_line_then (acc ++ c ∷ []) (d ∷ msg) rest, append_assoc acc (c ∷ []) (d ∷ msg))

extract_behind_space : (limit : ℕ) (rest : Text) → extract limit (b' ' ∷ rest) ≡ extract limit rest
unfolding extract skip_spaces
extract_behind_space limit rest = refl

code_parts :
    (s rest : Text) (code c : ℕ)
    → extract (2 ^ 32) s ≡ some (code, c ∷ rest)
    → read_code s ≡ some (code, rest)
unfolding read_code
code_parts s rest code c e = rw (read_code, e) refl

read_code_then :
    (code : ℕ) (rest : Text)
    → code < 2 ^ 32
    → read_code (b' ' ∷ to_string code ++ b' ' ∷ rest) ≡ some (code, rest)
read_code_then code rest h = code_parts (b' ' ∷ to_string code ++ b' ' ∷ rest) rest code b' ' (
    extract_behind_space (2 ^ 32) (to_string code ++ b' ' ∷ rest)
    ∙ extract-to_string_then (2 ^ 32) code b' ' rest h refl)

read_token_version :
    (version rest : Text)
    → is_valid_http_version version ≡ true
    → read_token [] (skip_spaces (version ++ b' ' ∷ rest)) ≡ (version, b' ' ∷ rest)
unfolding read_token skip_spaces http_version_1_0 http_version_1_1
read_token_version version rest ok = elim (Bool-cases (text_eq version http_version_1_1)) [
  | inl e ↦ rw ((text_eq_iff version http_version_1_1).0 e) refl
  | inr e ↦ rw ((text_eq_iff version http_version_1_0).0 (ground arith)) refl
]

line_parts :
    (r : HttpResponse) (buffer rest rest' rest'' : Text)
    → read_token [] (skip_spaces buffer) ≡ (r.http_version, rest)
    → is_valid_http_version r.http_version ≡ true
    → read_code rest ≡ some (r.status_code, rest')
    → read_line [] rest' ≡ some (r.status_message, rest'')
    → read_status_line buffer ≡ inl (line_of r, rest'')
unfolding read_status_line
line_parts r buffer rest rest' rest'' token ok code msg =
    rw token (rw ok (rw code (rw msg (rw token refl))))

-- The status line of a printed response is read back, and what follows it is left.
pub read_status_line-status_text :
    (r : HttpResponse) (rest : Text)
    → is_valid_http_version r.http_version ≡ true
    → r.status_code < 2 ^ 32
    → no_return r.status_message ≡ true
    → read_status_line (status_text r ++ rest) ≡ inl (line_of r, rest)
read_status_line-status_text r rest ok h whole =
    let behind_code : Text = r.status_message ++ 13 ∷ 10 ∷ rest in
    let behind : Text = to_string r.status_code ++ b' ' ∷ behind_code in
    let grouped : status_text r ++ rest ≡ r.http_version ++ b' ' ∷ behind = simp append_assoc in
    ap read_status_line grouped
    ∙ line_parts r (r.http_version ++ b' ' ∷ behind) (b' ' ∷ behind) behind_code rest
        (read_token_version r.http_version behind ok) ok
        (read_code_then r.status_code behind_code h) (read_line_then [] r.status_message rest whole)
