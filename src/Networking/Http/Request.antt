-- ===== src/Networking/Http/Request.antt =====
-- src/Networking/Http/HttpRequest.cpp, and CreateRequest and SendRequest of HttpClientMT.cpp. The
-- headers, an std::unordered_map, are printed in the order of the association list.
use customer_print_client.Prelude.{
  ℕ, false, List, [], ◌∷◌, ◌++◌, Option, none, some, Text, codes, text_eq, text_eq_iff,
}
use customer_print_client.Prelude.Dict.{Key, assign}
use customer_print_client.Networking.Http.Definitions.{
  HttpMethod, method_to_string, http_version_1_1, content_length_name, content_type_name,
}
use customer_print_client.Networking.Http.Number.{to_string}
use customer_print_client.Networking.Http.Content.{
  OStream, put, crlf, HttpContent, save, after_save, get_length, get_content_type_string,
}

instance abbrev pub text_key : Key Text
text_key = record { eq = text_eq; eq_iff = text_eq_iff }

abbrev pub ParamMap : Type 0
ParamMap = List (Text × Text)

abbrev pub ParamList : Type 0
ParamList = List (Text × Text)

pub record HttpRequest : Type 0 where
  pub id : ℕ
  pub method : HttpMethod
  pub path : Text
  pub params : ParamList
  pub headers : ParamMap
  pub content : Option HttpContent

-- The constructor; `now` is std::time.
unfoldable pub new_request : ℕ → HttpMethod → Text → ParamList → HttpRequest
new_request now method path params = record {
  id = now;
  method = method;
  path = path;
  params = params;
  headers = [];
  content = none;
}

unfoldable pub add_header : Text → Text → HttpRequest → HttpRequest
add_header name value request = record request { headers = assign name value request.headers }

unfoldable pub set_content : HttpContent → HttpRequest → HttpRequest
unfolding to_string get_length get_content_type_string
set_content content request = record request {
  content = some content;
  headers =
      assign content_type_name (get_content_type_string content)
        (assign content_length_name (to_string (get_length content)) request.headers);
}

-- HttpClientMTImplBase::CreateRequest
unfoldable pub create_request : ℕ → Text → HttpMethod → Text → ParamList → HttpRequest
unfolding new_request add_header
create_request now server_name method path params = add_header (codes "Accept") (codes "*/*") (
    add_header (codes "Connection") (codes "keep-alive")
      (add_header (codes "Host") server_name (new_request now method path params)))

abbrev param_text : Text × Text → Text
param_text (name, value) = name ++ codes "=" ++ value

unfoldable pub more_params : ParamList → Text
more_params [] = []
more_params (p ∷ ps) = codes "&" ++ param_text p ++ more_params ps

unfoldable pub params_text : ParamList → Text
unfolding more_params
params_text [] = []
params_text (p ∷ ps) = codes "?" ++ param_text p ++ more_params ps

unfoldable pub header_text : Text → Text → Text
header_text name value = name ++ codes ": " ++ value

unfoldable pub headers_text : ParamMap → Text
unfolding header_text
headers_text [] = []
headers_text ((name, value) ∷ headers) = header_text name value ++ crlf ++ headers_text headers

unfoldable pub head_text : HttpRequest → Text
unfolding params_text headers_text method_to_string http_version_1_1
head_text request =
    method_to_string request.method
    ++ codes " "
    ++ request.path
    ++ params_text request.params
    ++ codes " "
    ++ http_version_1_1
    ++ crlf
    ++ headers_text request.headers
    ++ crlf

-- operator<< : what is written, and the request with its content read.
unfoldable pub print_request : HttpRequest → OStream → OStream
unfolding head_text put save
print_request request ost = elim request.content [
  | none ↦ put (head_text request) ost
  | some content ↦ save content (put (head_text request) ost)
]

unfoldable pub printed_request : HttpRequest → OStream → HttpRequest
unfolding head_text put after_save
printed_request request ost = record request {
  content = elim request.content [
    | none ↦ none
    | some content ↦ some (after_save content (put (head_text request) ost))
  ];
}

-- SendRequest: the request is printed to the log, then to the write buffer. What the buffer holds:
unfoldable pub send_request : HttpRequest → Text
unfolding print_request printed_request
send_request request =
    (print_request (printed_request request (record { written = []; failed = false }))
      (record { written = []; failed = false })).written
