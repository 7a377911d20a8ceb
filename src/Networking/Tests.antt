-- ===== src/Networking/Tests.antt =====
-- Concrete runs of src/Networking/Http.
use customer_print_client.Prelude.{
  ℕ, ◌≤◌, ◌≡◌, refl, true, false, List, [], ◌∷◌, arith, codes, length,
}
use customer_print_client.Networking.Http.Definitions.{get, content_length_name}
use customer_print_client.Networking.Http.Number.{to_string}
use customer_print_client.Networking.Http.Content.{
  IStream, HttpContent, stream_content, boundary, boundary_line, closing_line, multipart_content,
  Part, fresh, save, after_save, get_length,
}
use customer_print_client.Networking.Http.Framing.{
  content_text, save_announced, stream_not_written_again,
}
use customer_print_client.Networking.Http.Request.{
  text_key, ParamMap, header_text, HttpRequest, new_request,
}
use customer_print_client.Networking.Http.Response.{
  HttpResponse, invalid_content_length, get_content_length, store_header,
}
use customer_print_client.Networking.Http.Headers.{get_content_length-store_header}
use customer_print_client.Networking.Http.Client.{
  ClientEvent, posted, started, finished, failed, new_client, client_run,
}
use customer_print_client.Networking.Http.Sessions.{posts, places, pool_bounded, no_request_lost}

abbrev bytes : IStream
bytes = record { bytes = 1 ∷ 2 ∷ 3 ∷ []; pos = 0 }

abbrev page_part : Part
page_part = record { headers = codes "name"; content = bytes; content_size = 3 }

abbrev page_content : HttpContent
page_content = multipart_content (page_part ∷ [])

page_length : length (content_text page_content) ≡ 103
unfolding boundary boundary_line closing_line
page_length = refl

save_announced_example :
    (save page_content fresh ≡ record { written = content_text page_content; failed = false })
    × (get_length page_content ≡ length (content_text page_content))
save_announced_example =
    save_announced page_content [] (((λ e. cc), refl), tt) (omega (arith, page_length))

stream_not_written_again_example :
    ((save (after_save (stream_content bytes) fresh) fresh).written ≡ [])
    × ((save (after_save (stream_content bytes) fresh) fresh).failed ≡ true)
stream_not_written_again_example = stream_not_written_again bytes [] []

abbrev no_headers : ParamMap
no_headers = []

-- A response of five bytes.
abbrev five : HttpResponse
five = record {
  http_version = codes "HTTP/1.1";
  status_code = 200;
  status_message = codes "OK";
  headers = store_header (header_text content_length_name (to_string 5)) no_headers;
  content = [];
}

get_content_length-store_header_example : get_content_length five ≡ invalid_content_length
get_content_length-store_header_example =
    get_content_length-store_header five no_headers 5 (omega arith) refl

abbrev two_headers : ParamMap
two_headers = (codes "Age", codes "10") ∷ (codes "Via", codes "a b") ∷ []

abbrev first_request : HttpRequest
first_request = new_request 7 get (codes "/a") []

abbrev tried_again : List ClientEvent
tried_again =
    posted first_request ∷ started ∷ failed 7 (codes "reset") false ∷ started ∷ finished 7 five ∷ []

pool_bounded_example : length (client_run (new_client 2) tried_again).socket_pool ≤ 2
pool_bounded_example = pool_bounded 2 tried_again (omega arith)

one_post : (k : ℕ) → posts k tried_again ≤ 1
unfolding posts new_request
one_post k = ground arith

no_request_lost_example : places 7 (client_run (new_client 2) tried_again) ≡ posts 7 tried_again
no_request_lost_example = no_request_lost 2 tried_again one_post 7
