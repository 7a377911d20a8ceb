-- ===== src/Networking/Http/Definitions.antt =====
-- src/Networking/Http/HttpDefinitions.h and HttpDefinitions.cpp, and the method names of
-- HttpRequest.cpp.
use customer_print_client.Prelude.{Text, codes}

pub data HttpMethod : Type 0 where
  get post put delete : HttpMethod

pub data ContentType : Type 0 where
  text_plain application_json application_octet_stream : ContentType
  multipart_form_data image_png image_bmp image_jpeg : ContentType

unfoldable pub content_type_to_string : ContentType → Text
content_type_to_string application_json = codes "application/json"
content_type_to_string application_octet_stream = codes "application/octet-stream"
content_type_to_string multipart_form_data = codes "multipart/form-data"
content_type_to_string image_bmp = codes "image/bmp"
content_type_to_string image_png = codes "image/png"
content_type_to_string image_jpeg = codes "image/jpeg"
content_type_to_string text_plain = codes "text/plain"

unfoldable pub method_to_string : HttpMethod → Text
method_to_string get = codes "GET"
method_to_string post = codes "POST"
method_to_string put = codes "PUT"
method_to_string delete = codes "DELETE"

unfoldable pub http_version_1_1 : Text
http_version_1_1 = codes "HTTP/1.1"

unfoldable pub http_version_1_0 : Text
http_version_1_0 = codes "HTTP/1.0"

-- namespace HttpHeaders
unfoldable pub content_length_name : Text
content_length_name = codes "Content-Length"

unfoldable pub content_type_name : Text
content_type_name = codes "Content-Type"

unfoldable pub content_disposition_name : Text
content_disposition_name = codes "Content-Disposition"

unfoldable pub authorization_name : Text
authorization_name = codes "Authorization"
