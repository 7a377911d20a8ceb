-- ===== src/Networking/Http/Content.antt =====
-- src/Networking/Http/HttpContent.cpp: the bodies of requests, and the streams that they are
-- written to and read from.
use customer_print_client.Prelude.{
  ℕ, ◌+◌, ◌%◌, ◌^◌, Bool, true, false, List, [], ◌∷◌, ◌++◌, Text, codes, if◌then◌else◌, is_empty,
  length, drop,
}
use customer_print_client.Networking.Http.Definitions.{
  ContentType, application_json, application_octet_stream, multipart_form_data, text_plain,
  content_type_to_string, content_disposition_name, content_type_name,
}

-- An std::istream on a buffer: the bytes and the read position.
pub record IStream : Type 0 where
  pub bytes : Text
  pub pos : ℕ

-- An std::ostream: what was written, and its failbit.
pub record OStream : Type 0 where
  pub written : Text
  pub failed : Bool

abbrev pub fresh : OStream
fresh = record { written = []; failed = false }

-- `ost << text`, which does nothing on a failed stream.
unfoldable pub put : Text → OStream → OStream
put text ost = if ost.failed then ost else record ost { written = ost.written ++ text }

-- `ost << ist.rdbuf()`: the bytes from the position on. Where there are none, it sets failbit.
unfoldable pub put_rdbuf : IStream → OStream → OStream
put_rdbuf ist ost =
    if ost.failed
    then ost
    else if is_empty (drop ist.pos ist.bytes)
    then record ost { failed = true }
    else record ost { written = ost.written ++ drop ist.pos ist.bytes }

abbrev pub read_to_end : IStream → OStream → IStream
read_to_end ist ost = if ost.failed then ist else record ist { pos = length ist.bytes }

-- HttpMultipartFormDataContentImpl::Part
pub record Part : Type 0 where
  pub headers : Text
  pub content : IStream
  pub content_size : ℕ

pub data HttpContent : Type 0 where
  string_content : Text → HttpContent
  json_content : Text → HttpContent
  stream_content : IStream → HttpContent
  multipart_content : List Part → HttpContent

abbrev pub crlf : Text
crlf = 13 ∷ 10 ∷ []

-- m_boundary
unfoldable pub boundary : Text
boundary = codes "------------------------a452714f3cf68d90"

unfoldable pub boundary_line : Text
boundary_line = codes "--" ++ boundary ++ crlf

unfoldable pub closing_line : Text
closing_line = codes "--" ++ boundary ++ codes "--" ++ crlf

abbrev quoted : Text → Text
quoted s = codes "\"" ++ s ++ codes "\""

unfoldable pub build_content_disposition_header : Text → Text → Text
build_content_disposition_header name filename =
    let result = content_disposition_name ++ codes ": form-data; name=" ++ quoted name in
    if is_empty filename then result else result ++ codes "; filename=" ++ quoted filename

-- The two constructors of Part.
unfoldable pub value_part : Text → Text → Part
unfolding build_content_disposition_header
value_part key value = record {
  headers = build_content_disposition_header key [];
  content = record { bytes = value; pos = 0 };
  content_size = length value;
}

unfoldable pub file_part : Text → Text → IStream → ℕ → ContentType → Part
unfolding build_content_disposition_header
file_part key filename content content_size content_type = record {
  headers =
      build_content_disposition_header key filename
      ++ crlf
      ++ content_type_name
      ++ codes ": "
      ++ content_type_to_string content_type;
  content = content;
  content_size = content_size;
}

-- size_t, on the platforms of the program.
abbrev pub size : ℕ → ℕ
size n = n % 2 ^ 64

unfoldable pub calc_size : Part → ℕ
calc_size part = size (length part.headers + 4 + part.content_size)

-- Part::Save, with the stream's position after it.
unfoldable pub save_part : Part → OStream → OStream
unfolding put put_rdbuf
save_part part ost =
    put_rdbuf (record part.content { pos = 0 }) (put (crlf ++ crlf) (put part.headers ost))

unfoldable pub saved_part : Part → OStream → Part
unfolding put
saved_part part ost = record part {
  content = read_to_end (record part.content { pos = 0 }) (put part.headers ost);
}

-- The loop of HttpMultipartFormDataContentImpl::Save.
unfoldable pub save_parts : List Part → OStream → OStream
unfolding save_part put
save_parts [] ost = put closing_line ost
save_parts (part ∷ parts) ost = save_parts parts (put crlf (save_part part (put boundary_line ost)))

unfoldable pub saved_parts : List Part → OStream → List Part
unfolding save_part saved_part put
saved_parts [] ost = []
saved_parts (part ∷ parts) ost =
    saved_part part (put boundary_line ost)
    ∷ saved_parts parts (put crlf (save_part part (put boundary_line ost)))

-- HttpContent::Save. What it writes:
unfoldable pub save : HttpContent → OStream → OStream
unfolding put put_rdbuf save_parts
save (string_content str) ost = put str ost
save (json_content str) ost = put str ost
save (stream_content ist) ost = put_rdbuf ist ost
save (multipart_content []) ost = ost
save (multipart_content (part ∷ parts)) ost = save_parts (part ∷ parts) ost

-- and the content that it leaves, whose streams have been read.
unfoldable pub after_save : HttpContent → OStream → HttpContent
unfolding saved_parts
after_save (string_content str) ost = string_content str
after_save (json_content str) ost = json_content str
after_save (stream_content ist) ost = stream_content (read_to_end ist ost)
after_save (multipart_content parts) ost = multipart_content (saved_parts parts ost)

-- The loop of HttpMultipartFormDataContentImpl::GetLength.
unfoldable pub length_of_parts : ℕ → List Part → ℕ
unfolding calc_size
length_of_parts result [] = size (result + (length boundary + 6))
length_of_parts result (part ∷ parts) =
    length_of_parts (size (result + (length boundary + 4 + calc_size part + 2))) parts

-- GetLength: for a stream the position of its end, wherever it is read from.
unfoldable pub get_length : HttpContent → ℕ
unfolding length_of_parts
get_length (string_content str) = length str
get_length (json_content str) = length str
get_length (stream_content ist) = length ist.bytes
get_length (multipart_content []) = 0
get_length (multipart_content (part ∷ parts)) = length_of_parts 0 (part ∷ parts)

unfoldable pub get_content_type_string : HttpContent → Text
unfolding content_type_to_string
get_content_type_string (string_content str) = content_type_to_string text_plain
get_content_type_string (json_content str) = content_type_to_string application_json
get_content_type_string (stream_content ist) = content_type_to_string application_octet_stream
get_content_type_string (multipart_content parts) =
    content_type_to_string multipart_form_data ++ codes "; boundary=" ++ boundary

unfoldable pub add_value : Text → Text → List Part → List Part
unfolding value_part
add_value key value parts = parts ++ value_part key value ∷ []

unfoldable pub add_file : Text → Text → IStream → ℕ → ContentType → List Part → List Part
unfolding file_part
add_file key filename content content_size content_type parts =
    parts ++ file_part key filename content content_size content_type ∷ []
