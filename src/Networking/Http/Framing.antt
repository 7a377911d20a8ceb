-- ===== src/Networking/Http/Framing.antt =====
-- The length that HttpContent::GetLength of src/Networking/Http/HttpContent.cpp announces, against
-- the bytes that Save writes.
use customer_print_client.Prelude.{
  Bool-cases, inl, inr, ℕ, ◌+◌, ◌^◌, ◌<◌, ◌≡◌, ◌≢◌, refl, sym, ap, ◌∙◌, true, false, List, [], ◌∷◌,
  ◌++◌, append-nil, append_assoc, Text, arith, is_empty, length, length-append, drop, All,
}
use customer_print_client.Networking.Http.Content.{
  IStream, OStream, put, put_rdbuf, Part, HttpContent, string_content, json_content, stream_content,
  multipart_content, crlf, boundary, boundary_line, size, closing_line, calc_size, save_part,
  saved_part, save_parts, saved_parts, save, after_save, length_of_parts, get_length,
}

-- The part's stream is not empty and has the size that was given with it.
abbrev pub PartOk : Part → Type 0
PartOk part = (part.content.bytes ≢ []) × (part.content_size ≡ length part.content.bytes)

-- A stream is at its start, and neither it nor a part is empty.
abbrev pub ContentOk : HttpContent → Type 0
ContentOk (string_content str) = Unit
ContentOk (json_content str) = Unit
ContentOk (stream_content ist) = (ist.pos ≡ 0) × (ist.bytes ≢ [])
ContentOk (multipart_content parts) = All PartOk parts

drop_all : (s : Text) → drop (length s) s ≡ []
drop_all [] = refl
drop_all (c ∷ cs) = drop_all cs

-- What a part and a list of parts look like on the wire.
abbrev pub part_text : Part → Text
part_text part = part.headers ++ (crlf ++ crlf) ++ part.content.bytes

abbrev pub parts_text : List Part → Text
parts_text [] = closing_line
parts_text (part ∷ parts) = boundary_line ++ part_text part ++ crlf ++ parts_text parts

abbrev pub content_text : HttpContent → Text
content_text (string_content str) = str
content_text (json_content str) = str
content_text (stream_content ist) = ist.bytes
content_text (multipart_content []) = []
content_text (multipart_content (part ∷ parts)) = parts_text (part ∷ parts)

abbrev good : Text → OStream
good t = record { written = t; failed = false }

nonempty : (s : Text) → s ≢ [] → is_empty s ≡ false
nonempty [] h = absurd (h refl)
nonempty (c ∷ cs) h = refl

save_part_text :
    (part : Part) (t : Text) → PartOk part → save_part part (good t) ≡ good (t ++ part_text part)
unfolding save_part put put_rdbuf
save_part_text part t ok = rw (nonempty part.content.bytes ok.0) (simp append_assoc)

regroup : (t b p c r : Text) → t ++ b ++ p ++ c ++ r ≡ t ++ (b ++ p ++ c ++ r)
regroup t b p c r = simp append_assoc

save_parts_text :
    (parts : List Part) (t : Text)
    → All PartOk parts
    → save_parts parts (good t) ≡ good (t ++ parts_text parts)
unfolding save_parts put
save_parts_text [] t ok = refl
save_parts_text (part ∷ parts) t ok =
    ap (λ o. save_parts parts (put crlf o)) (save_part_text part (t ++ boundary_line) ok.0)
    ∙ save_parts_text parts (t ++ boundary_line ++ part_text part ++ crlf) ok.1
    ∙ ap good (regroup t boundary_line (part_text part) crlf (parts_text parts))

-- A sound content is written out in full, after what the stream has.
save_text :
    (c : HttpContent) (t : Text) → ContentOk c → save c (good t) ≡ good (t ++ content_text c)
unfolding save put put_rdbuf
save_text (string_content str) t ok = refl
save_text (json_content str) t ok = refl
save_text (stream_content ist) t ok = rw (ok.0) (rw (nonempty ist.bytes ok.1) refl)
save_text (multipart_content []) t ok = ap good (sym (append-nil t))
save_text (multipart_content (part ∷ parts)) t ok = save_parts_text (part ∷ parts) t ok

length-boundary : length boundary ≡ 40
unfolding boundary
length-boundary = refl

length-boundary_line : length boundary_line ≡ 44
unfolding boundary_line boundary
length-boundary_line = refl

length-closing_line : length closing_line ≡ 46
unfolding closing_line boundary
length-closing_line = refl

length-part_text :
    (part : Part) → length (part_text part) ≡ length part.headers + 4 + length part.content.bytes
length-part_text part = omega (
  arith,
  length-append (part.headers ++ (crlf ++ crlf)) part.content.bytes,
  length-append part.headers (crlf ++ crlf),
)

length-parts_text :
    (part : Part) (parts : List Part)
    → length (parts_text (part ∷ parts))
      ≡ 44 + length (part_text part) + 2 + length (parts_text parts)
length-parts_text part parts = omega (
  arith,
  length-append (boundary_line ++ part_text part ++ crlf) (parts_text parts),
  length-append (boundary_line ++ part_text part) crlf,
  length-append boundary_line (part_text part),
  length-boundary_line,
)

length_of_parts-length :
    (parts : List Part) (n : ℕ)
    → All PartOk parts
    → n + length (parts_text parts) < 2 ^ 64
    → length_of_parts n parts ≡ n + length (parts_text parts)
unfolding length_of_parts calc_size
length_of_parts-length [] n ok h = omega (arith, length-boundary, length-closing_line)
length_of_parts-length (part ∷ parts) n ok h =
    let whole = length-parts_text part parts in
    let one = length-part_text part in
    let next : size (n + (length boundary + 4 + calc_size part + 2))
        ≡ n + 44 + length (part_text part) + 2 =
      omega (arith, length-boundary, whole, one, ok.0.1, h) in
    rw next (
      length_of_parts-length parts (n + 44 + length (part_text part) + 2) ok.1 (omega arith)
      ∙ omega arith)

get_length-length :
    (c : HttpContent)
    → ContentOk c
    → length (content_text c) < 2 ^ 64
    → get_length c ≡ length (content_text c)
unfolding get_length
get_length-length (string_content str) ok h = refl
get_length-length (json_content str) ok h = refl
get_length-length (stream_content ist) ok h = refl
get_length-length (multipart_content []) ok h = refl
get_length-length (multipart_content (part ∷ parts)) ok h =
    length_of_parts-length (part ∷ parts) 0 ok (omega (arith, h)) ∙ omega arith

-- A content whose streams are at their start and not empty, and whose parts were given their true
-- sizes, is written out as its text, after what the stream holds; and the length that it announces
-- is the number of those bytes, if a size_t can hold it.
pub save_announced :
    (c : HttpContent) (t : Text)
    → ContentOk c
    → length (content_text c) < 2 ^ 64
    → (save c (good t) ≡ good (t ++ content_text c)) × (get_length c ≡ length (content_text c))
save_announced c t ok h = (save_text c t ok, get_length-length c ok h)

after_save_part :
    (part : Part) (ost ost' : OStream) → save_part (saved_part part ost) ost' ≡ save_part part ost'
unfolding save_part saved_part put
after_save_part part ost ost' = elim (Bool-cases ost.failed) [
  | inl e ↦ rw e refl
  | inr e ↦ rw e refl
]

saved_parts_again :
    (parts : List Part) (ost ost' : OStream)
    → save_parts (saved_parts parts ost) ost' ≡ save_parts parts ost'
unfolding save_parts saved_parts
saved_parts_again [] ost ost' = refl
saved_parts_again (part ∷ parts) ost ost' =
    let next = put crlf (save_part part (put boundary_line ost)) in
    ap (λ o. save_parts (saved_parts parts next) (put crlf o))
      (after_save_part part (put boundary_line ost) (put boundary_line ost'))
    ∙ saved_parts_again parts next _

-- A text, JSON or multipart content that was written to one stream is written in the same way to
-- the next one, as the request is first to the log and then to the socket.
pub written_again :
    (c : HttpContent) (ost ost' : OStream)
    → ((ist : IStream) → c ≢ stream_content ist)
    → save (after_save c ost) ost' ≡ save c ost'
unfolding save after_save
written_again (string_content str) ost ost' h = refl
written_again (json_content str) ost ost' h = refl
written_again (stream_content ist) ost ost' h = absurd (h ist refl)
written_again (multipart_content []) ost ost' h = unfold saved_parts in refl
written_again (multipart_content (part ∷ parts)) ost ost' h =
    unfold saved_parts in saved_parts_again (part ∷ parts) ost ost'

-- A stream content that was written to one stream writes no byte to the next one: that stream
-- keeps its text and fails.
pub stream_not_written_again :
    (ist : IStream) (t t' : Text)
    → let again = save (after_save (stream_content ist) (good t)) (good t') in
      (again.written ≡ t') × (again.failed ≡ true)
unfolding save after_save put_rdbuf
stream_not_written_again ist t t' = rw (drop_all ist.bytes) (refl, refl)
