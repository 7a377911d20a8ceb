-- ===== src/Printing/ImageFormat.antt =====
-- src/Printing/ImageFormat.cpp. The narrow and the wide string functions give the same text.
use customer_print_client.Prelude.{
  ◌+◌, ◌||◌, none, some, Text, codes, text_eq, if◌then◌else◌, [], drop,
}
use customer_print_client.Core.Strings.{find_last, is_dot}

pub data ImageFormat : Type 0 where
  invalid bmp png jpeg gif tiff emf : ImageFormat

unfoldable pub image_format_to_string : ImageFormat → Text
image_format_to_string invalid = []
image_format_to_string bmp = codes "bmp"
image_format_to_string png = codes "png"
image_format_to_string jpeg = codes "jpeg"
image_format_to_string gif = codes "gif"
image_format_to_string tiff = codes "tiff"
image_format_to_string emf = codes "emf"

unfoldable pub image_format_to_wstring : ImageFormat → Text
image_format_to_wstring invalid = []
image_format_to_wstring bmp = codes "bmp"
image_format_to_wstring png = codes "png"
image_format_to_wstring jpeg = codes "jpeg"
image_format_to_wstring gif = codes "gif"
image_format_to_wstring tiff = codes "tiff"
image_format_to_wstring emf = codes "emf"

-- The chain of tests on the extension.
unfoldable pub format_of_extension : Text → ImageFormat
format_of_extension ext =
    if text_eq ext (codes "bmp")
    then bmp
    else if text_eq ext (codes "png")
    then png
    else if text_eq ext (codes "jpg") || text_eq ext (codes "jpeg")
    then jpeg
    else if text_eq ext (codes "gif")
    then gif
    else if text_eq ext (codes "tif") || text_eq ext (codes "tiff")
    then tiff
    else if text_eq ext (codes "emf")
    then emf
    else invalid

unfoldable pub image_format_from_wpath : Text → ImageFormat
unfolding format_of_extension
image_format_from_wpath path = elim (find_last is_dot path) [
  | none ↦ invalid
  | some dot_pos ↦ format_of_extension (drop (dot_pos + 1) path)
]
