-- ===== src/Printing/Tests.antt =====
-- Concrete print settings.
use customer_print_client.Prelude.{◌≡◌, refl, arith}
use customer_print_client.Printing.Settings.{
  landscape, stretch_to_page, right, bottom, orientation_code, mode_code, hor_align_code,
  vert_align_code, orientation, set_orientation, mode, set_mode, hor_align, set_hor_align,
  vert_align, set_vert_align, default_settings,
}
use customer_print_client.Printing.Packing.{HasFields, setters-HasFields}

default_word : default_settings.data_word ≡ 10
unfolding default_settings
default_word = refl

setters-HasFields_example :
    let p = default_settings in
    HasFields
      (orientation_code landscape)
      (mode p)
      (hor_align p)
      (vert_align p)
      (set_orientation landscape p)
    × HasFields
        (orientation p)
        (mode_code stretch_to_page)
        (hor_align p)
        (vert_align p)
        (set_mode stretch_to_page p)
    × HasFields
        (orientation p)
        (mode p)
        (hor_align_code right)
        (vert_align p)
        (set_hor_align right p)
    × HasFields
        (orientation p)
        (mode p)
        (hor_align p)
        (vert_align_code bottom)
        (set_vert_align bottom p)
setters-HasFields_example =
    setters-HasFields default_settings landscape stretch_to_page right bottom
      (omega (arith, default_word))
