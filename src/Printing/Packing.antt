-- ===== src/Printing/Packing.antt =====
-- The four fields of src/Printing/PrintSettings.cpp do not disturb each other. The seven bits that
-- they take are checked word by word.
use customer_print_client.Prelude.{
  all_below, all_below-at, ℕ, ◌<◌, ◌≡◌, refl, Bool, true, ◌&&◌, arith, ◌==◌, ltb,
}
use customer_print_client.Printing.Settings.{
  PrintOrientation, portrait, landscape, PrintMode, original_size, display_size, stretch_to_page,
  HorizontalPageAlign, left, h_center, right, VerticalPageAlign, top, v_center, bottom,
  orientation_code, mode_code, hor_align_code, vert_align_code, PrintSettings, orientation,
  set_orientation, mode, set_mode, hor_align, set_hor_align, vert_align, set_vert_align,
}

-- The settings use no bit but those of the fields, and the fields are these.
abbrev pub HasFields : ℕ → ℕ → ℕ → ℕ → PrintSettings → Type 0
HasFields a b c d p =
    (orientation p ≡ a)
    × (mode p ≡ b)
    × (hor_align p ≡ c)
    × (vert_align p ≡ d)
    × (p.data_word < 128)

abbrev has_fields : ℕ → ℕ → ℕ → ℕ → PrintSettings → Bool
has_fields a b c d p =
    (orientation p == a)
    && (mode p == b)
    && (hor_align p == c)
    && (vert_align p == d)
    && ltb p.data_word 128

has_fields-HasFields :
    (a b c d : ℕ) (p : PrintSettings) → has_fields a b c d p ≡ true → HasFields a b c d p
has_fields-HasFields a b c d p h = ground arith

abbrev word : ℕ → PrintSettings
word w = record { data_word = w }

abbrev orientation_kept : PrintOrientation → ℕ → Bool
orientation_kept v w =
    has_fields (orientation_code v) (mode (word w)) (hor_align (word w)) (vert_align (word w))
      (set_orientation v (word w))

orientations_kept : (v : PrintOrientation) → all_below 128 (orientation_kept v) ≡ true
unfolding orientation mode hor_align vert_align set_orientation orientation_code
orientations_kept portrait = refl
orientations_kept landscape = refl

abbrev mode_kept : PrintMode → ℕ → Bool
mode_kept v w =
    has_fields (orientation (word w)) (mode_code v) (hor_align (word w)) (vert_align (word w))
      (set_mode v (word w))

modes_kept : (v : PrintMode) → all_below 128 (mode_kept v) ≡ true
unfolding orientation mode hor_align vert_align set_mode mode_code
modes_kept original_size = refl
modes_kept display_size = refl
modes_kept stretch_to_page = refl

abbrev hor_align_kept : HorizontalPageAlign → ℕ → Bool
hor_align_kept v w =
    has_fields (orientation (word w)) (mode (word w)) (hor_align_code v) (vert_align (word w))
      (set_hor_align v (word w))

hor_aligns_kept : (v : HorizontalPageAlign) → all_below 128 (hor_align_kept v) ≡ true
unfolding orientation mode hor_align vert_align set_hor_align hor_align_code
hor_aligns_kept left = refl
hor_aligns_kept h_center = refl
hor_aligns_kept right = refl

abbrev vert_align_kept : VerticalPageAlign → ℕ → Bool
vert_align_kept v w =
    has_fields (orientation (word w)) (mode (word w)) (hor_align (word w)) (vert_align_code v)
      (set_vert_align v (word w))

vert_aligns_kept : (v : VerticalPageAlign) → all_below 128 (vert_align_kept v) ≡ true
unfolding orientation mode hor_align vert_align set_vert_align vert_align_code
vert_aligns_kept top = refl
vert_aligns_kept v_center = refl
vert_aligns_kept bottom = refl

-- On settings that use no bit but those of the fields, each setter sets its field to the value,
-- leaves the other three as they were, and uses no other bit.
pub setters-HasFields :
    (p : PrintSettings) (o : PrintOrientation) (m : PrintMode) (h : HorizontalPageAlign)
    (v : VerticalPageAlign)
    → p.data_word < 128
    → HasFields (orientation_code o) (mode p) (hor_align p) (vert_align p) (set_orientation o p)
      × HasFields (orientation p) (mode_code m) (hor_align p) (vert_align p) (set_mode m p)
      × HasFields (orientation p) (mode p) (hor_align_code h) (vert_align p) (set_hor_align h p)
      × HasFields (orientation p) (mode p) (hor_align p) (vert_align_code v) (set_vert_align v p)
setters-HasFields p o m h v lt = (
  has_fields-HasFields _ _ _ _ (set_orientation o p)
      (all_below-at 128 p.data_word (orientation_kept o) (orientations_kept o) lt),
  has_fields-HasFields _ _ _ _ (set_mode m p)
      (all_below-at 128 p.data_word (mode_kept m) (modes_kept m) lt),
  has_fields-HasFields _ _ _ _ (set_hor_align h p)
      (all_below-at 128 p.data_word (hor_align_kept h) (hor_aligns_kept h) lt),
  has_fields-HasFields _ _ _ _ (set_vert_align v p)
      (all_below-at 128 p.data_word (vert_align_kept v) (vert_aligns_kept v) lt),
)
