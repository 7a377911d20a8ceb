-- ===== src/Printing/Settings.antt =====
-- src/Printing/PrintSettings.cpp: four enumerations packed into one 32-bit word. A getter gives the
-- number of the enumerator that it casts to.
use Prim.Native.Nat.{bit_and, bit_or}
use customer_print_client.Prelude.{ℕ, ◌-◌, ◌*◌, ◌/◌, ◌^◌, Bool, not, ◌==◌}

pub data PrintOrientation : Type 0 where
  portrait landscape : PrintOrientation

pub data PrintMode : Type 0 where
  original_size display_size stretch_to_page : PrintMode

pub data HorizontalPageAlign : Type 0 where
  left h_center right : HorizontalPageAlign

pub data VerticalPageAlign : Type 0 where
  top v_center bottom : VerticalPageAlign

unfoldable pub orientation_code : PrintOrientation → ℕ
orientation_code portrait = 0
orientation_code landscape = 1

unfoldable pub mode_code : PrintMode → ℕ
mode_code original_size = 0
mode_code display_size = 1
mode_code stretch_to_page = 2

unfoldable pub hor_align_code : HorizontalPageAlign → ℕ
hor_align_code left = 0
hor_align_code h_center = 1
hor_align_code right = 2

unfoldable pub vert_align_code : VerticalPageAlign → ℕ
vert_align_code top = 0
vert_align_code v_center = 1
vert_align_code bottom = 2

pub record PrintSettings : Type 0 where
  pub data_word : ℕ

-- `m_data &= ~mask; m_data |= mask & bits`, on 32 bits.
abbrev store : ℕ → ℕ → PrintSettings → PrintSettings
store mask bits p = record {
  data_word = bit_or (bit_and p.data_word (2 ^ 32 - 1 - mask)) (bit_and mask bits);
}

unfoldable pub orientation : PrintSettings → ℕ
orientation p = bit_and p.data_word 1

unfoldable pub set_orientation : PrintOrientation → PrintSettings → PrintSettings
unfolding orientation_code
set_orientation value p = store 1 (orientation_code value) p

unfoldable pub mode : PrintSettings → ℕ
mode p = bit_and p.data_word 6 / 2

unfoldable pub set_mode : PrintMode → PrintSettings → PrintSettings
unfolding mode_code
set_mode value p = store 6 (mode_code value * 2) p

unfoldable pub hor_align : PrintSettings → ℕ
hor_align p = bit_and p.data_word 24 / 8

unfoldable pub set_hor_align : HorizontalPageAlign → PrintSettings → PrintSettings
unfolding hor_align_code
set_hor_align value p = store 24 (hor_align_code value * 8) p

unfoldable pub vert_align : PrintSettings → ℕ
vert_align p = bit_and p.data_word 96 / 32

unfoldable pub set_vert_align : VerticalPageAlign → PrintSettings → PrintSettings
unfolding vert_align_code
set_vert_align value p = store 96 (vert_align_code value * 32) p

-- The constructor.
unfoldable pub default_settings : PrintSettings
unfolding set_orientation set_mode set_hor_align set_vert_align
default_settings = set_vert_align top (
    set_hor_align h_center
      (set_mode display_size (set_orientation portrait (record { data_word = 0 }))))

unfoldable pub settings_eq : PrintSettings → PrintSettings → Bool
settings_eq a b = a.data_word == b.data_word

unfoldable pub settings_ne : PrintSettings → PrintSettings → Bool
unfolding settings_eq
settings_ne a b = not (settings_eq a b)
