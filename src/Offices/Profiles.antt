-- ===== src/Offices/Profiles.antt =====
-- src/CustomerPrintClientCore/PrintProfile.cpp and ConvertPrintProfile.cpp. A word of flags is a
-- number below 2 ^ 32; `F` is float.
use Prim.Native.Nat.{bit_and, bit_or}
use customer_print_client.Prelude.{
  ℕ, ◌/◌, Bool, true, false, Option, none, some, Text, codes, and_then, ltb,
}
use customer_print_client.Core.Json.{
  JsonObject, Numbers, get_boolean, get_object, read_string, read_number,
}

abbrev pub flag_is_set : ℕ → ℕ → Bool
flag_is_set flags flag = ltb 0 (bit_and flags flag)

-- SetFlag. The code clears the flag in its own copy of the mask, so with `false` nothing changes.
unfoldable pub set_flag : ℕ → ℕ → Bool → ℕ
set_flag flags flag true = bit_or flags flag
set_flag flags flag false = flags

-- `json.get<jsonxx::Boolean>(key, false)`
abbrev pub or_false : Option Bool → Bool
or_false none = false
or_false (some b) = b

pub record PaperType : Type 0 where
  pub name : Text
  pub width : ℕ
  pub height : ℕ
  pub print_width : ℕ
  pub print_height : ℕ
  pub margin_top : ℕ
  pub margin_left : ℕ

pub record PrintProfile (F : Type 0) : Type 0 where
  pub paper : PaperType
  pub dpi_x : ℕ
  pub dpi_y : ℕ
  pub settings_flags : ℕ
  pub flags : ℕ
  pub id : Text
  pub name : Text
  pub price : F
  pub int_price : ℕ

module _ {F : Type 0} where
  unfoldable pub profile_is_loaded : PrintProfile F → Bool
  profile_is_loaded p = flag_is_set p.flags 1

  unfoldable pub profile_online : PrintProfile F → Bool
  profile_online p = flag_is_set p.flags 2

  unfoldable pub is_mailgate : PrintProfile F → Bool
  is_mailgate p = flag_is_set p.flags 4

  unfoldable pub is_binary : PrintProfile F → Bool
  is_binary p = flag_is_set p.flags 8

  unfoldable pub is_color : PrintProfile F → Bool
  is_color p = flag_is_set p.settings_flags 1

  unfoldable pub is_duplex : PrintProfile F → Bool
  is_duplex p = flag_is_set p.settings_flags 2

module _ {J N F : Type 0} (json : JsonObject J N) (nums : Numbers N F) (invalid : Text) where
  -- ReadNumber into an unsigned integer of that many bits.
  abbrev pub read_unsigned : ℕ → J → Text → ℕ
  read_unsigned width j k = nums.to_unsigned width (read_number json nums.nan j k)

  abbrev pub read_float : J → Text → F
  read_float j k = nums.to_float (read_number json nums.nan j k)

  abbrev pub read_flag : ℕ → J → Text → ℕ → ℕ
  read_flag flag j k flags = set_flag flags flag (or_false (get_boolean json j k))

  -- The left margin is read from the key of the top margin.
  unfoldable pub read_paper : J → Option PaperType
  unfolding read_string read_number
  read_paper j = and_then (read_string json invalid j (codes "name")) λ name. some (record {
    name = name;
    width = read_unsigned 32 j (codes "width");
    height = read_unsigned 32 j (codes "height");
    print_width = read_unsigned 32 j (codes "printWidth");
    print_height = read_unsigned 32 j (codes "printHeight");
    margin_top = read_unsigned 16 j (codes "marginTop");
    margin_left = read_unsigned 16 j (codes "marginTop");
  })

  -- The constructor and `operator bool`: `none` is a profile that is not loaded.
  unfoldable pub read_profile : J → Option (PrintProfile F)
  unfolding read_string read_number read_paper set_flag
  read_profile j = and_then (get_object json j (codes "paper")) λ json_paper.
      and_then (read_paper json_paper) λ paper.
        and_then (get_object json j (codes "printerSettings")) λ printer.
          and_then (get_object json j (codes "profileSettings")) λ settings.
            and_then (read_string json invalid j (codes "puid")) λ id.
              and_then (read_string json invalid j (codes "name")) λ name. some (record {
                paper = paper;
                dpi_x = read_unsigned 16 printer (codes "dpix");
                dpi_y = read_unsigned 16 printer (codes "dpiy");
                settings_flags =
                    read_flag 2 settings (codes "isDuplex")
                      (read_flag 1 settings (codes "isColor") 0);
                flags =
                    set_flag
                      (read_flag 8 j (codes "isBinary")
                        (read_flag 4 j (codes "isMailgate") (read_flag 2 j (codes "online") 0)))
                      1 true;
                id = id;
                name = name;
                price = read_float j (codes "price");
                int_price = read_unsigned 32 j (codes "intPrice");
              })

-- IPreviewRenderer::PrintProfile
pub record RendererProfile : Type 0 where
  pub dpi_x : ℕ
  pub dpi_y : ℕ
  pub paper_width_mm : ℕ
  pub paper_height_mm : ℕ
  pub is_color : Bool

-- ConvertPrintProfile; `none` is the null pointer. The casts to int keep a quotient of a 32-bit word
-- by 100.
unfoldable pub convert_print_profile : {F : Type 0} → Option (PrintProfile F) → RendererProfile
unfolding is_color
convert_print_profile none = record {
  dpi_x = 300;
  dpi_y = 300;
  paper_width_mm = 210;
  paper_height_mm = 297;
  is_color = true;
}
convert_print_profile (some p) = record {
  dpi_x = p.dpi_x;
  dpi_y = p.dpi_y;
  paper_width_mm = p.paper.width / 100;
  paper_height_mm = p.paper.height / 100;
  is_color = is_color p;
}
