-- ===== src/Offices/Tests.antt =====
-- An office with one profile, read from JSON.
use customer_print_client.Prelude.{
  ◌≡◌, refl, true, false, ℕ, some, [], ◌∷◌, codes, text_eq, ◌==◌, ◌^◌, if◌then◌else◌, arith,
}
use customer_print_client.Core.Json.{read_string, read_number}
use customer_print_client.Core.Tree.{
  Fields, no_fields, field, string_node, object_node, array_node, boolean_node, number_node, item,
  no_items, tree_json, plain_numbers,
}
use customer_print_client.Offices.Profiles.{
  PrintProfile, set_flag, flag_is_set, read_paper, read_profile,
}
use customer_print_client.Offices.Offices.{
  PrintOffice, loaded, read_members, read_class, read_profiles, finish_loading, read_office,
  try_read_id, contains_key, read_offices,
}
use customer_print_client.Offices.Loaded.{IsComplete, read_office-IsComplete}
use customer_print_client.Offices.Flags.{set_flag_lem}

abbrev pub profile_fields : Fields
profile_fields = field (codes "puid") (string_node (codes "p1")) (
    field (codes "name") (string_node (codes "A4")) (
      field (codes "paper")
        (object_node (field (codes "name") (string_node (codes "A4")) no_fields))
        (field (codes "printerSettings") (object_node no_fields)
          (field (codes "profileSettings") (object_node no_fields) no_fields))))

abbrev pub office_fields : Fields
office_fields = field (codes "ouid") (string_node (codes "o1")) (
    field (codes "name") (string_node (codes "n")) (
      field (codes "description") (string_node (codes "d")) (
        field (codes "address") (string_node (codes "a")) (
          field (codes "email") (string_node (codes "e")) (
            field (codes "phone") (string_node (codes "p")) (
              field (codes "country") (string_node (codes "c")) (
                field (codes "currency") (string_node (codes "u")) (
                  field (codes "symbol") (string_node (codes "s")) (
                    field (codes "latitude") (number_node 5) (
                      field (codes "online") (boolean_node true) (
                        field (codes "officeClass") (object_node no_fields) (
                          field (codes "profiles") (array_node (item profile_fields no_items))
                            no_fields))))))))))))

abbrev profile : PrintProfile ℕ
profile = record {
  paper = record {
    name = codes "A4";
    width = 999;
    height = 999;
    print_width = 999;
    print_height = 999;
    margin_top = 999;
    margin_left = 999;
  };
  dpi_x = 999;
  dpi_y = 999;
  settings_flags = 0;
  flags = 1;
  id = codes "p1";
  name = codes "A4";
  price = 999;
  int_price = 999;
}

abbrev pub office : PrintOffice ℕ
office = record {
  id = codes "o1";
  name = codes "n";
  description = codes "d";
  address = codes "a";
  email = codes "e";
  phone = codes "p";
  country = codes "c";
  currency = codes "u";
  currency_symbol = codes "s";
  distance = 999;
  latitude = 5;
  longitude = 999;
  min_stripe_payment = 999;
  int_min_stripe_payment = 999;
  rating = 999;
  class_flags = 0;
  flags = 3;
  profiles = profile ∷ [];
  selected_profile_id = codes "p1";
}

reads_office : read_office tree_json plain_numbers [] office_fields ≡ loaded office
unfolding read_office read_members read_class read_profiles finish_loading read_profile read_paper
    read_string read_number set_flag text_eq
reads_office = refl

read_office-IsComplete_example :
    IsComplete office × (try_read_id tree_json plain_numbers [] office_fields ≡ some office.id)
read_office-IsComplete_example =
    read_office-IsComplete tree_json plain_numbers [] office_fields office reads_office

reads_offices :
    read_offices tree_json plain_numbers [] [] (some office_fields ∷ []) ≡ some (office ∷ [])
unfolding read_offices try_read_id contains_key read_office read_members read_class read_profiles
    finish_loading read_profile read_paper read_string read_number set_flag text_eq
reads_offices = refl

set_flag_lem_example :
    (flag_is_set (set_flag 3 (2 ^ 2) true) (2 ^ 1)
      ≡ (if 2 == 1 then true else flag_is_set 3 (2 ^ 1)))
    × (set_flag 3 (2 ^ 2) false ≡ 3)
set_flag_lem_example = set_flag_lem 3 2 1 (omega arith) (omega arith) (omega arith)
