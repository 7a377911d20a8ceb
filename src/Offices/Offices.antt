-- ===== src/Offices/Offices.antt =====
-- src/CustomerPrintClientCore/PrintOffice.cpp and the loop over offices in CloudPrintClient.cpp.
-- Profiles are values: the program shares them by pointer, but writes none after its constructor.
use customer_print_client.Prelude.{false}
use customer_print_client.Prelude.{
  ℕ, Bool, true, Option, none, some, List, [], ◌∷◌, Text, codes, and_then, if◌then◌else◌, is_empty,
  text_eq, ◌||◌, length,
}
use customer_print_client.Core.Json.{
  JsonObject, Numbers, get_boolean, get_object, get_array, read_string, read_number,
}
use customer_print_client.Offices.Profiles.{
  PrintProfile, set_flag, flag_is_set, read_profile, read_unsigned, read_float, read_flag,
}

-- The lookup in a set of ids.
unfoldable pub contains_key : Text → List Text → Bool
contains_key id [] = false
contains_key id (k ∷ ks) = text_eq k id || contains_key id ks

-- The rating and the minimal payment are only stored.
pub record PrintOffice (F : Type 0) : Type 0 where
  pub id : Text
  pub name : Text
  pub description : Text
  pub address : Text
  pub email : Text
  pub phone : Text
  pub country : Text
  pub currency : Text
  pub currency_symbol : Text
  pub distance : ℕ
  pub latitude : F
  pub longitude : F
  pub min_stripe_payment : F
  pub int_min_stripe_payment : ℕ
  pub rating : ℕ
  pub class_flags : ℕ
  pub flags : ℕ
  pub profiles : List (PrintProfile F)
  pub selected_profile_id : Text

-- What the constructor makes: an office that is loaded, one that is not, or undefined behaviour.
pub data Loading (A : Type 0) : Type 0 where
  loaded : A → Loading A
  skipped : Loading A
  undefined : Loading A

module _ {F : Type 0} where
  unfoldable pub office_is_loaded : PrintOffice F → Bool
  office_is_loaded o = flag_is_set o.flags 1

  unfoldable pub office_online : PrintOffice F → Bool
  office_online o = flag_is_set o.flags 2

  unfoldable pub mailgate : PrintOffice F → Bool
  mailgate o = flag_is_set o.class_flags 16

  unfoldable pub get_print_profile_count : PrintOffice F → ℕ
  get_print_profile_count o = length o.profiles

  unfoldable pub profile_of_id : Text → List (PrintProfile F) → Option (PrintProfile F)
  profile_of_id id [] = none
  profile_of_id id (p ∷ ps) = if text_eq p.id id then some p else profile_of_id id ps

  -- GetPrintProfile
  unfoldable pub get_print_profile : Text → PrintOffice F → Option (PrintProfile F)
  unfolding profile_of_id
  get_print_profile id o = if is_empty id then none else profile_of_id id o.profiles

  unfoldable pub get_selected_print_profile : PrintOffice F → Option (PrintProfile F)
  unfolding get_print_profile
  get_selected_print_profile o = elim o.profiles [
    | [] ↦ none
    | front ∷ ps ↦ elim (get_print_profile o.selected_profile_id o) [
      | some p ↦ some p
      | none ↦ some front
    ]
  ]

  unfoldable pub select_print_profile : Text → PrintOffice F → PrintOffice F
  select_print_profile id o = record o { selected_profile_id = id }

  -- The end of the constructor.
  unfoldable pub finish_loading : PrintOffice F → Loading (PrintOffice F)
  unfolding set_flag
  finish_loading o = elim o.profiles [
    | [] ↦ skipped
    | front ∷ ps ↦
        loaded (record o { flags = set_flag o.flags 1 true; selected_profile_id = front.id })
  ]

module _ {J N F : Type 0} (json : JsonObject J N) (nums : Numbers N F) (invalid : Text) where
  abbrev text : J → Text → Option Text
  text j k = read_string json invalid j k

  -- The first statement of the constructor. The numbers never fail.
  unfoldable pub read_members : J → Option (PrintOffice F)
  unfolding read_string read_number
  read_members j = and_then (text j (codes "ouid")) λ id. and_then (text j (codes "name")) λ name.
      and_then (text j (codes "description")) λ description.
        and_then (text j (codes "address")) λ address. and_then (text j (codes "email")) λ email.
          and_then (text j (codes "phone")) λ phone. and_then (text j (codes "country")) λ country.
            and_then (text j (codes "currency")) λ currency.
              and_then (text j (codes "symbol")) λ symbol. some (record {
                id = id;
                name = name;
                description = description;
                address = address;
                email = email;
                phone = phone;
                country = country;
                currency = currency;
                currency_symbol = symbol;
                distance = read_unsigned json nums invalid 32 j (codes "distance");
                latitude = read_float json nums invalid j (codes "latitude");
                longitude = read_float json nums invalid j (codes "longitude");
                min_stripe_payment = read_float json nums invalid j (codes "minStripePayment");
                int_min_stripe_payment =
                    read_unsigned json nums invalid 32 j (codes "intMinStripePayment");
                rating = nums.to_count (read_number json nums.nan j (codes "rating"));
                class_flags = 0;
                flags = 0;
                profiles = [];
                selected_profile_id = [];
              })

  abbrev class_flag : ℕ → J → Text → ℕ → ℕ
  class_flag = read_flag json nums invalid

  -- The flags of the class, which the code reads from the office and not from its officeClass.
  unfoldable pub read_class : J → ℕ
  unfolding set_flag
  read_class j = class_flag 64 j (codes "onlyBinary") (
      class_flag 32 j (codes "onlyRendered") (
        class_flag 16 j (codes "onlyMailgate") (
          class_flag 8 j (codes "canBinary") (
            class_flag 4 j (codes "canMailgate")
              (class_flag 2 j (codes "canRendered") (class_flag 1 j (codes "isForeign") 0))))))

  -- The loop over the profiles, which keeps those that are loaded. `none` is undefined behaviour:
  -- the code takes each element to be an object.
  unfoldable pub read_profiles : List (Option J) → Option (List (PrintProfile F))
  unfolding read_profile
  read_profiles [] = some []
  read_profiles (j ∷ js) =
      let rest = read_profiles js in
      and_then j λ json_profile. and_then rest λ ps.
        elim (read_profile json nums invalid json_profile) [
          | none ↦ some ps
          | some p ↦ some (p ∷ ps)
        ]

  abbrev pub array_or_empty : Option (List (Option J)) → List (Option J)
  array_or_empty none = []
  array_or_empty (some js) = js

  -- The constructor. Its read of "online" has no default, so a missing one is undefined behaviour.
  unfoldable pub read_office : J → Loading (PrintOffice F)
  unfolding read_members read_class read_profiles set_flag finish_loading
  read_office j = elim (read_members j) [
    | none ↦ skipped
    | some o ↦ elim (get_boolean json j (codes "online")) [
      | none ↦ undefined
      | some online ↦ elim (get_object json j (codes "officeClass")) [
        | none ↦ skipped
        | some office_class ↦
            elim (read_profiles (array_or_empty (get_array json j (codes "profiles")))) [
              | none ↦ undefined
              | some ps ↦ finish_loading (record o {
                flags = set_flag o.flags 2 online;
                class_flags = read_class j;
                profiles = ps;
              })
            ]
      ]
    ]
  ]

  unfoldable pub try_read_id : J → Option Text
  unfolding read_string
  try_read_id j = text j (codes "ouid")

  -- The loop of AsyncSearchPrintOffices over the body; `none` is undefined behaviour.
  unfoldable pub read_offices : List Text → List (Option J) → Option (List (PrintOffice F))
  unfolding read_office try_read_id contains_key
  read_offices exclude_keys [] = some []
  read_offices exclude_keys (j ∷ js) =
      let rest = read_offices exclude_keys js in
      and_then j λ json_office. elim (try_read_id json_office) [
        | none ↦ rest
        | some id ↦ if contains_key id exclude_keys then rest else elim (read_office json_office) [
          | loaded o ↦ and_then rest λ os. some (o ∷ os)
          | skipped ↦ rest
          | undefined ↦ none
        ]
      ]
