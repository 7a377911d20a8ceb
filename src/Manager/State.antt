-- ===== src/Manager/State.antt =====
-- The state of CoreManager (src/CustomerPrintClientCore/CoreManager.h) and the members that do not
-- call the server. An office is shared by pointer and its selected profile is written through one,
-- so the offices lie in a heap, and the map of offices and the selected office hold addresses.
use customer_print_client.Prelude.{
  ℕ, suc, Bool, Option, none, some, List, [], ◌∷◌, Text, codes, and_then, if◌then◌else◌, is_empty,
}
use customer_print_client.Prelude.Dict.{find, assign}
use customer_print_client.Networking.Http.Request.{text_key}
use customer_print_client.Jobs.Processor.{id_key}
use customer_print_client.Core.Json.{JsonObject, Numbers}
use customer_print_client.Core.Config.{
  config_get_string, kept, config_set_string, config_get_number, config_set_number, config_set_null,
}
use customer_print_client.Cloud.Json.{JsonLib}
use customer_print_client.Cloud.Requests.{CloudClient, UserInfo}
use customer_print_client.Offices.Profiles.{PrintProfile, RendererProfile, convert_print_profile}
use customer_print_client.Offices.Offices.{
  PrintOffice, get_selected_print_profile, select_print_profile,
}

-- What the program takes from outside src/: two views of the JSON library, the number casts with
-- those from float (`widen` to double, `show` by std::to_string), the text that ReadString takes
-- for missing, encryption, and the parser of dates.
pub record Outside (J N F : Type 0) : Type 0 where
  pub lib : JsonLib J
  pub json : JsonObject J N
  pub nums : Numbers N F
  pub widen : F → N
  pub show : F → Text
  pub invalid : Text
  pub encrypt : Text → Option Text
  pub decrypt : Text → Option Text
  pub date : Text → Option ℕ

-- `saved` is the configuration that its file holds, `credentials_file` the other file.
pub record CoreManager (J F : Type 0) : Type 0 where
  pub client : CloudClient
  pub config : J
  pub saved : J
  pub credentials_file : Option Text
  pub has_pdf_library : Bool
  pub user_info : UserInfo
  pub heap : List (ℕ × PrintOffice F)
  pub next_address : ℕ
  pub print_offices : List (Text × ℕ)
  pub selected_office : Option ℕ

module _ {J F : Type 0} where
  -- GetPrintOffice, a pointer.
  unfoldable pub office_address : Text → CoreManager J F → Option ℕ
  office_address ouid m = find ouid m.print_offices

  unfoldable pub office_at : ℕ → CoreManager J F → Option (PrintOffice F)
  office_at a m = find a m.heap

  -- GetSelectedOffice, followed.
  unfoldable pub the_selected_office : CoreManager J F → Option (PrintOffice F)
  unfolding office_at
  the_selected_office m = and_then m.selected_office λ a. office_at a m

  -- `m_printOffices[office->Id] = office` for a new office.
  unfoldable pub store_office : PrintOffice F → CoreManager J F → CoreManager J F
  store_office o m = record m {
    heap = (m.next_address, o) ∷ m.heap;
    next_address = suc m.next_address;
    print_offices = assign o.id m.next_address m.print_offices;
  }

  -- The loop of AsyncSearchPrintOffices, with the pointers that it gives to its caller.
  unfoldable pub store_offices : List (PrintOffice F) → CoreManager J F → CoreManager J F × List ℕ
  unfolding store_office
  store_offices [] m = (m, [])
  store_offices (o ∷ os) m =
      let rest = store_offices os (store_office o m) in (rest.0, m.next_address ∷ rest.1)

  -- PrintOffice::SelectPrintProfile through a pointer, as the user interface calls it.
  unfoldable pub select_profile_at : ℕ → Text → CoreManager J F → CoreManager J F
  unfolding office_at select_print_profile
  select_profile_at a puid m = elim (office_at a m) [
    | none ↦ m
    | some o ↦ record m { heap = assign a (select_print_profile puid o) m.heap }
  ]

module _ {F : Type 0} where
  abbrev pub profile_id : Option (PrintProfile F) → Text
  profile_id none = []
  profile_id (some p) = p.id

  abbrev pub selected_profile_of : Option (PrintOffice F) → Option (PrintProfile F)
  selected_profile_of none = none
  selected_profile_of (some o) = get_selected_print_profile o

  -- CreatePrintProfile
  unfoldable pub create_print_profile : Option (PrintOffice F) → RendererProfile
  unfolding get_selected_print_profile convert_print_profile
  create_print_profile o = convert_print_profile (selected_profile_of o)

abbrev pub office_tag : Text
office_tag = codes "SelectedOffice"

abbrev pub office_id_name : Text
office_id_name = codes "SelectedOffice/Id"

abbrev pub latitude_name : Text
latitude_name = codes "SelectedOffice/Latitude"

abbrev pub longitude_name : Text
longitude_name = codes "SelectedOffice/Longitude"

abbrev pub profile_id_name : Text
profile_id_name = codes "SelectedProfileId"

pub record ConfigSelectedOfficeInfo (F : Type 0) : Type 0 where
  pub office_id : Text
  pub latitude : F
  pub longitude : F
  pub profile_id : Option Text

module _ {J N F : Type 0} (out : Outside J N F) where
  -- The setters of the configuration; each name here ends in a key.
  abbrev set_string : Text → Text → J → J
  set_string name value j = kept (config_set_string out.json name value j) j

  abbrev set_number : Text → F → J → J
  set_number name value j = kept (config_set_number out.json name (out.widen value) j) j

  abbrev set_null : Text → J → J
  set_null name j = kept (config_set_null out.json name j) j

  -- The end of SelectOffice and of UpdateConfigSelectedProfile.
  unfoldable pub set_profile_id : Text → J → J
  unfolding config_set_string config_set_null
  set_profile_id puid j =
      if is_empty puid then set_null profile_id_name j else set_string profile_id_name puid j

  unfoldable pub set_office : Option (PrintOffice F) → J → J
  unfolding config_set_string config_set_number config_set_null
  set_office none j = set_null office_tag j
  set_office (some o) j =
      set_number longitude_name o.longitude
        (set_number latitude_name o.latitude (set_string office_id_name o.id j))

  abbrev keep_saved : J → CoreManager J F → CoreManager J F
  keep_saved j m = record m { config = j; saved = j }

  -- SelectOffice; what it returns is the selected office of the result.
  unfoldable pub select_office : Text → CoreManager J F → CoreManager J F
  unfolding office_address the_selected_office get_selected_print_profile set_profile_id set_office
  select_office ouid m =
      let chosen = record m { selected_office = office_address ouid m } in
      let office = the_selected_office chosen in
      keep_saved
        (set_profile_id (profile_id (selected_profile_of office)) (set_office office m.config))
        chosen

  unfoldable pub update_config_selected_profile : CoreManager J F → CoreManager J F
  unfolding the_selected_office get_selected_print_profile set_profile_id
  update_config_selected_profile m =
      keep_saved
        (set_profile_id (profile_id (selected_profile_of (the_selected_office m))) m.config) m

  -- GetConfigSelectedOfficeAndProfile on what the four reads find; the profile's id is left as it
  -- was if there is none.
  unfoldable pub selected_info :
      Option Text → Option N → Option N → Option Text → Option (ConfigSelectedOfficeInfo F)
  selected_info office_id lat lng profile_id = and_then office_id λ office_id. and_then lat λ lat.
      and_then lng λ lng. some (record {
        office_id = office_id;
        latitude = out.nums.to_float lat;
        longitude = out.nums.to_float lng;
        profile_id = profile_id;
      })

  unfoldable pub get_config_selected_office_and_profile :
      CoreManager J F → Option (ConfigSelectedOfficeInfo F)
  unfolding config_get_string config_get_number selected_info
  get_config_selected_office_and_profile m =
      selected_info (config_get_string out.json office_id_name m.config)
        (config_get_number out.json latitude_name m.config)
        (config_get_number out.json longitude_name m.config)
        (config_get_string out.json profile_id_name m.config)
