-- ===== src/Manager/Choice.antt =====
-- What the configuration tells of the selected office and profile.
use customer_print_client.Prelude.{
  ◌≡◌, refl, ap, ◌∙◌, true, false, Option, none, some, [], Text, codes, is_empty, if◌then◌else◌,
  Bool-cases, inl, inr, text_eq,
}
use customer_print_client.Core.Json.{JsonValue, as_string, as_number, string}
use customer_print_client.Core.Config.{
  split_name, get_value, config_get_string, config_get_number, config_set_string, config_set_number,
  config_set_null, kept, ends_in_key,
}
use customer_print_client.Core.ConfigPaths.{
  apart_names, apart, config_get-set, config_get-set_apart, config_get-set_null_section,
}
use customer_print_client.Offices.Offices.{PrintOffice}
use customer_print_client.Manager.State.{
  Outside, CoreManager, ConfigSelectedOfficeInfo, profile_id, selected_profile_of, office_tag,
  office_id_name, latitude_name, longitude_name, profile_id_name, set_profile_id, set_office,
  selected_info, the_selected_office, select_office, get_config_selected_office_and_profile,
}

abbrev pub non_empty : Text → Option Text
non_empty s = if is_empty s then none else some s

module _ {J N F : Type 0} (out : Outside J N F) where
  -- What the configuration has to tell of an office: its id, its coordinates and the id of its
  -- selected profile, if that is not empty.
  abbrev pub info_of : PrintOffice F → ConfigSelectedOfficeInfo F
  info_of o = record {
    office_id = o.id;
    latitude = o.latitude;
    longitude = o.longitude;
    profile_id = non_empty (profile_id (selected_profile_of (some o)));
  }

  abbrev pub told_of : Option (PrintOffice F) → Option (ConfigSelectedOfficeInfo F)
  told_of none = none
  told_of (some o) = some (info_of o)

  abbrev get : {A : Type 0} → (JsonValue J N → Option A) → Text → J → Option A
  get = get_value out.json

  pub get-set_profile_id :
      {A : Type 0} (read : JsonValue J N → Option A) (name puid : Text) (j : J)
      → apart_names profile_id_name name ≡ true
      → get read name (set_profile_id out puid j) ≡ get read name j
  unfolding set_profile_id config_set_string ends_in_key split_name
  get-set_profile_id read name puid j h = elim (Bool-cases (is_empty puid)) [
    | inl e ↦
        rw (set_profile_id, e)
          (config_get-set_apart out.json read (string puid) profile_id_name name j refl h).1
    | inr e ↦
        rw (set_profile_id, e)
          (config_get-set_apart out.json read (string puid) profile_id_name name j refl h).0
  ]

  pub profile_id-set_profile_id :
      (puid : Text) (j : J)
      → config_get_string out.json profile_id_name (set_profile_id out puid j) ≡ non_empty puid
  unfolding set_profile_id ends_in_key split_name
  profile_id-set_profile_id puid j =
      let laws = config_get-set out.json profile_id_name puid out.nums.nan false j refl in
      elim (Bool-cases (is_empty puid)) [
        | inl e ↦ rw (set_profile_id, e) laws.3
        | inr e ↦ rw (set_profile_id, e) laws.0
      ]

  office_id_of :
      (o : PrintOffice F) (j : J)
      → config_get_string out.json office_id_name (set_office out (some o) j) ≡ some o.id
  unfolding set_office config_get_string config_set_string config_set_number apart_names ends_in_key
      split_name apart text_eq
  office_id_of o j =
      (config_get-set_apart out.json as_string _ longitude_name office_id_name _ refl refl).0
      ∙ (config_get-set_apart out.json as_string _ latitude_name office_id_name _ refl refl).0
      ∙ (config_get-set out.json office_id_name o.id out.nums.nan false j refl).0

  latitude_of :
      (o : PrintOffice F) (j : J)
      → config_get_number out.json latitude_name (set_office out (some o) j)
        ≡ some (out.widen o.latitude)
  unfolding set_office config_get_number config_set_string config_set_number apart_names ends_in_key
      split_name apart text_eq
  latitude_of o j =
      (config_get-set_apart out.json as_number _ longitude_name latitude_name _ refl refl).0
      ∙ (config_get-set out.json latitude_name [] (out.widen o.latitude) false _ refl).1

  longitude_of :
      (o : PrintOffice F) (j : J)
      → config_get_number out.json longitude_name (set_office out (some o) j)
        ≡ some (out.widen o.longitude)
  unfolding set_office config_get_number config_set_string config_set_number ends_in_key split_name
  longitude_of o j =
      (config_get-set out.json longitude_name [] (out.widen o.longitude) false _ refl).1

  -- The configuration tells the selected office and its selected profile, or nothing if there is no
  -- selected office.
  abbrev pub IsTold : CoreManager J F → Type 0
  IsTold m = get_config_selected_office_and_profile out m ≡ told_of (the_selected_office m)

  told :
      (o : PrintOffice F) (m : CoreManager J F)
      → ((x : F) → out.nums.to_float (out.widen x) ≡ x)
      → config_get_string out.json office_id_name m.config ≡ some o.id
      → config_get_number out.json latitude_name m.config ≡ some (out.widen o.latitude)
      → config_get_number out.json longitude_name m.config ≡ some (out.widen o.longitude)
      → config_get_string out.json profile_id_name m.config
        ≡ non_empty (profile_id (selected_profile_of (some o)))
      → get_config_selected_office_and_profile out m ≡ some (info_of o)
  unfolding get_config_selected_office_and_profile selected_info
  told o m widened a b c d = rw (
    get_config_selected_office_and_profile,
    selected_info,
    a,
    b,
    c,
    d,
    widened o.latitude,
    widened o.longitude,
  )

  saved_office :
      (o : PrintOffice F) (puid : Text) (j : J)
      → let saved = set_profile_id out puid (set_office out (some o) j) in
        (config_get_string out.json office_id_name saved ≡ some o.id)
        × (config_get_number out.json latitude_name saved ≡ some (out.widen o.latitude))
        × (config_get_number out.json longitude_name saved ≡ some (out.widen o.longitude))
  unfolding config_get_string config_get_number apart_names split_name apart text_eq
  saved_office o puid j = (
    get-set_profile_id as_string office_id_name puid _ refl ∙ office_id_of o j,
    get-set_profile_id as_number latitude_name puid _ refl ∙ latitude_of o j,
    get-set_profile_id as_number longitude_name puid _ refl ∙ longitude_of o j,
  )

  untold :
      (m : CoreManager J F)
      → config_get_string out.json office_id_name m.config ≡ none
      → get_config_selected_office_and_profile out m ≡ none
  unfolding get_config_selected_office_and_profile selected_info
  untold m a = rw (get_config_selected_office_and_profile, selected_info, a)

  no_office_id :
      (j : J)
      → config_get_string out.json office_id_name (kept (config_set_null out.json office_tag j) j)
        ≡ none
  unfolding config_get_string ends_in_key split_name
  no_office_id j =
      config_get-set_null_section out.json as_string office_tag office_id_name j [] (codes "Id")
        refl refl

  configured :
      ((x : F) → out.nums.to_float (out.widen x) ≡ x)
      → (o : Option (PrintOffice F)) (j : J) (m : CoreManager J F)
      → m.config ≡ set_profile_id out (profile_id (selected_profile_of o)) (set_office out o j)
      → get_config_selected_office_and_profile out m ≡ told_of o
  unfolding set_office config_get_string apart_names split_name apart text_eq
  configured widened none j m e = untold m (
      ap (config_get_string out.json office_id_name) e
      ∙ get-set_profile_id as_string office_id_name [] _ refl
      ∙ no_office_id j)
  configured widened (some o) j m e =
      let (a, b, c) = saved_office o (profile_id (selected_profile_of (some o))) j in
      told o m widened (ap (config_get_string out.json office_id_name) e ∙ a)
        (ap (config_get_number out.json latitude_name) e ∙ b)
        (ap (config_get_number out.json longitude_name) e ∙ c)
        (ap (config_get_string out.json profile_id_name) e ∙ profile_id-set_profile_id _ _)

  -- If the cast of a double back to float undoes the widening, then after SelectOffice the
  -- configuration tells the office that was selected and its selected profile, and it tells of no
  -- office if there is none with the id.
  pub select_office-IsTold :
      (widened : (x : F) → out.nums.to_float (out.widen x) ≡ x) (ouid : Text) (m : CoreManager J F)
      → IsTold (select_office out ouid m)
  unfolding select_office the_selected_office
  select_office-IsTold widened ouid m =
      configured widened (the_selected_office (select_office out ouid m)) m.config
        (select_office out ouid m) refl
