-- ===== src/Manager/Profile.antt =====
-- Selecting a profile through a pointer to an office, and what the configuration tells then.
use customer_print_client.Manager.State.{profile_id_name}
use customer_print_client.Prelude.{text_eq}
use customer_print_client.Prelude.{
  ℕ, ◌≡◌, refl, ap, ◌∙◌, Option, none, some, List, Text, Bool-cases, Option-cases, inl, inr, ◌==◌,
  ==_iff,
}
use customer_print_client.Prelude.Dict.{find, assign, find-assign}
use customer_print_client.Jobs.Processor.{id_key}
use customer_print_client.Core.Json.{as_string, as_number}
use customer_print_client.Core.Config.{config_get_string, config_get_number, split_name}
use customer_print_client.Core.ConfigPaths.{apart_names, apart}
use customer_print_client.Offices.Offices.{PrintOffice, select_print_profile}
use customer_print_client.Manager.State.{
  Outside, CoreManager, ConfigSelectedOfficeInfo, profile_id, selected_profile_of, office_id_name,
  latitude_name, longitude_name, set_profile_id, office_at, the_selected_office, selected_info,
  update_config_selected_profile, select_profile_at, get_config_selected_office_and_profile,
}
use customer_print_client.Manager.Choice.{
  IsTold, told_of, non_empty, get-set_profile_id, profile_id-set_profile_id,
}

module _ {F : Type 0} where
  -- Two views of one office that may differ in the selected profile.
  abbrev SameOffice : Option (PrintOffice F) → Option (PrintOffice F) → Type 0
  SameOffice none none = Unit
  SameOffice (some o) (some o') =
      (o.id ≡ o'.id) × (o.latitude ≡ o'.latitude) × (o.longitude ≡ o'.longitude)
  SameOffice _ _ = ⊥

  same_office : (o : Option (PrintOffice F)) → SameOffice o o
  same_office none = tt
  same_office (some o) = (refl, refl, refl)

  SameOffice-find :
      (a b : ℕ) (puid : Text) (o : PrintOffice F) (heap : List (ℕ × PrintOffice F))
      → find a heap ≡ some o
      → SameOffice (find b heap) (find b (assign a (select_print_profile puid o) heap))
  unfolding select_print_profile
  SameOffice-find a b puid o heap h = elim (Bool-cases (a == b)) [
    | inl e ↦
        rw (find-assign a b (select_print_profile puid o) heap, e, ← (==_iff a b).0 e, h)
          (refl, refl, refl)
    | inr e ↦ rw (find-assign a b (select_print_profile puid o) heap, e) (same_office (find b heap))
  ]

  SameOffice-select_profile_at :
      {J : Type 0} (a : ℕ) (puid : Text) (m : CoreManager J F)
      → SameOffice (the_selected_office m) (the_selected_office (select_profile_at a puid m))
  unfolding the_selected_office select_profile_at
  SameOffice-select_profile_at a puid m = elim (Option-cases (office_at a m)) [
    | inl e ↦ rw (select_profile_at, e) (same_office (the_selected_office m))
    | inr (o, e) ↦ elim (Option-cases m.selected_office) [
      | inl f ↦ rw (select_profile_at, e, the_selected_office, f) tt
      | inr (b, f) ↦
          rw (select_profile_at, e, the_selected_office, f) (SameOffice-find a b puid o m.heap e)
    ]
  ]

module _ {J N F : Type 0} (out : Outside J N F) where
  abbrev set_profile :
      Text → Option (ConfigSelectedOfficeInfo F) → Option (ConfigSelectedOfficeInfo F)
  set_profile puid none = none
  set_profile puid (some i) = some (record i { profile_id = non_empty puid })

  others_kept :
      (puid : Text) (j : J)
      → (config_get_string out.json office_id_name (set_profile_id out puid j)
          ≡ config_get_string out.json office_id_name j)
        × (config_get_number out.json latitude_name (set_profile_id out puid j)
            ≡ config_get_number out.json latitude_name j)
        × (config_get_number out.json longitude_name (set_profile_id out puid j)
            ≡ config_get_number out.json longitude_name j)
  unfolding config_get_string config_get_number apart_names split_name apart text_eq
  others_kept puid j = (
    get-set_profile_id out as_string office_id_name puid j refl,
    get-set_profile_id out as_number latitude_name puid j refl,
    get-set_profile_id out as_number longitude_name puid j refl,
  )

  selected_info_lem :
      (a : Option Text) (b c : Option N) (d : Option Text) (puid : Text)
      → selected_info out a b c (non_empty puid) ≡ set_profile puid (selected_info out a b c d)
  unfolding selected_info
  selected_info_lem none b c d puid = refl
  selected_info_lem (some a) none c d puid = refl
  selected_info_lem (some a) (some b) none d puid = refl
  selected_info_lem (some a) (some b) (some c) d puid = refl

  get_config-set_profile_id :
      (puid : Text) (m m' : CoreManager J F)
      → m'.config ≡ set_profile_id out puid m.config
      → get_config_selected_office_and_profile out m'
        ≡ set_profile puid (get_config_selected_office_and_profile out m)
  unfolding get_config_selected_office_and_profile
  get_config-set_profile_id puid m m' e =
      let (a, b, c) = others_kept puid m.config in
      let names =
        ap
          (λ j.
            selected_info out (config_get_string out.json office_id_name j)
              (config_get_number out.json latitude_name j)
              (config_get_number out.json longitude_name j)
              (config_get_string out.json profile_id_name j))
          e in
      names
      ∙ (λ i. selected_info out (a i) (b i) (c i) (profile_id-set_profile_id out puid m.config i))
      ∙ selected_info_lem _ _ _ (config_get_string out.json profile_id_name m.config) puid

  told_of-SameOffice :
      (o o' : Option (PrintOffice F))
      → SameOffice o o'
      → set_profile (profile_id (selected_profile_of o')) (told_of out o) ≡ told_of out o'
  told_of-SameOffice none none h = refl
  told_of-SameOffice (some o) (some o') (a, b, c) = rw (a, b, c)
  told_of-SameOffice none (some o') h = elim h [ ]
  told_of-SameOffice (some o) none h = elim h [ ]

  config-select_profile_at :
      (a : ℕ) (puid : Text) (m : CoreManager J F) → (select_profile_at a puid m).config ≡ m.config
  unfolding select_profile_at
  config-select_profile_at a puid m = elim (Option-cases (office_at a m)) [
    | inl e ↦ rw (select_profile_at, e)
    | inr (o, e) ↦ rw (select_profile_at, e)
  ]

  -- Where the configuration tells the selected office, it tells it again, with its selected profile,
  -- after any profile was selected in any office and UpdateConfigSelectedProfile was called.
  pub update_config_selected_profile-IsTold :
      (a : ℕ) (puid : Text) (m : CoreManager J F)
      → IsTold out m
      → IsTold out (update_config_selected_profile out (select_profile_at a puid m))
  unfolding update_config_selected_profile the_selected_office
  update_config_selected_profile-IsTold a puid m h =
      let m' = select_profile_at a puid m in
      let o' = the_selected_office m' in
      get_config-set_profile_id (profile_id (selected_profile_of o')) m
        (update_config_selected_profile out m')
        (ap (set_profile_id out (profile_id (selected_profile_of o')))
          (config-select_profile_at a puid m))
      ∙ ap (set_profile (profile_id (selected_profile_of o'))) h
      ∙ told_of-SameOffice (the_selected_office m) o' (SameOffice-select_profile_at a puid m)
