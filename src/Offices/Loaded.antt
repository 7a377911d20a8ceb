-- ===== src/Offices/Loaded.antt =====
-- What the constructors of profiles and offices and the loop over a search result keep.
use mathlib.Core.Option.{none-ne-some, some-injective}
use customer_print_client.Prelude.{
  ◌⊎◌, ◌≡◌, refl, sym, ap, ◌∙◌, Bool, true, false, Option, none, some, List, [], ◌∷◌, Text, All,
  List-cases, and_then-some, Option-cases, Bool-cases, inl, inr, codes,
}
use customer_print_client.Core.Json.{
  JsonObject, Numbers, get_boolean, get_object, get_array, read_string,
}
use customer_print_client.Offices.Profiles.{
  PrintProfile, profile_is_loaded, read_profile, read_paper, set_flag, flag_is_set, or_false,
}
use customer_print_client.Offices.Offices.{
  PrintOffice, Loading, loaded, skipped, undefined, office_is_loaded, finish_loading, read_members,
  array_or_empty, read_profiles, read_class, read_office, try_read_id, contains_key, read_offices,
}
use customer_print_client.Offices.Selection.{HasProfiles}

loaded_flag :
    (a b c : Bool)
    → flag_is_set (set_flag (set_flag (set_flag (set_flag 0 2 a) 4 b) 8 c) 1 true) 1 ≡ true
unfolding set_flag
loaded_flag true true true = refl
loaded_flag true true false = refl
loaded_flag true false true = refl
loaded_flag true false false = refl
loaded_flag false true true = refl
loaded_flag false true false = refl
loaded_flag false false true = refl
loaded_flag false false false = refl

module _ {F : Type 0} where
  -- What is true of every office that is loaded: its flag, at least one profile, and each profile
  -- is loaded.
  abbrev pub IsComplete : PrintOffice F → Type 0
  IsComplete o =
      (office_is_loaded o ≡ true)
      × (HasProfiles o)
      × (All (λ (p : PrintProfile F). profile_is_loaded p ≡ true) o.profiles)

  office_of : Loading (PrintOffice F) → Option (PrintOffice F)
  office_of (loaded o) = some o
  office_of skipped = none
  office_of undefined = none

  pub Loading-cases :
      (r : Loading (PrintOffice F))
      → ((o : PrintOffice F) × (r ≡ loaded o)) ⊎ (r ≡ skipped) ⊎ (r ≡ undefined)
  Loading-cases (loaded o) = inl (o, refl)
  Loading-cases skipped = inr (inl refl)
  Loading-cases undefined = inr (inr refl)

  finish_loading_lem :
      (o o' : PrintOffice F)
      → flag_is_set (set_flag o.flags 1 true) 1 ≡ true
      → All (λ (p : PrintProfile F). profile_is_loaded p ≡ true) o.profiles
      → finish_loading o ≡ loaded o'
      → IsComplete o' × (o'.id ≡ o.id)
  unfolding finish_loading office_is_loaded office_of
  finish_loading_lem o o' flag all h = elim (List-cases o.profiles) [
    | inl e ↦ elim (none-ne-some o' (ap office_of (rw (finish_loading, e) at h))) [ ]
    | inr (front, ps, e) ↦
        let same = some-injective _ o' (ap office_of (rw (finish_loading, e) at h)) in
        rw (← same) ((flag, (front, ps, e), all), refl)
  ]

module _ {J N F : Type 0} (json : JsonObject J N) (nums : Numbers N F) (invalid : Text) where
  abbrev text : J → Text → Option Text
  text j k = read_string json invalid j k

  read_profile-IsLoaded :
      (j : J) (p : PrintProfile F)
      → read_profile json nums invalid j ≡ some p
      → profile_is_loaded p ≡ true
  unfolding read_profile profile_is_loaded
  read_profile-IsLoaded j p h =
      let (paper_json, _, h) = and_then-some (get_object json j (codes "paper")) _ p h in
      let (paper, _, h) = and_then-some (read_paper json nums invalid paper_json) _ p h in
      let (printer, _, h) = and_then-some (get_object json j (codes "printerSettings")) _ p h in
      let (settings, _, h) = and_then-some (get_object json j (codes "profileSettings")) _ p h in
      let (id, _, h) = and_then-some (read_string json invalid j (codes "puid")) _ p h in
      let (name, _, h) = and_then-some (read_string json invalid j (codes "name")) _ p h in
      sym (ap (λ (q : PrintProfile F). flag_is_set q.flags 1) (some-injective _ p h))
      ∙ loaded_flag (or_false (get_boolean json j (codes "online")))
          (or_false (get_boolean json j (codes "isMailgate")))
          (or_false (get_boolean json j (codes "isBinary")))

  read_profiles-loaded :
      (js : List (Option J)) (ps : List (PrintProfile F))
      → read_profiles json nums invalid js ≡ some ps
      → All (λ (p : PrintProfile F). profile_is_loaded p ≡ true) ps
  unfolding read_profiles
  read_profiles-loaded [] ps h = rw (← some-injective [] ps h) tt
  read_profiles-loaded (j ∷ js) ps h =
      let (json_profile, _, h) = and_then-some j _ ps h in
      let (rest, e, h) = and_then-some (read_profiles json nums invalid js) _ ps h in
      elim (Option-cases (read_profile json nums invalid json_profile)) [
        | inl f ↦ rw (← some-injective rest ps (rw f at h)) (read_profiles-loaded js rest e)
        | inr (p, f) ↦
            rw (← some-injective (p ∷ rest) ps (rw f at h))
              (read_profile-IsLoaded json_profile p f, read_profiles-loaded js rest e)
      ]

  read_members_lem :
      (j : J) (o : PrintOffice F)
      → read_members json nums invalid j ≡ some o
      → (try_read_id json nums invalid j ≡ some o.id) × (o.flags ≡ 0)
  unfolding read_members try_read_id
  read_members_lem j o h =
      let (id, e, h) = and_then-some (text j (codes "ouid")) _ o h in
      let (name, _, h) = and_then-some (text j (codes "name")) _ o h in
      let (description, _, h) = and_then-some (text j (codes "description")) _ o h in
      let (address, _, h) = and_then-some (text j (codes "address")) _ o h in
      let (email, _, h) = and_then-some (text j (codes "email")) _ o h in
      let (phone, _, h) = and_then-some (text j (codes "phone")) _ o h in
      let (country, _, h) = and_then-some (text j (codes "country")) _ o h in
      let (currency, _, h) = and_then-some (text j (codes "currency")) _ o h in
      let (symbol, _, h) = and_then-some (text j (codes "symbol")) _ o h in
      let same = some-injective _ o h in
      (
        e ∙ ap (λ (q : PrintOffice F). some q.id) same,
        sym (ap (λ (q : PrintOffice F). q.flags) same),
      )

  online_flag : (online : Bool) → flag_is_set (set_flag (set_flag 0 2 online) 1 true) 1 ≡ true
  unfolding set_flag
  online_flag true = refl
  online_flag false = refl

  not_loaded :
      (r : Loading (PrintOffice F)) (o : PrintOffice F) → office_of r ≡ none → r ≡ loaded o → ⊥
  unfolding office_of
  not_loaded r o e h = none-ne-some o (sym e ∙ ap office_of h)

  -- An office that the constructor loads has the loaded flag, the id that TryReadId reads, at least
  -- one profile, and only profiles that are loaded.
  pub read_office-IsComplete :
      (j : J) (o : PrintOffice F)
      → read_office json nums invalid j ≡ loaded o
      → IsComplete o × (try_read_id json nums invalid j ≡ some o.id)
  unfolding read_office office_of
  read_office-IsComplete j o h = elim (Option-cases (read_members json nums invalid j)) [
    | inl e ↦ elim (not_loaded skipped o refl (rw (read_office, e) at h)) [ ]
    | inr (members, e) ↦ elim (Option-cases (get_boolean json j (codes "online"))) [
      | inl f ↦ elim (not_loaded undefined o refl (rw (read_office, e, f) at h)) [ ]
      | inr (online, f) ↦ elim (Option-cases (get_object json j (codes "officeClass"))) [
        | inl g ↦ elim (not_loaded skipped o refl (rw (read_office, e, f, g) at h)) [ ]
        | inr (office_class, g) ↦
            let js = array_or_empty json nums invalid (get_array json j (codes "profiles")) in
            elim (Option-cases (read_profiles json nums invalid js)) [
              | inl k ↦ elim (not_loaded undefined o refl (rw (read_office, e, f, g, k) at h)) [ ]
              | inr (ps, k) ↦
                  let (named, no_flags) = read_members_lem j members e in
                  let (complete, same_id) =
                    finish_loading_lem
                      (record members {
                        flags = set_flag members.flags 2 online;
                        class_flags = read_class json nums invalid j;
                        profiles = ps;
                      })
                      o (rw no_flags (online_flag online)) (read_profiles-loaded js ps k)
                      (rw (read_office, e, f, g, k) at h) in
                  (complete, named ∙ ap some (sym same_id))
            ]
      ]
    ]
  ]

  -- What is true of each office of a search result.
  abbrev pub IsResult : List Text → List (PrintOffice F) → Type 0
  IsResult exclude_keys =
      All λ (o : PrintOffice F). IsComplete o × (contains_key o.id exclude_keys ≡ false)

  -- If the loop over the body of a search ends, each office of its result is loaded, with its
  -- profiles, and none has an id that was excluded.
  pub read_offices-IsResult :
      (exclude_keys : List Text) (js : List (Option J)) (os : List (PrintOffice F))
      → read_offices json nums invalid exclude_keys js ≡ some os
      → IsResult exclude_keys os
  unfolding read_offices
  read_offices-IsResult keys [] os h = rw (← some-injective [] os h) tt
  read_offices-IsResult keys (j ∷ js) os h =
      let (json_office, _, h) = and_then-some j _ os h in
      elim (Option-cases (try_read_id json nums invalid json_office)) [
        | inl e ↦ read_offices-IsResult keys js os (rw e at h)
        | inr (id, e) ↦ elim (Bool-cases (contains_key id keys)) [
          | inl f ↦ read_offices-IsResult keys js os (rw (e, f) at h)
          | inr f ↦ elim (Loading-cases (read_office json nums invalid json_office)) [
            | inl (o, g) ↦
                let (rest, k, h) =
                  and_then-some (read_offices json nums invalid keys js) _ os (rw (e, f, g) at h) in
                let (complete, named) = read_office-IsComplete json_office o g in
                rw (← some-injective (o ∷ rest) os h) (
                  (complete, rw (← some-injective id o.id (sym e ∙ named)) f),
                  read_offices-IsResult keys js rest k,
                )
            | inr (inl g) ↦ read_offices-IsResult keys js os (rw (e, f, g) at h)
            | inr (inr g) ↦ elim (none-ne-some os (rw (e, f, g) at h)) [ ]
          ]
        ]
      ]
