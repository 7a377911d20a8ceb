-- ===== src/Offices/Selection.antt =====
-- The selected profile of an office, and what the constructor of an office and the loop over the
-- search result keep.
use mathlib.Core.List.{Memᴰ}
use mathlib.Core.Option.{some-injective}
use customer_print_client.Prelude.{
  ◌≡◌, ◌⊎◌, refl, sym, ap, ◌∙◌, arith, none, some, List, [], ◌∷◌, Text, Option-cases, Bool-cases,
  inl, inr, is_empty, text_eq, text_eq_iff,
}
use customer_print_client.Offices.Profiles.{PrintProfile}
use customer_print_client.Offices.Offices.{
  PrintOffice, profile_of_id, get_print_profile, get_selected_print_profile, select_print_profile,
}

module _ {F : Type 0} where
  profile_of_id_lem :
      (id : Text) (ps : List (PrintProfile F)) (p : PrintProfile F)
      → profile_of_id id ps ≡ some p
      → Memᴰ p ps × (p.id ≡ id)
  unfolding profile_of_id
  profile_of_id_lem id [] p h = ground arith
  profile_of_id_lem id (q ∷ ps) p h = elim (Bool-cases (text_eq q.id id)) [
    | inl e ↦
        let same = some-injective q p (rw (profile_of_id, e) at h) in
        (
          Memᴰ.head (sym same),
          sym (ap (λ (r : PrintProfile F). r.id) same) ∙ (text_eq_iff q.id id).0 e,
        )
    | inr e ↦
        let (later, named) = profile_of_id_lem id ps p (rw (profile_of_id, e) at h) in
        (Memᴰ.tail later, named)
  ]

  -- An office with profiles.
  abbrev pub HasProfiles : PrintOffice F → Type 0
  HasProfiles o =
      (front : PrintProfile F) × (ps : List (PrintProfile F)) × (o.profiles ≡ front ∷ ps)

  selected_lem :
      (o : PrintOffice F) (front : PrintProfile F) (ps : List (PrintProfile F))
      → o.profiles ≡ front ∷ ps
      → get_selected_print_profile o
        ≡ (elim (get_print_profile o.selected_profile_id o) [ some p ↦ some p | none ↦ some front ])
  unfolding get_selected_print_profile get_print_profile
  selected_lem o front ps e = rw (get_selected_print_profile, e, get_print_profile, e)

  get_print_profile_lem :
      (id : Text) (o : PrintOffice F) (p : PrintProfile F)
      → get_print_profile id o ≡ some p
      → Memᴰ p o.profiles × (p.id ≡ id)
  unfolding get_print_profile
  get_print_profile_lem id o p h = elim (Bool-cases (is_empty id)) [
    | inl e ↦ ground arith
    | inr e ↦ profile_of_id_lem id o.profiles p (rw e at h)
  ]

  get_print_profile-select_print_profile :
      (id j : Text) (o : PrintOffice F)
      → get_print_profile j (select_print_profile id o) ≡ get_print_profile j o
  unfolding get_print_profile select_print_profile
  get_print_profile-select_print_profile id j o = refl

  -- The profile that is selected after the id was: the one that has it, or else the first.
  abbrev pub IsChosen : PrintOffice F → Text → PrintProfile F → Type 0
  IsChosen o id p =
      ((get_print_profile id o ≡ some p) × (p.id ≡ id))
      ⊎ ((get_print_profile id o ≡ none) × ((ps : List (PrintProfile F)) × (o.profiles ≡ p ∷ ps)))

  -- In an office with profiles, after any id was selected, there is a selected profile, and it is
  -- one of the office: the first profile with the id, or the first of the office if none has it or
  -- the id is empty.
  pub selected-select_print_profile :
      (o : PrintOffice F) (id : Text)
      → HasProfiles o
      → (p : PrintProfile F) × (get_selected_print_profile (select_print_profile id o) ≡ some p)
        × (Memᴰ p o.profiles)
        × IsChosen o id p
  unfolding select_print_profile
  selected-select_print_profile o id (front, ps, e) =
      let o' = select_print_profile id o in
      let at_id = get_print_profile-select_print_profile id id o in
      elim (Option-cases (get_print_profile id o)) [
        | inl f ↦ (
          front,
          selected_lem o' front ps e ∙ rw (at_id ∙ f),
          rw e (Memᴰ.head refl),
          inr (f, (ps, e)),
        )
        | inr (p, f) ↦
            let (member, named) = get_print_profile_lem id o p f in
            (p, selected_lem o' front ps e ∙ rw (at_id ∙ f), member, inl (f, named))
      ]
