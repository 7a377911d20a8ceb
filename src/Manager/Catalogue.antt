-- ===== src/Manager/Catalogue.antt =====
-- The offices of the core manager as a catalogue: what GetPrintOffice finds under each id, whatever
-- the addresses are.
use customer_print_client.Prelude.{
  ℕ, ◌≡◌, refl, sym, ap, ◌∙◌, Option, none, some, List, [], ◌∷◌, Text, text_eq, and_then,
  if◌then◌else◌, Bool-cases, Option-cases, inl, inr, All, ==_iff,
}
use customer_print_client.Prelude.Dict.{find, find-assign}
use customer_print_client.Networking.Http.Request.{text_key}
use customer_print_client.Jobs.Processor.{id_key}
use customer_print_client.Offices.Offices.{PrintOffice}
use customer_print_client.Offices.Selection.{HasProfiles}
use customer_print_client.Manager.State.{
  CoreManager, office_address, office_at, the_selected_office, store_office, store_offices,
}
use customer_print_client.Manager.Heap.{OfficesOk, old_office, store_office-OfficesOk}

-- The specification: a catalogue gives an office for an id, and later offices replace earlier ones.
abbrev pub newest :
    {F : Type 0} → Text → List (PrintOffice F) → Option (PrintOffice F) → Option (PrintOffice F)
newest k [] o = o
newest k (x ∷ xs) o = newest k xs (if text_eq x.id k then some x else o)

module _ {J F : Type 0} where
  -- The office that GetPrintOffice points to.
  abbrev pub catalogue : Text → CoreManager J F → Option (PrintOffice F)
  catalogue k m = and_then (office_address k m) λ a. office_at a m

  -- Pointers to offices, in order.
  abbrev pub PointTo : List ℕ → List (PrintOffice F) → CoreManager J F → Type 0
  PointTo [] [] m = Unit
  PointTo (a ∷ addresses) (o ∷ os) m = (office_at a m ≡ some o) × PointTo addresses os m
  PointTo _ _ m = ⊥

  new_office :
      (o : PrintOffice F) (m : CoreManager J F)
      → office_at m.next_address (store_office o m) ≡ some o
  unfolding office_at store_office find
  new_office o m = rw ((==_iff m.next_address m.next_address).1 refl)

  catalogue-store_office :
      (k : Text) (o : PrintOffice F) (m : CoreManager J F)
      → OfficesOk m
      → catalogue k (store_office o m) ≡ (if text_eq o.id k then some o else catalogue k m)
  unfolding office_address store_office
  catalogue-store_office k o m (heap_ok, map_ok, selected_ok) =
      let here = find-assign o.id k m.next_address m.print_offices in
      let at_address = λ (x : Option ℕ). and_then x (λ a. office_at a (store_office o m)) in
      elim (Bool-cases (text_eq o.id k)) [
        | inl e ↦ rw e (ap at_address {y = some m.next_address} (here ∙ rw e) ∙ new_office o m)
        | inr e ↦ elim (Option-cases (office_address k m)) [
          | inl f ↦ rw (e, f) (ap at_address {y = none} (here ∙ (rw e f)))
          | inr (a, f) ↦
              let (p, g, named) = map_ok k a f in
              rw (e, f, g)
                (ap at_address {y = some a} (here ∙ (rw e f)) ∙ old_office a o p m heap_ok g)
        ]
      ]

  old_offices :
      (a : ℕ) (p : PrintOffice F) (os : List (PrintOffice F)) (m : CoreManager J F)
      → All (λ o. HasProfiles o) os
      → OfficesOk m
      → office_at a m ≡ some p
      → office_at a (store_offices os m).0 ≡ some p
  unfolding store_offices
  old_offices a p [] m has ok e = e
  old_offices a p (o ∷ os) m (has, rest) ok e =
      old_offices a p os (store_office o m) rest (store_office-OfficesOk o m has ok)
        (old_office a o p m ok.0 e)

  selected-store_office :
      (o : PrintOffice F) (m : CoreManager J F)
      → OfficesOk m
      → the_selected_office (store_office o m) ≡ the_selected_office m
  unfolding the_selected_office store_office
  selected-store_office o m (heap_ok, map_ok, selected_ok) = elim (Option-cases m.selected_office) [
    | inl e ↦ rw (the_selected_office, e)
    | inr (a, e) ↦
        let (p, f) = selected_ok a e in
        ap (λ x. and_then x (λ a. office_at a (store_office o m))) e
        ∙ old_office a o p m heap_ok f
        ∙ sym (ap (λ x. and_then x (λ a. office_at a m)) e ∙ f)
  ]

  -- The core manager implements a catalogue: after the offices of a search result, all with
  -- profiles, were stored in a manager whose map and selection point to offices with profiles,
  -- GetPrintOffice finds under each id the last of them with the id, or what it found before; the
  -- pointers given to the caller are to those offices in order; and the selected office is the
  -- same object as before, also if a new office has its id.
  pub store_offices-IsCatalogue :
      (k : Text) (os : List (PrintOffice F)) (m : CoreManager J F)
      → All (λ o. HasProfiles o) os
      → OfficesOk m
      → let stored = store_offices os m in
        (catalogue k stored.0 ≡ newest k os (catalogue k m))
        × (PointTo stored.1 os stored.0)
        × (the_selected_office stored.0 ≡ the_selected_office m)
  unfolding store_offices
  store_offices-IsCatalogue k [] m has ok = (refl, tt, refl)
  store_offices-IsCatalogue k (o ∷ os) m (has, rest) ok =
      let ok' = store_office-OfficesOk o m has ok in
      let (found, pointed, selected) = store_offices-IsCatalogue k os (store_office o m) rest ok' in
      (
        found ∙ ap (newest k os) (catalogue-store_office k o m ok),
        (old_offices m.next_address o os (store_office o m) rest ok' (new_office o m), pointed),
        selected ∙ selected-store_office o m ok,
      )
