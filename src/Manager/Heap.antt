-- ===== src/Manager/Heap.antt =====
-- The offices of the core manager: the map and the selection point into the heap, an office stands
-- in the map under its own id, and each office has profiles.
use mathlib.Core.Option.{some-injective}
use customer_print_client.Prelude.{
  ℕ, ◌<◌, ◌≡◌, refl, sym, ap, ◌∙◌, arith, some, List, [], ◌∷◌, Text, text_eq, text_eq_iff,
  Bool-cases, Option-cases, inl, inr, ◌==◌, ==_iff, All,
}
use customer_print_client.Prelude.Dict.{find, assign, find-assign}
use customer_print_client.Networking.Http.Request.{text_key}
use customer_print_client.Jobs.Processor.{id_key}
use customer_print_client.Offices.Offices.{PrintOffice, select_print_profile}
use customer_print_client.Offices.Selection.{HasProfiles}
use customer_print_client.Manager.State.{
  CoreManager, office_address, office_at, store_office, store_offices, select_profile_at,
}

module _ {J F : Type 0} where
  -- Each office in the heap has profiles and lies below the next address.
  abbrev pub HeapOk : CoreManager J F → Type 0
  HeapOk m =
      (a : ℕ) (o : PrintOffice F) → office_at a m ≡ some o → HasProfiles o × (a < m.next_address)

  -- The map has addresses of offices with that id.
  abbrev pub MapOk : CoreManager J F → Type 0
  MapOk m =
      (k : Text) (a : ℕ)
      → office_address k m ≡ some a
      → (o : PrintOffice F) × (office_at a m ≡ some o) × (o.id ≡ k)

  -- The selected office is in the heap.
  abbrev pub SelectedOk : CoreManager J F → Type 0
  SelectedOk m =
      (a : ℕ) → m.selected_office ≡ some a → (o : PrintOffice F) × (office_at a m ≡ some o)

  abbrev pub OfficesOk : CoreManager J F → Type 0
  OfficesOk m = HeapOk m × MapOk m × SelectedOk m

  -- What was in the heap before an office is stored is still there.
  pub old_office :
      (a : ℕ) (o p : PrintOffice F) (m : CoreManager J F)
      → HeapOk m
      → office_at a m ≡ some p
      → office_at a (store_office o m) ≡ some p
  unfolding office_at store_office find
  old_office a o p m h e = elim (Bool-cases (m.next_address == a)) [
    | inl f ↦ ground (arith, (h a p e).1)
    | inr f ↦ rw f e
  ]

  pub store_office-OfficesOk :
      (o : PrintOffice F) (m : CoreManager J F)
      → HasProfiles o
      → OfficesOk m
      → OfficesOk (store_office o m)
  unfolding office_at office_address store_office find
  store_office-OfficesOk o m profiles (heap_ok, map_ok, selected_ok) = (
    λ a p e. elim (Bool-cases (m.next_address == a)) [
      | inl f ↦ (rw (← some-injective o p (rw f at e)) profiles, ground arith)
      | inr f ↦ let (has, low) = heap_ok a p (rw f at e) in (has, omega (arith, low))
    ],
    λ k a e. elim (Bool-cases (text_eq o.id k)) [
      | inl f ↦
          let same =
            some-injective m.next_address a
              (sym (find-assign o.id k m.next_address m.print_offices ∙ rw f) ∙ e) in
          (o, rw ((==_iff m.next_address a).1 same), (text_eq_iff o.id k).0 f)
      | inr f ↦
          let (p, g, named) =
            map_ok k a (sym (find-assign o.id k m.next_address m.print_offices ∙ rw f) ∙ e) in
          (p, old_office a o p m heap_ok g, named)
    ],
    λ a e. let (p, f) = selected_ok a e in (p, old_office a o p m heap_ok f),
  )

  pub store_offices-OfficesOk :
      (os : List (PrintOffice F)) (m : CoreManager J F)
      → All (λ o. HasProfiles o) os
      → OfficesOk m
      → OfficesOk (store_offices os m).0
  unfolding store_offices
  store_offices-OfficesOk [] m has ok = ok
  store_offices-OfficesOk (o ∷ os) m (has, rest) ok =
      store_offices-OfficesOk os (store_office o m) rest (store_office-OfficesOk o m has ok)

  office_before :
      (a b : ℕ) (puid : Text) (o p : PrintOffice F) (m : CoreManager J F)
      → office_at a m ≡ some o
      → find b (assign a (select_print_profile puid o) m.heap) ≡ some p
      → (q : PrintOffice F) × (office_at b m ≡ some q) × (p.profiles ≡ q.profiles)
  unfolding office_at select_print_profile
  office_before a b puid o p m e g =
      let there = find-assign a b (select_print_profile puid o) m.heap in
      elim (Bool-cases (a == b)) [
        | inl f ↦ (
          o,
          rw (← (==_iff a b).0 f) e,
          ap (λ (r : PrintOffice F). r.profiles)
              (sym (some-injective (select_print_profile puid o) p (sym (there ∙ rw f) ∙ g))),
        )
        | inr f ↦ (p, sym (there ∙ rw f) ∙ g, refl)
      ]

  office_after :
      (a b : ℕ) (puid : Text) (o q : PrintOffice F) (m : CoreManager J F)
      → office_at a m ≡ some o
      → office_at b m ≡ some q
      → (p : PrintOffice F) × (find b (assign a (select_print_profile puid o) m.heap) ≡ some p)
        × (p.id ≡ q.id)
  unfolding office_at select_print_profile
  office_after a b puid o q m e g =
      let there = find-assign a b (select_print_profile puid o) m.heap in
      elim (Bool-cases (a == b)) [
        | inl f ↦ (
          select_print_profile puid o,
          there ∙ rw f,
          ap (λ (r : PrintOffice F). r.id) (some-injective o q (sym e ∙ rw ((==_iff a b).0 f) g)),
        )
        | inr f ↦ (q, there ∙ rw f g, refl)
      ]

  pub select_profile_at-OfficesOk :
      (a : ℕ) (puid : Text) (m : CoreManager J F)
      → OfficesOk m
      → OfficesOk (select_profile_at a puid m)
  unfolding office_at office_address select_profile_at select_print_profile
  select_profile_at-OfficesOk a puid m (heap_ok, map_ok, selected_ok) =
      elim (Option-cases (office_at a m)) [
        | inl e ↦ rw (select_profile_at, e) (heap_ok, map_ok, selected_ok)
        | inr (o, e) ↦
            rw (select_profile_at, e)
              (
                λ b p g.
                    let (q, k, same) = office_before a b puid o p m e g in
                    let (has, low) = heap_ok b q k in (rw same has, low),
                λ k b g.
                    let (q, l, named) = map_ok k b g in
                    let (p, n, same) = office_after a b puid o q m e l in (p, n, same ∙ named),
                λ b g.
                    let (q, l) = selected_ok b g in
                    let (p, n, same) = office_after a b puid o q m e l in (p, n),
              )
      ]
