-- ===== src/Manager/Usable.antt =====
-- In each reached system the offices of the core manager can be used: they have profiles, and the
-- one that is selected is the one with the id.
use customer_print_client.Prelude.{
  ℕ, suc, [], true, Bool, ◌≡◌, refl, ap, ◌∙◌, none, some, List, ◌∷◌, Text, codes, Option-cases,
  Bool-cases, inl, inr, ◌⊎◌, and_then, false,
}
use customer_print_client.Prelude.Dict.{find, erase}
use customer_print_client.Jobs.Processor.{id_key}
use customer_print_client.Offices.Offices.{
  PrintOffice, get_selected_print_profile, select_print_profile,
}
use customer_print_client.Offices.Profiles.{RendererProfile, convert_print_profile, PrintProfile}
use customer_print_client.Offices.Selection.{HasProfiles, selected-select_print_profile}
use customer_print_client.Manager.State.{
  Outside, CoreManager, office_address, office_at, the_selected_office, create_print_profile,
  select_office,
}
use customer_print_client.Manager.Printing.{
  runs, throws, JobContentType, images, pdf, run_printing, Renderer, image_bundle, pdf_document,
  null_document, Opened, opens, no_document, open_throws, has_document, open_renderer, Printing,
  PrintingJob, no_pdf_library,
}
use customer_print_client.Manager.Calls.{Next, settles, waits, faults, start, answer}
use customer_print_client.Manager.Machine.{
  System, Event, call, answered, selects_office, selects_profile, updates_config, apply, apply_all,
  proceed, step, Reachable, at_start, after,
}
use customer_print_client.Manager.Heap.{OfficesOk, select_profile_at-OfficesOk}
use customer_print_client.Manager.Kept.{start-OfficesOk, answer-OfficesOk}

module _ {J N F : Type 0} (out : Outside J N F) where
  select_office-OfficesOk :
      (ouid : Text) (m : CoreManager J F) → OfficesOk m → OfficesOk (select_office out ouid m)
  unfolding select_office office_address office_at
  select_office-OfficesOk ouid m (heap_ok, map_ok, selected_ok) =
      (heap_ok, map_ok, λ a e. let (o, f, named) = map_ok ouid a e in (o, f))

  apply_all-OfficesOk :
      (p : ℕ) (es : Next) (s : System J F)
      → OfficesOk s.manager
      → OfficesOk (apply_all out p es s).manager
  unfolding apply apply_all
  apply_all-OfficesOk p [] s ok = ok
  apply_all-OfficesOk p (settles o ∷ es) s ok = apply_all-OfficesOk p es _ ok
  apply_all-OfficesOk p (waits w ∷ es) s ok = apply_all-OfficesOk p es _ ok
  apply_all-OfficesOk p (faults ∷ es) s ok = apply_all-OfficesOk p es _ ok

  proceed-OfficesOk :
      (p : ℕ) (x : CoreManager J F × Next) (s : System J F)
      → OfficesOk x.0
      → OfficesOk (proceed out p x s).manager
  unfolding proceed
  proceed-OfficesOk p (m, es) s ok = apply_all-OfficesOk p es (record s { manager = m }) ok

  step-OfficesOk :
      (e : Event F) (s : System J F) → OfficesOk s.manager → OfficesOk (step out e s).manager
  unfolding step office_address office_at
  step-OfficesOk (call c) s ok =
      proceed-OfficesOk s.next_promise (start out c s.manager)
        (record s { next_promise = suc s.next_promise }) (start-OfficesOk out c s.manager ok)
  step-OfficesOk (answered q r) s ok = elim (Option-cases (find q s.waiting)) [
    | inl e ↦ rw (step, e) ok
    | inr (w, e) ↦
        rw (step, e)
          (proceed-OfficesOk q (answer out w r s.manager) (record s { waiting = erase q s.waiting })
            (answer-OfficesOk out w r s.manager ok))
  ]
  step-OfficesOk (selects_office ouid) s ok = select_office-OfficesOk ouid s.manager ok
  step-OfficesOk (selects_profile a puid) s ok = select_profile_at-OfficesOk a puid s.manager ok
  step-OfficesOk updates_config s ok = ok

  -- From a core manager whose map and selection point to offices with profiles, every sequence of
  -- calls, answers and selections leads to one of that kind: each office in the heap has a profile,
  -- the map finds only offices with the id that is looked up, and the selected office is there.
  pub Reachable-OfficesOk :
      {m : CoreManager J F} {s : System J F} → OfficesOk m → Reachable out m s → OfficesOk s.manager
  Reachable-OfficesOk ok at_start = ok
  Reachable-OfficesOk ok (after {s} r e) = step-OfficesOk e s (Reachable-OfficesOk ok r)

module _ {J N F : Type 0} (out : Outside J N F) (open_pdf : Text → Opened) where
  not_selected :
      (content_type : JobContentType) (files : List Text) (m : CoreManager J F)
      → the_selected_office m ≡ none
      → run_printing open_pdf content_type files m ≡ throws (codes "Print office not selected")
  unfolding run_printing
  not_selected content_type files m e = rw (run_printing, e)

  -- The PDF library is there, and the first file does not open.
  abbrev pub NotOpened : List Text → Bool → Text → Printing PrintingJob → Type 0
  NotOpened [] library office_id x = ⊥
  NotOpened (file ∷ files) library office_id x =
      (library ≡ true)
      × (((what : Text) × (open_pdf file ≡ open_throws what) × (x ≡ throws what))
          ⊎ ((open_pdf file ≡ no_document)
              × ((profile : RendererProfile) × (profile_id : Text) × (x
                    ≡ runs (record {
                      renderer = null_document file profile;
                      office_id = office_id;
                      profile_id = profile_id;
                    })))))

  Opened-cases :
      (x : Opened) → (x ≡ opens) ⊎ ((x ≡ no_document) ⊎ ((what : Text) × (x ≡ open_throws what)))
  Opened-cases opens = inl refl
  Opened-cases no_document = inr (inl refl)
  Opened-cases (open_throws what) = inr (inr (what, refl))

  -- Where an office with a selected profile is selected, printing runs with their ids and a document,
  -- unless a PDF is to be printed without the library for it, or its first file does not open: then
  -- the exception of the library is thrown, or the job has a null document.
  abbrev pub Prints : JobContentType → List Text → Text → CoreManager J F → Type 0
  Prints content_type files office_id m =
      ((r : Renderer) × (p : PrintProfile F) × (has_document r ≡ true)
        × (run_printing open_pdf content_type files m
            ≡ runs (record { renderer = r; office_id = office_id; profile_id = p.id })))
      ⊎ ((content_type ≡ pdf)
          × (((m.has_pdf_library ≡ false)
                × (run_printing open_pdf content_type files m ≡ throws no_pdf_library))
              ⊎ (NotOpened files (m.has_pdf_library) office_id
                  (run_printing open_pdf content_type files m))))

  create_lem :
      (o : PrintOffice F) (p : PrintProfile F)
      → get_selected_print_profile o ≡ some p
      → create_print_profile (some o) ≡ convert_print_profile (some p)
  unfolding create_print_profile
  create_lem o p f = ap convert_print_profile f

  run_printing_lem :
      (content_type : JobContentType) (file : Text) (files : List Text) (m : CoreManager J F)
      (o : PrintOffice F) (p : PrintProfile F)
      → the_selected_office m ≡ some o
      → get_selected_print_profile o ≡ some p
      → Prints content_type (file ∷ files) o.id m
  unfolding run_printing open_renderer
  run_printing_lem images file files m o p e f = inl (
    image_bundle (file ∷ files) (convert_print_profile (some p)),
    p,
    refl,
    rw (run_printing, e, f, create_lem o p f),
  )
  run_printing_lem pdf file files m o p e f = elim (Bool-cases m.has_pdf_library) [
    | inl h ↦ elim (Opened-cases (open_pdf file)) [
      | inl g ↦ inl (
        pdf_document file (convert_print_profile (some p)),
        p,
        refl,
        rw (run_printing, e, f, h, create_lem o p f) (rw (open_renderer, g) refl),
      )
      | inr (inl g) ↦ inr (
        refl,
        inr (
          h,
          inr (
            g,
            (
              convert_print_profile (some p),
              p.id,
              rw (run_printing, e, f, h, create_lem o p f) (rw (open_renderer, g) refl),
            ),
          ),
        ),
      )
      | inr (inr (what, g)) ↦ inr (
        refl,
        inr (
          h,
          inl (what, g, rw (run_printing, e, f, h, create_lem o p f) (rw (open_renderer, g) refl)),
        ),
      )
    ]
    | inr h ↦ inr (refl, inl (h, rw (run_printing, e, f, h)))
  ]

  selected_profile_lem :
      (o : PrintOffice F)
      → HasProfiles o
      → (p : PrintProfile F) × (get_selected_print_profile o ≡ some p)
  unfolding select_print_profile
  selected_profile_lem o has =
      let (p, e, rest, chosen) = selected-select_print_profile o o.selected_profile_id has in (p, e)

  -- In each reached system, started from a core manager whose map and selection point to offices
  -- with profiles: SelectOffice of an id and then AsyncRunPrinting of one or more files either
  -- throws "Print office not selected", if the id is not in the map, or hands a job for an office
  -- of that id and a profile to the processor, with a document; or, for a PDF, throws if its library
  -- is missing or fails to open the first file, or hands on a job with a null document, if the library
  -- says that the file is not available. No other case is there, such as an office without a profile.
  pub run_printing-select_office :
      {m : CoreManager J F} {s : System J F} (ouid : Text) (content_type : JobContentType)
      (file : Text) (files : List Text)
      → OfficesOk m
      → Reachable out m s
      → ((office_address ouid s.manager ≡ none)
          × (run_printing open_pdf content_type (file ∷ files) (select_office out ouid s.manager)
              ≡ throws (codes "Print office not selected")))
        ⊎ (Prints content_type (file ∷ files) ouid (select_office out ouid s.manager))
  unfolding select_office the_selected_office
  run_printing-select_office {m} {s} ouid content_type file files ok reached =
      let (heap_ok, map_ok, _) = Reachable-OfficesOk out ok reached in
      let m' = select_office out ouid s.manager in
      elim (Option-cases (office_address ouid s.manager)) [
        | inl e ↦ inl (
          e,
          not_selected content_type (file ∷ files) m'
              (ap (λ o. and_then o (λ a. office_at a s.manager)) e),
        )
        | inr (a, e) ↦
            let (o, f, named) = map_ok ouid a e in
            let (has, low) = heap_ok a o f in
            let (p, g) = selected_profile_lem o has in
            inr (
              rw named at (
                run_printing_lem content_type file files m' o p
                  (ap (λ o. and_then o (λ a. office_at a s.manager)) e ∙ f) g))
      ]
