-- ===== src/Manager/Printing.antt =====
-- AsyncRunPrinting and CreatePreviewRenderer of CoreManager.cpp: what they make of the selected
-- office before a job or a preview starts.
use customer_print_client.Prelude.{
  Bool, true, false, none, some, List, [], ◌∷◌, Text, codes, if◌then◌else◌,
}
use customer_print_client.Networking.Http.Request.{text_key}
use customer_print_client.Jobs.Processor.{id_key}
use customer_print_client.Offices.Profiles.{RendererProfile}
use customer_print_client.Offices.Offices.{get_selected_print_profile}
use customer_print_client.Manager.State.{CoreManager, the_selected_office, create_print_profile}

pub data JobContentType : Type 0 where
  images pdf : JobContentType

-- What Library::OpenDocument makes of a file with the PDF library behind it: a document, a null pointer
-- for a file that is not available, or the exception that the library's error becomes.
pub data Opened : Type 0 where
  opens no_document : Opened
  open_throws : Text → Opened

-- A renderer: the files of its document and the profile it draws for; a PDF renderer may have a null
-- document.
pub data Renderer : Type 0 where
  image_bundle : List Text → RendererProfile → Renderer
  pdf_document null_document : Text → RendererProfile → Renderer

-- What AsyncRunPrinting hands to the job processor.
pub record PrintingJob : Type 0 where
  pub renderer : Renderer
  pub office_id : Text
  pub profile_id : Text

-- An exception that is thrown to the caller, a result, or undefined behaviour.
pub data Printing (A : Type 0) : Type 0 where
  throws : Text → Printing A
  runs : A → Printing A
  undefined : Printing A

abbrev pub has_document : Renderer → Bool
has_document (null_document file profile) = false
has_document _ = true

abbrev pub no_pdf_library : Text
no_pdf_library = codes "Pdf library not initialized"

abbrev printing_job : Text → Text → Renderer → PrintingJob
printing_job office_id profile_id renderer = record {
  renderer = renderer;
  office_id = office_id;
  profile_id = profile_id;
}

-- The constructor of PdfDocumentRenderer
unfoldable pub open_renderer : (Text → Opened) → Text → RendererProfile → Printing Renderer
open_renderer open_pdf file profile = elim (open_pdf file) [
  | opens ↦ runs (pdf_document file profile)
  | no_document ↦ runs (null_document file profile)
  | open_throws what ↦ throws what
]

abbrev pub then_runs : {A B : Type 0} → (A → B) → Printing A → Printing B
then_runs f (runs a) = runs (f a)
then_runs f (throws what) = throws what
then_runs f undefined = undefined

module _ {J F : Type 0} (open_pdf : Text → Opened) where
  -- AsyncRunPrinting up to RenderAndUpload. Undefined are the selected profile of an office without
  -- one, and the first of no files.
  unfoldable pub run_printing : JobContentType → List Text → CoreManager J F → Printing PrintingJob
  unfolding the_selected_office create_print_profile get_selected_print_profile open_renderer
  run_printing content_type files m = elim (the_selected_office m) [
    | none ↦ throws (codes "Print office not selected")
    | some o ↦ elim (get_selected_print_profile o) [
      | none ↦ undefined
      | some p ↦
          let job = printing_job o.id p.id in
          elim content_type [
            | images ↦ runs (job (image_bundle files (create_print_profile (some o))))
            | pdf ↦
                if m.has_pdf_library
                then elim files [
                  | [] ↦ undefined
                  | file ∷ rest ↦
                      then_runs job (open_renderer open_pdf file (create_print_profile (some o)))
                ]
                else throws no_pdf_library
          ]
    ]
  ]

  unfoldable pub create_preview_renderer :
      JobContentType → List Text → CoreManager J F → Printing Renderer
  unfolding the_selected_office create_print_profile open_renderer
  create_preview_renderer images files m =
      runs (image_bundle files (create_print_profile (the_selected_office m)))
  create_preview_renderer pdf files m =
      if m.has_pdf_library
      then elim files [
        | [] ↦ open_renderer open_pdf [] (create_print_profile (the_selected_office m))
        | file ∷ rest ↦ open_renderer open_pdf file (create_print_profile (the_selected_office m))
      ]
      else throws no_pdf_library
