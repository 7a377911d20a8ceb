-- ===== src/Jobs/Types.antt =====
-- The data of src/CustomerPrintClientCore/JobProcessor.cpp and of the calls that it makes of
-- CloudPrintClient (CloudPrintClient.h), with the exceptions that its callbacks receive
-- (src/Networking/Http/TcpException.h and HttpException.h, TitledException.h).
use customer_print_client.Prelude.{ℕ, Bool, List, Option, Text}
use customer_print_client.Networking.Http.Definitions.{ContentType}

-- The title of an error of a job: the messages of the code, one constructor each.
pub data JobError : Type 0 where
  failed_to_render create_error failed_to_complete failed_to_retrieve : JobError
  failed_to_upload : ℕ → JobError

pub data Exception : Type 0 where
  tcp : Text → Bool → Exception
  http : ℕ → Text → Exception
  other : Text → Exception
  titled : JobError → Text → Exception

pub record CreateJobResult : Type 0 where
  pub job_id : Text
  pub access_code : Text

pub record UploadPageResult : Type 0 where
  pub url : Text
  pub page_id : Text

-- The stream is its bytes.
pub record FileStream : Type 0 where
  pub name : Text
  pub content : Text
  pub content_size : ℕ

-- PendingJobInfo, the entry of m_pendingJobs.
pub record PendingJobInfo : Type 0 where
  pub cancelling : Bool
  pub current_http_request_id : ℕ

-- IPendingJobProgressCallback: the notifications, with the job's id.
pub data Progress : Type 0 where
  on_create : ℕ → Text → ℕ → ℕ → Text → Text → Progress
  on_rendering on_uploading : ℕ → ℕ → Text → Progress
  on_error : ℕ → JobError → Progress
  on_complete on_destroy : ℕ → Progress
  on_cancel : ℕ → Text → Progress

-- UploadPagesContext. `job_info` is null until the server has created the job.
pub record UploadContext : Type 0 where
  pub job : ℕ
  pub job_name : Text
  pub job_info : Option CreateJobResult
  pub input_streams : List FileStream
  pub upload_results : List UploadPageResult

-- The arguments of the calls of CloudPrintClient.
pub data Request : Type 0 where
  create_job : Text → Text → Text → Text → ℕ → ℕ → Request
  upload_page : Text → ℕ → Text → Text → ℕ → ContentType → Request
  complete_job get_job cancel_job : Text → Request

-- The document of an IDocumentRenderer, as far as the processor asks for it.
pub record Document : Type 0 where
  pub job_name : Text
  pub page_count : ℕ
  pub page_file_name : ℕ → Text

-- What the render task captures.
pub record RenderContext : Type 0 where
  pub job : ℕ
  pub job_name : Text
  pub document : Document
  pub office_id : Text
  pub profile_id : Text
  pub copies : ℕ
  pub page_num : ℕ
  pub streams : List FileStream

-- The one piece of work that a job waits for: the next page of its render task, or the callback
-- of a call to the server.
pub data Task : Type 0 where
  rendering : RenderContext → Task
  creating uploading completing retrieving : UploadContext → Task
  cancelling : UploadContext → Option Exception → Task
