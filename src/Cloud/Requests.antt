-- ===== src/Cloud/Requests.antt =====
-- The requests of src/CustomerPrintClientCore/CloudPrintClient.cpp: what each Async function
-- posts to the HTTP client, or calls back without a request.
use customer_print_client.Prelude.{
  ℕ, true, List, [], ◌∷◌, ◌++◌, ◌⊎◌, inl, inr, Option, none, some, Text, codes,
}
use customer_print_client.Networking.Http.Definitions.{
  get, post, put, delete, HttpMethod, application_json, content_type_to_string, content_type_name,
  authorization_name,
}
use customer_print_client.Networking.Http.Number.{to_string}
use customer_print_client.Networking.Http.Content.{json_content, multipart_content, add_file}
use customer_print_client.Networking.Http.Request.{
  ParamList, HttpRequest, create_request, add_header, set_content,
}
use customer_print_client.Jobs.Types.{
  Exception, Request, create_job, upload_page, complete_job, get_job, cancel_job,
}
use customer_print_client.Jobs.Upload.{not_authorized}
use customer_print_client.Cloud.Json.{JsonLib}

pub record LoginContext : Type 0 where
  pub user_id : Text
  pub token : Text
  pub refresh_token : Text

-- The client: its server, the login context, if there is one, and the requests that it handed to
-- the HTTP client, the latest first. `now` is std::time, the id of the next request.
pub record CloudClient : Type 0 where
  pub server_name : Text
  pub login_ctx : Option LoginContext
  pub posted : List HttpRequest
  pub now : ℕ

abbrev pub new : CloudClient → HttpMethod → Text → ParamList → HttpRequest
new c method path params = create_request c.now c.server_name method path params

abbrev pub with_token : CloudClient → Text → HttpMethod → Text → ParamList → HttpRequest
with_token c token method path params =
    add_header authorization_name token (new c method path params)

unfoldable pub post_request : HttpRequest → CloudClient → CloudClient
post_request request c = record c { posted = request ∷ c.posted }

abbrev pub as_json : HttpRequest → HttpRequest
as_json request = add_header content_type_name (content_type_to_string application_json) request

-- What an Async function does at once: it posts a request, whose id it returns, or it calls back.
pub data Start (A : Type 0) : Type 0 where
  posts : HttpRequest → Start A
  calls_back : A ⊎ Exception → Start A

-- The test `if (!m_loginCtx)` of the functions that need a login; the request carries its token.
unfoldable pub authorized : {A : Type 0} → CloudClient → (Text → HttpRequest) → Start A
authorized c request = elim c.login_ctx [
  | none ↦ calls_back (inr not_authorized)
  | some ctx ↦ posts (request ctx.token)
]

module _ {J : Type 0} (json : JsonLib J) where
  unfoldable pub login_request : CloudClient → Text → Text → HttpRequest
  unfolding create_request set_content
  login_request c email pass =
      set_content
        (json_content (
          json.print (
            json.add_string (codes "password") pass
              (json.add_string (codes "email") email json.empty))))
        (new c post (codes "/api/v1/oauth/login") [])

  unfoldable pub sign_up_request : CloudClient → Text → Text → Text → HttpRequest
  unfolding create_request set_content
  sign_up_request c email pass name =
      set_content
        (json_content (
          json.print (
            json.add_string (codes "username") name (
              json.add_string (codes "password") pass
                (json.add_string (codes "email") email json.empty)))))
        (new c post (codes "/api/v1/clients") [])

  unfoldable pub reset_password_request : CloudClient → Text → HttpRequest
  unfolding create_request set_content
  reset_password_request c email =
      set_content (json_content (json.print (json.add_string (codes "email") email json.empty)))
        (new c post (codes "/api/v1/password/recovery") [])

  -- The content of AsyncCreateJob.
  unfoldable pub job_content : Text → Text → ℕ → ℕ → J
  job_content job_name fmt page_count copies =
      json.add_object (codes "settings")
        (json.add_string (codes "range") [] (json.add_number (codes "copies") copies json.empty))
        (json.add_boolean (codes "payLater") true (
          json.add_number (codes "amount") page_count (
            json.add_string (codes "format") fmt
              (json.add_string (codes "name") job_name json.empty))))

  -- AsyncCreateJob, AsyncUploadPage, AsyncCompleteJob, AsyncGetJob and AsyncCancelJob: the request
  -- under a token.
  unfoldable pub job_request : CloudClient → Text → Request → HttpRequest
  unfolding create_request add_header set_content job_content add_file to_string
  job_request c token (create_job office_id profile_id job_name fmt page_count copies) =
      set_content (json_content (json.print (job_content job_name fmt page_count copies))) (
        with_token c token post
          (codes "/api/v1/clients/jobs/" ++ (office_id ++ codes "/") ++ profile_id) [])
  job_request c token (upload_page job_id page_num filename content file_size content_type) =
      set_content
        (multipart_content (
          add_file (codes "page") filename (record { bytes = content; pos = 0 }) file_size
            content_type []))
        (with_token c token post
          (codes "/api/v1/clients/jobs/uploads/" ++ (job_id ++ codes "/") ++ to_string page_num) [])
  job_request c token (complete_job job_id) =
      with_token c token put (codes "/api/v1/clients/jobs/" ++ job_id ++ codes "/uploaded") []
  job_request c token (get_job job_id) =
      with_token c token get (codes "/api/v1/clients/jobs/" ++ job_id) []
  job_request c token (cancel_job job_id) =
      with_token c token delete (codes "/api/v1/clients/jobs/" ++ job_id) []

  unfoldable pub async_job : {A : Type 0} → CloudClient → Request → Start A
  unfolding authorized job_request
  async_job c r = authorized c (λ token. job_request c token r)

unfoldable pub login_anonymously_request : CloudClient → HttpRequest
unfolding create_request add_header
login_anonymously_request c = as_json (new c post (codes "/api/v1/clients/anonymous") [])

-- AsyncLogout and AsyncGetUserInfo, which call back with a success without a login. `A` is what
-- they call back with.
unfoldable pub logout_start : CloudClient → Start Unit
unfolding create_request add_header
logout_start c = elim c.login_ctx [
  | none ↦ calls_back (inl tt)
  | some ctx ↦ posts (
      add_header authorization_name ctx.token
        (as_json (new c post (codes "/api/v1/oauth/logout") [])))
]

pub data UserInfoStatus : Type 0 where
  not_logged logged_anonymous logged_with_creds : UserInfoStatus

pub record UserInfo : Type 0 where
  pub status : UserInfoStatus
  pub name : Text
  pub email : Text

abbrev pub no_user : UserInfo
no_user = record { status = not_logged; name = []; email = [] }

unfoldable pub get_user_info_start : CloudClient → Start UserInfo
unfolding create_request add_header
get_user_info_start c = elim c.login_ctx [
  | none ↦ calls_back (inl no_user)
  | some ctx ↦ posts (
      add_header authorization_name ctx.token (as_json (new c get (codes "/api/v1/clients/me") [])))
]

-- AsyncSearchPrintOffices; the coordinates are the texts that std::to_string makes of the floats.
unfoldable pub search_start : {A : Type 0} → CloudClient → Text → Text → ℕ → Start A
unfolding authorized create_request add_header to_string
search_start c lat lon radius = authorized c (λ token.
    with_token c token get (codes "/api/v1/clients/search")
      ((codes "lat", lat) ∷ (codes "lon", lon) ∷ (codes "r", to_string radius) ∷ []))

unfoldable pub get_print_office_start : {A : Type 0} → CloudClient → Text → Start A
unfolding authorized create_request add_header
get_print_office_start c office_id =
    authorized c
      (λ token. with_token c token get (codes "/api/v1/clients/offices/" ++ office_id) [])

unfoldable pub get_jobs_list_start : {A : Type 0} → CloudClient → ℕ → ℕ → Start A
unfolding authorized create_request add_header to_string
get_jobs_list_start c offset limit = authorized c (λ token.
    with_token c token get (codes "/api/v1/clients/jobs/")
      ((codes "limit", to_string limit) ∷ (codes "offset", to_string offset) ∷ []))

-- The end of an Async function: the state, and the id that it returns (0 without a request).
unfoldable pub begin : {A : Type 0} → Start A → CloudClient → CloudClient × ℕ
unfolding post_request
begin (posts request) c = (post_request request c, request.id)
begin (calls_back outcome) c = (c, 0)
