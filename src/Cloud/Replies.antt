-- ===== src/Cloud/Replies.antt =====
-- The callbacks of src/CustomerPrintClientCore/CloudPrintClient.cpp: what each makes of the HTTP
-- client's response or exception.
use customer_print_client.Prelude.{
  ◌⊎◌, inl, inr, Option, none, some, Text, codes, text_eq, ◌==◌, if◌then◌else◌,
}
use customer_print_client.Networking.Http.Response.{HttpResponse}
use customer_print_client.Jobs.Types.{Exception, http, CreateJobResult, UploadPageResult}
use customer_print_client.Cloud.Json.{JsonLib}
use customer_print_client.Cloud.Requests.{
  LoginContext, CloudClient, UserInfo, logged_anonymous, logged_with_creds,
}

-- The response, or the exception, that the HTTP client calls back with.
abbrev pub Reply : Type 0
Reply = HttpResponse ⊎ Exception

-- A success without a value.
abbrev pub Done : Type 0
Done = Unit

-- HttpException(500, Http::FailedParseResponseBody)
abbrev pub failed_parse : Exception
failed_parse = http 500 (codes "Failed parse response body")

module _ {J : Type 0} (json : JsonLib J) where
  -- The last statement of the callbacks, for a code other than 200.
  unfoldable pub server_error : HttpResponse → Exception
  server_error r = elim (json.parse r.content) [
    | none ↦ http r.status_code r.status_message
    | some content ↦ elim (json.string_of content (codes "error")) [
      | none ↦ http r.status_code r.status_message
      | some error ↦ http r.status_code error
    ]
  ]

  -- `contentParsed && content.has<Object>("body")`
  abbrev pub body_of : HttpResponse → Option J
  body_of r = elim (json.parse r.content) [
    | none ↦ none
    | some content ↦ json.object_of content (codes "body")
  ]

  abbrev pub two_strings : Option J → Text → Text → Option (Text × Text)
  two_strings none a b = none
  two_strings (some body) a b = elim (json.string_of body a) [
    | none ↦ none
    | some s ↦ elim (json.string_of body b) [ none ↦ none | some t ↦ some (s, t) ]
  ]

  -- The test of the code: what a response with code 200 gives, or the server's error.
  abbrev pub on_success : {A : Type 0} → (HttpResponse → A ⊎ Exception) → Reply → A ⊎ Exception
  on_success f (inr ex) = inr ex
  on_success f (inl r) = if r.status_code == 200 then f r else inr (server_error r)

  abbrev or_failed_parse : {A : Type 0} → Option A → A ⊎ Exception
  or_failed_parse none = inr failed_parse
  or_failed_parse (some a) = inl a

  -- AsyncLogin: the tokens, and what the callback does with them.
  unfoldable pub login_tokens : Reply → (Text × Text) ⊎ Exception
  unfolding server_error
  login_tokens =
      on_success λ r. or_failed_parse (two_strings (body_of r) (codes "token") (codes "refresh"))

  unfoldable pub login_reply : Reply → CloudClient → CloudClient × (Done ⊎ Exception)
  unfolding login_tokens
  login_reply reply c = elim (login_tokens reply) [
    | inr ex ↦ (c, inr ex)
    | inl (token, refresh) ↦ (
      record c {
        login_ctx = some (record { user_id = codes ""; token = token; refresh_token = refresh });
      },
      inl tt,
    )
  ]

  unfoldable pub sign_up_reply : Reply → Done ⊎ Exception
  unfolding server_error
  sign_up_reply = on_success λ r. elim (json.parse r.content) [
    | none ↦ inr failed_parse
    | some content ↦ elim (json.string_of content (codes "body")) [
      | none ↦ inr failed_parse
      | some uuid ↦ inl tt
    ]
  ]

  -- AsyncResetPassword, AsyncCompleteJob and AsyncCancelJob.
  unfoldable pub void_reply : Reply → Done ⊎ Exception
  unfolding server_error
  void_reply = on_success λ r. inl tt

  -- AsyncLoginAnonymously
  unfoldable pub anonymous_context : Reply → LoginContext ⊎ Exception
  unfolding server_error
  anonymous_context = on_success λ r. elim (body_of r) [
    | none ↦ inr failed_parse
    | some body ↦ elim (json.string_of body (codes "uuid")) [
      | none ↦ inr failed_parse
      | some uuid ↦ elim (two_strings (some body) (codes "token") (codes "refresh")) [
        | none ↦ inr failed_parse
        | some (token, refresh) ↦
            inl (record { user_id = uuid; token = token; refresh_token = refresh })
      ]
    ]
  ]

  unfoldable pub login_anonymously_reply : Reply → CloudClient → CloudClient × (Done ⊎ Exception)
  unfolding anonymous_context
  login_anonymously_reply reply c = elim (anonymous_context reply) [
    | inr ex ↦ (c, inr ex)
    | inl ctx ↦ (record c { login_ctx = some ctx }, inl tt)
  ]

  unfoldable pub logout_reply : Reply → CloudClient → CloudClient × (Done ⊎ Exception)
  unfolding void_reply
  logout_reply reply c = elim (void_reply reply) [
    | inr ex ↦ (c, inr ex)
    | inl done ↦ (record c { login_ctx = none }, inl tt)
  ]

  -- AsyncGetUserInfo: the id, the name and the e-mail address.
  unfoldable pub user_fields : Reply → (Text × (Text × Text)) ⊎ Exception
  unfolding server_error
  user_fields = on_success λ r. elim (body_of r) [
    | none ↦ inr failed_parse
    | some body ↦ elim (json.string_of body (codes "uuid")) [
      | none ↦ inr failed_parse
      | some uuid ↦ elim (two_strings (some body) (codes "email") (codes "username")) [
        | none ↦ inr failed_parse
        | some (email, name) ↦ inl (uuid, (name, email))
      ]
    ]
  ]

  -- The code stores the id through m_loginCtx, which is set when the request is posted; a logout
  -- that was answered in between has reset it, and the write goes through a null pointer: `none`.
  unfoldable pub get_user_info_reply :
      Reply → CloudClient → CloudClient × Option (UserInfo ⊎ Exception)
  unfolding user_fields
  get_user_info_reply reply c = elim (user_fields reply) [
    | inr ex ↦ (c, some (inr ex))
    | inl (uuid, (name, email)) ↦ elim c.login_ctx [
      | none ↦ (c, none)
      | some ctx ↦ (
        record c { login_ctx = some (record ctx { user_id = uuid }) },
        some (
            inl (record {
              status =
                  if text_eq name (codes "anonymous") then logged_anonymous else logged_with_creds;
              name = name;
              email = email;
            })),
      )
    ]
  ]

  unfoldable pub create_job_reply : Reply → CreateJobResult ⊎ Exception
  unfolding server_error
  create_job_reply = on_success λ r.
      elim (two_strings (body_of r) (codes "juid") (codes "accessCode")) [
        | none ↦ inr failed_parse
        | some (juid, code) ↦ inl (record { job_id = juid; access_code = code })
      ]

  unfoldable pub upload_page_reply : Reply → UploadPageResult ⊎ Exception
  unfolding server_error
  upload_page_reply = on_success λ r. elim (two_strings (body_of r) (codes "url") (codes "pguid")) [
    | none ↦ inr failed_parse
    | some (url, pguid) ↦ inl (record { url = url; page_id = pguid })
  ]

  -- AsyncGetJob and AsyncGetPrintOffice: `read` is the constructor from JSON and its `operator
  -- bool`.
  unfoldable pub object_reply : {A : Type 0} → (J → Option A) → Reply → A ⊎ Exception
  unfolding server_error
  object_reply read =
      on_success
        λ r. elim (body_of r) [ none ↦ inr failed_parse | some body ↦ or_failed_parse (read body) ]
