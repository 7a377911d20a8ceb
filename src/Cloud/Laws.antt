-- ===== src/Cloud/Laws.antt =====
-- The login context and the requests of src/CustomerPrintClientCore/CloudPrintClient.cpp.
use customer_print_client.Prelude.{
  ◌≡◌, ◌≢◌, refl, ◌⊎◌, inl, inr, none, some, ◌∷◌, Text, codes, text_eq, arith, ==_iff, Option-cases,
  Sum-cases,
}
use customer_print_client.Prelude.Dict.{find, assign}
use customer_print_client.Networking.Http.Definitions.{
  authorization_name, content_length_name, content_type_name,
}
use customer_print_client.Networking.Http.Request.{
  text_key, HttpRequest, create_request, new_request, add_header, set_content,
}
use customer_print_client.Networking.Http.Response.{HttpResponse}
use customer_print_client.Jobs.Types.{
  Exception, http, Request, create_job, upload_page, complete_job, get_job, cancel_job,
}
use customer_print_client.Jobs.Upload.{not_authorized}
use customer_print_client.Cloud.Json.{JsonLib}
use customer_print_client.Cloud.Requests.{
  LoginContext, CloudClient, Start, calls_back, post_request, begin, authorized, job_request,
  async_job,
}
use customer_print_client.Cloud.Replies.{
  server_error, login_tokens, login_reply, sign_up_reply, void_reply, anonymous_context,
  login_anonymously_reply, logout_reply, user_fields, get_user_info_reply, create_job_reply,
  upload_page_reply, Reply, Done,
}

module _ {J : Type 0} (json : JsonLib J) where
  token_sent :
      (c : CloudClient) (token : Text) (r : Request)
      → (find authorization_name (job_request json c token r).headers ≡ some token)
        × (find (codes "Host") (job_request json c token r).headers ≡ some c.server_name)
        × ((job_request json c token r).id ≡ c.now)
  unfolding job_request create_request new_request add_header set_content find assign text_eq
      authorization_name content_length_name content_type_name
  token_sent c token (create_job a b d e n k) = (refl, refl, refl)
  token_sent c token (upload_page a n b d k t) = (refl, refl, refl)
  token_sent c token (complete_job a) = (refl, refl, refl)
  token_sent c token (get_job a) = (refl, refl, refl)
  token_sent c token (cancel_job a) = (refl, refl, refl)

  -- Without a login context a call on a job posts nothing, returns the id 0 and calls back with
  -- the exception "Not authorized". With one, it posts one request to the client's server, under
  -- the token of that context, and returns the request's id, which is the time.
  pub async_job_authorized :
      {A : Type 0} (c : CloudClient) (r : Request)
      → let started : Start A = async_job json c r in
        ((c.login_ctx ≡ none)
          × (started ≡ calls_back (inr not_authorized))
          × (begin started c ≡ (c, 0)))
        ⊎ ((ctx : LoginContext) × (request : HttpRequest) × (c.login_ctx ≡ some ctx)
            × (begin started c ≡ (record c { posted = request ∷ c.posted }, request.id))
            × (request.id ≡ c.now)
            × (find authorization_name request.headers ≡ some ctx.token)
            × (find (codes "Host") request.headers ≡ some c.server_name))
  unfolding async_job authorized begin post_request
  async_job_authorized c r = elim (Option-cases c.login_ctx) [
    | inl e ↦ inl (e, rw e refl, rw e refl)
    | inr (ctx, e) ↦
        let (auth, host, id) = token_sent c ctx.token r in
        inr (ctx, job_request json c ctx.token r, e, rw e refl, id, auth, host)
  ]

  -- The context and the outcome after a reply: a success with a new context, or an exception with
  -- the context that was there.
  abbrev pub SetsContext : CloudClient → CloudClient × (Done ⊎ Exception) → Type 0
  SetsContext c (c', outcome) =
      ((ctx : LoginContext) × (c' ≡ record c { login_ctx = some ctx }) × (outcome ≡ inl tt))
      ⊎ ((ex : Exception) × (c' ≡ c) × (outcome ≡ inr ex))

  login-SetsContext : (reply : Reply) (c : CloudClient) → SetsContext c (login_reply json reply c)
  unfolding login_reply
  login-SetsContext reply c = elim (Sum-cases (login_tokens json reply)) [
    | inl ((token, refresh), e) ↦ rw (e, login_reply) (inl (_, refl, refl))
    | inr (ex, e) ↦ rw (e, login_reply) (inr (ex, refl, refl))
  ]

  anonymous-SetsContext :
      (reply : Reply) (c : CloudClient) → SetsContext c (login_anonymously_reply json reply c)
  unfolding login_anonymously_reply
  anonymous-SetsContext reply c = elim (Sum-cases (anonymous_context json reply)) [
    | inl (ctx, e) ↦ rw (e, login_anonymously_reply) (inl (ctx, refl, refl))
    | inr (ex, e) ↦ rw (e, login_anonymously_reply) (inr (ex, refl, refl))
  ]

  logout_follows :
      (reply : Reply) (c : CloudClient)
      → (logout_reply json reply c ≡ (record c { login_ctx = none }, inl tt))
        ⊎ ((ex : Exception) × (logout_reply json reply c ≡ (c, inr ex)))
  unfolding logout_reply
  logout_follows reply c = elim (Sum-cases (void_reply json reply)) [
    | inl (t, e) ↦ inl (rw (e, logout_reply) refl)
    | inr (ex, e) ↦ inr (ex, rw (e, logout_reply) refl)
  ]

  -- A login, with or without an account, sets a login context and calls back with a success, or
  -- leaves the client as it was and calls back with an exception. A logout drops the context and
  -- calls back with a success, or leaves the client and calls back with an exception.
  pub login_ctx_follows :
      (reply : Reply) (c : CloudClient)
      → SetsContext c (login_reply json reply c)
        × SetsContext c (login_anonymously_reply json reply c)
        × ((logout_reply json reply c ≡ (record c { login_ctx = none }, inl tt))
            ⊎ ((ex : Exception) × (logout_reply json reply c ≡ (c, inr ex))))
  login_ctx_follows reply c =
      (login-SetsContext reply c, anonymous-SetsContext reply c, logout_follows reply c)

  server_error_http :
      (r : HttpResponse) → (msg : Text) × (server_error json r ≡ http r.status_code msg)
  unfolding server_error
  server_error_http r = elim (Option-cases (json.parse r.content)) [
    | inl e ↦ (r.status_message, rw (e, server_error) refl)
    | inr (content, e) ↦ elim (Option-cases (json.string_of content (codes "error"))) [
      | inl e' ↦ (r.status_message, rw (e, server_error) (rw e' refl))
      | inr (error, e') ↦ (error, rw (e, server_error) (rw e' refl))
    ]
  ]

  -- A response with a code other than 200 makes the callbacks of the logins, the logout, the
  -- user info, the sign-up, the creation of a job, the upload of a page and the calls without a
  -- value (completion, cancellation, password) give an HttpException with that
  -- code, and leaves the client as it was.
  pub refused_reply :
      (r : HttpResponse) (c : CloudClient)
      → r.status_code ≢ 200
      → (msg : Text) × (login_reply json (inl r) c ≡ (c, inr (http r.status_code msg)))
        × (login_anonymously_reply json (inl r) c ≡ (c, inr (http r.status_code msg)))
        × (logout_reply json (inl r) c ≡ (c, inr (http r.status_code msg)))
        × (get_user_info_reply json (inl r) c ≡ (c, some (inr (http r.status_code msg))))
        × (sign_up_reply json (inl r) ≡ inr (http r.status_code msg))
        × (void_reply json (inl r) ≡ inr (http r.status_code msg))
        × (create_job_reply json (inl r) ≡ inr (http r.status_code msg))
        × (upload_page_reply json (inl r) ≡ inr (http r.status_code msg))
  unfolding login_reply login_anonymously_reply logout_reply get_user_info_reply login_tokens
      anonymous_context void_reply user_fields sign_up_reply create_job_reply upload_page_reply
  refused_reply r c h =
      let (msg, e) = server_error_http r in
      let ex = http r.status_code msg in
      let none_in : login_tokens json (inl r) ≡ inr ex =
        ground (arith, e, ==_iff r.status_code 200) in
      let no_one : anonymous_context json (inl r) ≡ inr ex =
        ground (arith, e, ==_iff r.status_code 200) in
      let not_out : void_reply json (inl r) ≡ inr ex =
        ground (arith, e, ==_iff r.status_code 200) in
      let no_user : user_fields json (inl r) ≡ inr ex =
        ground (arith, e, ==_iff r.status_code 200) in
      (
        msg,
        rw (none_in, login_reply) refl,
        rw (no_one, login_anonymously_reply) refl,
        rw (not_out, logout_reply) refl,
        rw (no_user, get_user_info_reply) refl,
        ground (arith, e, ==_iff r.status_code 200),
        not_out,
        ground (arith, e, ==_iff r.status_code 200),
        ground (arith, e, ==_iff r.status_code 200),
      )
