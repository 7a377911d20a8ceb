-- ===== src/Manager/Calls.antt =====
-- The Async members of src/CustomerPrintClientCore/CoreManager.cpp: what each does at once, and
-- what its callbacks do with the server's answers. A promise is settled where the code calls
-- set_value or set_exception.
use customer_print_client.Prelude.{
  ℕ, Bool, true, false, ◌⊎◌, inl, inr, Option, none, some, List, [], ◌∷◌, Text,
}
use customer_print_client.Core.Credentials.{get_credentials, set_credentials, clear_credentials}
use customer_print_client.Cloud.Requests.{
  CloudClient, Start, posts, calls_back, post_request, UserInfo, no_user, logged_anonymous,
  login_request, sign_up_request, reset_password_request, login_anonymously_request, logout_start,
  get_user_info_start, search_start, get_print_office_start, get_jobs_list_start,
}
use customer_print_client.Cloud.Replies.{
  Reply, Done, login_reply, sign_up_reply, void_reply, login_anonymously_reply, logout_reply,
  get_user_info_reply,
}
use customer_print_client.Cloud.Listings.{search_reply, get_print_office_reply, get_jobs_list_reply}
use customer_print_client.Cloud.JobInfo.{PrintJobInfo}
use customer_print_client.Jobs.Types.{Exception}
use customer_print_client.Networking.Http.Request.{HttpRequest}
use customer_print_client.Offices.Offices.{PrintOffice}
use customer_print_client.Manager.State.{Outside, CoreManager, store_office, store_offices}

pub data Call (F : Type 0) : Type 0 where
  login : Text → Text → Call F
  sign_up : Text → Text → Text → Call F
  reset_password : Text → Call F
  login_anonymously : Call F
  login_with_stored_creds : Call F
  logout : Call F
  search_print_offices : F → F → ℕ → Bool → Call F
  get_print_office : Text → Call F
  get_jobs_list : Call F

-- What a promise is settled with.
pub data Outcome : Type 0 where
  done : Outcome
  told : Bool → Outcome
  offices : List ℕ → Outcome
  jobs : List PrintJobInfo → Outcome
  failed : Exception → Outcome

-- The two uses of the user's data: with the credentials of AsyncLogin, or for stored ones.
pub data Purpose : Type 0 where
  new_login : Text → Text → Purpose
  stored_login : Purpose

-- A callback that waits for the answer to a request.
pub data Waiting : Type 0 where
  for_login : Purpose → Waiting
  for_user_info : Purpose → Waiting
  for_sign_up for_reset_password for_anonymous for_logout : Waiting
  for_anonymous_after_logout for_office for_jobs : Waiting
  for_search : List Text → Waiting

-- What a callback does with its promise: it settles it, leaves it to a callback that waits, or runs
-- into undefined behaviour.
pub data Effect : Type 0 where
  settles : Outcome → Effect
  waits : Waiting → Effect
  faults : Effect

-- The effects of a callback, in their order.
abbrev pub Next : Type 0
Next = List Effect

abbrev of_result : Done ⊎ Exception → Outcome
of_result (inl ok) = done
of_result (inr ex) = failed ex

abbrev keys : List (Text × ℕ) → List Text
keys [] = []
keys ((k, a) ∷ m) = k ∷ keys m

module _ {J F : Type 0} where
  -- A request is posted and its callback waits.
  unfoldable pub send : HttpRequest → Waiting → CoreManager J F → CoreManager J F × Next
  unfolding post_request
  send request w m = (record m { client = post_request request m.client }, waits w ∷ [])

  -- An Async member of the cloud client that may call back at once.
  abbrev pub started :
      {A : Type 0}
      → Start A
      → Waiting
      → (A ⊎ Exception → CoreManager J F × Next)
      → CoreManager J F
      → CoreManager J F × Next
  started (posts request) w now m = send request w m
  started (calls_back outcome) w now m = now outcome

  abbrev fails : CoreManager J F → Done ⊎ Exception → CoreManager J F × Next
  fails m result = (m, settles (of_result result) ∷ [])

module _ {J N F : Type 0} (out : Outside J N F) where
  abbrev Manager : Type 0
  Manager = CoreManager J F

  -- getUserInfoCallback of AsyncLogin and of AsyncLoginWithStoredCreds.
  unfoldable pub finish_login : Purpose → UserInfo ⊎ Exception → Manager → Manager × Next
  unfolding set_credentials
  finish_login (new_login email pass) (inr ex) m = (m, settles (failed ex) ∷ [])
  finish_login (new_login email pass) (inl info) m = (
    record m {
      credentials_file =
          set_credentials out.encrypt (record { login = email; password = pass })
            m.credentials_file;
      user_info = info;
    },
    settles done ∷ [],
  )
  finish_login stored_login (inr ex) m = (m, settles (told false) ∷ [])
  finish_login stored_login (inl info) m = (record m { user_info = info }, settles (told true) ∷ [])

  -- The same, where the write through m_loginCtx may have come before it.
  unfoldable pub informed : Purpose → Option (UserInfo ⊎ Exception) → Manager → Manager × Next
  unfolding finish_login
  informed purpose none m = (m, faults ∷ [])
  informed purpose (some x) m = finish_login purpose x m

  -- loginCallback of the two.
  unfoldable pub after_login : Purpose → Done ⊎ Exception → Manager → Manager × Next
  unfolding finish_login get_user_info_start send
  after_login (new_login email pass) (inr ex) m = (m, settles (failed ex) ∷ [])
  after_login stored_login (inr ex) m = (m, settles (told false) ∷ [])
  after_login purpose (inl ok) m =
      started (get_user_info_start m.client) (for_user_info purpose)
        (λ result. finish_login purpose result m) m

  -- logoutCallback of AsyncLogout.
  unfoldable pub after_logout : Done ⊎ Exception → Manager → Manager × Next
  unfolding clear_credentials login_anonymously_request send
  after_logout (inr ex) m = (m, settles (failed ex) ∷ [])
  after_logout (inl ok) m =
      send (login_anonymously_request m.client) for_anonymous_after_logout
        (record m { user_info = no_user; credentials_file = clear_credentials m.credentials_file })

  -- The keys that AsyncSearchPrintOffices excludes.
  abbrev exclude_keys : Bool → Manager → List Text
  exclude_keys true m = keys m.print_offices
  exclude_keys false m = []

  -- An Async member up to its return.
  unfoldable pub start : Call F → Manager → Manager × Next
  unfolding send login_request sign_up_request reset_password_request login_anonymously_request
      get_credentials logout_start after_logout search_start get_print_office_start
      get_jobs_list_start
  start (login email pass) m =
      send (login_request out.lib m.client email pass) (for_login (new_login email pass)) m
  start (sign_up email pass name) m =
      send (sign_up_request out.lib m.client email pass name) for_sign_up m
  start (reset_password email) m =
      send (reset_password_request out.lib m.client email) for_reset_password m
  start login_anonymously m = send (login_anonymously_request m.client) for_anonymous m
  start login_with_stored_creds m = elim (get_credentials out.decrypt m.credentials_file) [
    | none ↦ (m, settles (told false) ∷ [])
    | some creds ↦
        send (login_request out.lib m.client creds.login creds.password) (for_login stored_login) m
  ]
  start logout m = started (logout_start m.client) for_logout (λ result. after_logout result m) m
  start (search_print_offices lat lon radius new_found) m =
      started (search_start m.client (out.show lat) (out.show lon) radius)
        (for_search (exclude_keys new_found m)) (fails m) m
  start (get_print_office office_id) m =
      started (get_print_office_start m.client office_id) for_office (fails m) m
  start get_jobs_list m = started (get_jobs_list_start m.client 0 50) for_jobs (fails m) m

  abbrev with_client : CloudClient → Manager → Manager
  with_client c m = record m { client = c }

  -- callbackWrapper of AsyncSearchPrintOffices and getPrintOfficeCallback.
  unfoldable pub take_offices : Option (List (PrintOffice F)) ⊎ Exception → Manager → Manager × Next
  unfolding store_offices
  take_offices (inr ex) m = (m, settles (failed ex) ∷ [])
  take_offices (inl none) m = (m, faults ∷ [])
  take_offices (inl (some os)) m =
      let stored = store_offices os m in (stored.0, settles (offices stored.1) ∷ [])

  unfoldable pub take_office : Option (PrintOffice F) ⊎ Exception → Manager → Manager × Next
  unfolding store_office
  take_office (inr ex) m = (m, settles (failed ex) ∷ [])
  take_office (inl none) m = (m, faults ∷ [])
  take_office (inl (some o)) m = (store_office o m, settles done ∷ [])

  abbrev pub take_jobs : Option (List PrintJobInfo) ⊎ Exception → Next
  take_jobs (inr ex) = settles (failed ex) ∷ []
  take_jobs (inl none) = faults ∷ []
  take_jobs (inl (some js)) = settles (jobs js) ∷ []

  -- loginAnonCallback of AsyncLogout.
  unfoldable pub after_anonymous : Done ⊎ Exception → Manager → Manager × Next
  after_anonymous (inr ex) m = (m, settles (failed ex) ∷ [])
  after_anonymous (inl ok) m =
      (record m { user_info = record m.user_info { status = logged_anonymous } }, settles done ∷ [])

  -- The callback that waits, on the response or exception of the HTTP client.
  unfoldable pub answer : Waiting → Reply → Manager → Manager × Next
  unfolding login_reply after_login get_user_info_reply informed sign_up_reply void_reply
      login_anonymously_reply logout_reply after_logout after_anonymous search_reply take_offices
      get_print_office_reply take_office get_jobs_list_reply
  answer (for_login purpose) r m =
      let (c, result) = login_reply out.lib r m.client in
      after_login purpose result (with_client c m)
  answer (for_user_info purpose) r m =
      let (c, result) = get_user_info_reply out.lib r m.client in
      informed purpose result (with_client c m)
  answer for_sign_up r m = (m, settles (of_result (sign_up_reply out.lib r)) ∷ [])
  answer for_reset_password r m = (m, settles (of_result (void_reply out.lib r)) ∷ [])
  answer for_anonymous r m =
      let (c, result) = login_anonymously_reply out.lib r m.client in
      (with_client c m, settles (of_result result) ∷ [])
  answer for_logout r m =
      let (c, result) = logout_reply out.lib r m.client in after_logout result (with_client c m)
  answer for_anonymous_after_logout r m =
      let (c, result) = login_anonymously_reply out.lib r m.client in
      after_anonymous result (with_client c m)
  answer (for_search exclude) r m =
      take_offices (search_reply out.lib out.json out.nums out.invalid exclude r) m
  answer for_office r m =
      take_office (get_print_office_reply out.lib out.json out.nums out.invalid r) m
  answer for_jobs r m =
      (m, take_jobs (get_jobs_list_reply out.lib out.json out.nums out.invalid out.date r))
