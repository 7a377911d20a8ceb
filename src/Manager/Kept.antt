-- ===== src/Manager/Kept.antt =====
-- The calls and callbacks of the core manager keep what holds of its offices.
use customer_print_client.Prelude.{
  Option, none, some, List, [], ◌∷◌, Text, Bool-cases, Option-cases, inl, inr, ◌⊎◌, ◌==◌, All,
}
use customer_print_client.Jobs.Processor.{id_key}
use customer_print_client.Jobs.Types.{Exception}
use customer_print_client.Core.Credentials.{get_credentials}
use customer_print_client.Cloud.Requests.{
  Start, posts, calls_back, UserInfo, get_user_info_start, logout_start, search_start,
  get_print_office_start, get_jobs_list_start,
}
use customer_print_client.Cloud.Replies.{
  login_reply, get_user_info_reply, logout_reply, login_anonymously_reply, Reply, Done,
}
use customer_print_client.Cloud.Listings.{
  body_object, body_array, search_reply, get_print_office_reply,
}
use customer_print_client.Offices.Offices.{PrintOffice, read_office, read_offices}
use customer_print_client.Offices.Selection.{HasProfiles}
use customer_print_client.Offices.Loaded.{
  IsResult, read_office-IsComplete, read_offices-IsResult, Loading-cases,
}
use customer_print_client.Manager.State.{Outside, CoreManager, office_at, office_address}
use customer_print_client.Manager.Heap.{OfficesOk, store_office-OfficesOk, store_offices-OfficesOk}
use customer_print_client.Manager.Calls.{
  Call, login, sign_up, reset_password, login_anonymously, login_with_stored_creds, logout,
  search_print_offices, get_print_office, get_jobs_list, Purpose, new_login, stored_login, Waiting,
  for_login, for_user_info, for_sign_up, for_reset_password, for_anonymous, for_logout,
  for_anonymous_after_logout, for_office, for_jobs, for_search, Next, start, answer, send, informed,
  finish_login, after_login, after_logout, after_anonymous, take_offices, take_office, started,
}

module _ {J N F : Type 0} (out : Outside J N F) where
  finish_login-OfficesOk :
      (p : Purpose) (x : UserInfo ⊎ Exception) (m : CoreManager J F)
      → OfficesOk m
      → OfficesOk (finish_login out p x m).0
  unfolding finish_login office_at office_address
  finish_login-OfficesOk (new_login e q) (inl i) m ok = ok
  finish_login-OfficesOk (new_login e q) (inr i) m ok = ok
  finish_login-OfficesOk stored_login (inl i) m ok = ok
  finish_login-OfficesOk stored_login (inr i) m ok = ok

  informed-OfficesOk :
      (p : Purpose) (x : Option (UserInfo ⊎ Exception)) (m : CoreManager J F)
      → OfficesOk m
      → OfficesOk (informed out p x m).0
  unfolding informed
  informed-OfficesOk p none m ok = ok
  informed-OfficesOk p (some x) m ok = finish_login-OfficesOk p x m ok

  started-OfficesOk :
      {A : Type 0} (x : Start A) (w : Waiting) (now : A ⊎ Exception → CoreManager J F × Next)
      (m : CoreManager J F)
      → OfficesOk m
      → ((r : A ⊎ Exception) → OfficesOk (now r).0)
      → OfficesOk (started x w now m).0
  unfolding send office_at office_address
  started-OfficesOk (posts request) w now m ok k = ok
  started-OfficesOk (calls_back result) w now m ok k = k result

  after_login-OfficesOk :
      (p : Purpose) (x : Done ⊎ Exception) (m : CoreManager J F)
      → OfficesOk m
      → OfficesOk (after_login out p x m).0
  unfolding after_login office_at office_address
  after_login-OfficesOk (new_login e q) (inr i) m ok = ok
  after_login-OfficesOk stored_login (inr i) m ok = ok
  after_login-OfficesOk (new_login e q) (inl i) m ok =
      started-OfficesOk (get_user_info_start m.client) _ _ m ok
        (λ r. finish_login-OfficesOk (new_login e q) r m ok)
  after_login-OfficesOk stored_login (inl i) m ok =
      started-OfficesOk (get_user_info_start m.client) _ _ m ok
        (λ r. finish_login-OfficesOk stored_login r m ok)

  after_logout-OfficesOk :
      (x : Done ⊎ Exception) (m : CoreManager J F)
      → OfficesOk m
      → OfficesOk (after_logout out x m).0
  unfolding after_logout send office_at office_address
  after_logout-OfficesOk (inr i) m ok = ok
  after_logout-OfficesOk (inl i) m ok = ok

  after_anonymous-OfficesOk :
      (x : Done ⊎ Exception) (m : CoreManager J F)
      → OfficesOk m
      → OfficesOk (after_anonymous out x m).0
  unfolding after_anonymous office_at office_address
  after_anonymous-OfficesOk (inr i) m ok = ok
  after_anonymous-OfficesOk (inl i) m ok = ok

  pub start-OfficesOk :
      (c : Call F) (m : CoreManager J F) → OfficesOk m → OfficesOk (start out c m).0
  unfolding start send office_at office_address
  start-OfficesOk (login e p) m ok = ok
  start-OfficesOk (sign_up e p n) m ok = ok
  start-OfficesOk (reset_password e) m ok = ok
  start-OfficesOk login_anonymously m ok = ok
  start-OfficesOk login_with_stored_creds m ok =
      elim (Option-cases (get_credentials out.decrypt m.credentials_file)) [
        | inl e ↦ rw (start, e) ok
        | inr (creds, e) ↦ rw (start, e) ok
      ]
  start-OfficesOk logout m ok =
      started-OfficesOk (logout_start m.client) _ _ m ok (λ r. after_logout-OfficesOk r m ok)
  start-OfficesOk (search_print_offices a b r n) m ok =
      started-OfficesOk (search_start m.client _ _ r) _ _ m ok (λ r. ok)
  start-OfficesOk (get_print_office i) m ok =
      started-OfficesOk (get_print_office_start m.client i) _ _ m ok (λ r. ok)
  start-OfficesOk get_jobs_list m ok =
      started-OfficesOk (get_jobs_list_start m.client 0 50) _ _ m ok (λ r. ok)

  -- What the callbacks of a search and of AsyncGetPrintOffice get has profiles.
  abbrev AllHaveProfiles : Option (List (PrintOffice F)) ⊎ Exception → Type 0
  AllHaveProfiles (inl (some os)) = All (λ o. HasProfiles o) os
  AllHaveProfiles _ = Unit

  abbrev HasProfilesIfAny : Option (PrintOffice F) ⊎ Exception → Type 0
  HasProfilesIfAny (inl (some o)) = HasProfiles o
  HasProfilesIfAny _ = Unit

  complete-HasProfiles :
      (keys : List Text) (os : List (PrintOffice F))
      → IsResult out.json out.nums out.invalid keys os
      → All (λ o. HasProfiles o) os
  complete-HasProfiles keys [] h = tt
  complete-HasProfiles keys (o ∷ os) (((flag, has, all), new), rest) =
      (has, complete-HasProfiles keys os rest)

  read_offices-AllHaveProfiles :
      (keys : List Text) (js : List (Option J))
      → AllHaveProfiles (inl (read_offices out.json out.nums out.invalid keys js))
  read_offices-AllHaveProfiles keys js =
      elim (Option-cases (read_offices out.json out.nums out.invalid keys js)) [
        | inl e ↦ rw e tt
        | inr (os, e) ↦ rw e (
            complete-HasProfiles keys os
              (read_offices-IsResult out.json out.nums out.invalid keys js os e))
      ]

  search_reply-AllHaveProfiles :
      (keys : List Text) (r : Reply)
      → AllHaveProfiles (search_reply out.lib out.json out.nums out.invalid keys r)
  unfolding search_reply
  search_reply-AllHaveProfiles keys (inr ex) = tt
  search_reply-AllHaveProfiles keys (inl r) = elim (Bool-cases (r.status_code == 200)) [
    | inr e ↦ rw e tt
    | inl e ↦ elim (Option-cases (body_array out.lib out.json out.nums out.invalid r)) [
      | inl f ↦ rw (e, f) tt
      | inr (js, f) ↦ rw (e, f) (read_offices-AllHaveProfiles keys js)
    ]
  ]

  get_print_office_reply-HasProfilesIfAny :
      (r : Reply)
      → HasProfilesIfAny (get_print_office_reply out.lib out.json out.nums out.invalid r)
  unfolding get_print_office_reply
  get_print_office_reply-HasProfilesIfAny (inr ex) = tt
  get_print_office_reply-HasProfilesIfAny (inl r) = elim (Bool-cases (r.status_code == 200)) [
    | inr e ↦ rw e tt
    | inl e ↦ elim (Option-cases (body_object out.lib out.json out.nums out.invalid r)) [
      | inl f ↦ rw (e, f) tt
      | inr (j, f) ↦ elim (Loading-cases (read_office out.json out.nums out.invalid j)) [
        | inl (o, g) ↦
            let ((flag, has, all), named) =
              read_office-IsComplete out.json out.nums out.invalid j o g in
            rw (e, f, g) has
        | inr (inl g) ↦ rw (e, f, g) tt
        | inr (inr g) ↦ rw (e, f, g) tt
      ]
    ]
  ]

  take_offices-OfficesOk :
      (x : Option (List (PrintOffice F)) ⊎ Exception) (m : CoreManager J F)
      → AllHaveProfiles x
      → OfficesOk m
      → OfficesOk (take_offices out x m).0
  unfolding take_offices
  take_offices-OfficesOk (inr ex) m has ok = ok
  take_offices-OfficesOk (inl none) m has ok = ok
  take_offices-OfficesOk (inl (some os)) m has ok = store_offices-OfficesOk os m has ok

  take_office-OfficesOk :
      (x : Option (PrintOffice F) ⊎ Exception) (m : CoreManager J F)
      → HasProfilesIfAny x
      → OfficesOk m
      → OfficesOk (take_office out x m).0
  unfolding take_office
  take_office-OfficesOk (inr ex) m has ok = ok
  take_office-OfficesOk (inl none) m has ok = ok
  take_office-OfficesOk (inl (some o)) m has ok = store_office-OfficesOk o m has ok

  pub answer-OfficesOk :
      (w : Waiting) (r : Reply) (m : CoreManager J F) → OfficesOk m → OfficesOk (answer out w r m).0
  unfolding answer office_at office_address
  answer-OfficesOk (for_login p) r m ok =
      let x = login_reply out.lib r m.client in
      after_login-OfficesOk p x.1 (record m { client = x.0 }) ok
  answer-OfficesOk (for_user_info p) r m ok =
      let x = get_user_info_reply out.lib r m.client in
      informed-OfficesOk p x.1 (record m { client = x.0 }) ok
  answer-OfficesOk for_sign_up r m ok = ok
  answer-OfficesOk for_reset_password r m ok = ok
  answer-OfficesOk for_anonymous r m ok = ok
  answer-OfficesOk for_logout r m ok =
      let x = logout_reply out.lib r m.client in
      after_logout-OfficesOk x.1 (record m { client = x.0 }) ok
  answer-OfficesOk for_anonymous_after_logout r m ok =
      let x = login_anonymously_reply out.lib r m.client in
      after_anonymous-OfficesOk x.1 (record m { client = x.0 }) ok
  answer-OfficesOk (for_search keys) r m ok =
      take_offices-OfficesOk _ m (search_reply-AllHaveProfiles keys r) ok
  answer-OfficesOk for_office r m ok =
      take_office-OfficesOk _ m (get_print_office_reply-HasProfilesIfAny r) ok
  answer-OfficesOk for_jobs r m ok = ok
