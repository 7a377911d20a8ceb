-- ===== src/Manager/Effects.antt =====
-- Each Async member of the core manager, and each of its callbacks, has one effect on its promise.
use customer_print_client.Prelude.{
  ℕ, ◌+◌, ◌≡◌, refl, arith, Option, none, some, List, [], ◌∷◌, inl, inr, ◌⊎◌, Option-cases,
}
use customer_print_client.Jobs.Types.{Exception}
use customer_print_client.Core.Credentials.{get_credentials}
use customer_print_client.Cloud.JobInfo.{PrintJobInfo}
use customer_print_client.Cloud.Requests.{
  Start, posts, calls_back, UserInfo, get_user_info_start, logout_start, search_start,
  get_print_office_start, get_jobs_list_start,
}
use customer_print_client.Offices.Offices.{PrintOffice}
use customer_print_client.Cloud.Replies.{Reply, Done}
use customer_print_client.Manager.State.{Outside, CoreManager}
use customer_print_client.Manager.Calls.{
  Call, login, sign_up, reset_password, login_anonymously, login_with_stored_creds, logout,
  search_print_offices, get_print_office, get_jobs_list, Purpose, new_login, stored_login, Waiting,
  for_login, for_user_info, for_sign_up, for_reset_password, for_anonymous, for_logout,
  for_anonymous_after_logout, for_office, for_jobs, for_search, Next, start, answer, send, informed,
  finish_login, after_login, after_logout, after_anonymous, take_offices, take_office, take_jobs,
  started,
}

-- How many effects a callback has on its promise.
abbrev pub effects : Next → ℕ
effects [] = 0
effects (e ∷ es) = 1 + effects es

module _ {J N F : Type 0} (out : Outside J N F) where
  abbrev IsOne : CoreManager J F × Next → Type 0
  IsOne x = effects x.1 ≡ 1

  finish_login-IsOne :
      (p : Purpose) (x : UserInfo ⊎ Exception) (m : CoreManager J F)
      → IsOne (finish_login out p x m)
  unfolding finish_login
  finish_login-IsOne (new_login e q) (inl i) m = refl
  finish_login-IsOne (new_login e q) (inr i) m = refl
  finish_login-IsOne stored_login (inl i) m = refl
  finish_login-IsOne stored_login (inr i) m = refl

  informed-IsOne :
      (p : Purpose) (x : Option (UserInfo ⊎ Exception)) (m : CoreManager J F)
      → IsOne (informed out p x m)
  unfolding informed
  informed-IsOne p none m = refl
  informed-IsOne p (some x) m = finish_login-IsOne p x m

  started-IsOne :
      {A : Type 0} (x : Start A) (w : Waiting) (now : A ⊎ Exception → CoreManager J F × Next)
      (m : CoreManager J F)
      → ((r : A ⊎ Exception) → IsOne (now r))
      → IsOne (started x w now m)
  unfolding send
  started-IsOne (posts request) w now m k = refl
  started-IsOne (calls_back result) w now m k = k result

  after_login-IsOne :
      (p : Purpose) (x : Done ⊎ Exception) (m : CoreManager J F) → IsOne (after_login out p x m)
  unfolding after_login
  after_login-IsOne (new_login e q) (inr i) m = refl
  after_login-IsOne stored_login (inr i) m = refl
  after_login-IsOne (new_login e q) (inl i) m =
      started-IsOne (get_user_info_start m.client) _ _ m
        (λ r. finish_login-IsOne (new_login e q) r m)
  after_login-IsOne stored_login (inl i) m =
      started-IsOne (get_user_info_start m.client) _ _ m (λ r. finish_login-IsOne stored_login r m)

  after_logout-IsOne : (x : Done ⊎ Exception) (m : CoreManager J F) → IsOne (after_logout out x m)
  unfolding after_logout send
  after_logout-IsOne (inr i) m = refl
  after_logout-IsOne (inl i) m = refl

  after_anonymous-IsOne :
      (x : Done ⊎ Exception) (m : CoreManager J F) → IsOne (after_anonymous out x m)
  unfolding after_anonymous
  after_anonymous-IsOne (inr i) m = refl
  after_anonymous-IsOne (inl i) m = refl

  take_offices-IsOne :
      (x : Option (List (PrintOffice F)) ⊎ Exception) (m : CoreManager J F)
      → IsOne (take_offices out x m)
  unfolding take_offices
  take_offices-IsOne (inr i) m = refl
  take_offices-IsOne (inl none) m = refl
  take_offices-IsOne (inl (some os)) m = refl

  take_office-IsOne :
      (x : Option (PrintOffice F) ⊎ Exception) (m : CoreManager J F) → IsOne (take_office out x m)
  unfolding take_office
  take_office-IsOne (inr i) m = refl
  take_office-IsOne (inl none) m = refl
  take_office-IsOne (inl (some o)) m = refl

  take_jobs-one : (x : Option (List PrintJobInfo) ⊎ Exception) → effects (take_jobs out x) ≡ 1
  take_jobs-one (inr i) = refl
  take_jobs-one (inl none) = refl
  take_jobs-one (inl (some js)) = refl

  pub start-IsOne : (c : Call F) (m : CoreManager J F) → IsOne (start out c m)
  unfolding start send
  start-IsOne (login e p) m = refl
  start-IsOne (sign_up e p n) m = refl
  start-IsOne (reset_password e) m = refl
  start-IsOne login_anonymously m = refl
  start-IsOne login_with_stored_creds m =
      elim (Option-cases (get_credentials out.decrypt m.credentials_file)) [
        | inl e ↦ rw (start, e) refl
        | inr (creds, e) ↦ rw (start, e) refl
      ]
  start-IsOne logout m = started-IsOne (logout_start m.client) _ _ m (λ r. after_logout-IsOne r m)
  start-IsOne (search_print_offices a b r n) m =
      started-IsOne (search_start m.client _ _ r) _ _ m (λ r. refl)
  start-IsOne (get_print_office i) m =
      started-IsOne (get_print_office_start m.client i) _ _ m (λ r. refl)
  start-IsOne get_jobs_list m = started-IsOne (get_jobs_list_start m.client 0 50) _ _ m (λ r. refl)

  pub answer-IsOne : (w : Waiting) (r : Reply) (m : CoreManager J F) → IsOne (answer out w r m)
  unfolding answer
  answer-IsOne (for_login p) r m = omega (arith, after_login-IsOne p _ _)
  answer-IsOne (for_user_info p) r m = omega (arith, informed-IsOne p _ _)
  answer-IsOne for_sign_up r m = refl
  answer-IsOne for_reset_password r m = refl
  answer-IsOne for_anonymous r m = refl
  answer-IsOne for_logout r m = omega (arith, after_logout-IsOne _ _)
  answer-IsOne for_anonymous_after_logout r m = omega (arith, after_anonymous-IsOne _ _)
  answer-IsOne (for_search keys) r m = omega (arith, take_offices-IsOne _ _)
  answer-IsOne for_office r m = omega (arith, take_office-IsOne _ _)
  answer-IsOne for_jobs r m = omega (arith, take_jobs-one _)
