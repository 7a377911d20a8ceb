-- ===== src/Manager/Progress.antt =====
-- Each callback of the core manager leaves fewer answers to wait for.
use customer_print_client.Manager.Calls.{take_jobs}
use customer_print_client.Prelude.{
  ℕ, ◌+◌, ◌∷◌, [], ◌≤◌, ◌<◌, ◌≡◌, refl, arith, Option, none, some, List, inl, inr, ◌⊎◌,
}
use customer_print_client.Jobs.Processor.{id_key}
use customer_print_client.Jobs.Types.{Exception}
use customer_print_client.Cloud.Requests.{get_user_info_start, Start, posts, calls_back, UserInfo}
use customer_print_client.Offices.Offices.{PrintOffice}
use customer_print_client.Cloud.JobInfo.{PrintJobInfo}
use customer_print_client.Cloud.Replies.{Reply, Done}
use customer_print_client.Manager.State.{Outside, CoreManager}
use customer_print_client.Manager.Calls.{
  Purpose, new_login, stored_login, Waiting, for_login, for_user_info, for_sign_up,
  for_reset_password, for_anonymous, for_logout, for_anonymous_after_logout, for_office, for_jobs,
  for_search, Next, waits, answer, send, informed, finish_login, after_login, after_logout,
  after_anonymous, take_offices, take_office, started,
}

-- The number of answers that a callback and those after it wait for, at most.
unfoldable pub answers_left : Waiting → ℕ
answers_left (for_login purpose) = 2
answers_left for_logout = 2
answers_left _ = 1

pub answers_left_bounds : (w : Waiting) → (1 ≤ answers_left w) × (answers_left w ≤ 2)
unfolding answers_left
answers_left_bounds w = ground arith

abbrev pub next_left : Next → ℕ
next_left [] = 0
next_left (waits w ∷ es) = answers_left w + next_left es
next_left (_ ∷ es) = next_left es

module _ {J N F : Type 0} (out : Outside J N F) where
  finish_login_left :
      (p : Purpose) (x : UserInfo ⊎ Exception) (m : CoreManager J F)
      → next_left (finish_login out p x m).1 ≡ 0
  unfolding finish_login
  finish_login_left (new_login e q) (inl i) m = refl
  finish_login_left (new_login e q) (inr i) m = refl
  finish_login_left stored_login (inl i) m = refl
  finish_login_left stored_login (inr i) m = refl

  asked :
      (p : Purpose) (x : Start UserInfo) (m : CoreManager J F)
      → next_left (started x (for_user_info p) (λ result. finish_login out p result m) m).1 ≤ 1
  unfolding send answers_left
  asked p (posts request) m = omega arith
  asked p (calls_back result) m = omega (arith, finish_login_left p result m)

  after_login_left :
      (p : Purpose) (x : Done ⊎ Exception) (m : CoreManager J F)
      → next_left (after_login out p x m).1 ≤ 1
  unfolding after_login send answers_left
  after_login_left (new_login e q) (inr i) m = omega arith
  after_login_left stored_login (inr i) m = omega arith
  after_login_left (new_login e q) (inl i) m =
      asked (new_login e q) (get_user_info_start m.client) m
  after_login_left stored_login (inl i) m = asked stored_login (get_user_info_start m.client) m

  after_logout_left :
      (x : Done ⊎ Exception) (m : CoreManager J F) → next_left (after_logout out x m).1 ≤ 1
  unfolding after_logout send answers_left
  after_logout_left (inr i) m = omega arith
  after_logout_left (inl i) m = omega arith

  after_anonymous_left :
      (x : Done ⊎ Exception) (m : CoreManager J F) → next_left (after_anonymous out x m).1 ≡ 0
  unfolding after_anonymous
  after_anonymous_left (inr i) m = refl
  after_anonymous_left (inl i) m = refl

  take_offices_left :
      (x : Option (List (PrintOffice F)) ⊎ Exception) (m : CoreManager J F)
      → next_left (take_offices out x m).1 ≡ 0
  unfolding take_offices
  take_offices_left (inr i) m = refl
  take_offices_left (inl none) m = refl
  take_offices_left (inl (some os)) m = refl

  take_office_left :
      (x : Option (PrintOffice F) ⊎ Exception) (m : CoreManager J F)
      → next_left (take_office out x m).1 ≡ 0
  unfolding take_office
  take_office_left (inr i) m = refl
  take_office_left (inl none) m = refl
  take_office_left (inl (some o)) m = refl

  user_info_left :
      (p : Purpose) (x : Option (UserInfo ⊎ Exception)) (m : CoreManager J F)
      → next_left (informed out p x m).1 ≡ 0
  unfolding informed
  user_info_left p none m = refl
  user_info_left p (some x) m = finish_login_left p x m

  take_jobs_left : (x : Option (List PrintJobInfo) ⊎ Exception) → next_left (take_jobs out x) ≡ 0
  take_jobs_left (inr i) = refl
  take_jobs_left (inl none) = refl
  take_jobs_left (inl (some js)) = refl

  pub answer_left :
      (w : Waiting) (r : Reply) (m : CoreManager J F)
      → next_left (answer out w r m).1 < answers_left w
  unfolding answer answers_left
  answer_left (for_login p) r m = omega (arith, after_login_left p _ _)
  answer_left (for_user_info p) r m = omega (arith, user_info_left p _ _)
  answer_left for_sign_up r m = omega arith
  answer_left for_reset_password r m = omega arith
  answer_left for_anonymous r m = omega arith
  answer_left for_logout r m = omega (arith, after_logout_left _ _)
  answer_left for_anonymous_after_logout r m = omega (arith, after_anonymous_left _ _)
  answer_left (for_search keys) r m = omega (arith, take_offices_left _ _)
  answer_left for_office r m = omega (arith, take_office_left _ _)
  answer_left for_jobs r m = omega (arith, take_jobs_left _)
