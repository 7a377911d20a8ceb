-- ===== src/Manager/Stored.antt =====
-- The stored credentials of the core manager: AsyncLogin stores them, AsyncLoginWithStoredCreds
-- logs in with them, AsyncLogout removes them.
use customer_print_client.Prelude.{
  Option-cases, none, arith, [], ◌∷◌, ◌≡◌, refl, ◌∙◌, true, false, some, Text, inl, inr, ◌⊎◌,
}
use customer_print_client.Jobs.Types.{Exception}
use customer_print_client.Core.Credentials.{
  one_line, get_credentials, clear_credentials, get_credentials-set_credentials,
}
use customer_print_client.Cloud.Requests.{CloudClient, login_request, UserInfo}
use customer_print_client.Cloud.Replies.{Reply, Done, get_user_info_reply, logout_reply}
use customer_print_client.Manager.State.{Outside, CoreManager}
use customer_print_client.Manager.Calls.{
  login_with_stored_creds, done, told, failed, new_login, stored_login, for_login, for_user_info,
  for_logout, for_anonymous_after_logout, Next, settles, waits, faults, informed, send, start,
  answer, finish_login, after_logout,
}

module _ {J N F : Type 0} (out : Outside J N F) where
  -- A login ended without success: its promise has an exception, and neither the stored
  -- credentials nor the user's data changed.
  abbrev pub Refused : CoreManager J F → CoreManager J F × Next → Type 0
  Refused m x =
      (ex : Exception) × (x.1 ≡ settles (failed ex) ∷ [])
      × (x.0.credentials_file ≡ m.credentials_file)
      × (x.0.user_info ≡ m.user_info)

  -- AsyncLoginWithStoredCreds asks the server to log in with these.
  abbrev pub LogsInWith : Text → Text → CoreManager J F → Type 0
  LogsInWith email pass m =
      start out login_with_stored_creds m
      ≡ send (login_request out.lib m.client email pass) (for_login stored_login) m

  logs_in :
      (email pass : Text) (m : CoreManager J F)
      → get_credentials out.decrypt m.credentials_file
        ≡ some (record { login = email; password = pass })
      → LogsInWith email pass m
  unfolding start
  logs_in email pass m e = rw (start, e)

  finished :
      (decrypt-encrypt : (s bytes : Text) → out.encrypt s ≡ some bytes → out.decrypt bytes ≡ some s)
      (email pass bytes : Text) (x : UserInfo ⊎ Exception) (c : CloudClient) (m : CoreManager J F)
      → one_line email ≡ true
      → out.encrypt pass ≡ some bytes
      → let after = finish_login out (new_login email pass) x (record m { client = c }) in
        (Refused m after) ⊎ ((after.1 ≡ settles done ∷ []) × (LogsInWith email pass after.0))
  unfolding finish_login
  finished decrypt-encrypt email pass bytes (inr ex) c m line e = inl (ex, refl, refl, refl)
  finished decrypt-encrypt email pass bytes (inl info) c m line e =
      let stored =
        get_credentials-set_credentials out.encrypt out.decrypt decrypt-encrypt
          (record { login = email; password = pass }) m.credentials_file line in
      inr (refl, logs_in email pass _ (stored.0 ∙ rw e))

  faulted_lem :
      (r : Reply) (c : CloudClient)
      → (get_user_info_reply out.lib r c).1 ≡ none
      → c.login_ctx ≡ none
  unfolding get_user_info_reply
  faulted_lem r c gone = ground arith

  logged_out :
      (x : Done ⊎ Exception) (c : CloudClient) (m : CoreManager J F)
      → let after = after_logout out x (record m { client = c }) in
        (Refused m after)
        ⊎ ((after.1 ≡ waits for_anonymous_after_logout ∷ [])
            × (start out login_with_stored_creds after.0 ≡ (after.0, settles (told false) ∷ [])))
  unfolding after_logout start get_credentials clear_credentials send
  logged_out (inr ex) c m = inl (ex, refl, refl, refl)
  logged_out (inl ok) c m = inr (refl, refl)

  -- Where decryption undoes encryption, the e-mail address has no line feed and the password can
  -- be encrypted: the answer that ends AsyncLogin either settles its promise with an exception and
  -- changes neither the stored credentials nor the user's data, or settles it with success, and
  -- then AsyncLoginWithStoredCreds logs in with the same address and password; or the client was
  -- logged out in the meantime, and the callback writes through a null pointer.
  pub login-LogsInWith :
      (decrypt-encrypt : (s bytes : Text) → out.encrypt s ≡ some bytes → out.decrypt bytes ≡ some s)
      (email pass bytes : Text) (r : Reply) (m : CoreManager J F)
      → one_line email ≡ true
      → out.encrypt pass ≡ some bytes
      → let after = answer out (for_user_info (new_login email pass)) r m in
        ((Refused m after) ⊎ ((after.1 ≡ settles done ∷ []) × (LogsInWith email pass after.0)))
        ⊎ ((m.client.login_ctx ≡ none) × (after.1 ≡ faults ∷ []))
  unfolding answer informed
  login-LogsInWith decrypt-encrypt email pass bytes r m line e =
      let x = get_user_info_reply out.lib r m.client in
      elim (Option-cases x.1) [
        | inl gone ↦ inr (faulted_lem r m.client gone, rw gone refl)
        | inr (u, known) ↦ rw known (inl (finished decrypt-encrypt email pass bytes u x.0 m line e))
      ]

  -- The answer that ends the first part of AsyncLogout either settles its promise with an exception
  -- and changes neither the stored credentials nor the user's data, or an anonymous login follows,
  -- and AsyncLoginWithStoredCreds then answers false at once.
  pub logout-forgets :
      (r : Reply) (m : CoreManager J F)
      → let after = answer out for_logout r m in
        (Refused m after)
        ⊎ ((after.1 ≡ waits for_anonymous_after_logout ∷ [])
            × (start out login_with_stored_creds after.0 ≡ (after.0, settles (told false) ∷ [])))
  unfolding answer
  logout-forgets r m = let x = logout_reply out.lib r m.client in logged_out x.1 x.0 m
