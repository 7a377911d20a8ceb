-- ===== src/Cloud/Tests.antt =====
-- Concrete calls of src/CustomerPrintClientCore/CloudPrintClient.cpp, with a JSON library in which
-- an object is its text and nothing parses.
use customer_print_client.Prelude.{List}
use customer_print_client.Prelude.{Option}
use customer_print_client.Prelude.{Bool}
use customer_print_client.Cloud.JobInfo.{PrintJobStatus, PrintJobInfo}
use customer_print_client.Core.Version.{BinaryVersion, version_lt, OsVersion, os_ge}
use customer_print_client.Cloud.Updates.{UpdateInfo, descending, choose_update}
use customer_print_client.Prelude.{
  text_eq, if◌then◌else◌, refl, ℕ, true, false, ◌≡◌, ◌⊎◌, inr, [], ◌∷◌, none, some, Text, codes,
}
use customer_print_client.Prelude.Dict.{find}
use customer_print_client.Networking.Http.Definitions.{authorization_name}
use customer_print_client.Networking.Http.Request.{text_key, HttpRequest}
use customer_print_client.Networking.Http.Response.{HttpResponse}
use customer_print_client.Jobs.Types.{get_job}
use customer_print_client.Jobs.Upload.{not_authorized}
use customer_print_client.Cloud.Json.{JsonLib}
use customer_print_client.Cloud.Requests.{
  LoginContext, CloudClient, Start, calls_back, begin, async_job,
}
use customer_print_client.Cloud.Laws.{async_job_authorized}

abbrev text_json : JsonLib Text
text_json = record {
  parse = λ s. none;
  print = λ j. j;
  string_of = λ j k. none;
  object_of = λ j k. none;
  empty = [];
  add_string = λ k v j. k;
  add_number = λ k v j. k;
  add_boolean = λ k v j. k;
  add_object = λ k v j. k;
}

abbrev client : CloudClient
client = record {
  server_name = codes "server";
  login_ctx = some (record { user_id = codes "u"; token = codes "t"; refresh_token = codes "r" });
  posted = [];
  now = 7;
}

abbrev refusal : HttpResponse
refusal = record {
  http_version = codes "HTTP/1.1";
  status_code = 404;
  status_message = codes "Not found";
  headers = [];
  content = [];
}

async_job_authorized_example :
    let started : Start Text = async_job text_json client (get_job (codes "1")) in
    ((client.login_ctx ≡ none)
      × (started ≡ calls_back (inr not_authorized))
      × (begin started client ≡ (client, 0)))
    ⊎ ((ctx : LoginContext) × (request : HttpRequest) × (client.login_ctx ≡ some ctx)
        × (begin started client ≡ (record client { posted = request ∷ client.posted }, request.id))
        × (request.id ≡ client.now)
        × (find authorization_name request.headers ≡ some ctx.token)
        × (find (codes "Host") request.headers ≡ some client.server_name))
async_job_authorized_example = async_job_authorized text_json client (get_job (codes "1"))

abbrev old_job : PrintJobInfo
old_job = record {
  id = codes "7";
  access_code = codes "a";
  name = codes "letter";
  update_time = 1;
  office_id = codes "o";
  profile_id = codes "p";
  status = PrintJobStatus.created;
  copies = 1;
  pages_count = 2;
  payed_off = false;
  office_name = [];
  currency_symbol = [];
}

abbrev new_job : PrintJobInfo
new_job = record old_job { update_time = 2; status = PrintJobStatus.done; payed_off = true }

abbrev version : ℕ → BinaryVersion
version n = record { major = n; minor = 0; release = 0; sub_release = 0 }

abbrev for_windows_7 : UpdateInfo
for_windows_7 = record {
  minimum_os_version = record { major = 6; minor = 1 };
  installer_version = version 2;
  installer_file_name = codes "setup.exe";
}

abbrev for_windows_10 : UpdateInfo
for_windows_10 = record for_windows_7 { minimum_os_version = record { major = 10; minor = 0 } }

abbrev windows_8 : OsVersion
windows_8 = record { major = 6; minor = 2 }

is_descending : descending (for_windows_10 ∷ for_windows_7 ∷ []) ≡ true
unfolding os_ge
is_descending = refl

is_offered :
    choose_update windows_8 (version 1) (for_windows_10 ∷ for_windows_7 ∷ []) ≡ some for_windows_7
unfolding choose_update os_ge version_lt
is_offered = refl

-- A server whose list has an installer for Windows 7 and one for Windows 10.
abbrev two_json : JsonLib Text
two_json = record text_json {
  parse = λ s. some s;
  string_of = λ j k. some j;
  object_of = λ j k. some j;
}

abbrev two_versions : Text → Option (List (Option Text))
two_versions j = some (some (codes "7") ∷ some (codes "10") ∷ [])

abbrev parse_windows : Text → Option OsVersion
parse_windows s =
    if text_eq s (codes "7")
    then some (record { major = 6; minor = 1 })
    else some (record { major = 10; minor = 0 })

abbrev list_reply : HttpResponse
list_reply = record {
  http_version = codes "HTTP/1.1";
  status_code = 200;
  status_message = codes "OK";
  headers = [];
  content = codes "[]";
}

abbrev seven : UpdateInfo
seven = record for_windows_7 { installer_file_name = codes "7" }

abbrev ten : UpdateInfo
ten = record for_windows_10 { installer_file_name = codes "10" }

-- Insertion, behind the entries that do not come after the new one.
insert : (UpdateInfo → UpdateInfo → Bool) → UpdateInfo → List UpdateInfo → List UpdateInfo
insert before u [] = u ∷ []
insert before u (v ∷ us) =
    let rest = insert before u us in if before u v then u ∷ v ∷ us else v ∷ rest

sort : (UpdateInfo → UpdateInfo → Bool) → List UpdateInfo → List UpdateInfo
sort before [] = []
sort before (u ∷ us) = insert before u (sort before us)

is_lower : version_lt (version 1) (version 2) ≡ true
unfolding version_lt
is_lower = refl

is_lower_too : version_lt (version 2) (version 3) ≡ true
unfolding version_lt
is_lower_too = refl
