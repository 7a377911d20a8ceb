-- ===== src/Manager/Tests.antt =====
-- The core manager with one office, a server that refuses everything, and the encryption of
-- src/Core/Crypto_Linux.cpp.
use customer_print_client.Manager.State.{the_selected_office}
use customer_print_client.Manager.State.{store_offices}
use mathlib.Core.Option.{none-ne-some, some-injective}
use customer_print_client.Prelude.{
  inl, text_eq, ltb, if◌then◌else◌, ◌≡◌, refl, sym, ap, true, false, ℕ, ◌⊎◌, inr, none, some, List,
  [], ◌∷◌, Text, codes, arith,
}
use customer_print_client.Prelude.Dict.{find, erase}
use customer_print_client.Jobs.Types.{http}
use customer_print_client.Core.Json.{get_string, get_object}
use customer_print_client.Core.Tree.{
  object_node, string_node, Fields, no_fields, field, string_node, tree_json, plain_numbers,
}
use customer_print_client.Core.Credentials.{one_line, encrypt_linux, decrypt_linux}
use customer_print_client.Cloud.Json.{JsonLib}
use customer_print_client.Cloud.Requests.{no_user}
use customer_print_client.Cloud.Replies.{Reply, user_fields, get_user_info_reply}
use customer_print_client.Offices.Tests.{office}
use customer_print_client.Manager.State.{
  Outside, CoreManager, office_address, office_at, store_office, select_office, select_profile_at,
  update_config_selected_profile,
}
use customer_print_client.Manager.Printing.{images, run_printing, throws, Opened, opens}
use customer_print_client.Manager.Calls.{
  login, login_with_stored_creds, logout, done, told, new_login, for_user_info, for_logout,
  for_anonymous_after_logout, settles, waits, faults, informed, finish_login, start, answer,
}
use customer_print_client.Manager.Machine.{
  System, Event, call, answered, step, Reachable, at_start, after,
}
use customer_print_client.Manager.Promises.{count, total, Reachable-HasOnce}
use customer_print_client.Manager.Settled.{answers, run, answered-IsSettled}
use customer_print_client.Manager.Choice.{IsTold, select_office-IsTold}
use customer_print_client.Manager.Profile.{update_config_selected_profile-IsTold}
use customer_print_client.Manager.ResultQueue.{
  AsyncResult, returns, stores, idle, ready_count, not_run, retrievals, idle-retrieves,
}
use customer_print_client.Manager.Catalogue.{newest, catalogue, PointTo, store_offices-IsCatalogue}
use customer_print_client.Manager.Heap.{OfficesOk, store_office-OfficesOk}
use customer_print_client.Manager.Usable.{Prints, run_printing-select_office}
use customer_print_client.Manager.Stored.{Refused, LogsInWith, login-LogsInWith, logout-forgets}

abbrev tree_lib : JsonLib Fields
tree_lib = record {
  parse = λ s. some (field (codes "error") (string_node s) no_fields);
  print = λ j. [];
  string_of = get_string tree_json;
  object_of = get_object tree_json;
  empty = no_fields;
  add_string = λ k v j. field k (string_node v) j;
  add_number = λ k v j. j;
  add_boolean = λ k v j. j;
  add_object = λ k v j. j;
}

abbrev outside : Outside Fields ℕ ℕ
outside = record {
  lib = tree_lib;
  json = tree_json;
  nums = plain_numbers;
  widen = λ n. n;
  show = λ n. [];
  invalid = codes "Invalid1";
  encrypt = encrypt_linux;
  decrypt = decrypt_linux;
  date = λ s. none;
}

abbrev no_office : CoreManager Fields ℕ
no_office = record {
  client = record { server_name = codes "server"; login_ctx = none; posted = []; now = 5 };
  config = no_fields;
  saved = no_fields;
  credentials_file = none;
  has_pdf_library = true;
  user_info = no_user;
  heap = [];
  next_address = 0;
  print_offices = [];
  selected_office = none;
}

abbrev manager : CoreManager Fields ℕ
manager = store_office office no_office

no_office-OfficesOk : OfficesOk no_office
unfolding office_at office_address find
no_office-OfficesOk = (
  λ a o e. elim (none-ne-some o e) [ ],
  λ k a e. elim (none-ne-some a e) [ ],
  λ a e. elim (none-ne-some a e) [ ],
)

manager-OfficesOk : OfficesOk manager
manager-OfficesOk = store_office-OfficesOk office no_office (_, [], refl) no_office-OfficesOk

abbrev refusal : Reply
refusal = inr (http 403 (codes "no"))

abbrev at_first : System Fields ℕ
at_first = record { manager = manager; waiting = []; settled = []; faulted = []; next_promise = 0 }

abbrev logging_in : Event ℕ
logging_in = call (login (codes "me") (codes "secret"))

abbrev asked : System Fields ℕ
asked = step outside logging_in at_first

asked-Reachable : Reachable outside manager asked
asked-Reachable = after at_start logging_in

Reachable-HasOnce_example : total outside 0 asked ≡ (if ltb 0 asked.next_promise then 1 else 0)
Reachable-HasOnce_example = Reachable-HasOnce outside asked-Reachable 0

abbrev later : List (Event ℕ)
later = answered 0 refusal ∷ call logout ∷ answered 0 refusal ∷ []

answered-IsSettled_example :
    (count 0 (run outside later asked).settled ≡ 1)
    × (count 0 (run outside later asked).waiting ≡ 0)
unfolding answers step run find erase
answered-IsSettled_example =
    answered-IsSettled outside asked 0 later asked-Reachable (omega arith) (omega arith) refl

select_office-IsTold_example : IsTold outside (select_office outside (codes "o1") manager)
select_office-IsTold_example = select_office-IsTold outside (λ x. refl) (codes "o1") manager

update_config_selected_profile-IsTold_example :
    let chosen = select_office outside (codes "o1") manager in
    IsTold outside
      (update_config_selected_profile outside (select_profile_at 0 (codes "p2") chosen))
update_config_selected_profile-IsTold_example =
    update_config_selected_profile-IsTold outside 0 (codes "p2")
      (select_office outside (codes "o1") manager)
      (select_office-IsTold outside (λ x. refl) (codes "o1") manager)

abbrev opens_all : Text → Opened
opens_all file = opens

run_printing-select_office_example :
    let chosen = select_office outside (codes "o1") asked.manager in
    ((office_address (codes "o1") asked.manager ≡ none)
      × (run_printing opens_all images (codes "f" ∷ []) chosen
          ≡ throws (codes "Print office not selected")))
    ⊎ (Prints outside opens_all images (codes "f" ∷ []) (codes "o1") chosen)
run_printing-select_office_example =
    run_printing-select_office outside opens_all (codes "o1") images (codes "f") []
      manager-OfficesOk asked-Reachable

linux_crypto : (s bytes : Text) → encrypt_linux s ≡ some bytes → decrypt_linux bytes ≡ some s
unfolding encrypt_linux decrypt_linux
linux_crypto s bytes e = ap (λ b. some b) (sym (some-injective s bytes e))

-- The tree library, but each text is the user's data.
abbrev user_lib : JsonLib Fields
user_lib = record tree_lib {
  parse = λ s. some (
      field (codes "body")
        (object_node (
          field (codes "uuid") (string_node (codes "u")) (
            field (codes "email") (string_node (codes "me"))
              (field (codes "username") (string_node (codes "Me")) no_fields))))
        no_fields);
}

abbrev with_user : Outside Fields ℕ ℕ
with_user = record outside { lib = user_lib }

abbrev user_reply : Reply
user_reply = inl (record {
  http_version = codes "HTTP/1.1";
  status_code = 200;
  status_message = codes "OK";
  headers = [];
  content = codes "x";
})

abbrev logged_in : CoreManager Fields ℕ
logged_in = record manager {
  client = record manager.client {
    login_ctx = some (record { user_id = []; token = codes "t"; refresh_token = codes "r" });
  };
}

login_done :
    (answer with_user (for_user_info (new_login (codes "me") (codes "x"))) user_reply logged_in).1
    ≡ settles done ∷ []
unfolding answer informed get_user_info_reply user_fields finish_login text_eq
login_done = refl

login-LogsInWith_example :
    let answered =
      answer with_user (for_user_info (new_login (codes "me") (codes "x"))) user_reply logged_in in
    ((Refused with_user logged_in answered)
      ⊎ ((answered.1 ≡ settles done ∷ [])
          × (LogsInWith with_user (codes "me") (codes "x") answered.0)))
    ⊎ ((logged_in.client.login_ctx ≡ none) × (answered.1 ≡ faults ∷ []))
unfolding one_line encrypt_linux
login-LogsInWith_example =
    login-LogsInWith with_user linux_crypto (codes "me") (codes "x") (codes "x") user_reply
      logged_in refl refl

logout-forgets_example :
    let answered = answer outside for_logout refusal manager in
    (Refused outside manager answered)
    ⊎ ((answered.1 ≡ waits for_anonymous_after_logout ∷ [])
        × (start outside login_with_stored_creds answered.0
            ≡ (answered.0, settles (told false) ∷ [])))
logout-forgets_example = logout-forgets outside refusal manager

store_offices-IsCatalogue_example :
    let stored = store_offices (office ∷ office ∷ []) manager in
    (catalogue (codes "o1") stored.0
      ≡ newest (codes "o1") (office ∷ office ∷ []) (catalogue (codes "o1") manager))
    × (PointTo stored.1 (office ∷ office ∷ []) stored.0)
    × (the_selected_office stored.0 ≡ the_selected_office manager)
store_offices-IsCatalogue_example =
    store_offices-IsCatalogue (codes "o1") (office ∷ office ∷ []) manager
      ((_, [], refl), ((_, [], refl), tt)) manager-OfficesOk

abbrev polled : List AsyncResult
polled =
    record { id = 1; future = none; on_value = returns }
    ∷ record { id = 2; future = some none; on_value = stores }
    ∷ []

idle-retrieves_example : idle (ready_count polled) polled ≡ (not_run polled, retrievals polled)
idle-retrieves_example = idle-retrieves polled
