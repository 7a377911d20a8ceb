-- ===== src/Core/Tests.antt =====
-- The configuration and the credentials cache at concrete values.
use customer_print_client.Core.Config.{kept}
use customer_print_client.Core.Config.{ends_in_key}
use customer_print_client.Prelude.{◌≡◌, refl, sym, ap, true, none, some, Text, codes, text_eq}
use mathlib.Core.Option.{some-injective}
use customer_print_client.Core.Json.{as_string, number}
use customer_print_client.Core.Config.{
  split_name, get_value, set_value, config_get_string, config_set_string, config_get_number,
  config_set_number, config_get_boolean, config_set_boolean, config_set_null,
}
use customer_print_client.Core.ConfigPaths.{
  apart_names, apart, config_get-set, config_get-set_apart,
}
use customer_print_client.Core.Credentials.{
  Credentials, one_line, encrypt_linux, decrypt_linux, get_credentials, set_credentials,
  clear_credentials, get_credentials-set_credentials,
}
use customer_print_client.Core.Tree.{no_fields, tree_json}

abbrev id_name : Text
id_name = codes "Office/Id"

config_get-set_example :
    (config_get_string tree_json id_name
        (kept (config_set_string tree_json id_name (codes "7") no_fields) no_fields)
      ≡ some (codes "7"))
    × (config_get_number tree_json id_name
          (kept (config_set_number tree_json id_name 7 no_fields) no_fields)
        ≡ some 7)
    × (config_get_boolean tree_json id_name
          (kept (config_set_boolean tree_json id_name true no_fields) no_fields)
        ≡ some true)
    × (config_get_string tree_json id_name
          (kept (config_set_null tree_json id_name no_fields) no_fields)
        ≡ none)
    × (config_get_number tree_json id_name
          (kept (config_set_null tree_json id_name no_fields) no_fields)
        ≡ none)
    × (config_get_boolean tree_json id_name
          (kept (config_set_null tree_json id_name no_fields) no_fields)
        ≡ none)
unfolding ends_in_key split_name
config_get-set_example = config_get-set tree_json id_name (codes "7") 7 true no_fields refl

config_get-set_apart_example :
    (get_value tree_json as_string id_name
        (kept (set_value tree_json (number 3) (codes "Office/Latitude") no_fields) no_fields)
      ≡ get_value tree_json as_string id_name no_fields)
    × (get_value tree_json as_string id_name
          (kept (config_set_null tree_json (codes "Office/Latitude") no_fields) no_fields)
        ≡ get_value tree_json as_string id_name no_fields)
unfolding apart_names ends_in_key split_name apart text_eq
config_get-set_apart_example =
    config_get-set_apart tree_json as_string (number 3) (codes "Office/Latitude") id_name no_fields
      refl refl

abbrev creds : Credentials
creds = record { login = codes "me"; password = codes "secret" }

linux_crypto : (s bytes : Text) → encrypt_linux s ≡ some bytes → decrypt_linux bytes ≡ some s
unfolding encrypt_linux decrypt_linux
linux_crypto s bytes e = ap (λ b. some b) (sym (some-injective s bytes e))

get_credentials-set_credentials_example :
    (get_credentials decrypt_linux (set_credentials encrypt_linux creds none)
      ≡ (elim (encrypt_linux creds.password) [
        | none ↦ get_credentials decrypt_linux none
        | some bytes ↦ some creds
      ]))
    × (get_credentials decrypt_linux (clear_credentials (set_credentials encrypt_linux creds none))
        ≡ none)
unfolding one_line
get_credentials-set_credentials_example =
    get_credentials-set_credentials encrypt_linux decrypt_linux linux_crypto creds none refl
