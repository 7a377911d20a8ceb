-- ===== src/Cloud/Json.antt =====
-- What src/CustomerPrintClientCore/CloudPrintClient.cpp uses of the JSON library jsonxx: reading
-- a value under a key if it is there and has the type (`has` and `get`), parsing, building and
-- printing an object.
use customer_print_client.Prelude.{ℕ, Bool, Option, Text}

pub record JsonLib (J : Type 0) : Type 0 where
  pub parse : Text → Option J
  pub print : J → Text
  pub string_of : J → Text → Option Text
  pub object_of : J → Text → Option J
  pub empty : J
  pub add_string : Text → Text → J → J
  pub add_number : Text → ℕ → J → J
  pub add_boolean : Text → Bool → J → J
  pub add_object : Text → J → J → J
