-- ===== src/Core/Config.antt =====
-- src/Core/Config.cpp: values under names like "SelectedOffice/Id", in a tree of JSON objects. The
-- file's text is what the library prints and parses; reading and writing it are left out.
use customer_print_client.Prelude.{
  Bool, true, false, not, is_empty, Option, none, some, List, [], ◌∷◌, Text, and_then, ◌==◌,
  if◌then◌else◌,
}
use customer_print_client.Core.Json.{
  JsonObject, JsonValue, null, boolean, number, string, object, as_boolean, as_number, as_string,
  get_object,
}

-- The loop over the slashes of a name, the sections and what follows the last slash.
unfoldable pub split_name : Text → List Text × Text
split_name [] = ([], [])
split_name (c ∷ name) =
    let rest = split_name name in
    if c == 47
    then ([] ∷ rest.0, rest.1)
    else elim rest.0 [ [] ↦ ([], c ∷ rest.1) | s ∷ sections ↦ ((c ∷ s) ∷ sections, rest.1) ]

-- The name ends in a key, and not in a slash.
unfoldable pub ends_in_key : Text → Bool
unfolding split_name
ends_in_key name = not (is_empty (split_name name).1)

-- The object after a setter that returns.
abbrev pub kept : {J : Type 0} → Option J → J → J
kept none j = j
kept (some j') j = j'

module _ {J N : Type 0} (json : JsonObject J N) where
  -- The section under the root, created where the code creates it.
  unfoldable pub section_or_new : J → Text → J
  section_or_new j s = elim (get_object json j s) [ none ↦ json.empty | some sub ↦ sub ]

  -- GetValue: the value at a path, if each section is there.
  unfoldable pub value_at : J → List Text → Text → Option (JsonValue J N)
  value_at j [] last = json.value_of j last
  value_at j (s ∷ sections) last = and_then (get_object json j s) λ sub. value_at sub sections last

  -- SetValue for a last key that is not empty. The code writes through a reference into the section;
  -- here the section is put back.
  unfoldable pub set_at : JsonValue J N → J → List Text → Text → J
  unfolding section_or_new
  set_at v j [] last = json.put last v j
  set_at v j (s ∷ sections) last =
      json.put s (object (set_at v (section_or_new j s) sections last)) j

  -- SetNull for a last key that is not empty. It stops at a section that is missing.
  unfoldable pub null_at : J → List Text → Text → J
  null_at j [] last = json.put last null j
  null_at j (s ∷ sections) last = elim (get_object json j s) [
    | none ↦ j
    | some sub ↦ json.put s (object (null_at sub sections last)) j
  ]

  unfoldable pub get_value : {A : Type 0} → (JsonValue J N → Option A) → Text → J → Option A
  unfolding split_name value_at
  get_value read name j = let path = split_name name in and_then (value_at j path.0 path.1) read

  -- Where a name ends in no key, the setters leave the object with a key that waits for its value, or
  -- stop at an assertion: the result is `none`. SetNull does so if it finds the section.
  unfoldable pub set_value : JsonValue J N → Text → J → Option J
  unfolding split_name set_at ends_in_key
  set_value v name j =
      let path = split_name name in
      if ends_in_key name then some (set_at v j path.0 path.1) else none

  unfoldable pub has_section : J → List Text → Bool
  has_section j [] = true
  has_section j (s ∷ sections) = elim (get_object json j s) [
    | none ↦ false
    | some sub ↦ has_section sub sections
  ]

  unfoldable pub config_set_null : Text → J → Option J
  unfolding split_name null_at ends_in_key has_section
  config_set_null name j =
      let path = split_name name in
      if ends_in_key name
      then some (null_at j path.0 path.1)
      else (if has_section j path.0 then none else some j)

  -- The members of the class.
  unfoldable pub config_get_string : Text → J → Option Text
  unfolding get_value
  config_get_string name j = get_value as_string name j

  unfoldable pub config_set_string : Text → Text → J → Option J
  unfolding set_value
  config_set_string name value j = set_value (string value) name j

  unfoldable pub config_get_number : Text → J → Option N
  unfolding get_value
  config_get_number name j = get_value as_number name j

  unfoldable pub config_set_number : Text → N → J → Option J
  unfolding set_value
  config_set_number name value j = set_value (number value) name j

  unfoldable pub config_get_boolean : Text → J → Option Bool
  unfolding get_value
  config_get_boolean name j = get_value as_boolean name j

  unfoldable pub config_set_boolean : Text → Bool → J → Option J
  unfolding set_value
  config_set_boolean name value j = set_value (boolean value) name j
