-- ===== src/Core/Json.antt =====
-- The readers that the program adds to jsonxx (src/Core/jsonxx.h, jsonxx.cc), over an interface of
-- the JSON library: an object is what it holds under each key.
use customer_print_client.Prelude.{
  ℕ, Bool, ◌≡◌, Option, none, some, List, Text, text_eq, is_empty, true, not, and_then,
  if◌then◌else◌,
}

-- A value of an object. The elements of an array are objects, or `none` for one that is not.
pub data JsonValue (J N : Type 0) : Type 0 where
  null : JsonValue J N
  boolean : Bool → JsonValue J N
  number : N → JsonValue J N
  string : Text → JsonValue J N
  object : J → JsonValue J N
  array : List (Option J) → JsonValue J N

-- What operator<< stores under a key.
abbrev pub storable : {J N : Type 0} → Text → JsonValue J N → Bool
storable k (object j) = true
storable k _ = not (is_empty k)

-- An object is one in which no key waits for its value. `put k v j` is `j << k << v`, which replaces
-- what stands under the key. jsonxx takes an empty key for none, unless an object follows it: it makes
-- the value the key that waits, or stops at an assertion, and `put` then stands for nothing.
pub record JsonObject (J N : Type 0) : Type 0 where
  pub value_of : J → Text → Option (JsonValue J N)
  pub empty : J
  pub put : Text → JsonValue J N → J → J
  pub value_of-empty : (k : Text) → value_of empty k ≡ none
  pub value_of-put :
      (k i : Text) (v : JsonValue J N) (j : J)
      → storable k v ≡ true
      → value_of (put k v j) i ≡ (if text_eq k i then some v else value_of j i)

-- `nan` is the quiet NaN; the others are the casts of the code to float, to an unsigned integer of
-- that many bits and to int, the last for values that the code only uses as a count.
pub record Numbers (N F : Type 0) : Type 0 where
  pub nan : N
  pub to_float : N → F
  pub to_unsigned : ℕ → N → ℕ
  pub to_count : N → ℕ

module _ {J N : Type 0} where
  -- `has<T>(key)` with `get<T>(key)`.
  abbrev pub as_boolean : JsonValue J N → Option Bool
  as_boolean (boolean b) = some b
  as_boolean _ = none

  abbrev pub as_number : JsonValue J N → Option N
  as_number (number n) = some n
  as_number _ = none

  abbrev pub as_string : JsonValue J N → Option Text
  as_string (string s) = some s
  as_string _ = none

  abbrev pub as_object : JsonValue J N → Option J
  as_object (object j) = some j
  as_object _ = none

  abbrev pub as_array : JsonValue J N → Option (List (Option J))
  as_array (array js) = some js
  as_array _ = none

module _ {J N : Type 0} (json : JsonObject J N) where
  abbrev pub get_boolean : J → Text → Option Bool
  get_boolean j k = and_then (json.value_of j k) as_boolean

  abbrev pub get_string : J → Text → Option Text
  get_string j k = and_then (json.value_of j k) as_string

  abbrev pub get_number : J → Text → Option N
  get_number j k = and_then (json.value_of j k) as_number

  abbrev pub get_object : J → Text → Option J
  get_object j k = and_then (json.value_of j k) as_object

  abbrev pub get_array : J → Text → Option (List (Option J))
  get_array j k = and_then (json.value_of j k) as_array

  -- ReadString. `invalid` is the text that the program makes at its first call, "Invalid" with the
  -- time; a string that is equal to it counts as missing.
  unfoldable pub read_string : Text → J → Text → Option Text
  read_string invalid j k =
      and_then (get_string j k) λ s. if text_eq s invalid then none else some s

  -- ReadNumber: the number, or NaN. The code tells a missing number by `result != NaN`, which is
  -- true of every number, so it never fails.
  unfoldable pub read_number : N → J → Text → N
  read_number nan j k = elim (get_number j k) [ some n ↦ n | none ↦ nan ]
