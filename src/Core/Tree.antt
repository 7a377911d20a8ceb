-- ===== src/Core/Tree.antt =====
-- A JSON library for the tests: objects are lists of fields, the latest first.
use customer_print_client.Prelude.{
  ℕ, ◌≡◌, refl, ap, Bool, Option, none, some, List, [], ◌∷◌, Text, text_eq, if◌then◌else◌,
}
use customer_print_client.Core.Json.{
  JsonValue, null, boolean, number, string, object, array, JsonObject, Numbers,
}

mutual
  pub data Node : Type 0 where
    null_node : Node
    boolean_node : Bool → Node
    number_node : ℕ → Node
    string_node : Text → Node
    object_node : Fields → Node
    array_node : Items → Node

  pub data Items : Type 0 where
    no_items : Items
    item : Fields → Items → Items
    other_item : Items → Items

  pub data Fields : Type 0 where
    no_fields : Fields
    field : Text → Node → Fields → Fields

abbrev pub list_of : Items → List (Option Fields)
list_of no_items = []
list_of (item j js) = some j ∷ list_of js
list_of (other_item js) = none ∷ list_of js

abbrev pub items_of : List (Option Fields) → Items
items_of [] = no_items
items_of (some j ∷ js) = item j (items_of js)
items_of (none ∷ js) = other_item (items_of js)

abbrev pub value_of_node : Node → JsonValue Fields ℕ
value_of_node null_node = null
value_of_node (boolean_node b) = boolean b
value_of_node (number_node n) = number n
value_of_node (string_node s) = string s
value_of_node (object_node j) = object j
value_of_node (array_node js) = array (list_of js)

abbrev pub node_of_value : JsonValue Fields ℕ → Node
node_of_value null = null_node
node_of_value (boolean b) = boolean_node b
node_of_value (number n) = number_node n
node_of_value (string s) = string_node s
node_of_value (object j) = object_node j
node_of_value (array js) = array_node (items_of js)

list_of-items_of : (js : List (Option Fields)) → list_of (items_of js) ≡ js
list_of-items_of [] = refl
list_of-items_of (some j ∷ js) = ap (λ l. some j ∷ l) (list_of-items_of js)
list_of-items_of (none ∷ js) = ap (λ l. none ∷ l) (list_of-items_of js)

value-node : (v : JsonValue Fields ℕ) → value_of_node (node_of_value v) ≡ v
value-node null = refl
value-node (boolean b) = refl
value-node (number n) = refl
value-node (string s) = refl
value-node (object j) = refl
value-node (array js) = ap array (list_of-items_of js)

abbrev pub field_of : Fields → Text → Option (JsonValue Fields ℕ)
field_of no_fields i = none
field_of (field k n j) i =
    let rest = field_of j i in if text_eq k i then some (value_of_node n) else rest

abbrev pub put_field : Text → JsonValue Fields ℕ → Fields → Fields
put_field k v j = field k (node_of_value v) j

pub field_of-put_field :
    (k i : Text) (v : JsonValue Fields ℕ) (j : Fields)
    → field_of (put_field k v j) i ≡ (if text_eq k i then some v else field_of j i)
field_of-put_field k i v j = ap (λ w. if text_eq k i then some w else field_of j i) (value-node v)

abbrev pub tree_json : JsonObject Fields ℕ
tree_json = record {
  value_of = field_of;
  empty = no_fields;
  put = put_field;
  value_of-empty = λ k. refl;
  value_of-put = λ k i v j ok. field_of-put_field k i v j;
}

-- Natural numbers as all kinds of numbers, with 999 for NaN.
abbrev pub plain_numbers : Numbers ℕ ℕ
plain_numbers = record {
  nan = 999;
  to_float = λ n. n;
  to_unsigned = λ width n. n;
  to_count = λ n. n;
}
