-- ===== src/Core/Strings.antt =====
-- src/Core/StringUtilities.cpp: `ExtractFileName` and `ReplaceFileExtension`, on wide strings.
use customer_print_client.Prelude.{
  ℕ, suc, ◌+◌, Bool, ◌||◌, [], ◌∷◌, ◌++◌, Option, none, some, Text, ◌==◌, if◌then◌else◌, drop,
}

-- The position of the last unit that passes the test, as find_last_of and rfind find it; `none` is
-- npos.
unfoldable pub find_last : (ℕ → Bool) → Text → Option ℕ
find_last test [] = none
find_last test (c ∷ cs) = elim (find_last test cs) [
  | some i ↦ some (suc i)
  | none ↦ if test c then some 0 else none
]

-- substr(0, n)
unfoldable pub take : ℕ → Text → Text
take n [] = []
take ℕ.zero (c ∷ cs) = []
take (suc n) (c ∷ cs) = c ∷ take n cs

abbrev pub is_separator : ℕ → Bool
is_separator c = c == b'\\' || c == b'/'

abbrev pub is_dot : ℕ → Bool
is_dot c = c == b'.'

unfoldable pub extract_file_name : Text → Text
extract_file_name path = elim (find_last is_separator path) [
  | some pos ↦ drop (pos + 1) path
  | none ↦ path
]

unfoldable pub replace_file_extension : Text → Text → Text
replace_file_extension file_name new_ext = elim (find_last is_dot file_name) [
  | some pos ↦ take (pos + 1) file_name ++ new_ext
  | none ↦ file_name ++ (b'.' ∷ new_ext)
]
