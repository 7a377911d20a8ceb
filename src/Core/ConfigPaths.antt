-- ===== src/Core/ConfigPaths.antt =====
-- What stands at a name of the configuration after a value, or null, is stored at a name.
use customer_print_client.Prelude.{
  is_empty, ◌⊎◌, ◌++◌, ◌≡◌, refl, sym, ap, ◌∙◌, arith, Bool, true, false, not, Option, none, some,
  List, [], ◌∷◌, Text, text_eq, text_eq_iff, and_then, if◌then◌else◌, inl, inr, Bool-cases,
  Option-cases,
}
use customer_print_client.Core.Json.{
  JsonObject, storable, JsonValue, null, boolean, number, string, array, object, as_object,
  get_object,
}
use customer_print_client.Core.Config.{
  split_name, section_or_new, value_at, set_at, null_at, get_value, set_value, config_set_null,
  config_get_string, config_set_string, config_get_number, config_set_number, config_get_boolean,
  config_set_boolean, kept, ends_in_key,
}

-- Two paths part before either ends: neither is the other or a section of it.
unfoldable pub apart : List Text → Text → List Text → Text → Bool
apart [] a [] b = not (text_eq a b)
apart [] a (t ∷ ts) b = not (text_eq a t)
apart (s ∷ ss) a [] b = not (text_eq s b)
apart (s ∷ ss) a (t ∷ ts) b = let rest = apart ss a ts b in if text_eq s t then rest else true

unfoldable pub apart_names : Text → Text → Bool
unfolding split_name apart
apart_names n m = let p = split_name n in let q = split_name m in apart p.0 p.1 q.0 q.1

module _ {J N : Type 0} (json : JsonObject J N) where
  abbrev value : J → Text → Option (JsonValue J N)
  value = json.value_of

  storable_lem : (k : Text) (v : JsonValue J N) → is_empty k ≡ false → storable k v ≡ true
  storable_lem k null h = rw h
  storable_lem k (boolean b) h = rw h
  storable_lem k (number n) h = rw h
  storable_lem k (string s) h = rw h
  storable_lem k (object j) h = refl
  storable_lem k (array js) h = rw h

  value-put_same :
      (k : Text) (v : JsonValue J N) (j : J)
      → storable k v ≡ true
      → value (json.put k v j) k ≡ some v
  value-put_same k v j ok = rw (json.value_of-put k k v j ok, (text_eq_iff k k).1 refl)

  value-put_other :
      (k i : Text) (v : JsonValue J N) (j : J)
      → storable k v ≡ true
      → text_eq k i ≡ false
      → value (json.put k v j) i ≡ value j i
  value-put_other k i v j ok h = rw (json.value_of-put k i v j ok, h)

  value_at-put_section :
      (s t : Text) (sub j : J) (ts : List Text) (b : Text)
      → text_eq s t ≡ true
      → value_at json (json.put s (object sub) j) (t ∷ ts) b ≡ value_at json sub ts b
  unfolding value_at
  value_at-put_section s t sub j ts b h =
      ap (λ o. and_then (and_then o as_object) (λ i. value_at json i ts b)) {y = some (object sub)}
        (rw (json.value_of-put s t (object sub) j refl, h))

  value_at-set_at :
      (v : JsonValue J N) (j : J) (ss : List Text) (a : Text)
      → is_empty a ≡ false
      → value_at json (set_at json v j ss a) ss a ≡ some v
  unfolding value_at set_at
  value_at-set_at v j [] a ne = value-put_same a v j (storable_lem a v ne)
  value_at-set_at v j (s ∷ ss) a ne =
      value_at-put_section s s _ j ss a ((text_eq_iff s s).1 refl)
      ∙ value_at-set_at v (section_or_new json j s) ss a ne

  value_at-empty : (ts : List Text) (b : Text) → value_at json json.empty ts b ≡ none
  unfolding value_at
  value_at-empty [] b = json.value_of-empty b
  value_at-empty (t ∷ ts) b =
      ap (λ o. and_then (and_then o as_object) (λ sub. value_at json sub ts b))
        (json.value_of-empty t)

  section-value_at :
      (j : J) (s : Text) (ss : List Text) (a : Text)
      → value_at json (section_or_new json j s) ss a
        ≡ and_then (get_object json j s) (λ sub. value_at json sub ss a)
  unfolding section_or_new
  section-value_at j s ss a = elim (Option-cases (get_object json j s)) [
    | inl e ↦ rw (section_or_new, e) (value_at-empty ss a)
    | inr (sub, e) ↦ rw (section_or_new, e)
  ]

  value_at-put_other :
      (k : Text) (v : JsonValue J N) (j : J) (t : Text) (ts : List Text) (b : Text)
      → storable k v ≡ true
      → text_eq k t ≡ false
      → value_at json (json.put k v j) (t ∷ ts) b ≡ value_at json j (t ∷ ts) b
  unfolding value_at
  value_at-put_other k v j t ts b ok h =
      ap (λ o. and_then (and_then o as_object) (λ sub. value_at json sub ts b))
        (value-put_other k t v j ok h)

  value_at-set_at-apart :
      (v : JsonValue J N) (j : J) (ss : List Text) (a : Text) (ts : List Text) (b : Text)
      → is_empty a ≡ false
      → apart ss a ts b ≡ true
      → value_at json (set_at json v j ss a) ts b ≡ value_at json j ts b
  unfolding value_at set_at apart
  value_at-set_at-apart v j [] a [] b ne h =
      value-put_other a b v j (storable_lem a v ne) (ground arith)
  value_at-set_at-apart v j [] a (t ∷ ts) b ne h =
      value_at-put_other a v j t ts b (storable_lem a v ne) (ground arith)
  value_at-set_at-apart v j (s ∷ ss) a [] b ne h =
      value-put_other s b (object _) j refl (ground arith)
  value_at-set_at-apart v j (s ∷ ss) a (t ∷ ts) b ne h = elim (Bool-cases (text_eq s t)) [
    | inr e ↦ value_at-put_other s (object _) j t ts b refl e
    | inl e ↦
        value_at-put_section s t _ j ts b e
        ∙ value_at-set_at-apart v (section_or_new json j s) ss a ts b ne (ground arith)
        ∙ section-value_at j s ts b
        ∙ ap (λ i. and_then (get_object json j i) (λ sub. value_at json sub ts b))
            ((text_eq_iff s t).0 e)
  ]

  value_at-null_at-apart :
      (j : J) (ss : List Text) (a : Text) (ts : List Text) (b : Text)
      → is_empty a ≡ false
      → apart ss a ts b ≡ true
      → value_at json (null_at json j ss a) ts b ≡ value_at json j ts b
  unfolding value_at null_at apart
  value_at-null_at-apart j [] a [] b ne h =
      value-put_other a b null j (storable_lem a null ne) (ground arith)
  value_at-null_at-apart j [] a (t ∷ ts) b ne h =
      value_at-put_other a null j t ts b (storable_lem a null ne) (ground arith)
  value_at-null_at-apart j (s ∷ ss) a [] b ne h = elim (Option-cases (get_object json j s)) [
    | inl e ↦ rw (null_at, e)
    | inr (sub, e) ↦ rw (null_at, e) (value-put_other s b (object _) j refl (ground arith))
  ]
  value_at-null_at-apart j (s ∷ ss) a (t ∷ ts) b ne h = elim (Option-cases (get_object json j s)) [
    | inl e ↦ rw (null_at, e)
    | inr (sub, e) ↦ elim (Bool-cases (text_eq s t)) [
      | inr f ↦ rw (null_at, e) (value_at-put_other s (object _) j t ts b refl f)
      | inl f ↦
          rw (null_at, e)
            (value_at-put_section s t _ j ts b f
              ∙ value_at-null_at-apart sub ss a ts b ne (ground arith)
              ∙ sym (
                  ap (λ o. and_then o (λ i. value_at json i ts b))
                    (ap (get_object json j) (sym ((text_eq_iff s t).0 f)) ∙ e)))
    ]
  ]

  value_at-null_at :
      (j : J) (ss : List Text) (a : Text)
      → is_empty a ≡ false
      → (value_at json (null_at json j ss a) ss a ≡ some null)
        ⊎ (value_at json (null_at json j ss a) ss a ≡ none)
  unfolding value_at null_at
  value_at-null_at j [] a ne = inl (value-put_same a null j (storable_lem a null ne))
  value_at-null_at j (s ∷ ss) a ne = elim (Option-cases (get_object json j s)) [
    | inl e ↦ inr (rw (null_at, e, e))
    | inr (sub, e) ↦
        let here =
          value_at-put_section s s (null_at json sub ss a) j ss a ((text_eq_iff s s).1 refl) in
        elim (value_at-null_at sub ss a ne) [
          | inl f ↦ inl (rw (null_at, e) (here ∙ f))
          | inr f ↦ inr (rw (null_at, e) (here ∙ f))
        ]
  ]

  value_at-null_at_below :
      (j : J) (ss : List Text) (a : Text) (ts : List Text) (b : Text)
      → is_empty a ≡ false
      → value_at json (null_at json j ss a) (ss ++ a ∷ ts) b ≡ none
  unfolding value_at null_at
  value_at-null_at_below j [] a ts b ne =
      ap (λ o. and_then (and_then o as_object) (λ sub. value_at json sub ts b))
        (value-put_same a null j (storable_lem a null ne))
  value_at-null_at_below j (s ∷ ss) a ts b ne = elim (Option-cases (get_object json j s)) [
    | inl e ↦ rw (null_at, e, e)
    | inr (sub, e) ↦
        rw (null_at, e)
          (value_at-put_section s s _ j (ss ++ a ∷ ts) b ((text_eq_iff s s).1 refl)
            ∙ value_at-null_at_below sub ss a ts b ne)
  ]

  not_empty : (name : Text) → ends_in_key name ≡ true → is_empty (split_name name).1 ≡ false
  unfolding ends_in_key
  not_empty name h = ground arith

  after_set :
      (v : JsonValue J N) (name : Text) (j : J)
      → ends_in_key name ≡ true
      → kept (set_value json v name j) j ≡ set_at json v j (split_name name).0 (split_name name).1
  unfolding set_value
  after_set v name j h = rw (set_value, h)

  after_null :
      (name : Text) (j : J)
      → ends_in_key name ≡ true
      → kept (config_set_null json name j) j
        ≡ null_at json j (split_name name).0 (split_name name).1
  unfolding config_set_null
  after_null name j h = rw (config_set_null, h)

  -- What a setter stores at a name that ends in a key, its getter finds there, for each type; and
  -- after such a name is set to null no getter finds a value.
  pub config_get-set :
      (name s : Text) (n : N) (b : Bool) (j : J)
      → ends_in_key name ≡ true
      → (config_get_string json name (kept (config_set_string json name s j) j) ≡ some s)
        × (config_get_number json name (kept (config_set_number json name n j) j) ≡ some n)
        × (config_get_boolean json name (kept (config_set_boolean json name b j) j) ≡ some b)
        × (config_get_string json name (kept (config_set_null json name j) j) ≡ none)
        × (config_get_number json name (kept (config_set_null json name j) j) ≡ none)
        × (config_get_boolean json name (kept (config_set_null json name j) j) ≡ none)
  unfolding config_get_string config_set_string config_get_number config_set_number
      config_get_boolean config_set_boolean get_value
  config_get-set name s n b j key =
      let p = split_name name in
      let ne = not_empty name key in
      let nulled = value_at-null_at j p.0 p.1 ne in
      let same = after_null name j key in
      (
        rw (after_set (string s) name j key, value_at-set_at (string s) j p.0 p.1 ne),
        rw (after_set (number n) name j key, value_at-set_at (number n) j p.0 p.1 ne),
        rw (after_set (boolean b) name j key, value_at-set_at (boolean b) j p.0 p.1 ne),
        elim nulled [ inl e ↦ rw (same, e) | inr e ↦ rw (same, e) ],
        elim nulled [ inl e ↦ rw (same, e) | inr e ↦ rw (same, e) ],
        elim nulled [ inl e ↦ rw (same, e) | inr e ↦ rw (same, e) ],
      )

  -- Storing a value or null at a name that ends in a key leaves what a getter finds at another name,
  -- unless one of the two names is the other or a section of it.
  pub config_get-set_apart :
      {A : Type 0} (read : JsonValue J N → Option A) (v : JsonValue J N) (n m : Text) (j : J)
      → ends_in_key n ≡ true
      → apart_names n m ≡ true
      → (get_value json read m (kept (set_value json v n j) j) ≡ get_value json read m j)
        × (get_value json read m (kept (config_set_null json n j) j) ≡ get_value json read m j)
  unfolding get_value apart_names
  config_get-set_apart read v n m j key h =
      let p = split_name n in
      let q = split_name m in
      let ne = not_empty n key in
      (
        rw (after_set v n j key, value_at-set_at-apart v j p.0 p.1 q.0 q.1 ne h),
        rw (after_null n j key, value_at-null_at-apart j p.0 p.1 q.0 q.1 ne h),
      )

  -- After a name that ends in a key is set to null, nothing stands at a name of which it is a section.
  pub config_get-set_null_section :
      {A : Type 0} (read : JsonValue J N → Option A) (n m : Text) (j : J) (ts : List Text)
      (b : Text)
      → ends_in_key n ≡ true
      → split_name m ≡ ((split_name n).0 ++ (split_name n).1 ∷ ts, b)
      → get_value json read m (kept (config_set_null json n j) j) ≡ none
  unfolding get_value
  config_get-set_null_section read n m j ts b key e =
      let same = after_null n j key in
      ap (λ p. and_then (value_at json (kept (config_set_null json n j) j) p.0 p.1) read) e
      ∙ ap (λ j'. and_then (value_at json j' ((split_name n).0 ++ (split_name n).1 ∷ ts) b) read)
          same
      ∙ ap (λ o. and_then o read)
          (value_at-null_at_below j (split_name n).0 (split_name n).1 ts b (not_empty n key))
