-- ===== src/Networking/Http/Number.antt =====
-- std::to_string and the extraction of an unsigned number from a stream, which
-- src/Networking/Http/HttpRequest.cpp and HttpResponse.cpp use for Content-Length and
-- HttpClientMT.cpp for the status code.
use customer_print_client.Prelude.{
  refl, ap, sym, ◌∙◌, false, length, is_empty, ℕ, zero, suc, ◌+◌, ◌-◌, ◌*◌, ◌/◌, ◌%◌, ◌≤◌, ◌<◌, ◌≡◌,
  inl, inr, Bool, ◌&&◌, ◌||◌, [], ◌∷◌, ◌++◌, Option, none, some, Text, arith, ltb, leb, ◌==◌,
  if◌then◌else◌, Bool-cases,
}

digits_onto : ℕ → ℕ → Text → Text
digits_onto zero n acc = acc
digits_onto (suc f) n acc =
    let rest = digits_onto f (n / 10) ((b'0' + n % 10) ∷ acc) in
    if ltb n 10 then (b'0' + n) ∷ acc else rest

unfoldable pub to_string : ℕ → Text
unfolding digits_onto
to_string n = digits_onto (suc n) n []

abbrev pub is_digit : ℕ → Bool
is_digit c = leb b'0' c && leb c b'9'

-- The classic locale's white space.
abbrev pub is_space : ℕ → Bool
is_space c = c == b' ' || leb 9 c && leb c 13

unfoldable pub skip_spaces : Text → Text
skip_spaces [] = []
skip_spaces (c ∷ cs) = if is_space c then skip_spaces cs else c ∷ cs

-- The value of the leading digits, and what follows them.
unfoldable pub read_digits : ℕ → Text → ℕ × Text
read_digits acc [] = (acc, [])
read_digits acc (c ∷ cs) =
    let more = read_digits (acc * 10 + (c - b'0')) cs in if is_digit c then more else (acc, c ∷ cs)

-- At least one digit, and a value below the limit; after a minus the value is negated.
unfoldable pub read_unsigned : ℕ → Bool → Text → Option (ℕ × Text)
read_unsigned limit negative [] = none
read_unsigned limit negative (c ∷ cs) =
    if is_digit c
    then (let (n, rest) = read_digits 0 (c ∷ cs) in
        if ltb n limit then some (if negative then (limit - n) % limit else n, rest) else none)
    else none

unfoldable pub read_signed : ℕ → Text → Option (ℕ × Text)
unfolding read_unsigned
read_signed limit [] = none
read_signed limit (c ∷ cs) =
    if c == b'-'
    then read_unsigned limit Bool.true cs
    else if c == b'+'
    then read_unsigned limit Bool.false cs
    else read_unsigned limit Bool.false (c ∷ cs)

-- `stream >> n` for an unsigned type with `limit` values; `none` is a failed stream.
unfoldable pub extract : ℕ → Text → Option (ℕ × Text)
unfolding skip_spaces read_signed
extract limit s = read_signed limit (skip_spaces s)

read_digits-digits_onto :
    (f n : ℕ) (acc : Text) → n < f → read_digits 0 (digits_onto f n acc) ≡ read_digits n acc
unfolding digits_onto read_digits
read_digits-digits_onto zero n acc h = elim h [ ]
read_digits-digits_onto (suc f) n acc h = elim (Bool-cases (ltb n 10)) [
  | inl small ↦ ground arith
  | inr large ↦ ground (arith, read_digits-digits_onto f (n / 10) ((b'0' + n % 10) ∷ acc))
]

-- A text that begins with a digit.
abbrev DigitFirst : Text → Type 0
DigitFirst s = (c : ℕ) × (cs : Text) × (s ≡ c ∷ cs) × (b'0' ≤ c) × (c ≤ b'9')

digits_onto-DigitFirst : (f n : ℕ) (acc : Text) → n < f → DigitFirst (digits_onto f n acc)
unfolding digits_onto
digits_onto-DigitFirst zero n acc h = elim h [ ]
digits_onto-DigitFirst (suc f) n acc h = elim (Bool-cases (ltb n 10)) [
  | inl small ↦ (b'0' + n, acc, rw small, omega arith, ground arith)
  | inr large ↦
      let (c, cs, e, lo, hi) =
        digits_onto-DigitFirst f (n / 10) ((b'0' + n % 10) ∷ acc) (ground arith) in
      (c, cs, rw large e, lo, hi)
]

extract_digits :
    (limit n : ℕ) (s rest : Text)
    → n < limit
    → DigitFirst s
    → read_digits 0 s ≡ (n, rest)
    → extract limit s ≡ some (n, rest)
unfolding extract skip_spaces read_signed read_unsigned
extract_digits limit n [] rest h (c, cs, e, lo, hi) back = cc
extract_digits limit n (d ∷ ds) rest h (c, cs, e, lo, hi) back = ground arith

-- What to_string writes is read back, if the type can hold it.
pub extract-to_string : (limit n : ℕ) → n < limit → extract limit (to_string n) ≡ some (n, [])
unfolding to_string
extract-to_string limit n h =
    let back = read_digits-digits_onto (suc n) n [] (omega arith) in
    extract_digits limit n (digits_onto (suc n) n []) [] h
      (digits_onto-DigitFirst (suc n) n [] (omega arith)) (unfold read_digits in back)

digits_onto-append :
    (f n : ℕ) (acc rest : Text) → digits_onto f n acc ++ rest ≡ digits_onto f n (acc ++ rest)
unfolding digits_onto
digits_onto-append zero n acc rest = refl
digits_onto-append (suc f) n acc rest =
    ground (arith, digits_onto-append f (n / 10) ((b'0' + n % 10) ∷ acc) rest)

-- What to_string writes is read back up to the next character that is not a digit.
pub extract-to_string_then :
    (limit n c : ℕ) (rest : Text)
    → n < limit
    → is_digit c ≡ false
    → extract limit (to_string n ++ c ∷ rest) ≡ some (n, c ∷ rest)
unfolding to_string
extract-to_string_then limit n c rest h other =
    let onto : Text = digits_onto (suc n) n (c ∷ rest) in
    let back : read_digits 0 onto ≡ (n, c ∷ rest) =
      read_digits-digits_onto (suc n) n (c ∷ rest) (omega arith)
      ∙ unfold read_digits in ground arith in
    ap (extract limit) (digits_onto-append (suc n) n [] (c ∷ rest))
    ∙ extract_digits limit n onto (c ∷ rest) h
        (digits_onto-DigitFirst (suc n) n (c ∷ rest) (omega arith)) back

digits_onto-length :
    (f n : ℕ) (acc : Text)
    → n < f
    → (length acc < length (digits_onto f n acc))
      × (10 ≤ n → length acc + 1 < length (digits_onto f n acc))
unfolding digits_onto
digits_onto-length zero n acc h = elim h [ ]
digits_onto-length (suc f) n acc h = elim (Bool-cases (ltb n 10)) [
  | inl small ↦ ground arith
  | inr large ↦
      let (more, many) = digits_onto-length f (n / 10) ((b'0' + n % 10) ∷ acc) (ground arith) in
      ground arith
]

many_left : (t : Text) (c : ℕ) (cs : Text) → t ≡ c ∷ cs → 1 < length t → is_empty cs ≡ false
many_left t c [] e h = absurd (omega (arith, ap length e))
many_left t c (d ∷ cs) e h = refl

shortness : (n c : ℕ) (cs : Text) → to_string n ≡ c ∷ cs → is_empty cs ≡ ltb n 10
unfolding to_string digits_onto
shortness n c cs e = elim (Bool-cases (ltb n 10)) [
  | inl small ↦ ground (arith, small)
  | inr large ↦
      let long = (digits_onto-length (suc n) n [] (omega arith)).1 (ground arith) in
      many_left (to_string n) c cs e (unfold to_string in long) ∙ sym large
]

-- A number is written with a digit first, and with one digit alone if it is below ten.
pub to_string_digits :
    (n : ℕ) → (c : ℕ) × (cs : Text) × (to_string n ≡ c ∷ cs) × (b'0' ≤ c) × (is_empty cs ≡ ltb n 10)
to_string_digits n =
    let (c, cs, e, lo, hi) = digits_onto-DigitFirst (suc n) n [] (omega arith) in
    let e' : to_string n ≡ c ∷ cs = unfold to_string in e in (c, cs, e', lo, shortness n c cs e')
