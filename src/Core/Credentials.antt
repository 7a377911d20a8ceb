-- ===== src/Core/Credentials.antt =====
-- src/Core/CredentialsCache.cpp: the login and the encrypted password in one file, `none` where
-- there is no file. Encryption is a parameter; that of src/Core/Crypto_Linux.cpp is below.
use customer_print_client.Prelude.{
  ℕ, zero, suc, ◌<◌, ◌≡◌, refl, ap, ◌∙◌, arith, Bool, true, not, ◌&&◌, Option, none, some, List, [],
  ◌∷◌, ◌++◌, append_assoc, Text, length, drop, length-drop, leb, leb→le, ◌==◌, if◌then◌else◌,
  and_then, inl, inr, Bool-cases, Option-cases,
}

pub record Credentials : Type 0 where
  pub login : Text
  pub password : Text

unfoldable pub encrypt_linux : Text → Option Text
encrypt_linux value = some value

unfoldable pub decrypt_linux : Text → Option Text
decrypt_linux value = some value

-- The text before the first line feed, and the text behind it.
unfoldable pub cut_line : Text → Text × Text
cut_line [] = ([], [])
cut_line (c ∷ cs) = let rest = cut_line cs in if c == 10 then ([], cs) else (c ∷ rest.0, rest.1)

-- std::getline, which fails at the end of the file.
unfoldable pub get_line : Text → Option (Text × Text)
unfolding cut_line
get_line [] = none
get_line (c ∷ cs) = some (cut_line (c ∷ cs))

abbrev front {ℓ} : {A : Type ℓ} → ℕ → List A → List A
front zero xs = []
front (suc n) [] = []
front (suc n) (x ∷ xs) = x ∷ front n xs

-- The loop that reads blocks of 64 bytes: `file` is what the stream still has, `bytes` what was
-- read. A read of less than a block ends it, and gcount tells how much was there. The first argument
-- is fuel, one more than the length of the file.
unfoldable pub read_blocks : ℕ → Text → Text → Text
read_blocks zero file bytes = bytes
read_blocks (suc n) file bytes =
    let rest = read_blocks n (drop 64 file) (bytes ++ front 64 file) in
    if leb 64 (length file) then rest else bytes ++ file

unfoldable pub get_credentials : (Text → Option Text) → Option Text → Option Credentials
unfolding get_line read_blocks
get_credentials decrypt file = and_then file λ text. and_then (get_line text) λ parts.
    and_then (decrypt (read_blocks (suc (length parts.1)) parts.1 []))
      λ password. some (record { login = parts.0; password = password })

unfoldable pub set_credentials : (Text → Option Text) → Credentials → Option Text → Option Text
set_credentials encrypt creds file = elim (encrypt creds.password) [
  | none ↦ file
  | some bytes ↦ some (creds.login ++ 10 ∷ bytes)
]

unfoldable pub clear_credentials : Option Text → Option Text
clear_credentials file = none

append-front-drop {ℓ} : {A : Type ℓ} (n : ℕ) (xs : List A) → front n xs ++ drop n xs ≡ xs
append-front-drop zero xs = refl
append-front-drop (suc n) [] = refl
append-front-drop (suc n) (x ∷ xs) = ap (λ ys. x ∷ ys) (append-front-drop n xs)

-- With fuel above the length of what the stream still has, the loop reads all of it.
read_blocks_lem :
    (n : ℕ) (file bytes : Text) → length file < n → read_blocks n file bytes ≡ bytes ++ file
unfolding read_blocks
read_blocks_lem (suc n) file bytes h = elim (Bool-cases (leb 64 (length file))) [
  | inr e ↦ rw e
  | inl e ↦ rw e (
      read_blocks_lem n (drop 64 file) (bytes ++ front 64 file)
        (omega (arith, length-drop 64 file, leb→le 64 (length file) e))
      ∙ append_assoc bytes (front 64 file) (drop 64 file)
      ∙ ap (λ xs. bytes ++ xs) (append-front-drop 64 file))
]
read_blocks_lem zero file bytes h = elim h [ ]

-- A text without a line feed.
unfoldable pub one_line : Text → Bool
one_line [] = true
one_line (c ∷ cs) = not (c == 10) && one_line cs

cut_line_lem :
    (login bytes : Text) → one_line login ≡ true → cut_line (login ++ 10 ∷ bytes) ≡ (login, bytes)
unfolding cut_line one_line
cut_line_lem [] bytes h = refl
cut_line_lem (c ∷ cs) bytes h = ground (arith, cut_line_lem cs bytes)

get_line_lem :
    (login bytes : Text)
    → one_line login ≡ true
    → get_line (login ++ 10 ∷ bytes) ≡ some (login, bytes)
unfolding get_line
get_line_lem [] bytes h = ap some (cut_line_lem [] bytes h)
get_line_lem (c ∷ cs) bytes h = ap some (cut_line_lem (c ∷ cs) bytes h)

get_credentials_lem :
    (decrypt : Text → Option Text) (creds : Credentials) (bytes : Text)
    → one_line creds.login ≡ true
    → decrypt bytes ≡ some creds.password
    → get_credentials decrypt (some (creds.login ++ 10 ∷ bytes)) ≡ some creds
unfolding get_credentials
get_credentials_lem decrypt creds bytes h e = rw (
  get_credentials,
  get_line_lem creds.login bytes h,
  read_blocks_lem (suc (length bytes)) bytes [] (omega arith),
  e,
)

module _ (encrypt decrypt : Text → Option Text) where
  -- Where decryption undoes encryption and the login has no line feed: storing credentials keeps
  -- the file if the encryption fails, and else the same credentials are read back, a password of
  -- any length; after clearing none are.
  pub get_credentials-set_credentials :
      (decrypt-encrypt : (s bytes : Text) → encrypt s ≡ some bytes → decrypt bytes ≡ some s)
      (creds : Credentials) (file : Option Text)
      → one_line creds.login ≡ true
      → (get_credentials decrypt (set_credentials encrypt creds file)
          ≡ (elim (encrypt creds.password) [
            | none ↦ get_credentials decrypt file
            | some bytes ↦ some creds
          ]))
        × (get_credentials decrypt (clear_credentials (set_credentials encrypt creds file)) ≡ none)
  unfolding get_credentials set_credentials clear_credentials
  get_credentials-set_credentials decrypt-encrypt creds file h = (
    (elim (Option-cases (encrypt creds.password)) [
      | inl e ↦ rw (set_credentials, e)
      | inr (bytes, e) ↦
          rw (set_credentials, e)
            (get_credentials_lem decrypt creds bytes h (decrypt-encrypt creds.password bytes e))
    ]),
    refl,
  )
