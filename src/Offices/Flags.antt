-- ===== src/Offices/Flags.antt =====
-- SetFlag of src/CustomerPrintClientCore/PrintProfile.cpp on the words that profiles, offices and
-- office classes use: seven flags, checked word by word.
use customer_print_client.Prelude.{
  all_below, all_below-at, ℕ, ◌<◌, ◌≡◌, refl, Bool, true, false, arith, ◌==◌, ◌^◌, if◌then◌else◌,
}
use customer_print_client.Offices.Profiles.{set_flag, flag_is_set}

abbrev same : Bool → Bool → Bool
same true b = b
same false true = false
same false false = true

same→≡ : (a b : Bool) → same a b ≡ true → a ≡ b
same→≡ true b h = ground arith
same→≡ false b h = ground arith

abbrev flag_kept : ℕ → ℕ → ℕ → Bool
flag_kept w i k =
    same (flag_is_set (set_flag w (2 ^ i) true) (2 ^ k))
      (if i == k then true else flag_is_set w (2 ^ k))

flags_kept : all_below 128 (λ w. all_below 7 λ i. all_below 7 λ k. flag_kept w i k) ≡ true
unfolding set_flag
flags_kept = refl

-- On a word of seven flags, SetFlag with true sets its flag and keeps each other flag; with false
-- it keeps the word, the flag included.
pub set_flag_lem :
    (w i k : ℕ)
    → w < 128
    → i < 7
    → k < 7
    → (flag_is_set (set_flag w (2 ^ i) true) (2 ^ k)
        ≡ (if i == k then true else flag_is_set w (2 ^ k)))
      × (set_flag w (2 ^ i) false ≡ w)
unfolding set_flag
set_flag_lem w i k w_ok i_ok k_ok = (
  same→≡ _ _ (
      all_below-at 7 k (λ k. flag_kept w i k)
        (all_below-at 7 i (λ i. all_below 7 λ k. flag_kept w i k)
          (all_below-at 128 w (λ w. all_below 7 λ i. all_below 7 λ k. flag_kept w i k) flags_kept
            w_ok)
          i_ok)
        k_ok),
  refl,
)
