-- ===== src/Core/Version.antt =====
-- src/Core/BinaryVersion.cpp `operator<` and src/Core/OS.h `OS::Version::operator>=`. The numbers
-- are natural: what is compared was read by a parser of unsigned digits or given by the system.
use customer_print_client.Prelude.{◌≡◌, true, false, arith, ℕ, Bool, ◌&&◌, ◌||◌, ltb, leb, ◌==◌}

pub record BinaryVersion : Type 0 where
  pub major : ℕ
  pub minor : ℕ
  pub release : ℕ
  pub sub_release : ℕ

unfoldable pub version_lt : BinaryVersion → BinaryVersion → Bool
version_lt a b =
    ltb a.major b.major
    || a.major == b.major
      && (ltb a.minor b.minor
          || a.minor == b.minor
            && (ltb a.release b.release
                || a.release == b.release && ltb a.sub_release b.sub_release))

pub record OsVersion : Type 0 where
  pub major : ℕ
  pub minor : ℕ

unfoldable pub os_ge : OsVersion → OsVersion → Bool
os_ge a b = ltb b.major a.major || a.major == b.major && leb b.minor a.minor

-- The order on versions is transitive and asymmetric: a version below one that is below a third is
-- below the third, which is then not below it.
pub version_lt_trans :
    (a b c : BinaryVersion)
    → version_lt a b ≡ true
    → version_lt b c ≡ true
    → (version_lt a c ≡ true) × (version_lt c a ≡ false)
unfolding version_lt
version_lt_trans a b c h k = ground arith
