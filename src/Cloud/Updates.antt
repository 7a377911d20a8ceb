-- ===== src/Cloud/Updates.antt =====
-- The update list of src/CustomerPrintClientCore/UpdateClient.cpp and the choice that
-- AsyncCheckForUpdates of CoreManager.cpp makes in it.
use mathlib.Core.Path.{subst}
use customer_print_client.Prelude.{
  and_then, ◌≡◌, refl, ◌∙◌, Bool, true, false, not, ◌&&◌, ◌||◌, List, [], ◌∷◌, Option, none, some,
  Text, codes, arith, if◌then◌else◌, inl, inr, Bool-cases,
}
use customer_print_client.Core.Version.{BinaryVersion, version_lt, OsVersion, os_ge}
use customer_print_client.Cloud.Json.{JsonLib}

pub record UpdateInfo : Type 0 where
  pub minimum_os_version : OsVersion
  pub installer_version : BinaryVersion
  pub installer_file_name : Text

-- The two version parsers, sscanf and strtol, are parameters.
module _ {J : Type 0} (json : JsonLib J) (parse_os_version : Text → Option OsVersion)
    (parse_version : Text → Option BinaryVersion) where
  -- One round of the loop; `none` sets contentParsed to false.
  unfoldable pub read_update : J → Option UpdateInfo
  read_update j = and_then (json.object_of j (codes "installer")) λ installer.
      and_then (json.string_of j (codes "minimal-winver")) λ winver.
        and_then (parse_os_version winver) λ os.
          and_then (json.string_of installer (codes "version")) λ version.
            and_then (parse_version version) λ installer_version.
              and_then (json.string_of installer (codes "file")) λ file. some (record {
                minimum_os_version = os;
                installer_version = installer_version;
                installer_file_name = file;
              })

  -- The loop, which ends at the first entry that is not read. The elements of the array are objects,
  -- or `none` for one that is not, which the library reads by undefined behaviour.
  unfoldable pub read_updates : List (Option J) → Option (List UpdateInfo)
  unfolding read_update
  read_updates [] = some []
  read_updates (none ∷ js) = none
  read_updates (some j ∷ js) =
      let rest = read_updates js in
      elim (read_update j) [ none ↦ some [] | some u ↦ and_then rest λ us. some (u ∷ us) ]

-- The loop of AsyncCheckForUpdates over the list that std::list::sort put in order.
unfoldable pub choose_update : OsVersion → BinaryVersion → List UpdateInfo → Option UpdateInfo
choose_update os current [] = none
choose_update os current (u ∷ us) =
    let rest = choose_update os current us in
    if os_ge os u.minimum_os_version
    then (if version_lt current u.installer_version then some u else none)
    else rest

-- No entry needs a higher system than this one.
abbrev pub none_above : UpdateInfo → List UpdateInfo → Bool
none_above u [] = true
none_above u (v ∷ vs) = os_ge u.minimum_os_version v.minimum_os_version && none_above u vs

-- In the order of the sort: the highest minimal system first.
abbrev pub descending : List UpdateInfo → Bool
descending [] = true
descending (u ∷ us) = none_above u us && descending us

-- No entry that runs on the system needs a higher one than this entry.
abbrev pub best_for : OsVersion → UpdateInfo → List UpdateInfo → Bool
best_for os u [] = true
best_for os u (v ∷ vs) =
    (not (os_ge os v.minimum_os_version) || os_ge u.minimum_os_version v.minimum_os_version)
    && best_for os u vs

above_is_best :
    (os : OsVersion) (u : UpdateInfo) (us : List UpdateInfo)
    → none_above u us ≡ true
    → best_for os u us ≡ true
above_is_best os u [] h = refl
above_is_best os u (v ∷ vs) h = ground (arith, above_is_best os u vs)

os_ge_refl : (v : OsVersion) → os_ge v v ≡ true
unfolding os_ge
os_ge_refl v = ground arith

module _ (os : OsVersion) (current : BinaryVersion) (v : UpdateInfo) (vs : List UpdateInfo) where
  chosen :
      (u : UpdateInfo)
      → os_ge os v.minimum_os_version ≡ true
      → version_lt current v.installer_version ≡ true
      → choose_update os current (v ∷ vs) ≡ some u
      → v ≡ u
  unfolding choose_update
  chosen u runs newer e = ground arith

  nothing :
      (u : UpdateInfo)
      → os_ge os v.minimum_os_version ≡ true
      → version_lt current v.installer_version ≡ false
      → choose_update os current (v ∷ vs) ≡ some u
      → ⊥
  unfolding choose_update
  nothing u runs older e = ground arith

  skipped :
      os_ge os v.minimum_os_version ≡ false
      → choose_update os current vs ≡ choose_update os current (v ∷ vs)
  unfolding choose_update
  skipped passed = ground arith

-- An update that is offered from a list in order runs on this system, is newer than the current
-- version, and no entry of the list that runs on this system needs a higher one.
pub offered_update :
    (os : OsVersion) (current : BinaryVersion) (us : List UpdateInfo) (u : UpdateInfo)
    → descending us ≡ true
    → choose_update os current us ≡ some u
    → (os_ge os u.minimum_os_version ≡ true)
      × (version_lt current u.installer_version ≡ true)
      × (best_for os u us ≡ true)
unfolding choose_update
offered_update os current [] u d e = cc
offered_update os current (v ∷ vs) u d e = elim (Bool-cases (os_ge os v.minimum_os_version)) [
  | inl runs ↦ elim (Bool-cases (version_lt current v.installer_version)) [
    | inl newer ↦
        let itself : v ≡ u = chosen os current v vs u runs newer e in
        subst
          (λ x.
            (os_ge os x.minimum_os_version ≡ true)
            × (version_lt current x.installer_version ≡ true)
            × (best_for os x (v ∷ vs) ≡ true))
          itself
          (runs, newer, ground (arith, above_is_best os v vs, os_ge_refl v.minimum_os_version))
    | inr older ↦ absurd (nothing os current v vs u runs older e)
  ]
  | inr passed ↦
      let (a, b, c) =
        offered_update os current vs u (ground arith) (skipped os current v vs passed ∙ e) in
      (a, b, ground arith)
]
