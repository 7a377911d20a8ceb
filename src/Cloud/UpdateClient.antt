-- ===== src/Cloud/UpdateClient.antt =====
-- src/CustomerPrintClientCore/UpdateClient.cpp, and AsyncCheckForUpdates and AsyncDownloadUpdate of
-- CoreManager.cpp on top of it. std::list::sort, the parsers of versions, the opening of a file and
-- the conversion from UTF-8 are parameters.
use customer_print_client.Prelude.{
  ℕ, Bool, true, not, ◌&&◌, ◌||◌, List, [], ◌∷◌, ◌++◌, ◌⊎◌, inl, inr, Option, none, some, Text,
  codes, and_then, ◌==◌, if◌then◌else◌,
}
use customer_print_client.Prelude.Dict.{assign}
use customer_print_client.Core.Version.{BinaryVersion, OsVersion, os_ge}
use customer_print_client.Networking.Http.Definitions.{get}
use customer_print_client.Networking.Http.Request.{text_key, HttpRequest, create_request}
use customer_print_client.Jobs.Types.{Exception, http, other}
use customer_print_client.Cloud.Json.{JsonLib}
use customer_print_client.Cloud.Replies.{Reply, failed_parse, on_success, server_error}
use customer_print_client.Cloud.Updates.{UpdateInfo, read_updates, choose_update}

-- UpdateServerName and UpdateServerInstallerPath
abbrev pub update_server_name : Text
update_server_name = codes "cloudprinter.com"

abbrev pub installer_path : Text
installer_path = codes "/downloads/win/current/"

unfoldable pub update_list_request : ℕ → HttpRequest
unfolding create_request
update_list_request now =
    create_request now update_server_name get (installer_path ++ codes "versions.json") []

unfoldable pub download_request : ℕ → Text → HttpRequest
unfolding create_request
download_request now file_name =
    create_request now update_server_name get (installer_path ++ file_name) []

-- The comparison that the list is sorted by. It holds of an entry and itself, where std::list::sort
-- asks for a strict order.
unfoldable pub goes_before : UpdateInfo → UpdateInfo → Bool
unfolding os_ge
goes_before lhs rhs = os_ge lhs.minimum_os_version rhs.minimum_os_version

-- A promise with a value or with an exception, or undefined behaviour on the way.
pub data Promised (A : Type 0) : Type 0 where
  value : A → Promised A
  update_failed : Exception → Promised A
  undefined : Promised A

-- The files, by their path.
abbrev pub Files : Type 0
Files = List (Text × Text)

-- What a promise holds.
abbrev held : {A : Type 0} → Promised (Option A) → Option A
held (value a) = a
held _ = none

module _ {J : Type 0} (lib : JsonLib J) (versions_of : J → Option (List (Option J)))
    (parse_os_version : Text → Option OsVersion) (parse_version : Text → Option BinaryVersion) where
  -- The callback of AsyncGetUpdateList. A success that is `none` is undefined behaviour.
  unfoldable pub get_update_list_reply : Reply → Option (List UpdateInfo) ⊎ Exception
  unfolding server_error
  get_update_list_reply = on_success lib λ r. elim (and_then (lib.parse r.content) versions_of) [
    | none ↦ inr failed_parse
    | some versions ↦ inl (read_updates lib parse_os_version parse_version versions)
  ]

  -- getUpdateListCallback of AsyncCheckForUpdates. `sort` is std::list::sort, with its comparison; ProcessException gives the exception the title
  -- "Failed to get update list" and the category Update.
  unfoldable pub check_for_updates_reply :
      ((UpdateInfo → UpdateInfo → Bool) → List UpdateInfo → List UpdateInfo)
      → OsVersion
      → BinaryVersion
      → Reply
      → Promised (Option UpdateInfo)
  check_for_updates_reply sort os current reply = elim (get_update_list_reply reply) [
    | inr ex ↦ update_failed ex
    | inl none ↦ undefined
    | inl (some us) ↦ value (choose_update os current (sort goes_before us))
  ]

-- The callback of AsyncDownloadInstaller: the file that it writes, and the path or the exception. The
-- name of the file goes into the path as the server sent it.
unfoldable pub download_installer_reply :
    (Text → Bool) → (Text → Text) → Text → Text → Reply → Files → Files × (Text ⊎ Exception)
download_installer_reply can_open from_utf8 downloads_dir file_name (inr ex) files = (files, inr ex)
download_installer_reply can_open from_utf8 downloads_dir file_name (inl r) files =
    let path = downloads_dir ++ codes "\\" ++ from_utf8 file_name in
    if r.status_code == 200
    then (if can_open path
        then (assign path r.content files, inl path)
        else (files, inr (other (codes "Failed to save file"))))
    else (files, inr (http r.status_code r.status_message))

-- downloadInstallerCallback of AsyncDownloadUpdate
unfoldable pub download_update_reply : Text ⊎ Exception → Promised Text
download_update_reply (inl path) = value path
download_update_reply (inr ex) = update_failed ex

-- A test that holds of each update.
abbrev pub holds_of : (UpdateInfo → Bool) → List UpdateInfo → Bool
holds_of test [] = true
holds_of test (u ∷ us) = test u && holds_of test us

-- Each entry stands before the later ones in the comparison.
abbrev pub ordered_by : (UpdateInfo → UpdateInfo → Bool) → List UpdateInfo → Bool
ordered_by before [] = true
ordered_by before (u ∷ us) = holds_of (before u) us && ordered_by before us

-- The test that best_for makes of each entry.
abbrev no_better : OsVersion → UpdateInfo → UpdateInfo → Bool
no_better os u v =
    not (os_ge os v.minimum_os_version) || os_ge u.minimum_os_version v.minimum_os_version
