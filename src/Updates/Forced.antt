-- ===== src/Updates/Forced.antt =====
-- ddb/feature/core/actions.py, `SelfUpdateAction`: a forced update where there is no newer release.
use Prim.Native.String.{◌++◌ as append}
use docker_devbox_ddb.Prelude.{String, true, false, some, [], ◌∷◌, ok, ◌==◌, ◌≡◌, refl}
use docker_devbox_ddb.Updates.{
  Release, line, is_version_greater, get_latest_release, check_for_update, self_update_binary,
  self_update,
}

-- A binary that is not older than the latest release, and whose update is forced, is said to be up to date, and
-- where its file can be written and the platform has an asset, the asset of the release `None` is
-- downloaded, whatever the latest tag is.
pub self_update-forced :
    {X : Type 0} (release : Release X) (version tag asset_name : String)
    → release.is_binary ≡ true
    → get_latest_release release ≡ ok (some version, some tag)
    → (version == "") ≡ false
    → is_version_greater release release.current_version version ≡ ok false
    → (asset_name == "") ≡ false
    → self_update release true true true asset_name
      ≡ ok (
        line "ddb is already up to date." ∷ [],
        some (
            append "https://github.com/" (
              append release.repository
                (append "/releases/download/" (append "None" (append "/" asset_name))))),
      )
unfolding self_update check_for_update self_update_binary
self_update-forced release version tag asset_name b l n g a = rw (b, l, n, g, a) refl
