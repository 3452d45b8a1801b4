-- ===== src/Updates/Samples.antt =====
-- A release that has some versions, and the texts of its versions.
use Prim.Native.String.{◌++◌ as append}
use docker_devbox_ddb.Prelude.{
  String, true, false, Option, none, some, [], ◌∷◌, ok, ◌==◌, if◌then◌else◌, ◌≡◌, refl,
}
use docker_devbox_ddb.Updates.{
  Match, Release, line, table, report_links, version_lt, coerce_version, is_version_greater,
  get_latest_release, check_for_update, check_daily, self_update, print_version, update_details,
}
use docker_devbox_ddb.Updates.Forced.{self_update-forced}

abbrev search : String → Option Match
search text =
    if text == "1.9.0"
    then some (record { major = 1; minor = some 9; patch = some 0; rest = "" })
    else if text == "1.10"
    then some (record { major = 1; minor = some 10; patch = none; rest = "" })
    else if text == "1.10-beta"
    then some (record { major = 1; minor = some 10; patch = none; rest = "-beta" })
    else none

abbrev release : Release String
release = record {
  search = search;
  current_version = "1.10";
  latest_tag = ok (some "v1.10");
  is_urllib_error = λ x. false;
  type_error = "TypeError";
  required_version_error = λ text. text;
  permission_error = "PermissionError";
  not_a_file_error = "ValueError";
  is_binary = true;
  repository = "inetum-orleans/docker-devbox-ddb";
}

-- The text behind the version decides between equal versions: a beta is newer than its release.
beta_newer : is_version_greater release "1.10" "1.10-beta" ≡ ok true
unfolding is_version_greater coerce_version version_lt
beta_newer = refl

-- The version that is printed is compared as a text, and so the newer release is not announced.
not_announced :
    (check_for_update (record release { current_version = "1.9.0" }) false false
      ≡ ok ([], (some "1.10", some "v1.10")))
    × (print_version (record release { current_version = "1.9.0" }) false
        ≡ ok (table (("ddb 1.9.0" ∷ []) ∷ report_links ∷ []) ∷ []))
unfolding check_for_update is_version_greater coerce_version version_lt get_latest_release
    print_version update_details
not_announced = (refl, refl)

checked_today : check_daily release false true 20 (some 20) ≡ ok ([], some 20)
unfolding check_daily
checked_today = refl

self_update-forced_example :
    self_update release true true true "ddb-linux"
    ≡ ok (
      line "ddb is already up to date." ∷ [],
      some (
          append "https://github.com/" (
            append "inetum-orleans/docker-devbox-ddb"
              (append "/releases/download/" (append "None" (append "/" "ddb-linux"))))),
    )
unfolding get_latest_release is_version_greater coerce_version version_lt
self_update-forced_example =
    self_update-forced release "1.10" "v1.10" "ddb-linux" refl refl refl refl refl
