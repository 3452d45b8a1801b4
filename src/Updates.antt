-- ===== src/Updates.antt =====
-- ddb/feature/core/actions.py: the versions of ddb, the check for a newer release, the version that a project
-- requires, and the update of the program. The pattern's search, requests and the layout of tables are
-- parameters.
pub mod Order
pub mod Forced
mod Samples
use text.Mathlib.Text.{starts_with}
use Prim.Native.String.{◌++◌ as append, slice, len, compare}
use Prim.Native.Nat.{Ordering}
use docker_devbox_ddb.Prelude.{
  ℕ, String, Bool, true, false, not, ◌&&◌, ◌||◌, Option, none, some, List, [], ◌∷◌, ◌++◌, Result,
  ok, err, ◌>>=◌, ◌==◌, ltb, nat_eq, if◌then◌else◌,
}

-- `VersionInfo` of three numbers, and what the pattern finds first in a text: its groups and the rest behind
pub record Version : Type 0 where
  pub major : ℕ
  pub minor : ℕ
  pub patch : ℕ

pub record Match : Type 0 where
  pub major : ℕ
  pub minor : Option ℕ
  pub patch : Option ℕ
  pub rest : String

abbrev pub or_zero : Option ℕ → ℕ
or_zero none = 0
or_zero (some n) = n

abbrev pub coerce_match : String → Option Match → Option Version × String
coerce_match version none = (none, version)
coerce_match version (some m) =
    (some (record { major = m.major; minor = or_zero m.minor; patch = or_zero m.patch }), m.rest)

-- `coerce_version`, with the search of `_version_re`
unfoldable pub coerce_version : (String → Option Match) → String → Option Version × String
coerce_version search version = coerce_match version (search version)

-- Python's `<` on texts, and `VersionInfo`'s
abbrev pub text_lt : String → String → Bool
text_lt a b = elim (compare a b) [ Ordering.lt ↦ true | _ ↦ false ]

unfoldable pub version_lt : Version → Version → Bool
version_lt v w =
    ltb v.major w.major
    || (nat_eq v.major w.major
        && (ltb v.minor w.minor || (nat_eq v.minor w.minor && ltb v.patch w.patch)))

abbrev pub version_eq : Version → Version → Bool
version_eq v w = nat_eq v.major w.major && (nat_eq v.minor w.minor && nat_eq v.patch w.patch)

-- The network, the configuration and the command line, with the exceptions `X`
pub record Release (X : Type 0) : Type 0 where
  pub search : String → Option Match
  pub current_version : String
  pub latest_tag : Result X (Option String)
  pub is_urllib_error : X → Bool
  pub type_error : X
  pub required_version_error : String → X
  pub permission_error : X
  pub not_a_file_error : X
  pub is_binary : Bool
  pub repository : String

abbrev pub report_links : List String
report_links =
    "Please report any bug or feature request at"
    ∷ "https://github.com/inetum-orleans/docker-devbox-ddb/issues" ∷ []

-- What is printed: a line, or the table of some blocks
pub data Printed : Type 0 where
  line : String → Printed
  table : List (List String) → Printed

module _ {X : Type 0} (release : Release X) where
  open release use {
    search, current_version, latest_tag, is_urllib_error, type_error, required_version_error,
    permission_error, not_a_file_error, is_binary, repository,
  }

  -- `<` of two pairs: the first components where they differ, else the second ones
  abbrev pub coerced_lt : Option Version × String → Option Version × String → Result X Bool
  coerced_lt (none, r) (none, q) = ok (text_lt r q)
  coerced_lt (none, r) (some w, q) = err type_error
  coerced_lt (some v, r) (none, q) = err type_error
  coerced_lt (some v, r) (some w, q) =
      if version_eq v w then ok (text_lt r q) else ok (version_lt v w)

  unfoldable pub is_version_greater : String → String → Result X Bool
  unfolding coerce_version version_lt
  is_version_greater reference version =
      coerced_lt (coerce_version search reference) (coerce_version search version)

  unfoldable pub is_version_greater_or_equal : String → String → Result X Bool
  unfolding coerce_version version_lt
  is_version_greater_or_equal reference version =
      coerced_lt (coerce_version search reference) (coerce_version search version)

  abbrev pub version_of_tag : Option String → Option String × Option String
  version_of_tag none = (none, none)
  version_of_tag (some tag) =
      (some (if starts_with tag "v" then slice tag 1 (len tag) else tag), some tag)

  abbrev pub latest_of : Result X (Option String) → Result X (Option String × Option String)
  latest_of (ok tag) = ok (version_of_tag tag)
  latest_of (err x) = if is_urllib_error x then ok (none, none) else err x

  -- `get_latest_release`: the version and its tag
  unfoldable pub get_latest_release : Result X (Option String × Option String)
  get_latest_release = latest_of latest_tag

  -- `_build_update_tip`
  abbrev pub update_tip : String
  update_tip = if is_binary then "run \"ddb self-update\" command to update." else ""

  abbrev pub update_header : String → List String
  update_header version = append "A new version is available: " version ∷ []

  abbrev pub tag_text : Option String → String
  tag_text none = "None"
  tag_text (some tag) = tag

  -- `_build_update_details`
  unfoldable pub update_details : Option String → List String
  update_details tag =
      (if update_tip == "" then [] else update_tip ∷ [])
      ++ "For more information, check the following links:"
        ∷ append "https://github.com/" (append repository (append "/releases/tag/" (tag_text tag)))
        ∷ append "https://github.com/"
            (append repository (append "/releases/tag/" (append (tag_text tag) "/CHANGELOG.md")))
        ∷ []

  abbrev pub printed_update : Bool → Bool → String → Option String → List Printed
  printed_update false details version tag = []
  printed_update true true version tag =
      table (update_header version ∷ update_details tag ∷ []) ∷ []
  printed_update true false version tag = line (append "A new version is available: " version) ∷ []

  abbrev pub Checked : Type 0
  Checked = List Printed × (Option String × Option String)

  abbrev pub answer_update : Bool → Bool → String → Option String → Bool → Checked
  answer_update output details version tag true =
      (printed_update output details version tag, (some version, tag))
  answer_update output details version tag false = ([], (none, none))

  abbrev pub check_release : Bool → Bool → Option String × Option String → Result X Checked
  check_release output details (none, tag) = ok ([], (none, none))
  check_release output details (some version, tag) =
      if version == ""
      then ok ([], (none, none))
      else is_version_greater current_version version
        >>= (λ newer. ok (answer_update output details version tag newer))

  -- `check_for_update`: what is printed, and the release with its tag
  unfoldable pub check_for_update : Bool → Bool → Result X Checked
  unfolding is_version_greater get_latest_release update_details
  check_for_update output details = get_latest_release >>= check_release output details

  abbrev pub printed_version : Option String × Option String → List Printed
  printed_version (none, tag) =
      table ((append "ddb " current_version ∷ []) ∷ report_links ∷ []) ∷ []
  printed_version (some version, tag) =
      table (
        (append "ddb " current_version ∷ [])
        ∷ ((if not (version == "") && text_lt current_version version
              then update_header version ∷ update_details tag ∷ []
              else [])
            ++ report_links ∷ []))
      ∷ []

  -- `print_version`, which compares the two texts
  unfoldable pub print_version : Bool → Result X (List Printed)
  unfolding get_latest_release update_details
  print_version silent =
      if silent
      then ok (line current_version ∷ [])
      else get_latest_release >>= (λ latest. ok (printed_version latest))

  -- `CheckForUpdateAction.execute`, with the last check in the cache and the date as numbers of days
  abbrev pub is_due : Option ℕ → ℕ → Bool
  is_due none today = true
  is_due (some last_check) today = ltb last_check today

  unfoldable pub check_daily : Bool → Bool → ℕ → Option ℕ → Result X (List Printed × Option ℕ)
  unfolding check_for_update
  check_daily avoid_stdout check_updates today last_check =
      if not avoid_stdout && check_updates
      then (if is_due last_check today
          then check_for_update true true >>= (λ checked. ok (checked.0, some today))
          else ok ([], some today))
      else ok ([], last_check)

  abbrev pub requirement_error : String → X
  requirement_error required = required_version_error (
      append "This project requires ddb " (
        append required (
          append "+. Current version is " (
            append current_version
              (append "." (if update_tip == "" then "" else append " " update_tip))))))

  abbrev pub require : Option String → Result X (Unit {0})
  require none = ok tt
  require (some required) =
      if required == ""
      then ok tt
      else is_version_greater_or_equal current_version required
        >>= (λ older. if older then err (requirement_error required) else ok tt)

  -- `CheckRequiredVersion.execute`
  unfoldable pub check_required : String → Option String → Result X (Unit {0})
  unfolding is_version_greater_or_equal
  check_required command required = if command == "self-update" then ok tt else require required

  -- `self_update_binary` up to the download: what is printed, and the address
  unfoldable pub self_update_binary :
      Bool → Bool → String → Option String → Result X (List Printed × Option String)
  self_update_binary is_writable is_file asset_name tag =
      if not is_writable
      then err permission_error
      else if not is_file
      then err not_a_file_error
      else if asset_name == ""
      then ok (
        line "ddb is running from a platform that doesn't support binary package mode." ∷ [],
        none,
      )
      else ok (
        [],
        some (
            append "https://github.com/" (
              append repository
                (append "/releases/download/" (append (tag_text tag) (append "/" asset_name))))),
      )

  abbrev pub update_checked :
      Bool
      → (Option String → Result X (List Printed × Option String))
      → Checked
      → Result X (List Printed × Option String)
  update_checked force update (printed, (some version, tag)) =
      update tag >>= (λ u. ok (printed ++ u.0, u.1))
  update_checked force update (printed, (none, tag)) =
      if force
      then update tag >>= (λ u. ok (printed ++ line "ddb is already up to date." ∷ u.0, u.1))
      else ok (printed ++ line "ddb is already up to date." ∷ [], none)

  -- `SelfUpdateAction.execute`
  unfoldable pub self_update : Bool → Bool → Bool → String → Result X (List Printed × Option String)
  unfolding check_for_update self_update_binary
  self_update force is_writable is_file asset_name =
      if not is_binary
      then ok (
        line "ddb is running from a package mode than doesn't support self-update."
            ∷ line (
                append
                  "You can download binary package supporting it from github: https://github.com/"
                  (append repository "/releases"))
            ∷ [],
        none,
      )
      else check_for_update true false
        >>= update_checked force (self_update_binary is_writable is_file asset_name)
