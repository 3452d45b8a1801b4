-- ===== src/Shell/Shims.antt =====
-- ddb/feature/shell/actions.py: which directory the shims go to, and when an activation goes on.
use docker_devbox_ddb.Prelude.{
  String, true, false, Option, none, some, List, [], ◌∷◌, ◌++◌, ◌==◌, ok, ◌≡◌, refl, ap, All,
  Bool-cases, inl, inr, arith, ◌↔◌,
}
use docker_devbox_ddb.Dict.{Dict, lookup}
use docker_devbox_ddb.Shell.{
  OsPath, is_allowed, absolute, first_allowed, get_shims_path, start_activation, check_activated,
  check_home, after_check,
}

module _ (os_path : OsPath) (project_home : String) where
  -- The first directory that is allowed, or that none is
  abbrev pub IsFirst : String → Option String → List String → Option String → Type 0
  IsFirst prefix forbidden directories none =
      All (λ d. is_allowed prefix forbidden (absolute os_path project_home d) ≡ false) directories
  IsFirst prefix forbidden directories (some found) =
      (before : List String) × (d : String) × (after : List String) × (directories
        ≡ before ++ d ∷ after)
      × (found ≡ absolute os_path project_home d)
      × (is_allowed prefix forbidden found ≡ true)
      × All (λ e. is_allowed prefix forbidden (absolute os_path project_home e) ≡ false) before

  IsFirst-cons :
      (prefix : String) (forbidden : Option String) (d : String) (directories : List String)
      (o : Option String)
      → is_allowed prefix forbidden (absolute os_path project_home d) ≡ false
      → IsFirst prefix forbidden directories o
      → IsFirst prefix forbidden (d ∷ directories) o
  IsFirst-cons prefix forbidden d directories none h first = (h, first)
  IsFirst-cons prefix forbidden d directories (some found) h
        (before, e, after, split, same, allowed, others) =
      (d ∷ before, e, after, ap (◌∷◌ d) split, same, allowed, (h, others))

  first_allowed-IsFirst :
      (prefix : String) (forbidden : Option String) (directories : List String)
      → IsFirst prefix forbidden directories
          (first_allowed os_path project_home prefix forbidden directories)
  unfolding first_allowed
  first_allowed-IsFirst prefix forbidden [] = tt
  first_allowed-IsFirst prefix forbidden (d ∷ directories) =
      elim (Bool-cases (is_allowed prefix forbidden (absolute os_path project_home d))) [
        | inl here ↦ rw here ([], d, directories, refl, refl, here, tt)
        | inr apart ↦ rw apart (
            IsFirst-cons prefix forbidden d directories
              (first_allowed os_path project_home prefix forbidden directories) apart
              (first_allowed-IsFirst prefix forbidden directories))
      ]

  -- Local shims go to the first of the directories, made absolute, that lies in the project's home;
  -- global ones to the first that lies in the home and not in the project's; to none if there is none.
  pub get_shims_path-IsFirst :
      (directories : List String) (home : String)
      → IsFirst project_home none directories
          (get_shims_path os_path directories home project_home false)
        × IsFirst home
            (some project_home)
            directories
            (get_shims_path os_path directories home project_home true)
  unfolding get_shims_path
  get_shims_path-IsFirst directories home = (
    first_allowed-IsFirst project_home none directories,
    first_allowed-IsFirst home (some project_home) directories,
  )

forced :
    (home : Option String) (project_home : String)
    → after_check (some true) (check_home home project_home false) ≡ ok true
forced none project_home = refl
forced (some other) project_home = elim (Bool-cases (other == project_home)) [
  | inl same ↦ rw same refl
  | inr apart ↦ rw apart refl
]

unforced :
    (home : Option String) (project_home : String)
    → (after_check (some false) (check_home home project_home true) ≡ ok false) ↔ (home ≡ none)
unforced none project_home = (λ h. refl, λ h. refl)
unforced (some other) project_home = elim (Bool-cases (other == project_home)) [
  | inl same ↦ rw same (λ h. absurd (ground arith), λ h. absurd (ground arith))
  | inr apart ↦ rw apart (λ h. absurd (ground arith), λ h. absurd (ground arith))
]

-- With the argument `force`, an activation goes on in every environment, behind a deactivation; with
-- that argument set to False it goes on just where no project is activated, and without a deactivation.
pub start_activation-force :
    (environ : Dict String) (key project_home : String)
    → (start_activation environ key project_home (some true) ≡ ok true)
      × ((start_activation environ key project_home (some false) ≡ ok false)
          ↔ (lookup key environ ≡ none))
unfolding start_activation check_activated
start_activation-force environ key project_home =
    (forced (lookup key environ) project_home, unforced (lookup key environ) project_home)
