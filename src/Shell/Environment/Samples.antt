-- ===== src/Shell/Environment/Samples.antt =====
-- A difference that names every variable of both environments, and a project with one directory of shims.
use docker_devbox_ddb.Prelude.{
  String, true, false, ◌||◌, Option, none, some, List, [], ◌∷◌, ◌++◌, select, contains, ◌==◌, ◌≡◌,
  refl, ap, sym, ◌∙◌, arith, All, Option-cases, inl, inr, eq_string,
}
use docker_devbox_ddb.Prelude.Sorting.{insert_by, sort_by}
use docker_devbox_ddb.Dict.{Dict, lookup, insert, remove, keys}
use docker_devbox_ddb.Shell.Environment.{
  Difference, change, removal, Shell, Project, Variable, variables_of, evaluate, update,
  extended_path, apply_diff_to_shell, activated_environ, activate, deactivate,
}
use docker_devbox_ddb.Shell.Environment.Restored.{
  IsDifference, AreNamed, is_listed, active, deactivate-activate,
}

abbrev entry : String → Option String → Difference
entry k none = removal ((k, "") ∷ [])
entry k (some v) = change k "" v

abbrev entries : Dict String → List String → List Difference
entries target [] = []
entries target (k ∷ ks) = entry k (lookup k target) ∷ entries target ks

abbrev before : Dict String
before = ("PATH", "/bin") ∷ ("LANG", "C") ∷ []

abbrev shell : Shell
shell = record {
  diff = λ source target. entries target (keys source ++ keys target);
  text_order = record { le = λ a b. true; total = λ a b h. refl; trans = λ a b c h k. refl };
  is_ignored = λ k. k == "PWD";
  sanitize_key = λ k. k;
  encode = λ e. "backup";
  decode = λ text. before;
  before_environ_backup = λ e. e;
}

entries_listed :
    (target : Dict String) (ks : List String)
    → All (λ v. v.1 ≡ lookup v.0 target) (variables_of (entries target ks))
unfolding variables_of
entries_listed target [] = tt
entries_listed target (k ∷ ks) = elim (Option-cases (lookup k target)) [
  | inl absent ↦ rw absent (sym absent, entries_listed target ks)
  | inr (v, there) ↦ rw there (sym there, entries_listed target ks)
]

is_listed-entries :
    (k : String) (target : Dict String) (ks : List String)
    → is_listed k (variables_of (entries target ks)) ≡ contains ks k
unfolding variables_of contains
is_listed-entries k target [] = refl
is_listed-entries k target (j ∷ ks) = elim (Option-cases (lookup j target)) [
  | inl absent ↦ rw absent (ap (λ b. j == k || b) (is_listed-entries k target ks))
  | inr (v, there) ↦ rw there (ap (λ b. j == k || b) (is_listed-entries k target ks))
]

contains-append :
    (xs ys : List String) (k : String) → contains (xs ++ ys) k ≡ (contains xs k || contains ys k)
unfolding contains
contains-append [] ys k = refl
contains-append (x ∷ xs) ys k = ground (arith, contains-append xs ys k)

lookup_absent : (k : String) (d : Dict String) → contains (keys d) k ≡ false → lookup k d ≡ none
unfolding contains lookup
lookup_absent k [] h = refl
lookup_absent k ((j, v) ∷ d) h = ground (arith, lookup_absent k d)

named : (vs : List Variable) → AreNamed shell vs
named [] = tt
named (v ∷ vs) = (refl, named vs)

shell_unlisted :
    (source target : Dict String) (k : String)
    → is_listed k (variables_of (shell.diff source target)) ≡ false
    → lookup k source ≡ lookup k target
shell_unlisted source target k h =
    let absent = sym (is_listed-entries k target (keys source ++ keys target)) ∙ h in
    let both = sym (contains-append (keys source) (keys target) k) ∙ absent in
    lookup_absent k source (ground (arith, both))
    ∙ sym (lookup_absent k target (ground (arith, both)))

abbrev shell_IsDifference : IsDifference shell
shell_IsDifference = record {
  listed = λ source target. entries_listed target (keys source ++ keys target);
  unlisted = shell_unlisted;
}

abbrev project : Project
project = record {
  config_environ = ("DDB_DOCKER_IP", "127.0.0.1") ∷ ("LANG", "fr") ∷ [];
  env_prefix = "DDB";
  project_home = "/project";
  path_additions = "/project/.bin" ∷ [];
  prepend = true;
  pathsep = ":";
}

extended : lookup "PATH" (active shell project before) ≡ some "/project/.bin:/bin"
unfolding activate activated_environ apply_diff_to_shell extended_path evaluate update variables_of
    insert remove lookup sort_by insert_by select
extended = refl

deactivate-activate_example :
    lookup "LANG" (
      evaluate
        (deactivate shell project (active shell project before))
        (active shell project before))
    ≡ some "C"
unfolding lookup activate activated_environ apply_diff_to_shell extended_path evaluate update
    variables_of insert remove sort_by insert_by select
deactivate-activate_example =
    deactivate-activate shell project before "LANG" shell_IsDifference refl refl
      (named (variables_of (shell.diff before (activated_environ shell project before))))
      (named (variables_of (shell.diff (active shell project before) before))) refl refl refl refl
      refl
