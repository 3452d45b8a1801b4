-- ===== src/Shell/Environment/Restored.antt =====
-- ddb/feature/shell/actions.py: a deactivation restores the environment from before the activation.
use Prim.Native.String.{◌++◌ as append}
use docker_devbox_ddb.Prelude.{
  String, Bool, true, false, not, ◌||◌, Option, none, some, List, [], ◌∷◌, ◌++◌, map, select,
  is_empty, ◌==◌, eq_iff, eq_refl, if◌then◌else◌, ◌≡◌, refl, ap, ◌∙◌, arith, All, Bool-cases, inl,
  inr,
}
use docker_devbox_ddb.Prelude.Sorting.{KeyOrder, insert_by, sort_by, All-sort_by}
use docker_devbox_ddb.Dict.{Dict, lookup, insert, remove, lookup-insert, lookup-remove}
use docker_devbox_ddb.Shell.Environment.{
  Instruction, Variable, Shell, Project, set_variable, unset_variable, variables_of, instruction_of,
  evaluate, update, apply_diff_to_shell, backup_key, activated_environ, add_to_system_path,
  activate, deactivate,
}

-- Whether a variable is among some variables
abbrev pub is_listed : String → List Variable → Bool
is_listed k [] = false
is_listed k ((j, o) ∷ vs) = j == k || is_listed k vs

-- What dictdiffer documents: the new values are those of the target, and what is not in the difference is equal.
pub record IsDifference (shell : Shell) : Type 0 where
  pub listed :
      (source target : Dict String)
      → All (λ v. v.1 ≡ lookup v.0 target) (variables_of (shell.diff source target))
  pub unlisted :
      (source target : Dict String) (k : String)
      → is_listed k (variables_of (shell.diff source target)) ≡ false
      → lookup k source ≡ lookup k target

is_listed-insert_by :
    (order : KeyOrder String) (k : String) (v : Variable) (vs : List Variable)
    → is_listed k (insert_by order (λ w. w.0) v vs) ≡ is_listed k (v ∷ vs)
unfolding insert_by
is_listed-insert_by order k v [] = refl
is_listed-insert_by order k v (w ∷ vs) = ground (arith, is_listed-insert_by order k v vs)

is_listed-sort_by :
    (order : KeyOrder String) (k : String) (vs : List Variable)
    → is_listed k (sort_by order (λ w. w.0) vs) ≡ is_listed k vs
unfolding sort_by
is_listed-sort_by order k [] = refl
is_listed-sort_by order k (v ∷ vs) =
    is_listed-insert_by order k v (sort_by order (λ w. w.0) vs)
    ∙ ap (λ b. v.0 == k || b) (is_listed-sort_by order k vs)

module _ (shell : Shell) where
  abbrev kept : Variable → Bool
  kept v = not (shell.is_ignored v.0)

  -- The shell's name of each variable is the variable's own.
  abbrev pub AreNamed : List Variable → Type 0
  AreNamed vs = All (λ v. shell.sanitize_key v.0 ≡ v.0) vs

  lookup-instruction :
      (j k : String) (o : Option String) (environ : Dict String)
      → shell.sanitize_key j ≡ j
      → lookup k (evaluate (instruction_of shell (j, o) ∷ []) environ)
        ≡ (if j == k then o else lookup k environ)
  unfolding evaluate
  lookup-instruction j k none environ n = rw n (lookup-remove j environ k)
  lookup-instruction j k (some value) environ n = rw n (lookup-insert j value environ k)

  evaluate-cons :
      (i : Instruction) (is : List Instruction) (environ : Dict String)
      → evaluate (i ∷ is) environ ≡ evaluate is (evaluate (i ∷ []) environ)
  unfolding evaluate
  evaluate-cons (set_variable key value) is environ = refl
  evaluate-cons (unset_variable key) is environ = refl

  -- Instructions for variables of a target, on a variable that is not ignored
  lookup-evaluate :
      (target : Dict String) (k : String) (vs : List Variable) (environ : Dict String)
      → shell.is_ignored k ≡ false
      → All (λ v. v.1 ≡ lookup v.0 target) vs
      → AreNamed vs
      → lookup k (evaluate (map (instruction_of shell) (select kept vs)) environ)
        ≡ (if is_listed k vs then lookup k target else lookup k environ)
  unfolding evaluate select
  lookup-evaluate target k [] environ h a n = refl
  lookup-evaluate target k ((j, o) ∷ vs) environ h a n = elim (Bool-cases (shell.is_ignored j)) [
    | inl ignored ↦
        let other : (j == k) ≡ false = ground (arith, eq_iff j k) in
        rw (ignored, other) (lookup-evaluate target k vs environ h a.1 n.1)
    | inr taken ↦
        let environ' = evaluate (instruction_of shell (j, o) ∷ []) environ in
        rw taken (
          ap (λ d. lookup k d)
            (evaluate-cons (instruction_of shell (j, o))
              (map (instruction_of shell) (select kept vs)) environ)
          ∙ lookup-evaluate target k vs environ' h a.1 n.1
          ∙ ground (arith, lookup-instruction j k o environ n.0, a.0, eq_iff j k))
  ]

  lookup-evaluate_ignored :
      (k : String) (vs : List Variable) (environ : Dict String)
      → shell.is_ignored k ≡ true
      → AreNamed vs
      → lookup k (evaluate (map (instruction_of shell) (select kept vs)) environ) ≡ lookup k environ
  unfolding evaluate select
  lookup-evaluate_ignored k [] environ h n = refl
  lookup-evaluate_ignored k ((j, o) ∷ vs) environ h n = elim (Bool-cases (shell.is_ignored j)) [
    | inl ignored ↦ rw ignored (lookup-evaluate_ignored k vs environ h n.1)
    | inr taken ↦
        let environ' = evaluate (instruction_of shell (j, o) ∷ []) environ in
        let other : (j == k) ≡ false = ground (arith, eq_iff j k) in
        rw taken (
          ap (λ d. lookup k d)
            (evaluate-cons (instruction_of shell (j, o))
              (map (instruction_of shell) (select kept vs)) environ)
          ∙ lookup-evaluate_ignored k vs environ' h n.1
          ∙ ground (arith, lookup-instruction j k o environ n.0))
  ]

  lookup-apply_diff :
      (source target : Dict String) (k : String) (environ : Dict String)
      → IsDifference shell
      → AreNamed (variables_of (shell.diff source target))
      → shell.is_ignored k ≡ false
      → lookup k environ ≡ lookup k source
      → lookup k (evaluate (apply_diff_to_shell shell source target) environ) ≡ lookup k target
  unfolding apply_diff_to_shell
  lookup-apply_diff source target k environ d n h e =
      let vs = variables_of (shell.diff source target) in
      let sorted = sort_by shell.text_order (λ v. v.0) vs in
      lookup-evaluate target k sorted environ h
        (All-sort_by shell.text_order (λ v. v.0) _ vs (d.listed source target))
        (All-sort_by shell.text_order (λ v. v.0) _ vs n)
      ∙ ap (λ b. if b then lookup k target else lookup k environ)
          (is_listed-sort_by shell.text_order k vs)
      ∙ elim (Bool-cases (is_listed k vs)) [
        | inl new ↦ rw new refl
        | inr same ↦ rw same (e ∙ d.unlisted source target k same)
      ]

  evaluate-append :
      (is js : List Instruction) (environ : Dict String)
      → evaluate (is ++ js) environ ≡ evaluate js (evaluate is environ)
  unfolding evaluate
  evaluate-append [] js environ = refl
  evaluate-append (set_variable key value ∷ is) js environ =
      evaluate-append is js (insert key value environ)
  evaluate-append (unset_variable key ∷ is) js environ = evaluate-append is js (remove key environ)

  module _ (project : Project) where
    -- The variables of the shell behind the activation script
    abbrev pub active : Dict String → Dict String
    active initial = evaluate (activate shell project initial) initial

    abbrev path_instructions : Dict String → List Instruction
    path_instructions environ =
        if is_empty project.path_additions then [] else add_to_system_path shell project environ

    lookup-path_instructions :
        (k : String) (other environ : Dict String)
        → shell.sanitize_key "PATH" ≡ "PATH"
        → ("PATH" == k) ≡ false
        → lookup k (evaluate (path_instructions other) environ) ≡ lookup k environ
    unfolding evaluate
    lookup-path_instructions k other environ p n =
        elim (Bool-cases (is_empty project.path_additions)) [
          | inl none_added ↦ rw none_added refl
          | inr some_added ↦ rw (some_added, p) (lookup-insert "PATH" _ environ k ∙ rw n refl)
        ]

    lookup-backup :
        (initial : Dict String)
        → (append project.env_prefix "_PROJECT_HOME" == backup_key shell project) ≡ false
        → lookup (backup_key shell project) (activated_environ shell project initial)
          ≡ some (shell.encode (shell.before_environ_backup initial))
    unfolding activated_environ
    lookup-backup initial n =
        let backup = backup_key shell project in
        let encoded = shell.encode (shell.before_environ_backup initial) in
        let updated = update initial project.config_environ in
        lookup-insert (append project.env_prefix "_PROJECT_HOME") project.project_home
          (insert backup encoded updated) backup
        ∙ rw n (lookup-insert backup encoded updated backup ∙ ground (arith, eq_refl backup))

    -- For a difference as documented, a text of the backup that is not empty and is decoded to what was encoded, and
    -- variables that the shell names as they are, of which the backup is not ignored and is neither the path nor
    -- the home of the project: the activation script and then the deactivation script leave every variable
    -- that is not ignored as the backup has it, which is the environment from before the activation, but for what the
    -- shell takes out of it, and also where the path was extended.
    pub deactivate-activate :
        (initial : Dict String) (k : String)
        → IsDifference shell
        → shell.decode (shell.encode (shell.before_environ_backup initial))
          ≡ shell.before_environ_backup initial
        → (shell.encode (shell.before_environ_backup initial) == "") ≡ false
        → AreNamed (variables_of (shell.diff initial (activated_environ shell project initial)))
        → AreNamed
            (variables_of (shell.diff (active initial) (shell.before_environ_backup initial)))
        → shell.sanitize_key "PATH" ≡ "PATH"
        → ("PATH" == backup_key shell project) ≡ false
        → (append project.env_prefix "_PROJECT_HOME" == backup_key shell project) ≡ false
        → shell.is_ignored (backup_key shell project) ≡ false
        → shell.is_ignored k ≡ false
        → lookup k (evaluate (deactivate shell project (active initial)) (active initial))
          ≡ lookup k (shell.before_environ_backup initial)
    unfolding deactivate activate
    deactivate-activate initial k d coded full n1 n2 p b home i h =
        let backup = backup_key shell project in
        let before = shell.before_environ_backup initial in
        let target = activated_environ shell project initial in
        let first = evaluate (apply_diff_to_shell shell initial target) initial in
        let kept_backup : lookup backup (active initial) ≡ some (shell.encode before) =
          ap (λ e. lookup backup e)
            (evaluate-append (apply_diff_to_shell shell initial target) (path_instructions target)
              initial)
          ∙ lookup-path_instructions backup target first p b
          ∙ lookup-apply_diff initial target backup initial d n1 i refl
          ∙ lookup-backup initial home in
        rw (kept_backup, full, coded)
          (lookup-apply_diff (active initial) before k (active initial) d n2 h refl)
