-- ===== src/Run.antt =====
-- ddb/binary/binary.py, ddb/feature/docker/binaries.py and ddb/feature/run/actions.py: the binaries of a name, the
-- one that is run, and the command that runs it. Paths, `shlex`, the configured programs and the
-- evaluation of conditions are parameters.
pub mod Choice
pub mod Options
mod Samples
use text.Mathlib.Text.{starts_with}
use Prim.Native.String.{◌++◌ as append}
use docker_devbox_ddb.Prelude.{
  ℕ, String, Bool, true, false, not, ◌&&◌, ◌||◌, Option, none, some, List, [], ◌∷◌, ◌++◌, map,
  is_empty, select, length, Result, ok, err, ◌>>=◌, ◌==◌, leb, if◌then◌else◌, ◌≡◌, arith,
}
use docker_devbox_ddb.Prelude.Sorting.{KeyOrder, sort_by}
use docker_devbox_ddb.Dict.{Dict, lookup}
use docker_devbox_ddb.Docker.{get_mapped_path}

pub record DockerBinary : Type 0 where
  pub name : String
  pub docker_compose_service : String
  pub workdir : Option String
  pub options : Option String
  pub options_condition : Option String
  pub condition : Option String
  pub args : Option String
  pub exe : Bool
  pub entrypoint : Option String
  pub global : Bool

pub data Binary : Type 0 where
  docker : DockerBinary → Binary
  default : String → List String → Binary

-- `if text`
abbrev pub truthy : Option String → Option String
truthy none = none
truthy (some text) = if text == "" then none else some text

abbrev pub is_set : Option String → Bool
is_set none = false
is_set (some text) = not (text == "")

-- `simple_eval` of an expression with the arguments of the call
pub record Evaluator (X : Type 0) : Type 0 where
  pub simple_eval : String → List String → Result X Bool
  pub type_error : X
  pub not_registered : String → X
  pub configuration_error : X

-- `__lt__` of docker binaries, with `__gt__` where the left one is no docker binary
unfoldable pub binary_lt : Binary → Binary → Bool
binary_lt (docker b) (docker c) = is_set b.condition && not (is_set c.condition)
binary_lt (docker b) (default name command) = true
binary_lt (default name command) c = false

-- A key with the same order: conditions first, and what is no docker binary last
unfoldable pub rank : Binary → ℕ
rank (docker b) = if is_set b.condition then 0 else 1
rank (default name command) = 2

pub leb_total : (a b : ℕ) → leb a b ≡ false → leb b a ≡ true
leb_total a b h = ground arith

pub leb_trans : (a b c : ℕ) → leb a b ≡ true → leb b c ≡ true → leb a c ≡ true
leb_trans a b c h k = ground arith

abbrev pub nat_order : KeyOrder ℕ
nat_order = record { le = leb; total = leb_total; trans = leb_trans }

abbrev pub is_default : Binary → Bool
is_default (docker b) = false
is_default (default name command) = true

module _ {X : Type 0} (evaluator : Evaluator X) where
  open evaluator use {simple_eval, type_error, not_registered, configuration_error}

  -- `should_run`
  unfoldable pub should_run : List String → Binary → Result X Bool
  should_run args (default name command) = ok true
  should_run args (docker b) = elim (truthy b.condition) [
    | none ↦ ok true
    | some condition ↦ simple_eval condition args
  ]

  -- `sorted(binary_set)`. Two default binaries are next to each other in any order, and comparing them raises.
  unfoldable pub sorted_binaries : List Binary → Result X (List Binary)
  unfolding rank
  sorted_binaries binary_set =
      if leb (length (select is_default binary_set)) 1
      then ok (sort_by nat_order rank binary_set)
      else err type_error

  abbrev pub pick : Binary → Result X (Option Binary) → Result X Bool → Result X (Option Binary)
  pick binary rest (ok b) = if b then ok (some binary) else rest
  pick binary rest (err x) = err x

  -- The loop of `select_binary`
  unfoldable pub first_running : List String → List Binary → Result X (Option Binary)
  unfolding should_run
  first_running args [] = ok none
  first_running args (binary ∷ binaries) =
      let rest = first_running args binaries in pick binary rest (should_run args binary)

  unfoldable pub select_binary : List Binary → List String → Result X (Option Binary)
  unfolding sorted_binaries first_running
  select_binary binary_set args = sorted_binaries binary_set >>= first_running args

-- What the process and the configuration give
pub record Host : Type 0 where
  pub cwd : Option String
  pub getcwd : String
  pub project_home : String
  pub realpath : String → String
  pub relpath : String → String → String
  pub join : String → String → String
  pub split : String → List String
  pub quote : String → String
  pub run_opts : Option String
  pub docker_compose_command : Option String
  pub path_mapping : Dict String
  pub configured_executable : String → String
  pub prepend_args : String → List String
  pub append_args : String → List String

module _ {X : Type 0} (evaluator : Evaluator X) (host : Host) where
  open evaluator use {simple_eval, configuration_error}
  open host use {
    cwd, getcwd, project_home, realpath, relpath, join, split, quote, run_opts,
    docker_compose_command, path_mapping, configured_executable, prepend_args, append_args,
  }

  abbrev pub or_default : Option String → String → String
  or_default o text = elim (truthy o) [ none ↦ text | some t ↦ t ]

  abbrev pub for_text : Option String → (String → List String) → List String
  for_text o f = elim (truthy o) [ none ↦ [] | some text ↦ f text ]

  -- The parameters up to `--workdir`, for a working directory in the project's home and one outside of it
  unfoldable pub start_params : DockerBinary → List String
  start_params b =
      let here = or_default cwd getcwd in
      if starts_with (realpath here) (realpath project_home)
      then (if b.exe then "exec" ∷ [] else "run" ∷ "--rm" ∷ [])
        ++ for_text b.workdir
            (λ workdir. append "--workdir=" (join workdir (relpath here project_home)) ∷ [])
      else ("-f" ∷ join (relpath project_home here) "docker-compose.yml" ∷ "run" ∷ "--rm" ∷ [])
        ++ for_text b.workdir (λ workdir.
          append "--volume="
            (append (get_mapped_path path_mapping (realpath here)) (append ":" workdir))
          ∷ append "--workdir=" workdir
          ∷ [])

  abbrev pub options_if : String → Bool → List String
  options_if options holds = if holds then split options else []

  -- `add_options_to_params`: what it adds
  unfoldable pub added_options :
      Option String → Option String → List String → Result X (List String)
  added_options none condition args = ok []
  added_options (some options) none args = ok (split options)
  added_options (some options) (some condition) args =
      simple_eval condition args >>= (λ holds. ok (options_if options holds))

  -- `effective_command`, of a list that is not empty
  unfoldable pub effective_command : List String → List String
  effective_command [] = []
  effective_command (executable ∷ args) =
      configured_executable executable
      ∷ (prepend_args executable ++ (args ++ append_args executable))

  abbrev pub compose : DockerBinary → List String → Result X (List String)
  compose b options = elim (truthy docker_compose_command) [
    | none ↦ err configuration_error
    | some command ↦ ok (
        effective_command (
          split command
          ++ (start_params b
              ++ (for_text b.entrypoint (λ entrypoint. append "--entrypoint=" entrypoint ∷ [])
                  ++ (for_text run_opts (λ opts. map quote (split opts))
                      ++ (options
                          ++ b.docker_compose_service
                            ∷ for_text b.args (λ args. map quote (split args))))))))
  ]

  -- `DockerBinary.command`
  unfoldable pub command : DockerBinary → List String → Result X (List String)
  unfolding start_params added_options effective_command
  command b args = added_options b.options b.options_condition args >>= compose b

  unfoldable pub binary_command : Binary → List String → Result X (List String)
  unfolding command
  binary_command (docker b) args = command b args
  binary_command (default name words) args = ok words

  -- What `RunAction.run` does, in order: the service that is brought up if it is not, and the event
  abbrev pub Run : Type 0
  Run = Option String × (List String × Bool)

  abbrev pub service_of : Binary → Option String
  service_of (docker b) = if b.exe then some b.docker_compose_service else none
  service_of (default name words) = none

  abbrev pub run_selected : String → List String → Option Binary → Result X Run
  run_selected name args none = ok (none, (name ∷ args, true))
  run_selected name args (some binary) =
      binary_command binary args >>= (λ words. ok (service_of binary, (words, false)))

  abbrev pub run_set : String → List String → Option (List Binary) → Result X Run
  run_set name args none = err (evaluator.not_registered name)
  run_set name args (some []) = run_selected name args none
  run_set name args (some (b ∷ bs)) =
      select_binary evaluator (b ∷ bs) args >>= run_selected name args

  -- `RunAction.run`, with the sets of the registry and `config.unknown_args`
  unfoldable pub run : Dict (List Binary) → List String → String → List String → Result X Run
  unfolding binary_command
  run binaries unknown_args name args =
      run_set name (if is_empty args then unknown_args else args) (lookup name binaries)
