-- ===== src/Main.antt =====
-- ddb/__main__.py: the run of the program. What its steps do to the other parts is a parameter, but for
-- `reset`, which is written out on the parts' own states.
pub mod Bindings
pub mod Load
pub mod Watch
pub mod Exit
mod Samples
use docker_devbox_ddb.Prelude.{
  Eq, ℕ, String, Bool, true, false, not, Option, none, some, List, [], ◌∷◌, is_empty, Result, ok,
  err, if◌then◌else◌,
}
use docker_devbox_ddb.Prelude.Exec.{Exec, pure, raise, modify, and_then, ◌>>◌, ◌>>=◌}
use docker_devbox_ddb.Registry.{Registry, close}
use docker_devbox_ddb.Bus.{Bus, clear}
use docker_devbox_ddb.Context.{Context, reset}

-- The module-level objects of the program: the bus, the registries of objects `O`, the context, the
-- available features, and the rest of the world
pub record Program (L O C X W : Type 0) : Type 0 where
  pub bus : Bus L
  pub features : Registry O
  pub phases : Registry O
  pub commands : Registry O
  pub actions : Registry O
  pub services : Registry O
  pub caches : Registry O
  pub context : Context C X
  pub available_features : List O
  pub world : W

-- `ExpectedError`, and subclasses of `Exception`; `SystemExit` and `KeyboardInterrupt` are not.
pub record Errors (X : Type 0) : Type 0 where
  pub is_expected : X → Bool
  pub is_exception : X → Bool

pub record Args : Type 0 where
  pub version : Bool
  pub silent : Bool
  pub fail_fast : Bool

-- What `parse_command_line` gives: a command line, or the arguments of a `ParseCommandLineException`
-- and that exception
pub data Parsed (X : Type 0) : Type 0 where
  command_line : Args → Parsed X
  no_command : Args → X → Parsed X

module _ {L O C X W : Type 0} where
  -- `reset`, with the default list of features; the binaries, configuration and working directory are
  -- in the rest of the world.
  unfoldable pub reset_program :
      ⦃e : Eq O⦄ → List O → (W → W) → Program L O C X W → Program L O C X W
  reset_program default_features reset_world p = record {
    bus = clear p.bus;
    features = (close p.features).0;
    phases = (close p.phases).0;
    commands = (close p.commands).0;
    actions = (close p.actions).0;
    services = (close p.services).0;
    caches = (close p.caches).0;
    context = reset;
    available_features = default_features;
    world = reset_world p.world;
  }

-- The steps of `main`
pub record Steps (S X : Type 0) : Type 0 where
  pub load_plugins : Exec S X Unit
  pub bootstrap_register_features : Exec S X Unit
  pub preload_registered_features : Exec S X Unit
  pub parse_command_line : Exec S X (Parsed X)
  pub set_args : Args → S → S
  pub print_help : S → S
  pub load_registered_features : Exec S X Unit
  pub register_actions : Bool → Exec S X Unit
  pub version : Bool → Exec S X Unit
  pub prepare_project_home : Exec S X Unit
  pub register_default_caches : Exec S X Unit
  pub on_config_reloaded : Exec S X Unit
  pub start : Exec S X Unit
  pub handle_command_line : Exec S X Unit
  pub terminate : Exec S X Unit
  pub exceptions : S → List X
  pub clear_caches : Exec S X Unit
  pub change_back : S → S
  pub reset : S → S

module _ {S X : Type 0} (errors : Errors X) (steps : Steps S X) where
  open steps use {
    load_plugins, bootstrap_register_features, preload_registered_features, parse_command_line,
    set_args, print_help, load_registered_features, register_actions, version, prepare_project_home,
    register_default_caches, on_config_reloaded, start, handle_command_line, terminate, exceptions,
    clear_caches, change_back, reset as reset_all,
  }

  -- The `except ParseCommandLineException`: the arguments are kept, and `--version` needs no command.
  abbrev pub take_args : Parsed X → Exec S X Args
  take_args (command_line args) s = (set_args args s, ok args)
  take_args (no_command args x) s =
      if args.version then (set_args args s, ok args) else (print_help (set_args args s), err x)

  abbrev pub run_command : Exec S X (List X)
  run_command s =
      (prepare_project_home
          >> (register_default_caches
              >> (on_config_reloaded
                  >> (start
                      >> (handle_command_line >> (terminate >> (λ t. (t, ok (exceptions t)))))))))
        s

  abbrev pub run_args : Args → Exec S X (List X)
  run_args args s =
      (load_registered_features
          >> (register_actions args.fail_fast
              >> (if args.version
                  then (version args.silent >> (λ t. (t, ok [])))
                  else run_command)))
        s

  -- The body of the `try`
  unfoldable pub body : Exec S X (List X)
  body s =
      (load_plugins
          >> (bootstrap_register_features
              >> (preload_registered_features
                  >> ((parse_command_line >>= take_args) >>= run_args))))
        s

  -- What `clear_caches` raises is logged, if it is an `Exception`.
  abbrev pub after_clear : X → S × Result X (Unit {0}) → S × Result X (List X)
  after_clear x (s, ok u) = (s, err x)
  after_clear x (s, err y) = if errors.is_exception y then (s, err x) else (s, err y)

  -- The `except` clauses
  abbrev pub handle : S × Result X (List X) → S × Result X (List X)
  handle (s, ok xs) = (s, ok xs)
  handle (s, err x) =
      if errors.is_expected x
      then (s, ok (x ∷ []))
      else if errors.is_exception x
      then after_clear x (clear_caches s)
      else (s, err x)

  -- The `finally` clause
  abbrev pub finish : Bool → S × Result X (List X) → S × Result X (List X)
  finish reset_disabled (s, r) =
      (if reset_disabled then change_back s else reset_all (change_back s), r)

  -- `main`
  unfoldable pub main : Bool → Exec S X (List X)
  unfolding body
  main reset_disabled s = finish reset_disabled (handle (body s))

-- The process's exit code of `console_script`; `none` where another exception ends the process
unfoldable pub exit_code : {X : Type 0} → (X → Bool) → Result X (List X) → Option ℕ
exit_code is_parse_error (ok xs) = if is_empty xs then some 0 else some 1
exit_code is_parse_error (err x) = if is_parse_error x then some 1 else none
