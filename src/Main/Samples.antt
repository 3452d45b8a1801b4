-- ===== src/Main/Samples.antt =====
-- A program whose every step notes nothing, and one whose command raises.
use docker_devbox_ddb.Prelude.{ℕ, String, true, false, some, [], ◌∷◌, eq_string, ok, err, ◌≡◌, refl}
use docker_devbox_ddb.Prelude.Exec.{Exec}
use docker_devbox_ddb.Registry.{new_registry}
use docker_devbox_ddb.Bus.{new_bus}
use docker_devbox_ddb.Context.{reset}
use docker_devbox_ddb.Main.{Program, Errors, command_line, Steps, body, main, exit_code}

abbrev Sample : Type 0
Sample = Program String String String String ℕ

abbrev idle : Exec Sample String Unit
idle s = (s, ok tt)

abbrev errors : Errors String
errors = record { is_expected = λ x. false; is_exception = λ x. true }

abbrev steps : Exec Sample String Unit → Steps Sample String
steps command = record {
  load_plugins = idle;
  bootstrap_register_features = idle;
  preload_registered_features = idle;
  parse_command_line =
      λ s. (s, ok (command_line (record { version = false; silent = false; fail_fast = false })));
  set_args = λ a s. s;
  print_help = λ s. s;
  load_registered_features = idle;
  register_actions = λ b. idle;
  version = λ b. idle;
  prepare_project_home = idle;
  register_default_caches = idle;
  on_config_reloaded = idle;
  start = idle;
  handle_command_line = command;
  terminate = idle;
  exceptions = λ s. s.context.exceptions;
  clear_caches = idle;
  change_back = λ s. s;
  reset = λ s. s;
}

abbrev program : Sample
program = record {
  bus = new_bus;
  features = new_registry;
  phases = new_registry;
  commands = new_registry;
  actions = new_registry;
  services = new_registry;
  caches = new_registry;
  context = reset;
  available_features = "docker" ∷ [];
  world = 7;
}

abbrev failing : Exec Sample String Unit
failing s = (record s { available_features = [] }, err "no such service")

no_failure : exit_code (λ x. false) (main errors (steps idle) true program).1 ≡ some 0
unfolding exit_code main body reset
no_failure = refl
