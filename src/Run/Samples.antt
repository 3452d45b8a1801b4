-- ===== src/Run/Samples.antt =====
-- Two binaries of a name, of which one has a condition.
use Prim.Native.String.{◌++◌ as append}
use docker_devbox_ddb.Prelude.{
  String, true, false, Option, some, none, List, [], ◌∷◌, ok, err, ◌≡◌, refl, ◌==◌, is_empty, not,
  if◌then◌else◌,
}
use docker_devbox_ddb.Prelude.Sorting.{insert_by, sort_by}
use docker_devbox_ddb.Prelude.{select}
use docker_devbox_ddb.Dict.{lookup}
use docker_devbox_ddb.Run.{
  DockerBinary, Binary, docker, Evaluator, Host, rank, should_run, first_running, sorted_binaries,
  select_binary, start_params, added_options, effective_command, command, run, binary_command,
}
use docker_devbox_ddb.Run.Choice.{IsFirst, select_binary-IsFirst}

abbrev evaluator : Evaluator String
evaluator = record {
  simple_eval = λ condition args.
      if condition == "argv" then ok (not (is_empty args)) else err "NameNotDefined";
  type_error = "TypeError";
  not_registered = λ name. name;
  configuration_error = "ConfigurationError";
}

abbrev node : DockerBinary
node = record {
  name = "node";
  docker_compose_service = "web";
  workdir = some "/app";
  options = some "-T";
  options_condition = some "argv";
  condition = none;
  args = some "node";
  exe = true;
  entrypoint = none;
  global = false;
}

abbrev conditional : DockerBinary
conditional = record node { docker_compose_service = "tool"; condition = some "argv" }

abbrev host : Host
host = record {
  cwd = some "/home/project/src";
  getcwd = "/";
  project_home = "/home/project";
  realpath = λ path. path;
  relpath = λ path start. "src";
  join = λ a b. append a (append "/" b);
  split = λ text. text ∷ [];
  quote = λ text. text;
  run_opts = none;
  docker_compose_command = some "docker-compose";
  path_mapping = [];
  configured_executable = λ executable. executable;
  prepend_args = λ executable. [];
  append_args = λ executable. [];
}

abbrev binaries : List Binary
binaries = docker node ∷ docker conditional ∷ []

with_argument :
    run evaluator host (("node", binaries) ∷ []) [] "node" ("--version" ∷ [])
    ≡ ok (
      some "tool",
      ("docker-compose" ∷ "exec" ∷ "--workdir=/app/src" ∷ "-T" ∷ "tool" ∷ "node" ∷ [], false),
    )
unfolding run binary_command command select_binary sorted_binaries first_running should_run rank
    sort_by insert_by select start_params added_options effective_command lookup
with_argument = refl

unregistered : run evaluator host [] [] "node" [] ≡ err "node"
unfolding run lookup
unregistered = refl

select_binary-IsFirst_example :
    (chosen : Option Binary) × (select_binary evaluator binaries ("--version" ∷ []) ≡ ok chosen)
    × IsFirst evaluator ("--version" ∷ []) binaries chosen
unfolding should_run select
select_binary-IsFirst_example =
    select_binary-IsFirst evaluator binaries ("--version" ∷ []) refl
      ((true, refl), ((true, refl), tt))
