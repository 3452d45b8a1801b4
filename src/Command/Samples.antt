-- ===== src/Command/Samples.antt =====
-- A command with a parent that is looked up by its name.
use docker_devbox_ddb.Prelude.{
  String, true, false, none, some, List, [], ◌∷◌, ◌++◌, ok, ◌≡◌, refl, arith,
}
use docker_devbox_ddb.Prelude.Exec.{for_each}
use docker_devbox_ddb.Dict.{Dict, lookup}
use docker_devbox_ddb.Phase.{App}
use docker_devbox_ddb.Command.{
  Command, command, no_parent, named, child_of, alone, resolve, parent_of, Program, execute,
}
use docker_devbox_ddb.Command.Lineage.{Lineage, root, child, in_order, execute-in_order}

abbrev Log : Type 0
Log = List String

abbrev program : Program Log String
program = record {
  hook = λ n s. (record s { world = s.world ++ n ∷ [] }, ok tt);
  phase = λ p s. (record s { world = s.world ++ p.name ∷ [] }, ok tt);
  not_found = "not found";
  recursion_error = "recursion";
}

abbrev init_command : Command
init_command = command "init" none no_parent (record { name = "init"; run_once = true } ∷ [])

abbrev configure_command : Command
configure_command =
    command "configure" (some "check_release") (named "init")
      (record { name = "configure"; run_once = false } ∷ [])

abbrev commands : Dict Command
commands = ("init", init_command) ∷ ("configure", configure_command) ∷ []

abbrev new_app : App Log
new_app = record {
  cache = record { entries = []; synced = [] };
  phase = none;
  command = none;
  world = [];
}

init_alone : resolve commands (parent_of init_command) ≡ alone
unfolding resolve
init_alone = refl

configure_child : resolve commands (parent_of configure_command) ≡ child_of init_command
unfolding resolve lookup
configure_child = refl

abbrev lineage : Lineage commands configure_command (configure_command ∷ init_command ∷ [])
lineage =
    child configure_command init_command (init_command ∷ []) configure_child
      (root init_command init_alone)

run_configure :
    execute program commands 2 configure_command new_app
    ≡ (record new_app { world = "check_release" ∷ "init" ∷ "configure" ∷ [] }, ok tt)
unfolding execute resolve lookup for_each
run_configure = refl

execute-in_order_example :
    execute program commands 2 configure_command new_app
    ≡ in_order program commands (configure_command ∷ init_command ∷ []) new_app
execute-in_order_example =
    execute-in_order program commands configure_command (configure_command ∷ init_command ∷ []) 2
      lineage (omega arith) new_app
