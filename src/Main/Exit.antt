-- ===== src/Main/Exit.antt =====
-- ddb/__main__.py: how `main` ends.
use docker_devbox_ddb.Prelude.{Eq, List, ◌≡◌}
use docker_devbox_ddb.Registry.{new_registry, clear as clear_registry}
use docker_devbox_ddb.Bus.{new_bus, clear as clear_bus}
use docker_devbox_ddb.Context.{reset as reset_context}
use docker_devbox_ddb.Main.{Program, Errors, Steps, reset_program}

-- The parts that `reset` brings back to their start
abbrev pub IsReset : {L O C X W : Type 0} → List O → Program L O C X W → Type 0
IsReset default_features p =
    (p.bus ≡ new_bus)
    × (p.features ≡ new_registry)
    × (p.phases ≡ new_registry)
    × (p.commands ≡ new_registry)
    × (p.actions ≡ new_registry)
    × (p.services ≡ new_registry)
    × (p.caches ≡ new_registry)
    × (p.context ≡ reset_context)
    × (p.available_features ≡ default_features)

module _ {L O C X W : Type 0} ⦃e : Eq O⦄ (errors : Errors X)
    (steps : Steps (Program L O C X W) X) where
  -- The program's steps, with `reset` on its own parts
  abbrev pub resetting : List O → (W → W) → Steps (Program L O C X W) X
  resetting default_features reset_world = record steps {
    reset = reset_program default_features reset_world;
  }
