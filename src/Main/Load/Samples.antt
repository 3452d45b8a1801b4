-- ===== src/Main/Load/Samples.antt =====
-- Two features with three commands, which are their own names.
use Prim.Native.String.{◌++◌ as append}
use docker_devbox_ddb.Prelude.{eq_string, String, true, some, List, [], ◌∷◌, refl}
use docker_devbox_ddb.Dict.{lookup}
use docker_devbox_ddb.Registry.{new_registry, ObjectClass}
use docker_devbox_ddb.Main.Load.{objects_of}
use docker_devbox_ddb.Main.Load.Objects.{AreFree}

abbrev clazz : ObjectClass String
clazz = record { is_instance = λ o. true; name_of = λ o. some o }

abbrev commands_of : String → List String
commands_of f = f ∷ append f "-info" ∷ []

abbrev features : List String
features = "docker" ∷ "shell" ∷ []

objects-AreFree : AreFree clazz (λ o. o) new_registry (objects_of features commands_of)
unfolding objects_of new_registry lookup
objects-AreFree = (
  refl,
  (refl, (refl, (refl, tt))),
  (refl, (refl, (refl, tt)), (refl, (refl, tt), (refl, tt, tt))),
)
