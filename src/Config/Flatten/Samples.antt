-- ===== src/Config/Flatten/Samples.antt =====
-- A small configuration, flat.
use docker_devbox_ddb.Prelude.{
  ◌≡◌, refl, false, none, some, [], ◌∷◌, contains, nat_eq, if◌then◌else◌,
}
use docker_devbox_ddb.Dict.{lookup, insert}
use docker_devbox_ddb.Config.Value.{Value, Fields, str, dict, list, nil, cons, end, field}
use docker_devbox_ddb.Config.Flatten.{Format, flatten, flatten_value, is_primitive, all_primitive}
use docker_devbox_ddb.Config.Flatten.Leaves.{leaves_of, last_of, lookup-flatten}

abbrev dotted : Format Value
dotted = record {
  sep = ".";
  index_text = λ i. if nat_eq i 0 then "[0]" else "[1]";
  key_transformer = λ k. k;
  value_transformer = λ v. v;
  keep_primitive_list = false;
  stop_for = "shell.env" ∷ [];
}

abbrev config : Fields
config =
    field "docker" (dict (field "ports" (list (cons (str "80") (cons (str "443") nil))) end))
      (field "shell" (dict (field "env" (dict (field "a" (str "b") end)) end)) end)

flat :
    flatten dotted none config
    ≡ ("docker.ports[0]", str "80")
      ∷ ("docker.ports[1]", str "443")
      ∷ ("shell.env", dict (field "a" (str "b") end))
      ∷ []
unfolding flatten flatten_value insert contains all_primitive is_primitive
flat = refl

lookup-flatten_example :
    lookup "docker.ports[1]" (flatten dotted (some "") config)
    ≡ last_of "docker.ports[1]" (leaves_of dotted "" (dict config)) none
lookup-flatten_example = lookup-flatten dotted "" config "docker.ports[1]"
