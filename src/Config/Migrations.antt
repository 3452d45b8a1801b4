-- ===== src/Config/Migrations.antt =====
-- ddb/config/migrations.py: deprecated configuration properties. The dotted dictionary of the
-- third-party `Dotty` is a parameter, with its laws for keys that do not overlap.
pub mod Keys
mod Samples
use docker_devbox_ddb.Prelude.{
  String, Bool, true, false, not, Option, none, some, List, [], ◌∷◌, ◌==◌, if◌then◌else◌, is_some,
  ◌≡◌,
}
use docker_devbox_ddb.Dict.{Dict, insert}
use docker_devbox_ddb.Config.Value.{Value, null}

-- `key in config`, `config.get(key)`, `config.pop(key)` of a key that is there, and
-- `config[key] = value`. Two keys are apart if neither is a part of the other's path.
pub record Dotty (C : Type 0) : Type 1 where
  pub find : String → C → Option Value
  pub drop : String → C → C
  pub put : String → Value → C → C
  pub Apart : String → String → Type 0
  pub find-put_self : (k : String) (v : Value) (c : C) → find k (put k v c) ≡ some v
  pub find-put_other :
      (k j : String) (v : Value) (c : C) → Apart k j → find j (put k v c) ≡ find j c
  pub find-drop_self : (k : String) (c : C) → find k (drop k c) ≡ none
  pub find-drop_absent : (k j : String) (c : C) → find j c ≡ none → find j (drop k c) ≡ none
  pub find-drop_other : (k j : String) (c : C) → Apart k j → find j (drop k c) ≡ find j c

-- `PropertyMigration`, without the texts of its warning
pub record Migration (C : Type 0) : Type 0 where
  pub old_config_key : String
  pub new_config_key : String
  pub transformer : Value → C → Value
  pub rollback_transformer : Value → C → Value

-- `value is not None`
unfoldable pub is_none : Value → Bool
is_none null = true
is_none _ = false

abbrev pub value_or_none : Option Value → Value
value_or_none none = null
value_or_none (some v) = v

module _ {C : Type 0} (dotty : Dotty C) where
  open dotty use {find, drop, put}

  -- `PropertyMigration.verify`, without its warning
  unfoldable pub verify : Migration C → C → Bool
  verify m config = not (is_some (find m.old_config_key config))

  -- `PropertyMigration.migrate`
  unfoldable pub migrate_property : Migration C → C → C
  unfolding is_none
  migrate_property m config =
      let config' = drop m.old_config_key config in
      let old_value = value_or_none (find m.old_config_key config) in
      if is_none old_value
      then config'
      else put m.new_config_key (m.transformer old_value config') config'

  abbrev pub map_or : Option Value → (Value → Option Value) → Option Value → Option Value
  map_or none f o = o
  map_or (some v) f o = f v

  -- `PropertyMigration.get_new_value`, with `none` for its `KeyError`
  unfoldable pub get_new_value : Migration C → C → Option Value
  get_new_value m config =
      map_or (find m.new_config_key config) (λ v. some v)
        (map_or (find m.old_config_key config) (λ v. some (m.transformer v config)) none)

  -- `PropertyMigration.get_old_value`, with `none` for its `KeyError`
  unfoldable pub get_old_value : Migration C → C → Option Value
  get_old_value m config =
      map_or (find m.new_config_key config) (λ v. some (m.rollback_transformer v config))
        (map_or (find m.old_config_key config) (λ v. some v) none)

  -- The loop of `migrate(config)`
  unfoldable pub migrate : List (Migration C) → C → C
  unfolding verify migrate_property
  migrate [] config = config
  migrate (m ∷ history) config =
      migrate history (if verify m config then config else migrate_property m config)

-- `_history_from_old_config_key_dict` of `set_history`: the comprehension runs over the history in
-- order, so the last migration of a key stays. Here a migration is its pair of keys.
unfoldable pub from_old_keys : List (String × String) → Dict String → Dict String
from_old_keys [] found = found
from_old_keys ((old, new) ∷ history) found = from_old_keys history (insert old new found)

-- The keys of `_default_history`
abbrev pub default_keys : List (String × String)
default_keys =
    ("docker.build_image_tag_from_version", "jsonnet.docker.build.image_tag_from")
    ∷ ("docker.build_image_tag_from", "jsonnet.docker.build.image_tag_from")
    ∷ ("docker.build_image_tag", "jsonnet.docker.build.image_tag")
    ∷ ("docker.cache_from_image", "jsonnet.docker.build.cache_from_image")
    ∷ ("docker.directory", "jsonnet.docker.build.context.base_directory")
    ∷ ("docker.jsonnet.binary_disabled", "jsonnet.docker.binary.disabled")
    ∷ ("docker.jsonnet.virtualhost_disabled", "jsonnet.docker.virtualhost.disabled")
    ∷ ("docker.reverse_proxy.network_id", "jsonnet.docker.virtualhost.network_id")
    ∷ ("docker.reverse_proxy.network_names", "jsonnet.docker.networks.names")
    ∷ ("docker.reverse_proxy.certresolver", "jsonnet.docker.virtualhost.certresolver")
    ∷ ("docker.reverse_proxy.https", "jsonnet.docker.virtualhost.https")
    ∷ ("docker.reverse_proxy.redirect_to_https", "jsonnet.docker.virtualhost.redirect_to_https")
    ∷ (
      "docker.reverse_proxy.redirect_to_path_prefix",
      "jsonnet.docker.virtualhost.redirect_to_path_prefix",
    )
    ∷ ("docker.debug.disabled", "jsonnet.docker.xdebug.disabled")
    ∷ ("docker.debug.host", "jsonnet.docker.xdebug.host")
    ∷ ("docker.compose.service_context_root", "jsonnet.docker.build.context.use_project_home")
    ∷ ("docker.compose.service_init", "jsonnet.docker.service.init")
    ∷ ("docker.user.name", "jsonnet.docker.user.name")
    ∷ ("docker.user.group", "jsonnet.docker.user.group")
    ∷ ("docker.user.name_to_uid", "jsonnet.docker.user.name_to_uid")
    ∷ ("docker.user.group_to_gid", "jsonnet.docker.user.group_to_gid")
    ∷ ("docker.registry.name", "jsonnet.docker.registry.name")
    ∷ ("docker.registry.repository", "jsonnet.docker.registry.repository")
    ∷ ("docker.compose.project_name", "jsonnet.docker.compose.project_name")
    ∷ ("docker.compose.network_name", "jsonnet.docker.compose.network_name")
    ∷ ("docker.compose.file_version", "jsonnet.docker.compose.version")
    ∷ ("docker.disabled_services", "jsonnet.docker.compose.excluded_services")
    ∷ ("docker.build_image_tag", "jsonnet.docker.build.image_tag")
    ∷ ("docker.build_image_tag", "jsonnet.docker.build.image_tag_from")
    ∷ ("docker.port_prefix", "jsonnet.docker.expose.port_prefix")
    ∷ ("docker.restart_policy", "jsonnet.docker.service.restart")
    ∷ ("docker.reverse_proxy.type", "jsonnet.docker.virtualhost.disabled")
    ∷ []
