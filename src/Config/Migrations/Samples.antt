-- ===== src/Config/Migrations/Samples.antt =====
-- A dictionary without nested keys as a `Dotty`, and one migration.
use docker_devbox_ddb.Prelude.{String, false, none, some, [], ◌∷◌, ◌==◌, ◌≡◌, refl, arith, eq_refl}
use docker_devbox_ddb.Dict.{
  Dict, lookup, insert, remove, lookup-insert, lookup-remove, lookup-insert_self,
}
use docker_devbox_ddb.Config.Value.{Value, str}
use docker_devbox_ddb.Config.Migrations.{
  Dotty, Migration, migrate, is_none, from_old_keys, default_keys,
}
use docker_devbox_ddb.Config.Migrations.Keys.{AreGone, migrate-AreGone}

abbrev Apart : String → String → Type 0
Apart k j = (k == j) ≡ false

find-put_other :
    (k j : String) (v : Value) (c : Dict Value) → Apart k j → lookup j (insert k v c) ≡ lookup j c
find-put_other k j v c apart = ground (arith, lookup-insert k v c j)

find-drop_self : (k : String) (c : Dict Value) → lookup k (remove k c) ≡ none
find-drop_self k c = ground (arith, lookup-remove k c k, eq_refl k)

find-drop_absent :
    (k j : String) (c : Dict Value) → lookup j c ≡ none → lookup j (remove k c) ≡ none
find-drop_absent k j c h = ground (arith, lookup-remove k c j)

find-drop_other : (k j : String) (c : Dict Value) → Apart k j → lookup j (remove k c) ≡ lookup j c
find-drop_other k j c apart = ground (arith, lookup-remove k c j)

abbrev flat : Dotty (Dict Value)
flat = record {
  find = lookup;
  drop = remove;
  put = insert;
  Apart = Apart;
  find-put_self = lookup-insert_self;
  find-put_other = find-put_other;
  find-drop_self = find-drop_self;
  find-drop_absent = find-drop_absent;
  find-drop_other = find-drop_other;
}

abbrev port : Migration (Dict Value)
port = record {
  old_config_key = "docker.port_prefix";
  new_config_key = "jsonnet.docker.expose.port_prefix";
  transformer = λ v c. v;
  rollback_transformer = λ v c. v;
}

abbrev old_config : Dict Value
old_config = ("docker.port_prefix", str "80") ∷ []

abbrev both : Dict Value
both = ("docker.port_prefix", str "80") ∷ ("jsonnet.docker.expose.port_prefix", str "81") ∷ []

migrated :
    migrate flat (port ∷ []) old_config ≡ ("jsonnet.docker.expose.port_prefix", str "80") ∷ []
unfolding migrate lookup insert remove is_none
migrated = refl

-- The history has three migrations of one deprecated key, to two new keys; the index keeps the last.
twice_deprecated :
    lookup "docker.build_image_tag" (from_old_keys default_keys [])
    ≡ some "jsonnet.docker.build.image_tag_from"
unfolding lookup from_old_keys insert
twice_deprecated = refl

migrate-AreGone_example : AreGone flat (port ∷ []) (migrate flat (port ∷ []) old_config)
migrate-AreGone_example = migrate-AreGone flat (port ∷ []) old_config ((refl, tt), tt)

values :
    (lookup "jsonnet.docker.expose.port_prefix" both ≡ some (str "81"))
    × (lookup "docker.port_prefix" both ≡ some (str "80"))
    × (is_none (str "80") ≡ false)
    × (lookup "jsonnet.docker.expose.port_prefix" old_config ≡ none)
    × (lookup "docker.port_prefix" old_config ≡ some (str "80"))
unfolding lookup is_none
values = (refl, refl, refl, refl, refl)
