-- ===== src/Registry/Restart.antt =====
-- ddb/registry.py: a registry that is filled from a cache has the cache's objects by their names.
use docker_devbox_ddb.Prelude.{◌≡◌, true, false, Option, none, some, Eq, ◌==◌, All}
use docker_devbox_ddb.Dict.{Dict, HasUniqueKeys}
use docker_devbox_ddb.Cache
use docker_devbox_ddb.Cache.{Cache, write_back, forget}
use docker_devbox_ddb.Registry.{Registry, ObjectClass}

-- What a registry wrote to its cache: named objects of its class, each name once.
pub record IsLoadable {A : Type 0} (clazz : ObjectClass A) (entries : Dict A) : Type 0 where
  pub unique : HasUniqueKeys entries
  pub fits : All (λ p. ((p.0 == "") ≡ false) × (clazz.is_instance p.1 ≡ true)) entries

-- `shelve.open` of a file that was synchronised
abbrev pub reopen : {A : Type 0} → Cache A → Cache A
reopen c = record { entries = c.synced; synced = c.synced }

module _ {A : Type 0} ⦃e : Eq A⦄ (clazz : ObjectClass A) where
  abbrev either : Option A → Option A → Option A
  either none o = o
  either (some a) o = some a
