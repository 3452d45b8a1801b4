-- ===== src/Cache.antt =====
-- ddb/cache/cache.py and the dictionary behind ddb/cache/shelve_cache.py: the entries that the
-- process sees, and what the file held after the last `flush` or `close`.
use docker_devbox_ddb.Prelude.{String, Bool, true, Option, none, some, [], not, Eq, if◌then◌else◌}
use docker_devbox_ddb.Dict.{Dict, lookup, insert, remove, has_key}

pub record Cache (A : Type 0) : Type 0 where
  pub entries : Dict A
  pub synced : Dict A

module _ {A : Type 0} where
  -- `set`
  unfoldable pub set : String → A → Cache A → Cache A
  set key obj c = record c { entries = insert key obj c.entries }

  -- `flush`: `self._shelf.sync()`
  unfoldable pub flush : Cache A → Cache A
  flush c = record c { synced = c.entries }

  -- `pop` of a key that is there
  unfoldable pub pop : String → Cache A → Cache A
  pop key c = record c { entries = remove key c.entries }

  -- `clear`
  unfoldable pub clear : Cache A → Cache A
  clear c = record c { entries = [] }

  -- `if self._cache and name in self._cache: self._cache.pop(name)`
  unfoldable pub forget : String → Cache A → Cache A
  unfolding pop
  forget name c = if has_key name c.entries then pop name c else c

  -- `name not in self._cache or self._cache.get(name) != obj`
  abbrev pub differs : ⦃e : Eq A⦄ → Option A → A → Bool
  differs none obj = true
  differs ⦃e⦄ (some o) obj = not (e.beq o obj)

  unfoldable pub write_back : ⦃e : Eq A⦄ → String → A → Cache A → Cache A
  unfolding set flush
  write_back name obj c = if differs (lookup name c.entries) obj then flush (set name obj c) else c
