-- ===== src/Removal/Samples.antt =====
-- One key with two services, of which one is set again.
use docker_devbox_ddb.Prelude.{
  String, true, not, ◌&&◌, List, [], ◌∷◌, ok, ◌>>=◌, contains, select, eq_string, ◌≡◌, refl,
}
use docker_devbox_ddb.Dict.{lookup, insert, lookup_or}
use docker_devbox_ddb.Cache.{Cache, set}
use docker_devbox_ddb.Removal.{
  RemovalCache, prepare, fill, add, set_current_value, difference, get_removed, removed_of,
}
use docker_devbox_ddb.Removal.Round.{set_all, is_listed, is_listed-get_removed}

abbrev empty_cache : RemovalCache String
empty_cache = record { keys = "extra" ∷ []; cached = []; previous = []; current = [] }

abbrev old : Cache (List String)
old = record { entries = ("extra", "a" ∷ "b" ∷ []) ∷ []; synced = [] }

only_b_removed :
    (set_all (("extra", "a") ∷ []) (prepare old empty_cache) >>= (λ r. ok (get_removed r old)))
    ≡ ok (("extra", "b") ∷ [], record { entries = ("extra", "a" ∷ []) ∷ []; synced = [] })
unfolding set_current_value prepare fill get_removed removed_of add lookup insert set contains
    difference select
only_b_removed = refl

extra_supported : contains {A = String} ("extra" ∷ []) "extra" ≡ true
unfolding contains
extra_supported = refl

is_listed-get_removed_example :
    (r' : RemovalCache String) × (set_all (("extra", "a") ∷ []) (prepare old empty_cache) ≡ ok r')
    × ((k v : String)
        → is_listed (get_removed r' old).0 k v ≡ (
            contains {A = String} ("extra" ∷ []) k
            && (contains (lookup_or k old.entries []) v
                && not (is_listed (("extra", "a") ∷ []) k v))))
    × ((k v : String)
        → contains {A = String} ("extra" ∷ []) k ≡ true
        → contains (lookup_or k (get_removed r' old).1.entries []) v
          ≡ is_listed (("extra", "a") ∷ []) k v)
is_listed-get_removed_example =
    is_listed-get_removed empty_cache old (("extra", "a") ∷ []) (extra_supported, tt)
