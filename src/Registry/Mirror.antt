-- ===== src/Registry/Mirror.antt =====
-- ddb/registry.py: a registry with a cache keeps the cache equal to its dictionary, and a registry
-- that is filled from that cache has the same objects by the same names.
use docker_devbox_ddb.Prelude.{
  String, ◌≡◌, ◌≢◌, refl, Option, none, some, [], Eq, remove?, Option-cases, err, arith, inl, inr,
  eq_iff, ◌==◌, if◌then◌else◌, Bool-cases,
}
use docker_devbox_ddb.Dict.{lookup, insert, remove, lookup-insert, lookup-remove}
use docker_devbox_ddb.Cache
use docker_devbox_ddb.Cache.{Cache, write_back, forget}
use docker_devbox_ddb.Registry.{
  Registry, not_in_list, register_impl, unregister_impl, is_asked, clear,
}

pub record Mirrors {A : Type 0} (r : Registry A) : Type 0 where
  pub at :
      (c : Cache A) → r.cache ≡ some c → (k : String) → lookup k c.entries ≡ lookup k r.objects_dict

module _ {A : Type 0} ⦃e : Eq A⦄ where
  lookup-write_back :
      (name : String) (obj : A) (c : Cache A) (k : String)
      → lookup k (write_back name obj c).entries
        ≡ (if name == k then some obj else lookup k c.entries)
  unfolding write_back
  lookup-write_back name obj c k = elim (Option-cases (lookup name c.entries)) [
    | inl absent ↦ rw (absent, lookup-insert)
    | inr (o, there) ↦ elim (Bool-cases (e.beq o obj)) [
      | inl same ↦ rw (there, same) (ground (arith, e.beq_iff o obj, eq_iff name k))
      | inr other ↦ rw (there, other, lookup-insert)
    ]
  ]

  lookup-forget :
      (name : String) (c : Cache A) (k : String)
      → lookup k (forget name c).entries ≡ (if name == k then none else lookup k c.entries)
  unfolding forget
  lookup-forget name c k = elim (Option-cases (lookup name c.entries)) [
    | inl absent ↦ rw absent (ground (arith, eq_iff name k))
    | inr (o, there) ↦ rw (there, lookup-remove)
  ]

  pub register_impl-Mirrors :
      (r : Registry A) (name : String) (obj : A) → Mirrors r → Mirrors (register_impl r name obj).0
  unfolding register_impl
  register_impl-Mirrors r name obj m = elim (Option-cases (lookup name r.objects_dict)) [
    | inl absent ↦ rw absent (record { at = go r.cache refl })
    | inr (o, there) ↦ rw there m
  ]
    where
      go :
          (o : Option (Cache A))
          → r.cache ≡ o
          → (c : Cache A)
          → ◌≡◌ {A = Option (Cache A)}
              (elim o [ none ↦ none | some c ↦ some (write_back name obj c) ])
              (some c)
          → (k : String) → lookup k c.entries ≡ lookup k (insert name obj r.objects_dict)
      go none h c p k = cc
      go (some d) h c p k = ground (
        arith,
        lookup-write_back name obj d k,
        lookup-insert name obj r.objects_dict k,
        m.at d h k,
      )

  pub unregister_impl-Mirrors :
      (r : Registry A) (name : String) (item : A) (obj : Option A)
      → (unregister_impl r name item obj).1 ≢ err not_in_list
      → Mirrors r
      → Mirrors (unregister_impl r name item obj).0
  unfolding unregister_impl
  unregister_impl-Mirrors r name item obj found m = elim (Bool-cases (is_asked item obj)) [
    | inr other ↦ rw other m
    | inl asked ↦ elim (Option-cases (remove? item r.objects)) [
      | inl missing ↦ absurd (ground arith)
      | inr (left, removed) ↦ rw (asked, removed) (record { at = go r.cache refl })
    ]
  ]
    where
      go :
          (o : Option (Cache A))
          → r.cache ≡ o
          → (c : Cache A)
          → ◌≡◌ {A = Option (Cache A)}
              (elim o [ none ↦ none | some c ↦ some (forget name c) ])
              (some c)
          → (k : String) → lookup k c.entries ≡ lookup k (remove name r.objects_dict)
      go none h c p k = cc
      go (some d) h c p k =
          ground (arith, lookup-forget name d k, lookup-remove name r.objects_dict k, m.at d h k)

  pub clear-Mirrors : (r : Registry A) → Mirrors (clear r)
  unfolding clear Cache.clear
  clear-Mirrors r = record { at = go r.cache }
    where
      go :
          (o : Option (Cache A)) (c : Cache A)
          → ◌≡◌ {A = Option (Cache A)}
              (elim o [ none ↦ none | some c ↦ some (Cache.clear c) ])
              (some c)
          → (k : String) → lookup k c.entries ≡ lookup {V = A} k []
      go none c p k = cc
      go (some d) c p k = ground arith
