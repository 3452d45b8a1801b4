-- ===== src/Registry/History.antt =====
-- ddb/registry.py: whatever is registered, unregistered and cleared, in any order and with errors.
use docker_devbox_ddb.Prelude.{
  String, ◌≡◌, ◌≢◌, Option, some, List, [], ◌∷◌, Eq, remove?, Option-cases, err, arith, inl, inr,
  Bool-cases,
}
use docker_devbox_ddb.Dict.{lookup}
use docker_devbox_ddb.Registry.{
  Registry, ObjectClass, not_in_list, effective_name, register, unregister_impl, unregister, clear,
}
use docker_devbox_ddb.Registry.Validity.{
  IsValid, registered-ne_none, register-IsValid, unregister-IsValid, clear-IsValid,
}
use docker_devbox_ddb.Registry.Mirror.{
  Mirrors, register_impl-Mirrors, unregister_impl-Mirrors, clear-Mirrors,
}

-- The calls that change a registry.
pub data Call (A : Type 0) : Type 0 where
  register_call : A → Option String → Call A
  unregister_call : String → Option A → Call A
  clear_call : Call A

pub record IsSound {A : Type 0} (r : Registry A) : Type 0 where
  pub valid : IsValid r
  pub mirrors : Mirrors r

module _ {A : Type 0} ⦃e : Eq A⦄ (clazz : ObjectClass A) where
  -- The registry after a call, whether it returned or raised.
  unfoldable pub perform : Call A → Registry A → Registry A
  perform (register_call obj name) r = (register clazz r obj name).0
  perform (unregister_call name obj) r = (unregister r name obj).0
  perform clear_call r = clear r

  unfoldable pub perform_all : List (Call A) → Registry A → Registry A
  unfolding perform
  perform_all [] r = r
  perform_all (c ∷ cs) r = perform_all cs (perform c r)

  unregister_impl_finds :
      (r : Registry A) (name : String) (item : A) (obj : Option A)
      → lookup name r.objects_dict ≡ some item
      → IsValid r
      → (unregister_impl r name item obj).1 ≢ err not_in_list
  unfolding unregister_impl
  unregister_impl_finds r name item obj found v = elim (Option-cases (remove? item r.objects)) [
    | inl missing ↦ absurd (registered-ne_none r name item found v missing)
    | inr (left, removed) ↦ ground arith
  ]

  -- In a valid registry `list.remove` never raises, whatever is unregistered.
  pub unregister-ne-not_in_list :
      (r : Registry A) (name : String) (obj : Option A)
      → IsValid r
      → (unregister r name obj).1 ≢ err not_in_list
  unfolding unregister
  unregister-ne-not_in_list r name obj v = elim (Option-cases (lookup name r.objects_dict)) [
    | inl absent ↦ rw (absent, unregister) (λ p. cc)
    | inr (item, found) ↦ rw (found, unregister) (unregister_impl_finds r name item obj found v)
  ]

  register-Mirrors :
      (r : Registry A) (obj : A) (name : Option String)
      → Mirrors r
      → Mirrors (register clazz r obj name).0
  unfolding register
  register-Mirrors r obj name m = elim (Option-cases (effective_name clazz obj name)) [
    | inl unnamed ↦ rw unnamed m
    | inr (n, named) ↦ rw named (elim (Bool-cases (clazz.is_instance obj)) [
      | inl right ↦ rw right (register_impl-Mirrors r n obj m)
      | inr other ↦ rw other m
    ])
  ]

  unregister-Mirrors :
      (r : Registry A) (name : String) (obj : Option A)
      → IsValid r
      → Mirrors r
      → Mirrors (unregister r name obj).0
  unfolding unregister
  unregister-Mirrors r name obj v m = elim (Option-cases (lookup name r.objects_dict)) [
    | inl absent ↦ rw (absent, unregister) m
    | inr (item, found) ↦
        rw (found, unregister)
          (unregister_impl-Mirrors r name item obj (unregister_impl_finds r name item obj found v)
            m)
  ]

  -- Each call keeps a sound registry sound: the names are unique, the list of objects is a
  -- permutation of the dictionary's values, and a cache, if there is one, gives for every name what
  -- the dictionary gives.
  pub perform-IsSound : (c : Call A) (r : Registry A) → IsSound r → IsSound (perform c r)
  unfolding perform
  perform-IsSound (register_call obj name) r s = record {
    valid = register-IsValid clazz r obj name s.valid;
    mirrors = register-Mirrors r obj name s.mirrors;
  }
  perform-IsSound (unregister_call name obj) r s = record {
    valid = unregister-IsValid r name obj s.valid;
    mirrors = unregister-Mirrors r name obj s.valid s.mirrors;
  }
  perform-IsSound clear_call r s = record { valid = clear-IsValid r; mirrors = clear-Mirrors r }
