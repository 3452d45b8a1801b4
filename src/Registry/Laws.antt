-- ===== src/Registry/Laws.antt =====
-- ddb/registry.py: what registering and unregistering do to the names, and when they raise.
use mathlib.Core.List.{Perm}
use docker_devbox_ddb.Prelude.{
  String, ◌≡◌, ◌≢◌, refl, true, false, Option, none, some, [], ◌∷◌, ◌++◌, Eq, remove?, Option-cases,
  ok, err, arith, inl, inr, remove?-perm, ◌==◌, if◌then◌else◌,
}
use docker_devbox_ddb.Dict.{lookup, lookup-insert, lookup-remove}
use docker_devbox_ddb.Registry.{
  Registry, ObjectClass, not_registered, already_registered, register_impl, effective_name,
  register, unregister, is_asked, get, has, all,
}
use docker_devbox_ddb.Registry.Validity.{IsValid, registered-ne_none}

module _ {A : Type 0} ⦃e : Eq A⦄ where
  -- Registering under a free name an object of the right class succeeds. Then the name gives that
  -- object, every other name gives what it gave before, and the object is the last of `all`.
  pub get-register :
      (clazz : ObjectClass A) (r : Registry A) (obj : A) (name n : String)
      → effective_name clazz obj (some name) ≡ some n
      → clazz.is_instance obj ≡ true
      → has r n none ≡ false
      → ((register clazz r obj (some name)).1 ≡ ok obj)
        × ((j : String)
            → get (register clazz r obj (some name)).0 j ≡ (if n == j then ok obj else get r j))
        × (all (register clazz r obj (some name)).0 ≡ all r ++ obj ∷ [])
  unfolding register register_impl get has all
  get-register clazz r obj name n named right free =
      rw (named, right, free)
        (refl, λ j. ground (arith, lookup-insert n obj r.objects_dict j), refl)

  -- Under a name that is taken it raises, and the registry is as it was.
  pub register_taken :
      (clazz : ObjectClass A) (r : Registry A) (obj : A) (name n : String)
      → effective_name clazz obj (some name) ≡ some n
      → clazz.is_instance obj ≡ true
      → has r n none ≡ true
      → register clazz r obj (some name) ≡ (r, err (already_registered n))
  unfolding register register_impl has
  register_taken clazz r obj name n named right taken = rw (named, right, taken)

  -- In a valid registry, unregistering a name without asking for an object, or asking for the
  -- object that it stands for, succeeds: the name is gone, every other name gives what it gave
  -- before, and the list of objects has lost just that object.
  pub get-unregister :
      (r : Registry A) (name : String) (obj : Option A) (item : A)
      → IsValid r
      → lookup name r.objects_dict ≡ some item
      → is_asked item obj ≡ true
      → ((unregister r name obj).1 ≡ ok (some item))
        × ((j : String)
            → get (unregister r name obj).0 j
              ≡ (if name == j then err (not_registered j) else get r j))
        × Perm (all r) (item ∷ all (unregister r name obj).0)
  unfolding unregister get all
  get-unregister r name obj item v found asked = elim (Option-cases (remove? item r.objects)) [
    | inl missing ↦ absurd (registered-ne_none r name item found v missing)
    | inr (left, removed) ↦
        rw (found, unregister, asked, removed)
          (
            refl,
            λ j. ground (arith, lookup-remove name r.objects_dict j),
            remove?-perm item r.objects left removed,
          )
  ]

  -- Asking for another object than the one of that name changes nothing and returns `False`.
  pub unregister_other :
      (r : Registry A) (name : String) (obj item : A)
      → lookup name r.objects_dict ≡ some item
      → item ≢ obj
      → unregister r name (some obj) ≡ (r, ok none)
  unfolding unregister
  unregister_other r name obj item found other = ground (arith, e.beq_iff item obj)
