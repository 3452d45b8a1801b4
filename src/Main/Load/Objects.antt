-- ===== src/Main/Load/Objects.antt =====
-- ddb/__main__.py, `register_objects`: which objects a registry then has.
use docker_devbox_ddb.Prelude.{
  Eq, String, true, false, ◌==◌, none, some, List, [], ◌∷◌, ◌++◌, ok, if◌then◌else◌, ◌≡◌, refl, sym,
  ◌∙◌, arith, eq_iff, eq_refl, append_assoc, append-nil, All,
}
use docker_devbox_ddb.Prelude.Exec.{for_each}
use docker_devbox_ddb.Dict.{lookup, insert, lookup-insert}
use docker_devbox_ddb.Cache.{write_back}
use docker_devbox_ddb.Registry.{Registry, ObjectClass, register, register_impl, get, all}
use docker_devbox_ddb.Main.Load.{objects_of, register_object, register_objects}

module _ {A : Type 0} ⦃e : Eq A⦄ (clazz : ObjectClass A) (key : A → String) where
  -- An object of the class with its name
  abbrev pub IsKeyed : A → Type 0
  IsKeyed o = (clazz.name_of o ≡ some (key o)) × (clazz.is_instance o ≡ true)

  -- The names are free in the registry, and different from each other.
  abbrev pub AreFree : Registry A → List A → Type 0
  AreFree r [] = Unit
  AreFree r (o ∷ os) =
      (lookup (key o) r.objects_dict ≡ none) × All (λ p. (key o == key p) ≡ false) os × AreFree r os

  abbrev pub added : Registry A → A → Registry A
  added r o = record {
    objects_dict = insert (key o) o r.objects_dict;
    objects = r.objects ++ o ∷ [];
    cache = elim r.cache [ none ↦ none | some c ↦ some (write_back (key o) o c) ];
  }

  register_object-free :
      (r : Registry A) (o : A)
      → IsKeyed o
      → lookup (key o) r.objects_dict ≡ none
      → register_object clazz o r ≡ (added r o, ok tt)
  unfolding register_object register register_impl
  register_object-free r o keyed free = rw (keyed.0, keyed.1, free) refl

  lookup-added :
      (r : Registry A) (o : A) (j : String)
      → lookup (key o) r.objects_dict ≡ none
      → lookup j (added r o).objects_dict ≡ (if key o == j then some o else lookup j r.objects_dict)
  lookup-added r o j free = lookup-insert (key o) o r.objects_dict j

  AreFree-added :
      (r : Registry A) (o : A) (os : List A)
      → lookup (key o) r.objects_dict ≡ none
      → All (λ p. (key o == key p) ≡ false) os
      → AreFree r os
      → AreFree (added r o) os
  AreFree-added r o [] free apart fresh = tt
  AreFree-added r o (p ∷ os) free apart fresh = (
    lookup-added r o (key p) free ∙ rw apart.0 fresh.0,
    fresh.1,
    AreFree-added r o os free apart.1 fresh.2,
  )

  -- What a registry has of the objects, and of all other names
  abbrev pub Holds : Registry A → Registry A → List A → Type 0
  Holds r r' os =
      (all r' ≡ all r ++ os)
      × All (λ o. get r' (key o) ≡ ok o) os
      × ((j : String) → All (λ o. (key o == j) ≡ false) os → get r' j ≡ get r j)

  get-added :
      (r : Registry A) (o : A) (j : String)
      → lookup (key o) r.objects_dict ≡ none
      → get (added r o) j ≡ (if key o == j then ok o else get r j)
  unfolding get
  get-added r o j free = ground (arith, lookup-added r o j free)

  apart-sym :
      (o : A) (os : List A)
      → All (λ p. (key o == key p) ≡ false) os
      → All (λ p. (key p == key o) ≡ false) os
  apart-sym o [] h = tt
  apart-sym o (p ∷ os) h =
      (ground (arith, h.0, eq_iff (key o) (key p), eq_iff (key p) (key o)), apart-sym o os h.1)

  for_each-register_object :
      (r : Registry A) (os : List A)
      → All IsKeyed os
      → AreFree r os
      → (r' : Registry A) × (for_each (register_object clazz) os r ≡ (r', ok tt)) × Holds r r' os
  unfolding for_each all
  for_each-register_object r [] keyed fresh =
      (r, refl, (sym (append-nil r.objects), tt, λ j h. refl))
  for_each-register_object r (o ∷ os) keyed fresh =
      let (r', done, (objects, held, others)) =
        for_each-register_object (added r o) os keyed.1
          (AreFree-added r o os fresh.0 fresh.1 fresh.2) in
      (
        r',
        rw (register_object-free r o keyed.0 fresh.0) done,
        (
          objects ∙ append_assoc r.objects (o ∷ []) os,
          (
            others (key o) (apart-sym o os fresh.1)
                ∙ get-added r o (key o) fresh.0
                ∙ rw (eq_refl (key o)) refl,
            held,
          ),
          λ j h. others j h.1 ∙ get-added r o j fresh.0 ∙ rw h.0 refl,
        ),
      )

  -- If every object of the features has a name and is of the registry's class, and these names are free
  -- and differ, `register_objects` does not raise, and the registry then has the features' objects behind
  -- those that it had, in order, each by its name, and every other name gives what it gave before.
  pub register_objects-Holds :
      {F : Type 0} (features : List F) (objects_getter : F → List A) (r : Registry A)
      → All IsKeyed (objects_of features objects_getter)
      → AreFree r (objects_of features objects_getter)
      → (r' : Registry A) × (register_objects clazz features objects_getter r ≡ (r', ok tt))
        × Holds r r' (objects_of features objects_getter)
  unfolding register_objects
  register_objects-Holds features objects_getter r keyed fresh =
      for_each-register_object r (objects_of features objects_getter) keyed fresh
