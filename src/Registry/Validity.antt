-- ===== src/Registry/Validity.antt =====
-- ddb/registry.py: the list and the dictionary of a registry hold the same objects.
use mathlib.Core.List.{Perm, mem-cons_self}
use mathlib.Core.List.Perm
use docker_devbox_ddb.Prelude.{
  String, ◌≡◌, ◌≢◌, Option, none, some, [], ◌∷◌, Eq, remove?, Option-cases, inl, inr, remove?-perm,
  mem-remove?-ne_none, Bool-cases,
}
use docker_devbox_ddb.Dict.{
  lookup, values, HasUniqueKeys, insert-HasUniqueKeys, remove-HasUniqueKeys, values-insert_absent,
  values-remove-perm,
}
use docker_devbox_ddb.Registry.{
  Registry, ObjectClass, register_impl, effective_name, register, unregister_impl, unregister,
  is_asked, clear,
}

pub record IsValid {A : Type 0} (r : Registry A) : Type 0 where
  pub unique : HasUniqueKeys r.objects_dict
  pub same : Perm r.objects (values r.objects_dict)

module _ {A : Type 0} ⦃e : Eq A⦄ where
  -- The object that a name stands for is in the list, so `list.remove` finds it.
  pub registered-ne_none :
      (r : Registry A) (name : String) (item : A)
      → lookup name r.objects_dict ≡ some item
      → IsValid r
      → remove? item r.objects ≢ none
  registered-ne_none r name item found v = mem-remove?-ne_none item r.objects (
      (Perm.mem_iff
          (Perm.trans v.same (values-remove-perm name item r.objects_dict v.unique found))).1
        mem-cons_self)

  pub register_impl-IsValid :
      (r : Registry A) (name : String) (obj : A) → IsValid r → IsValid (register_impl r name obj).0
  unfolding register_impl
  register_impl-IsValid r name obj v = elim (Option-cases (lookup name r.objects_dict)) [
    | inl absent ↦ rw absent (record {
      unique = insert-HasUniqueKeys name obj r.objects_dict v.unique;
      same =
          rw (values-insert_absent name obj r.objects_dict absent)
            (Perm.append_right (obj ∷ []) v.same);
    })
    | inr (o, there) ↦ rw there v
  ]

  pub register-IsValid :
      (clazz : ObjectClass A) (r : Registry A) (obj : A) (name : Option String)
      → IsValid r
      → IsValid (register clazz r obj name).0
  unfolding register
  register-IsValid clazz r obj name v = elim (Option-cases (effective_name clazz obj name)) [
    | inl unnamed ↦ rw unnamed v
    | inr (n, named) ↦ rw named (elim (Bool-cases (clazz.is_instance obj)) [
      | inl yes_instance ↦ rw yes_instance (register_impl-IsValid r n obj v)
      | inr other ↦ rw other v
    ])
  ]

  pub unregister_impl-IsValid :
      (r : Registry A) (name : String) (item : A) (obj : Option A)
      → lookup name r.objects_dict ≡ some item
      → IsValid r
      → IsValid (unregister_impl r name item obj).0
  unfolding unregister_impl
  unregister_impl-IsValid r name item obj found v = elim (Bool-cases (is_asked item obj)) [
    | inl asked ↦ rw asked (elim (Option-cases (remove? item r.objects)) [
      | inl missing ↦ absurd (registered-ne_none r name item found v missing)
      | inr (left, removed) ↦ rw removed (record {
        unique = remove-HasUniqueKeys name r.objects_dict v.unique;
        same = Perm.cons_inv (
            Perm.trans (Perm.symm (remove?-perm item r.objects left removed))
              (Perm.trans v.same (values-remove-perm name item r.objects_dict v.unique found)));
      })
    ])
    | inr other ↦ rw other v
  ]

  pub unregister-IsValid :
      (r : Registry A) (name : String) (obj : Option A)
      → IsValid r
      → IsValid (unregister r name obj).0
  unfolding unregister
  unregister-IsValid r name obj v = elim (Option-cases (lookup name r.objects_dict)) [
    | inl absent ↦ rw (absent, unregister) v
    | inr (item, found) ↦ rw (found, unregister) (unregister_impl-IsValid r name item obj found v)
  ]

  pub clear-IsValid : (r : Registry A) → IsValid (clear r)
  unfolding clear
  clear-IsValid r = record { unique = tt; same = Perm.refl [] }
