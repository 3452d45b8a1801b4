-- ===== src/Dict/Values.antt =====
-- The keys of a dictionary stay unique, and what its operations do to the bag of its values.
use mathlib.Core.List.{Perm}
use mathlib.Core.List.Perm
use docker_devbox_ddb.Prelude.{
  String, ◌≡◌, refl, none, some, [], ◌∷◌, ◌++◌, arith, ◌==◌, eq_iff, eq_refl, Bool-cases, inl, inr,
}
use docker_devbox_ddb.Dict.Defs.{
  Dict, lookup, insert, remove, values, lookup-insert, lookup-remove, HasUniqueKeys,
}

module _ {ℓ} {V : Type ℓ} where
  pub insert-HasUniqueKeys :
      (k : String) (v : V) (d : Dict V) → HasUniqueKeys d → HasUniqueKeys (insert k v d)
  unfolding lookup insert
  insert-HasUniqueKeys k v [] u = (refl, tt)
  insert-HasUniqueKeys k v ((j, w) ∷ d) u = elim (Bool-cases (j == k)) [
    | inl here ↦ rw here u
    | inr other ↦ rw other (
      ground (arith, lookup-insert k v d j, eq_iff j k, eq_iff k j),
      insert-HasUniqueKeys k v d u.1,
    )
  ]

  pub remove-HasUniqueKeys :
      (k : String) (d : Dict V) → HasUniqueKeys d → HasUniqueKeys (remove k d)
  unfolding lookup remove
  remove-HasUniqueKeys k [] u = tt
  remove-HasUniqueKeys k ((j, w) ∷ d) u = elim (Bool-cases (j == k)) [
    | inl here ↦ rw here (remove-HasUniqueKeys k d u.1)
    | inr other ↦
        rw other (
          ground (arith, lookup-remove k d j, eq_iff j k, eq_iff k j),
          remove-HasUniqueKeys k d u.1,
        )
  ]

  pub remove_absent : (k : String) (d : Dict V) → lookup k d ≡ none → remove k d ≡ d
  unfolding lookup remove
  remove_absent k [] h = refl
  remove_absent k ((j, w) ∷ d) h = ground (arith, remove_absent k d)

  -- A new key goes to the end.
  pub insert_absent :
      (k : String) (v : V) (d : Dict V) → lookup k d ≡ none → insert k v d ≡ d ++ (k, v) ∷ []
  unfolding lookup insert
  insert_absent k v [] h = refl
  insert_absent k v ((j, w) ∷ d) h = ground (arith, insert_absent k v d)

  pub remove-insert_absent :
      (k : String) (v : V) (d : Dict V) → lookup k d ≡ none → remove k (insert k v d) ≡ d
  unfolding lookup insert remove
  remove-insert_absent k v [] h = ground (arith, eq_refl k)
  remove-insert_absent k v ((j, w) ∷ d) h = ground (arith, remove-insert_absent k v d)

  pub values-insert_absent :
      (k : String) (v : V) (d : Dict V)
      → lookup k d ≡ none
      → values (insert k v d) ≡ values d ++ v ∷ []
  unfolding lookup insert
  values-insert_absent k v [] h = refl
  values-insert_absent k v ((j, w) ∷ d) h = ground (arith, values-insert_absent k v d)

  pub values-remove-perm :
      (k : String) (v : V) (d : Dict V)
      → HasUniqueKeys d
      → lookup k d ≡ some v
      → Perm (values d) (v ∷ values (remove k d))
  unfolding lookup remove
  values-remove-perm k v [] u h = cc
  values-remove-perm k v ((j, w) ∷ d) u h = elim (Bool-cases (j == k)) [
    | inl here ↦
        let found : w ≡ v = ground arith in
        let gone : lookup k d ≡ none = ground (arith, eq_iff j k) in
        rw (here, remove_absent k d gone, found) (Perm.refl _)
    | inr other ↦ rw other (
        Perm.trans (Perm.cons w (values-remove-perm k v d u.1 (ground arith)))
          (Perm.swap v w (values (remove k d))))
  ]
