-- ===== src/Dict/Defs.antt =====
-- Python's `dict` with string keys: an association list in insertion order. An assignment to a key
-- that is there keeps its place, and one to a new key goes to the end, as CPython does.
use docker_devbox_ddb.Prelude.{
  String, ◌≡◌, refl, Bool, Option, none, some, List, [], ◌∷◌, map, arith, ◌==◌, eq_iff, eq_refl,
  is_some, if◌then◌else◌,
}

abbrev pub Dict {ℓ} : Type ℓ → Type ℓ
Dict V = List (String × V)

module _ {ℓ} {V : Type ℓ} where
  -- `d.get(k)`
  unfoldable pub lookup : String → Dict V → Option V
  lookup k [] = none
  lookup k ((j, v) ∷ d) = if j == k then some v else lookup k d

  -- `k in d`
  abbrev pub has_key : String → Dict V → Bool
  has_key k d = is_some (lookup k d)

  abbrev pub default_to : Option V → V → V
  default_to none v = v
  default_to (some w) v = w

  -- `d.get(k, default)`
  abbrev pub lookup_or : String → Dict V → V → V
  lookup_or k d v = default_to (lookup k d) v

  -- `d[k] = v`
  unfoldable pub insert : String → V → Dict V → Dict V
  insert k v [] = (k, v) ∷ []
  insert k v ((j, w) ∷ d) = if j == k then (j, v) ∷ d else (j, w) ∷ insert k v d

  -- `d.pop(k)` of a key that is there
  unfoldable pub remove : String → Dict V → Dict V
  remove k [] = []
  remove k ((j, w) ∷ d) = if j == k then remove k d else (j, w) ∷ remove k d

  abbrev pub keys : Dict V → List String
  keys = map (λ p. p.0)

  abbrev pub values : Dict V → List V
  values = map (λ p. p.1)

  pub lookup-insert :
      (k : String) (v : V) (d : Dict V) (j : String)
      → lookup j (insert k v d) ≡ (if k == j then some v else lookup j d)
  unfolding lookup insert
  lookup-insert k v [] j = refl
  lookup-insert k v ((i, w) ∷ d) j =
      ground (arith, eq_iff k j, eq_iff i k, eq_iff i j, lookup-insert k v d j)

  pub lookup-remove :
      (k : String) (d : Dict V) (j : String)
      → lookup j (remove k d) ≡ (if k == j then none else lookup j d)
  unfolding lookup remove
  lookup-remove k [] j = ground arith
  lookup-remove k ((i, w) ∷ d) j =
      ground (arith, eq_iff k j, eq_iff i k, eq_iff i j, lookup-remove k d j)

  pub lookup-insert_self : (k : String) (v : V) (d : Dict V) → lookup k (insert k v d) ≡ some v
  lookup-insert_self k v d = simp (lookup-insert, eq_refl)

  -- No key is there twice.
  abbrev pub HasUniqueKeys : Dict V → Type ℓ
  HasUniqueKeys [] = Unit
  HasUniqueKeys ((k, v) ∷ d) = (lookup k d ≡ none) × HasUniqueKeys d
