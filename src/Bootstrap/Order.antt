-- ===== src/Bootstrap/Order.antt =====
-- ddb/feature/bootstrap.py: a feature comes behind the features that it depends on.
use mathlib.Core.Path.{subst}
use docker_devbox_ddb.Prelude.{
  String, Bool, true, false, not, Option, none, some, List, [], ◌∷◌, ◌++◌, map, select, contains,
  Result, ok, err, ◌>>=◌, ◌==◌, eq_string, ◌≡◌, ◌≢◌, refl, ap, ◌∙◌, eq_iff, eq_refl, Bool-cases,
  Option-cases, inl, inr, arith,
}
use docker_devbox_ddb.Dict.{Dict, lookup, insert, lookup_or, has_key, lookup-insert, default_to}
use docker_devbox_ddb.Bootstrap.{
  Feature, BootstrapError, is_optional, dependency_name, dependencies_of, required_of, map_values,
  check_required, check_missing_dependencies, add_each, add_configured, by_name, features_of,
  sorted_features, toposort_data, get_sorted_features,
}

abbrev pub IsBefore {ℓ} : {A : Type ℓ} → A → A → List A → Type ℓ
IsBefore {A = A} a b l =
    (l₁ : List A) × (l₂ : List A) × (l₃ : List A) × (l ≡ l₁ ++ a ∷ (l₂ ++ b ∷ l₃))

features_of-append :
    (features : Dict Feature) (xs ys : List String)
    → features_of features (xs ++ ys) ≡ features_of features xs ++ features_of features ys
unfolding features_of
features_of-append features [] ys = refl
features_of-append features (x ∷ xs) ys = elim (Option-cases (lookup x features)) [
  | inl none_here ↦ rw none_here (features_of-append features xs ys)
  | inr (f, here) ↦ rw here (ap (◌∷◌ f) (features_of-append features xs ys))
]

features_of-cons :
    (features : Dict Feature) (name : String) (f : Feature) (names : List String)
    → lookup name features ≡ some f
    → features_of features (name ∷ names) ≡ f ∷ features_of features names
unfolding features_of
features_of-cons features name f names h = rw h refl

-- Names that are features keep their order.
features_of-IsBefore :
    (features : Dict Feature) (d k : String) (g f : Feature) (names : List String)
    → lookup d features ≡ some g
    → lookup k features ≡ some f
    → IsBefore d k names
    → IsBefore g f (features_of features names)
features_of-IsBefore features d k g f names hd hk (l₁, l₂, l₃, e) = (
  features_of features l₁,
  features_of features l₂,
  features_of features l₃,
  ap (features_of features) e
      ∙ features_of-append features l₁ (d ∷ (l₂ ++ k ∷ l₃))
      ∙ ap (λ (l : List Feature). features_of features l₁ ++ l)
          (features_of-cons features d g (l₂ ++ k ∷ l₃) hd
            ∙ ap (◌∷◌ g) (
                features_of-append features l₂ (k ∷ l₃)
                ∙ ap (λ (l : List Feature). features_of features l₂ ++ l)
                    (features_of-cons features k f l₃ hk))),
)

lookup-map_values :
    {A B : Type 0} (f : A → B) (d : Dict A) (k : String) (a : A)
    → lookup k d ≡ some a
    → lookup k (map_values f d) ≡ some (f a)
unfolding lookup map_values
lookup-map_values f [] k a h = absurd (ground arith)
lookup-map_values f ((j, b) ∷ d) k a h = elim (Bool-cases (j == k)) [
  | inl here ↦ let found : b ≡ a = ground arith in rw here (ap (λ x. some (f x)) found)
  | inr other ↦ rw other (lookup-map_values f d k a (ground arith))
]

contains-map :
    (f : String → String) (xs : List String) (x : String)
    → contains xs x ≡ true
    → contains (map f xs) (f x) ≡ true
unfolding contains
contains-map f [] x h = h
contains-map f (y ∷ xs) x h = elim (Bool-cases (y == x)) [
  | inl here ↦
      let same : f y ≡ f x = ap f (ground (arith, eq_iff y x)) in rw (same, eq_refl (f x)) refl
  | inr other ↦ ground (arith, contains-map f xs x)
]

contains-snoc :
    (xs : List String) (y z : String) → contains xs z ≡ true → contains (xs ++ y ∷ []) z ≡ true
unfolding contains
contains-snoc [] y z e = absurd (ground arith)
contains-snoc (w ∷ xs) y z e = elim (Bool-cases (w == z)) [
  | inl same ↦ rw same refl
  | inr other ↦ rw other (contains-snoc xs y z (ground arith))
]

-- Added elements leave the others.
add_each-contains :
    (ds set : List String) (x : String)
    → contains set x ≡ true
    → contains (add_each ds set) x ≡ true
unfolding add_each
add_each-contains [] set x h = h
add_each-contains (d ∷ ds) set x h = elim (Bool-cases (contains set d)) [
  | inl here ↦ rw here (add_each-contains ds set x h)
  | inr new ↦ rw new (add_each-contains ds (set ++ d ∷ []) x (contains-snoc set d x h))
]

add_configured-edge :
    (configured edges : Dict (List String)) (k d : String) (ds : List String)
    → lookup k edges ≡ some ds
    → contains ds d ≡ true
    → (es : List String) × (lookup k (add_configured configured edges) ≡ some es)
      × (contains es d ≡ true)
unfolding add_configured
add_configured-edge [] edges k d ds h c = (ds, h, c)
add_configured-edge ((name, more) ∷ configured) edges k d ds h c = elim (Bool-cases (name == k)) [
  | inl same ↦
      let old = lookup_or name edges [] in
      let same_name : name ≡ k = ground (arith, eq_iff name k) in
      let held : old ≡ ds =
        ap (λ (j : String). lookup_or j edges []) same_name
        ∙ ap (λ (o : Option (List String)). default_to o []) h in
      add_configured-edge configured (insert name (add_each more old) edges) k d (add_each more old)
        (lookup-insert name (add_each more old) edges k ∙ rw same refl)
        (add_each-contains more old d (ap (λ (l : List String). contains l d) held ∙ c))
  | inr other ↦
      add_configured-edge configured (insert name (add_each more (lookup_or name edges [])) edges) k
        d ds (lookup-insert name (add_each more (lookup_or name edges [])) edges k ∙ rw other h) c
]

-- A block that ends without exception has a first part that does.
then_ok :
    {A B : Type 0} (r : Result BootstrapError A) (f : A → Result BootstrapError B) (b : B)
    → r >>= f ≡ ok b
    → (a : A) × (r ≡ ok a) × (f a ≡ ok b)
then_ok (ok a) f b h = (a, refl, h)
then_ok (err x) f b h = absurd (ground arith)

check_required-has_key :
    (features : Dict Feature) (name item : String) (items : List String)
    → check_required features name items ≡ ok tt
    → contains items item ≡ true
    → has_key item features ≡ true
unfolding check_required contains
check_required-has_key features name item [] h c = absurd (ground arith)
check_required-has_key features name item (x ∷ items) h c = elim (Bool-cases (has_key x features)) [
  | inl here ↦ elim (Bool-cases (x == item)) [
    | inl same ↦
        let same_name : item ≡ x = ground (arith, eq_iff x item) in
        ap (λ (j : String). has_key j features) same_name ∙ here
    | inr other ↦ check_required-has_key features name item items (ground arith) (ground arith)
  ]
  | inr gone ↦ absurd (ground arith)
]

check_missing_dependencies-has_key :
    (features : Dict Feature) (required : Dict (List String)) (name item : String)
    (items : List String)
    → check_missing_dependencies features required ≡ ok tt
    → lookup name required ≡ some items
    → contains items item ≡ true
    → has_key item features ≡ true
unfolding check_missing_dependencies lookup
check_missing_dependencies-has_key features [] name item items h l c = absurd (ground arith)
check_missing_dependencies-has_key features ((k, more) ∷ required) name item items h l c =
    let (u, first, rest) =
      then_ok (check_required features k more) (λ _. check_missing_dependencies features required)
        tt h in
    elim (Bool-cases (k == name)) [
      | inl here ↦ check_required-has_key features k item more first (
          let found : more ≡ items = ground arith in
          ap (λ (ds : List String). contains ds item) found ∙ c)
      | inr other ↦
          check_missing_dependencies-has_key features required name item items rest (ground arith) c
    ]

contains-select :
    (keep : String → Bool) (xs : List String) (x : String)
    → contains xs x ≡ true
    → keep x ≡ true
    → contains (select keep xs) x ≡ true
unfolding contains select
contains-select keep [] x c h = c
contains-select keep (y ∷ xs) x c h = elim (Bool-cases (y == x)) [
  | inl same ↦
      let kept : keep y ≡ true = ap keep (ground (arith, eq_iff y x)) ∙ h in rw (kept, same) refl
  | inr other ↦ elim (Bool-cases (keep y)) [
    | inl kept ↦ rw (kept, other) (contains-select keep xs x (ground arith) h)
    | inr gone ↦ rw gone (contains-select keep xs x (ground arith) h)
  ]
]

sorted_features-ok :
    (features : Dict Feature) (sorted : Option (List String)) (out : List Feature)
    → sorted_features features sorted ≡ ok out
    → (names : List String) × (sorted ≡ some names) × (features_of features names ≡ out)
sorted_features-ok features none out h = absurd (ground arith)
sorted_features-ok features (some names) out h = (names, refl, ground arith)

-- When the features are sorted without exception, by a sort that puts each name behind the others that
-- it depends on: each dependency of a feature that is not optional is an available feature, and each
-- available feature that it depends on, also by an optional dependency, comes before it.
pub get_sorted_features-IsBefore :
    (toposort_flatten : Dict (List String) → Option (List String)) (available : List Feature)
    (configured : Dict (List String)) (out : List Feature)
    → ((names : List String) (k d : String) (ds : List String)
        → toposort_flatten (toposort_data (by_name available []) configured) ≡ some names
        → lookup k (toposort_data (by_name available []) configured) ≡ some ds
        → contains ds d ≡ true
        → d ≢ k
        → IsBefore d k names)
    → get_sorted_features toposort_flatten available configured ≡ ok out
    → (name item : String) (f : Feature) → lookup name (by_name available []) ≡ some f
    → contains f.dependencies item ≡ true
    → (is_optional item ≡ false → has_key item (by_name available []) ≡ true)
      × (dependency_name item ≢ name
          → (g : Feature) → lookup (dependency_name item) (by_name available []) ≡ some g
          → IsBefore g f out)
unfolding get_sorted_features
get_sorted_features-IsBefore toposort_flatten available configured out sorts h name item f hf c =
    let features = by_name available [] in
    let edges = toposort_data features configured in
    let (u, checked, rest) =
      then_ok (check_missing_dependencies features (map_values required_of features))
        (λ _. sorted_features features (toposort_flatten edges)) out h in
    let (names, sorted, e) = sorted_features-ok features (toposort_flatten edges) out rest in
    let (ds, found, held) =
      add_configured-edge configured (map_values dependencies_of features) name
        (dependency_name item) (dependencies_of f)
        (lookup-map_values dependencies_of features name f hf)
        (contains-map dependency_name f.dependencies item c) in
    (
      λ required.
          check_missing_dependencies-has_key features (map_values required_of features) name item
            (required_of f) checked (lookup-map_values required_of features name f hf)
            (contains-select (λ i. not (is_optional i)) f.dependencies item c (ap not required)),
      λ other g hg.
          subst (λ (l : List Feature). IsBefore g f l) e
            (features_of-IsBefore features (dependency_name item) name g f names hg hf
              (sorts names name (dependency_name item) ds sorted found held other)),
    )
