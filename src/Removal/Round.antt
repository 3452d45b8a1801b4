-- ===== src/Removal/Round.antt =====
-- ddb/cache/removal.py: one round of `prepare`, `set_current_value` and `get_removed`.
use docker_devbox_ddb.Prelude.{
  String, Bool, true, false, not, ◌&&◌, ◌||◌, List, [], ◌∷◌, ◌++◌, map, Result, ok, ◌>>=◌, Eq,
  contains, select, if◌then◌else◌, eq_string, ◌==◌, eq_iff, ◌≡◌, refl, ap, ◌∙◌, Bool-cases, inl,
  inr, arith, All,
}
use docker_devbox_ddb.Dict.{Dict, insert, lookup_or, lookup-insert}
use docker_devbox_ddb.Cache.{Cache, set}
use docker_devbox_ddb.Removal.{
  RemovalCache, RemovalError, fill, prepare, add, add_at, set_current_value, difference, removed_of,
  get_removed,
}

module _ {V : Type 0} where
  lookup_or-insert :
      (k : String) (v : List V) (d : Dict (List V)) (j : String)
      → lookup_or j (insert k v d) [] ≡ (if k == j then v else lookup_or j d [])
  lookup_or-insert k v d j =
      rw (lookup-insert k v d j)
        (elim (Bool-cases (k == j)) [ inl h ↦ rw h refl | inr h ↦ rw h refl ])

  -- One round of a loop that sets a key to what `f` gives for it
  lookup_or-insert_first :
      (key : String) (keys : List String) (f : String → List V) (d : Dict (List V)) (k : String)
      → (if contains keys k then f k else lookup_or k (insert key (f key) d) [])
        ≡ (if contains (key ∷ keys) k then f k else lookup_or k d [])
  unfolding contains
  lookup_or-insert_first key keys f d k =
      ap (λ (l : List V). if contains keys k then f k else l) (lookup_or-insert key (f key) d k)
      ∙ elim (Bool-cases (contains keys k)) [
        | inl here ↦ rw here (ground arith)
        | inr new ↦ rw new (elim (Bool-cases (key == k)) [
          | inl same ↦ rw same (ap f (ground (arith, eq_iff key k)))
          | inr other ↦ rw other refl
        ])
      ]

  lookup_or-fill :
      (keys : List String) (f : String → List V) (d : Dict (List V)) (k : String)
      → lookup_or k (fill keys f d) [] ≡ (if contains keys k then f k else lookup_or k d [])
  unfolding fill contains
  lookup_or-fill [] f d k = refl
  lookup_or-fill (key ∷ keys) f d k =
      lookup_or-fill keys f (insert key (f key) d) k ∙ lookup_or-insert_first key keys f d k

module _ {V : Type 0} ⦃e : Eq V⦄ where
  contains-snoc : (xs : List V) (x v : V) → contains (xs ++ x ∷ []) v ≡ (contains xs v || e.beq x v)
  unfolding contains
  contains-snoc [] x v = ground arith
  contains-snoc (y ∷ xs) x v =
      ap (λ (b : Bool). e.beq y v || b) (contains-snoc xs x v) ∙ ground arith

  contains-add : (xs : List V) (x v : V) → contains (add xs x) v ≡ (contains xs v || e.beq x v)
  unfolding add
  contains-add xs x v = elim (Bool-cases (contains xs x)) [
    | inl here ↦ rw here (ground (arith, e.beq_iff x v))
    | inr new ↦ rw new (contains-snoc xs x v)
  ]

  contains-difference :
      (xs ys : List V) (v : V)
      → contains (difference xs ys) v ≡ (contains xs v && not (contains ys v))
  unfolding difference contains select
  contains-difference [] ys v = refl
  contains-difference (x ∷ xs) ys v = elim (Bool-cases (contains ys x)) [
    | inl kept ↦ rw kept (contains-difference xs ys v ∙ ground (arith, e.beq_iff x v))
    | inr gone ↦ rw gone (
        ap (λ (b : Bool). e.beq x v || b) (contains-difference xs ys v)
        ∙ ground (arith, e.beq_iff x v))
  ]

  abbrev pub is_listed : List (String × V) → String → V → Bool
  is_listed [] k v = false
  is_listed ((j, w) ∷ l) k v = (j == k && e.beq w v) || is_listed l k v

  is_listed-append :
      (l m : List (String × V)) (k : String) (v : V)
      → is_listed (l ++ m) k v ≡ (is_listed l k v || is_listed m k v)
  is_listed-append [] m k v = refl
  is_listed-append ((j, w) ∷ l) m k v = ground (arith, is_listed-append l m k v)

  is_listed-map :
      (key : String) (xs : List V) (k : String) (v : V)
      → is_listed (map (λ x. (key, x)) xs) k v ≡ (key == k && contains xs v)
  unfolding contains
  is_listed-map key [] k v = ground arith
  is_listed-map key (x ∷ xs) k v = ground (arith, is_listed-map key xs k v)

  abbrev pub marked : List (String × V) → RemovalCache V → RemovalCache V
  marked [] r = r
  marked ((key, value) ∷ marks) r =
      marked marks
        (record r { cached = add_at key value r.cached; current = add_at key value r.current })

  -- `set_current_value` for each of the marks
  abbrev pub set_all : List (String × V) → RemovalCache V → Result RemovalError (RemovalCache V)
  set_all [] r = ok r
  set_all ((key, value) ∷ marks) r = set_current_value key value r >>= set_all marks

  set_all-marked :
      (marks : List (String × V)) (r : RemovalCache V)
      → All (λ m. contains r.keys m.0 ≡ true) marks
      → set_all marks r ≡ ok (marked marks r)
  unfolding set_current_value
  set_all-marked [] r h = refl
  set_all-marked ((key, value) ∷ marks) r h = rw h.0 (
      set_all-marked marks
        (record r { cached = add_at key value r.cached; current = add_at key value r.current }) h.1)

  contains-add_at :
      (key : String) (value : V) (d : Dict (List V)) (k : String) (v : V)
      → contains (lookup_or k (add_at key value d) []) v
        ≡ (contains (lookup_or k d []) v || (key == k && e.beq value v))
  contains-add_at key value d k v =
      ap (λ (l : List V). contains l v) (lookup_or-insert key (add (lookup_or key d []) value) d k)
      ∙ elim (Bool-cases (key == k)) [
        | inl same ↦ rw same (
            contains-add (lookup_or key d []) value v
            ∙ ap (λ (j : String). contains (lookup_or j d []) v || e.beq value v)
                (ground (arith, eq_iff key k)))
        | inr other ↦ rw other (ground arith)
      ]

  contains-marked :
      (marks : List (String × V)) (r : RemovalCache V) (k : String) (v : V)
      → contains (lookup_or k (marked marks r).current []) v
        ≡ (contains (lookup_or k r.current []) v || is_listed marks k v)
  contains-marked [] r k v = ground arith
  contains-marked ((key, value) ∷ marks) r k v =
      contains-marked marks
        (record r { cached = add_at key value r.cached; current = add_at key value r.current }) k v
      ∙ ap (λ (b : Bool). b || is_listed marks k v) (contains-add_at key value r.current k v)
      ∙ ground arith

  is_listed-removed_of :
      (previous current : Dict (List V)) (keys : List String) (cache : Cache (List V)) (k : String)
      (v : V)
      → is_listed (removed_of previous current keys cache).0 k v ≡ (
          contains keys k
          && (contains (lookup_or k previous []) v && not (contains (lookup_or k current []) v)))
  unfolding removed_of contains
  is_listed-removed_of previous current [] cache k v = refl
  is_listed-removed_of previous current (key ∷ keys) cache k v =
      let here = difference (lookup_or key previous []) (lookup_or key current []) in
      let rest = removed_of previous current keys (set key (lookup_or key current []) cache) in
      is_listed-append (map (λ x. (key, x)) here) rest.0 k v
      ∙ ap (λ (b : Bool). b || is_listed rest.0 k v) (is_listed-map key here k v)
      ∙ ap (λ (b : Bool). (key == k && b) || is_listed rest.0 k v)
          (contains-difference (lookup_or key previous []) (lookup_or key current []) v)
      ∙ ap
          (λ (b : Bool).
            (key == k
              && (contains (lookup_or key previous []) v
                  && not (contains (lookup_or key current []) v)))
            || b)
          (is_listed-removed_of previous current keys (set key (lookup_or key current []) cache) k
            v)
      ∙ elim (Bool-cases (key == k)) [
        | inl same ↦
            let same_key : key ≡ k = ground (arith, eq_iff key k) in
            rw same (
              ap
                (λ (j : String).
                  (contains (lookup_or j previous []) v
                    && not (contains (lookup_or j current []) v))
                  || (contains keys k
                      && (contains (lookup_or k previous []) v
                          && not (contains (lookup_or k current []) v))))
                same_key
              ∙ ground arith)
        | inr other ↦ rw other refl
      ]

  lookup_or-removed_of :
      (previous current : Dict (List V)) (keys : List String) (cache : Cache (List V)) (k : String)
      → lookup_or k (removed_of previous current keys cache).1.entries []
        ≡ (if contains keys k then lookup_or k current [] else lookup_or k cache.entries [])
  unfolding removed_of contains set
  lookup_or-removed_of previous current [] cache k = refl
  lookup_or-removed_of previous current (key ∷ keys) cache k =
      lookup_or-removed_of previous current keys (set key (lookup_or key current []) cache) k
      ∙ lookup_or-insert_first key keys (λ j. lookup_or j current []) cache.entries k

  keys-marked : (marks : List (String × V)) (r : RemovalCache V) → (marked marks r).keys ≡ r.keys
  keys-marked [] r = refl
  keys-marked ((key, value) ∷ marks) r =
      keys-marked marks
        (record r { cached = add_at key value r.cached; current = add_at key value r.current })

  previous-marked :
      (marks : List (String × V)) (r : RemovalCache V) → (marked marks r).previous ≡ r.previous
  previous-marked [] r = refl
  previous-marked ((key, value) ∷ marks) r =
      previous-marked marks
        (record r { cached = add_at key value r.cached; current = add_at key value r.current })

  -- What `prepare` and the marks leave under a supported key
  contains-current :
      (r : RemovalCache V) (cache : Cache (List V)) (marks : List (String × V)) (k : String) (v : V)
      → contains r.keys k ≡ true
      → contains (lookup_or k (marked marks (prepare cache r)).current []) v ≡ is_listed marks k v
  unfolding prepare contains
  contains-current r cache marks k v hk =
      contains-marked marks (prepare cache r) k v
      ∙ ap (λ (l : List V). contains l v || is_listed marks k v)
          (lookup_or-fill r.keys (λ _. []) r.current k)
      ∙ rw hk refl

  lookup_or-previous :
      (r : RemovalCache V) (cache : Cache (List V)) (marks : List (String × V)) (k : String)
      → contains r.keys k ≡ true
      → lookup_or k (marked marks (prepare cache r)).previous [] ≡ lookup_or k cache.entries []
  unfolding prepare
  lookup_or-previous r cache marks k hk =
      ap (λ (d : Dict (List V)). lookup_or k d []) (previous-marked marks (prepare cache r))
      ∙ lookup_or-fill r.keys (λ key. lookup_or key cache.entries []) r.previous k
      ∙ rw hk refl

  is_listed-out :
      (r : RemovalCache V) (cache : Cache (List V)) (marks : List (String × V)) (k : String) (v : V)
      → is_listed (get_removed (marked marks (prepare cache r)) cache).0 k v ≡ (
          contains r.keys k
          && (contains (lookup_or k cache.entries []) v && not (is_listed marks k v)))
  unfolding prepare get_removed
  is_listed-out r cache marks k v =
      let r' = marked marks (prepare cache r) in
      is_listed-removed_of r'.previous r'.current r'.keys cache k v
      ∙ ap
          (λ (keys : List String).
            contains keys k
            && (contains (lookup_or k r'.previous []) v
                && not (contains (lookup_or k r'.current []) v)))
          (keys-marked marks (prepare cache r))
      ∙ elim (Bool-cases (contains r.keys k)) [
        | inl hk ↦ rw hk (
            ap (λ (l : List V). contains l v && not (contains (lookup_or k r'.current []) v))
              (lookup_or-previous r cache marks k hk)
            ∙ ap (λ (b : Bool). contains (lookup_or k cache.entries []) v && not b)
                (contains-current r cache marks k v hk))
        | inr new ↦ rw new refl
      ]

  contains-after :
      (r : RemovalCache V) (cache : Cache (List V)) (marks : List (String × V)) (k : String) (v : V)
      → contains r.keys k ≡ true
      → contains (lookup_or k (get_removed (marked marks (prepare cache r)) cache).1.entries []) v
        ≡ is_listed marks k v
  unfolding get_removed contains prepare
  contains-after r cache marks k v hk =
      let r' = marked marks (prepare cache r) in
      ap (λ (l : List V). contains l v)
        (lookup_or-removed_of r'.previous r'.current r'.keys cache k)
      ∙ ap
          (λ (keys : List String).
            contains
              (if contains keys k then lookup_or k r'.current [] else lookup_or k cache.entries [])
              v)
          (keys-marked marks (prepare cache r))
      ∙ rw hk (contains-current r cache marks k v hk)

  -- After `prepare` and any values set under supported keys, none of which is refused, `get_removed`
  -- yields a value under a key just if the key is supported, the cache had the value under it, and it
  -- was not set; and the cache then has under a supported key just the values that were set.
  pub is_listed-get_removed :
      (r : RemovalCache V) (cache : Cache (List V)) (marks : List (String × V))
      → All (λ m. contains r.keys m.0 ≡ true) marks
      → (r' : RemovalCache V) × (set_all marks (prepare cache r) ≡ ok r')
        × ((k : String) (v : V)
            → is_listed (get_removed r' cache).0 k v ≡ (
                contains r.keys k
                && (contains (lookup_or k cache.entries []) v && not (is_listed marks k v))))
        × ((k : String) (v : V)
            → contains r.keys k ≡ true
            → contains (lookup_or k (get_removed r' cache).1.entries []) v ≡ is_listed marks k v)
  unfolding prepare get_removed
  is_listed-get_removed r cache marks h = (
    marked marks (prepare cache r),
    set_all-marked marks (prepare cache r) h,
    is_listed-out r cache marks,
    contains-after r cache marks,
  )
