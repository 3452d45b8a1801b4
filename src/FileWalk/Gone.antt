-- ===== src/FileWalk/Gone.antt =====
-- ddb/feature/file/actions.py, `FileWalkAction.execute`: which files are told to be gone, and what the cache keeps.
use docker_devbox_ddb.Prelude.{
  String, Bool, true, false, not, ◌&&◌, ◌||◌, List, [], ◌∷◌, Result, ok, err, contains, select,
  if◌then◌else◌, eq_string, ◌==◌, eq_iff, eq_refl, ◌≡◌, refl, sym, ap, ◌∙◌, Bool-cases, inl, inr,
  arith,
}
use docker_devbox_ddb.Prelude.Exec.{Exec, for_each, modify, and_then}
use docker_devbox_ddb.Dict.{Dict, lookup, insert, has_key, keys, lookup-insert, lookup-remove}
use docker_devbox_ddb.Cache.{Cache, set, pop, flush}
use docker_devbox_ddb.FileWalk.{
  Walk, Walker, on_world, set_found, check_cached, flush_cache, execute,
}

-- The names that are not found
abbrev pub gone : List String → List String → List String
gone found_files = select (λ file. not (contains found_files file))

select_keys-insert :
    (p : String → Bool) (k : String) (d : Dict (Unit {0}))
    → p k ≡ false
    → select p (keys (insert k tt d)) ≡ select p (keys d)
unfolding insert select
select_keys-insert p k [] h = rw h refl
select_keys-insert p k ((j, v) ∷ d) h = elim (Bool-cases (j == k)) [
  | inl same ↦ rw same refl
  | inr other ↦
      rw other (ap (λ (l : List String). if p j then j ∷ l else l) (select_keys-insert p k d h))
]

gone-set_found :
    (found_files files : List String) (c : Cache (Unit {0}))
    → ((f : String) → contains files f ≡ true → contains found_files f ≡ true)
    → gone found_files (keys (set_found files c).entries) ≡ gone found_files (keys c.entries)
unfolding set_found set contains
gone-set_found found_files [] c h = refl
gone-set_found found_files (file ∷ files) c h =
    gone-set_found found_files files (set file tt c) (λ f k. h f (ground arith))
    ∙ select_keys-insert (λ f. not (contains found_files f)) file c.entries
        (let here : contains found_files file ≡ true = h file (ground (arith, eq_refl file)) in
          ground arith)

has_key-set_found :
    (files : List String) (c : Cache (Unit {0})) (j : String)
    → has_key j (set_found files c).entries ≡ (contains files j || has_key j c.entries)
unfolding set_found set contains
has_key-set_found [] c j = refl
has_key-set_found (file ∷ files) c j =
    has_key-set_found files (set file tt c) j ∙ ground (arith, lookup-insert file tt c.entries j)

-- The cache after the loop over the names
abbrev pop_gone : List String → List String → Cache (Unit {0}) → Cache (Unit {0})
pop_gone found_files [] c = c
pop_gone found_files (file ∷ files) c =
    pop_gone found_files files (if contains found_files file then c else pop file c)

has_key-pop_gone :
    (found_files names : List String) (c : Cache (Unit {0})) (j : String)
    → has_key j (pop_gone found_files names c).entries
      ≡ (has_key j c.entries && not (contains names j && not (contains found_files j)))
unfolding contains pop
has_key-pop_gone found_files [] c j = ground arith
has_key-pop_gone found_files (file ∷ names) c j =
    has_key-pop_gone found_files names (if contains found_files file then c else pop file c) j
    ∙ elim (Bool-cases (contains found_files file)) [
      | inl here ↦ rw here (ground (arith, eq_iff file j))
      | inr missing ↦ rw missing (ground (arith, eq_iff file j, lookup-remove file c.entries j))
    ]

pub contains-keys : (d : Dict (Unit {0})) (j : String) → contains (keys d) j ≡ has_key j d
unfolding contains lookup
contains-keys [] j = refl
contains-keys ((k, v) ∷ d) j = ground (arith, contains-keys d j)

kept_keys :
    (files : List String) (c : Cache (Unit {0})) (file : String)
    → has_key file
        (flush (pop_gone files (keys (set_found files c).entries) (set_found files c))).entries
      ≡ contains files file
unfolding flush
kept_keys files c file =
    has_key-pop_gone files (keys (set_found files c).entries) (set_found files c) file
    ∙ ground (arith, contains-keys (set_found files c).entries file, has_key-set_found files c file)

gone_here :
    (found_files names : List String) (file : String)
    → contains found_files file ≡ true
    → gone found_files (file ∷ names) ≡ gone found_files names
unfolding select
gone_here found_files names file h = rw h refl

gone_missing :
    (found_files names : List String) (file : String)
    → contains found_files file ≡ false
    → gone found_files (file ∷ names) ≡ file ∷ gone found_files names
unfolding select
gone_missing found_files names file h = rw h refl

module _ {W X : Type 0} (walker : Walker W X) where
  abbrev state : Cache (Unit {0}) → W → Walk W
  state c w = record { cache = c; world = w }

  -- One file that is gone, for what its event leaves
  after_deleted :
      (c : Cache (Unit {0})) (k : Exec (Walk W) X Unit) (l : Exec W X Unit) (w1 w' : W)
      (r : Result X (Unit {0})) (s' : Walk W)
      → ((w2 : W) → l w2 ≡ (w', ok tt) → k (state c w2) ≡ (s', ok tt))
      → and_then r (λ _. l) w1 ≡ (w', ok tt)
      → and_then r (λ _. k) (state c w1) ≡ (s', ok tt)
  after_deleted c k l w1 w' (ok u) s' ih h = ih w1 h
  after_deleted c k l w1 w' (err x) s' ih h = absurd (ground (arith, h))

  for_each-check_cached :
      (found_files names : List String) (c : Cache (Unit {0})) (w w' : W)
      → for_each walker.deleted (gone found_files names) w ≡ (w', ok tt)
      → for_each (check_cached walker found_files) names (state c w)
        ≡ (state (pop_gone found_files names c) w', ok tt)
  unfolding for_each select check_cached on_world
  for_each-check_cached found_files [] c w w' h =
      ap (λ (p : W × Result X (Unit {0})). (state c p.0, ok tt)) h
  for_each-check_cached found_files (file ∷ names) c w w' h =
      elim (Bool-cases (contains found_files file)) [
        | inl here ↦
            let rest = for_each-check_cached found_files names c w w' (
              ap (λ l. for_each walker.deleted l w) (sym (gone_here found_files names file here))
              ∙ h) in
            rw here rest
        | inr missing ↦
            let told =
              ap (λ l. for_each walker.deleted l w)
                (sym (gone_missing found_files names file missing))
              ∙ h in
            rw missing (
              after_deleted (pop file c) (for_each (check_cached walker found_files) names)
                (for_each walker.deleted (gone found_files names)) (walker.deleted file w).0 w'
                (walker.deleted file w).1 (state (pop_gone found_files names (pop file c)) w')
                (λ w2 k. for_each-check_cached found_files names (pop file c) w2 w' k) told)
      ]

  -- When the events of the cached files that are not found, and then the events of the found ones, do not raise,
  -- the execution is those events in that order, and the cache has, also in its file, just the files that
  -- were found.
  pub execute-gone :
      (s : Walk W) (w w' : W)
      → for_each walker.deleted (gone (walker.items s.world) (keys s.cache.entries)) s.world
        ≡ (w, ok tt)
      → walker.for_items walker.found w ≡ (w', ok tt)
      → (cache : Cache (Unit {0})) × (execute walker s
          ≡ (record { cache = cache; world = w' }, ok tt))
        × ((file : String) → has_key file cache.entries ≡ contains (walker.items s.world) file)
        × (cache.synced ≡ cache.entries)
  unfolding execute on_world flush
  execute-gone s w w' h k =
      let files = walker.items s.world in
      let c = set_found files s.cache in
      let told =
        ap (λ l. for_each walker.deleted l s.world) (gone-set_found files files s.cache (λ f i. i))
        ∙ h in
      let checked = for_each-check_cached files (keys c.entries) c s.world w told in
      let rest = λ (t : Walk W).
        and_then (on_world (walker.for_items walker.found) t).1 (λ _. modify (flush_cache walker))
          (on_world (walker.for_items walker.found) t).0 in
      let c' = pop_gone files (keys c.entries) c in
      (
        flush c',
        ap (λ (p : Walk W × Result X (Unit {0})). and_then p.1 (λ _. rest) p.0) checked
            ∙ ap
                (λ (p : W × Result X (Unit {0})).
                  and_then p.1 (λ _. modify (flush_cache walker)) (state c' p.0))
                k,
        (λ file. kept_keys files s.cache file),
        refl,
      )
