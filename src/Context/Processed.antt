-- ===== src/Context/Processed.antt =====
-- ddb/context/context.py: `processed_sources` and `processed_targets` are inverse to each other.
use docker_devbox_ddb.Prelude.{
  String, false, Option, none, some, ◌==◌, if◌then◌else◌, ◌≡◌, ◌≢◌, ◌↔◌, refl, arith, eq_iff,
  Bool-cases, Option-cases, inl, inr,
}
use docker_devbox_ddb.Dict.{Dict, lookup, insert, remove, lookup-insert, lookup-remove}
use docker_devbox_ddb.Context.{
  Context, mark_as_processed, unmark_source, unmark_target, mark_as_unprocessed,
}

-- A source has a target exactly when the target has that source.
abbrev pub Inverse : Dict String → Dict String → Type 0
Inverse sources targets = (s t : String) → (lookup s sources ≡ some t) ↔ (lookup t targets ≡ some s)

pub record IsLinked {C X : Type 0} (c : Context C X) : Type 0 where
  pub inverse : Inverse c.processed_sources c.processed_targets

Inverse-insert :
    (source target : String) (sources targets : Dict String)
    → lookup source sources ≡ none
    → lookup target targets ≡ none
    → Inverse sources targets
    → Inverse (insert source target sources) (insert target source targets)
Inverse-insert source target sources targets fs ft inv s t = ground (
  arith,
  lookup-insert source target sources s,
  lookup-insert target source targets t,
  inv s t,
  inv s target,
  inv source t,
  eq_iff source s,
  eq_iff target t,
)

Inverse-remove :
    (source target : String) (sources targets : Dict String)
    → lookup source sources ≡ some target
    → Inverse sources targets
    → Inverse (remove source sources) (remove target targets)
Inverse-remove source target sources targets fs inv s t = ground (
  arith,
  lookup-remove source sources s,
  lookup-remove target targets t,
  inv s t,
  inv source target,
  inv s target,
  inv source t,
  eq_iff source s,
  eq_iff target t,
)

flip : (a b : Dict String) → Inverse a b → Inverse b a
flip a b inv s t = ((inv t s).1, (inv t s).0)

module _ {C X : Type 0} where
  -- Marking a source and a target that were not marked keeps the two dictionaries inverse.
  pub mark_as_processed-IsLinked :
      (source target : String) (c : Context C X)
      → lookup source c.processed_sources ≡ none
      → lookup target c.processed_targets ≡ none
      → IsLinked c
      → IsLinked (mark_as_processed source target c)
  unfolding mark_as_processed
  mark_as_processed-IsLinked source target c fs ft l = record {
    inverse = Inverse-insert source target c.processed_sources c.processed_targets fs ft l.inverse;
  }

  unmark_source-IsLinked :
      (path : String) (c : Context C X) → IsLinked c → IsLinked (unmark_source path c)
  unfolding unmark_source
  unmark_source-IsLinked path c l = elim (Bool-cases (path == "")) [
    | inl empty ↦ rw empty l
    | inr named ↦ elim (Option-cases (lookup path c.processed_sources)) [
      | inl absent ↦ rw (named, absent) l
      | inr (t, found) ↦
          rw (named, found, (l.inverse path t).0 found)
            (record {
              inverse =
                  Inverse-remove path t c.processed_sources c.processed_targets found l.inverse;
            })
    ]
  ]

  unmark_target-IsLinked :
      (path : String) (c : Context C X) → IsLinked c → IsLinked (unmark_target path c)
  unfolding unmark_target
  unmark_target-IsLinked path c l = elim (Option-cases (lookup path c.processed_targets)) [
    | inl absent ↦ rw absent l
    | inr (s, found) ↦
        rw (found, (l.inverse s path).1 found)
          (record {
            inverse = flip _ _ (
                Inverse-remove path s c.processed_targets c.processed_sources found
                  (flip c.processed_sources c.processed_targets l.inverse));
          })
  ]

  -- Unmarking any path keeps the two dictionaries inverse, where they were.
  pub mark_as_unprocessed-IsLinked :
      (path : Option String) (c : Context C X) → IsLinked c → IsLinked (mark_as_unprocessed path c)
  unfolding mark_as_unprocessed
  mark_as_unprocessed-IsLinked none c l = l
  mark_as_unprocessed-IsLinked (some path) c l =
      unmark_target-IsLinked path (unmark_source path c) (unmark_source-IsLinked path c l)

  lookup-unmark_source :
      (path : String) (c : Context C X) (s : String)
      → (path == "") ≡ false
      → lookup s (unmark_source path c).processed_sources
        ≡ (if path == s then none else lookup s c.processed_sources)
  unfolding unmark_source
  lookup-unmark_source path c s named = elim (Option-cases (lookup path c.processed_sources)) [
    | inl absent ↦ rw (named, absent) (ground (arith, eq_iff path s))
    | inr (t, found) ↦ rw (named, found, lookup-remove)
  ]

  lookup-unmark_target :
      (path : String) (c : Context C X) (s t : String)
      → IsLinked c
      → (lookup s (unmark_target path c).processed_sources ≡ some t)
        ↔ ((lookup s c.processed_sources ≡ some t) × (t ≢ path))
  unfolding unmark_target
  lookup-unmark_target path c s t l = elim (Option-cases (lookup path c.processed_targets)) [
    | inl absent ↦ rw absent ((λ p. (p, λ q. ground (arith, l.inverse s t))), λ p. p.0)
    | inr (s', found) ↦
        rw (found, (l.inverse s' path).1 found, lookup-remove)
          (ground (arith, eq_iff s' s, l.inverse s t, l.inverse s' path))
  ]

  -- In a context whose two dictionaries are inverse, after a path that is not empty is unmarked, it
  -- is neither a source nor a target, and exactly the pairs of a source and a target that it stood
  -- in neither way in are left.
  pub lookup-mark_as_unprocessed :
      (path : String) (c : Context C X)
      → IsLinked c
      → (path == "") ≡ false
      → (lookup path (mark_as_unprocessed (some path) c).processed_sources ≡ none)
        × (lookup path (mark_as_unprocessed (some path) c).processed_targets ≡ none)
        × ((s t : String)
            → (lookup s (mark_as_unprocessed (some path) c).processed_sources ≡ some t)
              ↔ ((lookup s c.processed_sources ≡ some t) × (s ≢ path) × (t ≢ path)))
  unfolding mark_as_unprocessed
  lookup-mark_as_unprocessed path c l named = (
    elim (Option-cases (lookup path (mark_as_unprocessed (some path) c).processed_sources)) [
      | inl gone ↦ gone
      | inr (t, there) ↦ absurd (((pairs path t).0 there).1 refl)
    ],
    elim (Option-cases (lookup path (mark_as_unprocessed (some path) c).processed_targets)) [
      | inl gone ↦ gone
      | inr (s, there) ↦ absurd (
          ((pairs s path).0
              (((mark_as_unprocessed-IsLinked (some path) c l).inverse s path).1 there)).2
            refl)
    ],
    pairs,
  )
    where
      pairs :
          (s t : String)
          → (lookup s (mark_as_unprocessed (some path) c).processed_sources ≡ some t)
            ↔ ((lookup s c.processed_sources ≡ some t) × (s ≢ path) × (t ≢ path))
      pairs s t =
          let step =
            lookup-unmark_target path (unmark_source path c) s t
              (unmark_source-IsLinked path c l) in
          ground (arith, step, lookup-unmark_source path c s named, eq_iff path s)
