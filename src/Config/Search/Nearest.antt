-- ===== src/Config/Search/Nearest.antt =====
-- ddb/config/config.py, `get_default_config_paths`: the project is the nearest directory, from the working
-- directory up, that has a configuration file.
use docker_devbox_ddb.Prelude.{
  ℕ, zero, suc, ◌<◌, String, Bool, true, false, some, List, ◌==◌, ◌≡◌, refl, ◌⊎◌, inl, inr,
  Bool-cases, eq_iff, arith, ap, ◌∙◌,
}
use docker_devbox_ddb.Config.Search.{FilePaths, has_file, search_from}

-- The `n`th directory above
abbrev pub up : FilePaths → ℕ → String → String
up paths zero p = p
up paths (suc n) p = up paths n (paths.parent p)

module _ (paths : FilePaths) (exists : String → Bool) (filenames extensions : List String) where
  -- `r` is the nearest ancestor of `p` with a configuration file, `n` steps up.
  pub record IsNearest (p r : String) : Type 0 where
    pub steps : ℕ
    pub place : r ≡ up paths steps p
    pub here : has_file paths exists filenames extensions r ≡ true
    pub none_before :
        (m : ℕ) → m < steps → has_file paths exists filenames extensions (up paths m p) ≡ false

  -- Neither `p` nor an ancestor of it has one.
  abbrev pub HasNone : String → Type 0
  HasNone p = (m : ℕ) → has_file paths exists filenames extensions (up paths m p) ≡ false

  up_fixed : (m : ℕ) (p : String) → paths.parent p ≡ p → up paths m p ≡ p
  up_fixed zero p h = refl
  up_fixed (suc m) p h = ap (up paths m) h ∙ up_fixed m p h

  IsNearest-step :
      (p r : String)
      → has_file paths exists filenames extensions p ≡ false
      → IsNearest (paths.parent p) r
      → IsNearest p r
  IsNearest-step p r no_file n = record {
    steps = suc n.steps;
    place = n.place;
    here = n.here;
    none_before = before;
  }
    where
      before :
          (m : ℕ)
          → m < suc n.steps
          → has_file paths exists filenames extensions (up paths m p) ≡ false
      before zero h = no_file
      before (suc m) h = n.none_before m (omega arith)

  none_step :
      (p : String)
      → has_file paths exists filenames extensions p ≡ false
      → HasNone (paths.parent p)
      → HasNone p
  none_step p no_file h zero = no_file
  none_step p no_file h (suc m) = h m

  -- The search ends, within as many rounds as the working directory is deep and one more: at the
  -- nearest ancestor that has a configuration file, or at the working directory if none has one.
  pub search_from-IsNearest :
      (fuel : ℕ) (cwd p : String)
      → paths.depth p < fuel
      → (r : String) × (search_from paths exists filenames extensions fuel cwd p ≡ some r)
        × (IsNearest p r ⊎ ((r ≡ cwd) × HasNone p))
  unfolding search_from
  search_from-IsNearest zero cwd p h = elim h [ ]
  search_from-IsNearest (suc fuel) cwd p h =
      elim (Bool-cases (has_file paths exists filenames extensions p)) [
        | inl found ↦ (
          p,
          rw found,
          inl (record { steps = 0; place = refl; here = found; none_before = λ m k. elim k [ ] }),
        )
        | inr no_file ↦ elim (Bool-cases (paths.parent p == p)) [
          | inl root ↦ (
            cwd,
            rw (no_file, root),
            inr (refl, λ m. rw (up_fixed m p ((eq_iff (paths.parent p) p).0 root)) no_file),
          )
          | inr below ↦
              let (r, e, spec) = search_from-IsNearest fuel cwd (paths.parent p) (lower below) in
              (
                r,
                rw (no_file, below) e,
                elim spec [
                  | inl near ↦ inl (IsNearest-step p r no_file near)
                  | inr (same, absent) ↦ inr (same, none_step p no_file absent)
                ],
              )
        ]
      ]
    where
      lower : (paths.parent p == p) ≡ false → paths.depth (paths.parent p) < fuel
      lower below = elim (paths.parent_depth p) [
        | inl same ↦ absurd (ground (arith, (eq_iff (paths.parent p) p).1 same))
        | inr deeper ↦ omega arith
      ]
