-- ===== src/Config/Search/Samples.antt =====
-- A project three directories deep.
use docker_devbox_ddb.Prelude.{
  ℕ, String, Bool, false, some, [], ◌∷◌, ◌==◌, if◌then◌else◌, ◌≡◌, refl, ◌⊎◌, inl, inr, arith,
  Bool-cases, ◌<◌,
}
use docker_devbox_ddb.Config.Search.{FilePaths, search_from, configuration_file}
use docker_devbox_ddb.Config.Search.Nearest.{IsNearest, HasNone, search_from-IsNearest}

parent : String → String
parent p = if p == "/p/src" then "/p" else if p == "/p" then "/" else p

depth : String → ℕ
depth p = if p == "/p/src" then 2 else if p == "/p" then 1 else 0

parent_depth : (p : String) → (parent p ≡ p) ⊎ (depth (parent p) < depth p)
unfolding parent depth
parent_depth p = elim (Bool-cases (p == "/p/src")) [
  | inl deep ↦ rw deep (inr (omega arith))
  | inr other ↦ elim (Bool-cases (p == "/p")) [
    | inl middle ↦ rw (other, middle) (inr (omega arith))
    | inr root ↦ rw (other, root) (inl refl)
  ]
]

disk : FilePaths
disk = record {
  join = λ p f. if p == "/p" then f else "";
  parent = parent;
  abspath = λ p. p;
  ends_with = λ s t. false;
  depth = depth;
  parent_depth = parent_depth;
}

abbrev exists : String → Bool
exists f = f == "ddb.yml"

found : search_from disk exists ("ddb" ∷ []) ("yml" ∷ []) 3 "/p/src" "/p/src" ≡ some "/p"
unfolding search_from configuration_file disk parent
found = refl

depth_of_src : depth "/p/src" < 3
unfolding depth
depth_of_src = omega arith

search_from-IsNearest_example :
    (r : String) × (search_from disk exists ("ddb" ∷ []) ("yml" ∷ []) 3 "/p/src" "/p/src" ≡ some r)
    × (IsNearest disk exists ("ddb" ∷ []) ("yml" ∷ []) "/p/src" r
        ⊎ ((r ≡ "/p/src") × HasNone disk exists ("ddb" ∷ []) ("yml" ∷ []) "/p/src"))
unfolding disk
search_from-IsNearest_example =
    search_from-IsNearest disk exists ("ddb" ∷ []) ("yml" ∷ []) 3 "/p/src" "/p/src" depth_of_src
