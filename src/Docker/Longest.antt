-- ===== src/Docker/Longest.antt =====
-- ddb/feature/docker/utils.py, `get_mapped_path`: the longest source of the mapping that the path starts
-- with is replaced.
use Prim.Native.String.{◌++◌, len, count, slice}
use mathlib.Core.Path.{subst}
use text.Mathlib.Text.{starts_with}
use docker_devbox_ddb.Prelude.{
  ◌≤◌, String, true, false, none, some, [], ◌∷◌, ◌==◌, if◌then◌else◌, ◌≡◌, refl, sym, ap, ◌∙◌,
  Bool-cases, inl, inr, eq_iff, arith, ◌⊎◌,
}
use docker_devbox_ddb.Dict.{Dict}
use docker_devbox_ddb.Docker.{
  Mapped, is_longer, map_source, map_sources, mapped_or, get_mapped_path,
}

-- The pair stands in the mapping.
abbrev pub IsMapping : Dict String → String → String → Type 0
IsMapping [] source target = ⊥
IsMapping ((s, t) ∷ mapping) source target =
    ((s ≡ source) × (t ≡ target)) ⊎ IsMapping mapping source target

-- What was found replaces a source of the mapping that the path starts with.
abbrev pub IsFrom : String → Dict String → Mapped → Type 0
IsFrom path mapping m =
    (target : String) × IsMapping mapping m.source target
    × (starts_with path m.source ≡ true)
    × (m.path ≡ target ++ slice path (len m.source) (len path))

-- No source that the path starts with is longer.
abbrev pub IsLongest : String → Dict String → Mapped → Type 0
IsLongest path mapping m =
    (s t : String) → IsMapping mapping s t → starts_with path s ≡ true → count s ≤ count m.source

is_longer-le : (s : String) (m : Mapped) → is_longer s (some m) ≡ true → count m.source ≤ count s
is_longer-le s m h = elim (Bool-cases (m.source == "")) [
  | inl empty ↦
      let no_source : m.source ≡ "" = ground (arith, eq_iff m.source "") in
      let no_length : count m.source ≡ 0 = ap count no_source in omega arith
  | inr full ↦ ground arith
]

not_longer-le : (s : String) (m : Mapped) → is_longer s (some m) ≡ false → count s ≤ count m.source
not_longer-le s m h = ground arith

-- What the loop ends with, when it starts with a fixed source
abbrev pub Ends : String → Dict String → Mapped → Type 0
Ends path mapping m =
    (m' : Mapped) × (map_sources path mapping (some m) ≡ some m')
    × (count m.source ≤ count m'.source)
    × ((m' ≡ m) ⊎ IsFrom path mapping m')
    × IsLongest path mapping m'

IsLongest-cons :
    (path s t : String) (mapping : Dict String) (m : Mapped)
    → (starts_with path s ≡ true → count s ≤ count m.source)
    → IsLongest path mapping m
    → IsLongest path ((s, t) ∷ mapping) m
IsLongest-cons path s t mapping m le longest s' t' (inl (same, _)) starts =
    subst (λ (x : String). count x ≤ count m.source) same (le (ap (starts_with path) same ∙ starts))
IsLongest-cons path s t mapping m le longest s' t' (inr held) starts = longest s' t' held starts

Ends-kept :
    (path s t : String) (mapping : Dict String) (m : Mapped)
    → map_source path s t (some m) ≡ some m
    → (starts_with path s ≡ true → count s ≤ count m.source)
    → Ends path mapping m
    → Ends path ((s, t) ∷ mapping) m
unfolding map_sources
Ends-kept path s t mapping m h le (m', e, ge, from, longest) = (
  m',
  ap (map_sources path mapping) h ∙ e,
  ge,
  elim from [
    | inl same ↦ inl same
    | inr (target, held, starts, e') ↦ inr (target, inr held, starts, e')
  ],
  IsLongest-cons path s t mapping m'
      (λ starts. let short : count s ≤ count m.source = le starts in omega arith) longest,
)

abbrev pub replaced : String → String → String → Mapped
replaced path source target = record {
  source = source;
  path = target ++ slice path (len source) (len path);
}

IsFrom-replaced :
    (path s t : String) (mapping : Dict String) (m : Mapped)
    → starts_with path s ≡ true
    → (m ≡ replaced path s t) ⊎ IsFrom path mapping m
    → IsFrom path ((s, t) ∷ mapping) m
IsFrom-replaced path s t mapping m starts (inl same) =
    subst (IsFrom path ((s, t) ∷ mapping)) (sym same) (t, inl (refl, refl), starts, refl)
IsFrom-replaced path s t mapping m starts (inr (target, held, starts', e)) =
    (target, inr held, starts', e)

Ends-taken :
    (path s t : String) (mapping : Dict String) (m : Mapped)
    → map_source path s t (some m) ≡ some (replaced path s t)
    → count m.source ≤ count s
    → starts_with path s ≡ true
    → Ends path mapping (replaced path s t)
    → Ends path ((s, t) ∷ mapping) m
unfolding map_sources
Ends-taken path s t mapping m h le starts (m', e, ge, from, longest) = (
  m',
  ap (map_sources path mapping) h ∙ e,
  omega arith,
  inr (IsFrom-replaced path s t mapping m' starts from),
  IsLongest-cons path s t mapping m' (λ _. ge) longest,
)

-- Where the loop starts with a fixed source, it ends with that one or one of the mapping, that is as
-- long as any of these.
map_sources-some : (path : String) (mapping : Dict String) (m : Mapped) → Ends path mapping m
unfolding map_source map_sources
map_sources-some path [] m = (m, refl, omega arith, inl refl, λ s t h. absurd h)
map_sources-some path ((s, t) ∷ mapping) m = elim (Bool-cases (starts_with path s)) [
  | inl starts ↦ elim (Bool-cases (is_longer s (some m))) [
    | inl longer ↦
        Ends-taken path s t mapping m (rw (starts, longer) refl) (is_longer-le s m longer) starts
          (map_sources-some path mapping (replaced path s t))
    | inr shorter ↦
        Ends-kept path s t mapping m (rw (starts, shorter) refl) (λ _. not_longer-le s m shorter)
          (map_sources-some path mapping m)
  ]
  | inr apart ↦
      Ends-kept path s t mapping m (rw apart refl) (λ starts. absurd (ground arith))
        (map_sources-some path mapping m)
]

-- How the loop ends, from its start
abbrev pub EndsFirst : String → Dict String → Type 0
EndsFirst path mapping =
    (((s t : String) → IsMapping mapping s t → starts_with path s ≡ false)
      × (map_sources path mapping none ≡ none))
    ⊎ ((m : Mapped) × IsFrom path mapping m
        × IsLongest path mapping m
        × (map_sources path mapping none ≡ some m))

EndsFirst-taken :
    (path s t : String) (mapping : Dict String)
    → map_source path s t none ≡ some (replaced path s t)
    → starts_with path s ≡ true
    → Ends path mapping (replaced path s t)
    → EndsFirst path ((s, t) ∷ mapping)
unfolding map_sources
EndsFirst-taken path s t mapping h starts (m', e, ge, from, longest) = inr (
  m',
  IsFrom-replaced path s t mapping m' starts from,
  IsLongest-cons path s t mapping m' (λ _. ge) longest,
  ap (map_sources path mapping) h ∙ e,
)

EndsFirst-kept :
    (path s t : String) (mapping : Dict String)
    → map_source path s t none ≡ none
    → starts_with path s ≡ false
    → EndsFirst path mapping
    → EndsFirst path ((s, t) ∷ mapping)
unfolding map_sources
EndsFirst-kept path s t mapping h apart (inl (others, e)) = inl (
  λ s' t' held. elim held [
    | inl (same, _) ↦ sym (ap (starts_with path) same) ∙ apart
    | inr held' ↦ others s' t' held'
  ],
  ap (map_sources path mapping) h ∙ e,
)
EndsFirst-kept path s t mapping h apart (inr (m, (target, held, starts, e'), longest, e)) = inr (
  m,
  (target, inr held, starts, e'),
  IsLongest-cons path s t mapping m (λ starts'. absurd (ground arith)) longest,
  ap (map_sources path mapping) h ∙ e,
)

map_sources-none : (path : String) (mapping : Dict String) → EndsFirst path mapping
unfolding map_source map_sources
map_sources-none path [] = inl (λ s t h. absurd h, refl)
map_sources-none path ((s, t) ∷ mapping) = elim (Bool-cases (starts_with path s)) [
  | inl starts ↦
      EndsFirst-taken path s t mapping (rw starts refl) starts
        (map_sources-some path mapping (replaced path s t))
  | inr apart ↦
      EndsFirst-kept path s t mapping (rw apart refl) apart (map_sources-none path mapping)
]

-- If the path starts with no source of the mapping, it is returned. Otherwise a source of the mapping
-- that is as long as any other one that the path starts with is replaced by its target, and the path
-- itself is returned where that gives the empty text.
pub get_mapped_path-IsLongest :
    (path : String) (mapping : Dict String)
    → (((s t : String) → IsMapping mapping s t → starts_with path s ≡ false)
        × (get_mapped_path mapping path ≡ path))
      ⊎ ((m : Mapped) × IsFrom path mapping m
          × IsLongest path mapping m
          × (get_mapped_path mapping path ≡ (if m.path == "" then path else m.path)))
unfolding get_mapped_path
get_mapped_path-IsLongest path mapping = elim (map_sources-none path mapping) [
  | inl (others, e) ↦ inl (others, ap (mapped_or path) e)
  | inr (m, from, longest, e) ↦ inr (m, from, longest, ap (mapped_or path) e)
]
