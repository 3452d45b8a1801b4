-- ===== src/Ports/Free.antt =====
-- ddb/feature/jsonnet/docker.py: the loop that looks for a free number ends.
use docker_devbox_ddb.Prelude.{
  ℕ, zero, suc, ◌+◌, ◌≤◌, ◌<◌, String, Bool, true, false, ◌&&◌, Option, none, some, [], ◌∷◌, length,
  ok, leb, nat_eq, if◌then◌else◌, ◌≡◌, ◌⊎◌, refl, sym, ap, ◌∙◌, arith, Bool-cases, inl, inr,
}
use docker_devbox_ddb.Ports.{Used, same_protocol, is_used, next_free}

abbrev at_least : ℕ → Option ℕ → Bool
at_least n none = false
at_least n (some m) = leb n m

-- How many numbers of a protocol are used from a number on
abbrev above : Option String → ℕ → Used → ℕ
above p n [] = 0
above p n ((q, m) ∷ used) =
    if same_protocol p q && at_least n m then suc (above p n used) else above p n used

above-le : (p : Option String) (n : ℕ) (used : Used) → above p n used ≤ length used
above-le p n [] = omega arith
above-le p n ((q, m) ∷ used) = ground (arith, above-le p n used)

above-suc : (p : Option String) (n : ℕ) (used : Used) → above p (suc n) used ≤ above p n used
above-suc p n [] = omega arith
above-suc p n ((q, none) ∷ used) = ground (arith, above-suc p n used)
above-suc p n ((q, some m) ∷ used) = ground (arith, above-suc p n used)

above-used :
    (p : Option String) (n : ℕ) (used : Used)
    → is_used p (some n) used ≡ true
    → above p (suc n) used < above p n used
unfolding is_used
above-used p n [] h = absurd (ground arith)
above-used p n ((q, none) ∷ used) h = ground (arith, above-used p n used)
above-used p n ((q, some m) ∷ used) h = ground (arith, above-used p n used, above-suc p n used)

-- A number that is found, for all that is used from the start on
abbrev pub IsFree : Option String → ℕ → ℕ → Used → ℕ → Type 0
IsFree p n m used k =
    (is_used p (some m) used ≡ false)
    × (n ≤ m)
    × (m ≤ n + above p n used)
    × ((is_used p (some k) used ≡ true) ⊎ (m ≤ k))

skip-IsFree :
    (p : Option String) (n m k k' : ℕ) (used : Used)
    → is_used p (some n) used ≡ true
    → n ≤ k
    → (suc n ≤ k → k' ≡ k)
    → IsFree p (suc n) m used k'
    → IsFree p n m used k
skip-IsFree p n m k k' used u b same (free, lower, upper, first) = (
  free,
  omega (arith, lower),
  (let fewer = above-used p n used u in omega arith),
  elim (Bool-cases (nat_eq n k)) [
    | inl here ↦ inl (let e : n ≡ k = ground arith in ap (λ j. is_used p (some j) used) (sym e) ∙ u)
    | inr later ↦
        let e : k' ≡ k = same (ground arith) in
        elim first [
          | inl taken ↦ inl (ap (λ j. is_used p (some j) used) (sym e) ∙ taken)
          | inr le ↦ inr (omega arith)
        ]
  ],
)

search-IsFree :
    (fuel : ℕ) (p : Option String) (n : ℕ) (used : Used) (k : ℕ)
    → above p n used < fuel
    → n ≤ k
    → (m : ℕ) × (next_free fuel p (some n) used ≡ ok (some m)) × IsFree p n m used k
unfolding next_free
search-IsFree zero p n used k h b = absurd (omega arith)
search-IsFree (suc fuel) p n used k h b = elim (Bool-cases (is_used p (some n) used)) [
  | inr free ↦ (n, rw free refl, (free, omega arith, omega arith, inr b))
  | inl taken ↦
      let fewer = above-used p n used taken in
      elim (Bool-cases (nat_eq n k)) [
        | inl here ↦
            let e : n ≡ k = ground arith in
            let (m, found, free) =
              search-IsFree fuel p (suc n) used (suc n) (omega arith) (omega arith) in
            (
              m,
              rw taken found,
              skip-IsFree p n m k (suc n) used taken b (λ l. absurd (omega arith)) free,
            )
        | inr later ↦
            let (m, found, free) =
              search-IsFree fuel p (suc n) used k (omega arith) (ground arith) in
            (m, rw taken found, skip-IsFree p n m k k used taken b (λ l. refl) free)
      ]
]

-- With more fuel than numbers are used, the loop ends with a number that is free, is not less than the one it
-- starts from, and exceeds it by at most as many as are used; every number in between is used.
pub next_free-IsFree :
    (fuel : ℕ) (p : Option String) (n : ℕ) (used : Used) (k : ℕ)
    → length used < fuel
    → n ≤ k
    → (m : ℕ) × (next_free fuel p (some n) used ≡ ok (some m))
      × (is_used p (some m) used ≡ false)
      × (n ≤ m)
      × (m ≤ n + length used)
      × ((is_used p (some k) used ≡ true) ⊎ (m ≤ k))
next_free-IsFree fuel p n used k h b =
    let total = above-le p n used in
    let (m, found, (free, lower, upper, first)) = search-IsFree fuel p n used k (omega arith) b in
    (m, found, free, lower, omega arith, first)
