-- ===== src/Prelude/Sorting.antt =====
-- Python's `sorted(xs, key=...)`: a stable sort, by insertion.
use mathlib.Core.Path.{◌≡◌, refl, ap, ◌∙◌}
use mathlib.Core.Bool.{Bool, true, false}
use mathlib.Core.List.{List, [], ◌∷◌, Perm}
use mathlib.Core.List.Perm
use native.Mathlib.Omega.{arith}
use docker_devbox_ddb.Prelude.Tests.{if◌then◌else◌, Bool-cases}
use docker_devbox_ddb.Prelude.Lists.{select, All}
use mathlib.Core.Logic.{inl, inr}

-- A total preorder on keys, as a test
pub record KeyOrder (K : Type 0) : Type 0 where
  pub le : K → K → Bool
  pub total : (a b : K) → le a b ≡ false → le b a ≡ true
  pub trans : (a b c : K) → le a b ≡ true → le b c ≡ true → le a c ≡ true

module _ {A K : Type 0} (order : KeyOrder K) (key : A → K) where
  -- In front of the first element with a key that is not less
  unfoldable pub insert_by : A → List A → List A
  insert_by x [] = x ∷ []
  insert_by x (y ∷ ys) = if order.le (key x) (key y) then x ∷ y ∷ ys else y ∷ insert_by x ys

  unfoldable pub sort_by : List A → List A
  unfolding insert_by
  sort_by [] = []
  sort_by (x ∷ xs) = insert_by x (sort_by xs)

  -- Each key is at most every later one.
  abbrev pub IsSortedBy : List A → Type 0
  IsSortedBy [] = Unit
  IsSortedBy (x ∷ xs) = All (λ y. order.le (key x) (key y) ≡ true) xs × IsSortedBy xs

  pub insert_by-perm : (x : A) (xs : List A) → Perm (insert_by x xs) (x ∷ xs)
  unfolding insert_by
  insert_by-perm x [] = Perm.refl _
  insert_by-perm x (y ∷ ys) = elim (Bool-cases (order.le (key x) (key y))) [
    | inl le ↦ rw le (Perm.refl _)
    | inr gt ↦ rw gt (Perm.trans (Perm.cons y (insert_by-perm x ys)) (Perm.swap x y ys))
  ]

  pub sort_by-perm : (xs : List A) → Perm (sort_by xs) xs
  unfolding sort_by
  sort_by-perm [] = Perm.refl _
  sort_by-perm (x ∷ xs) = Perm.trans (insert_by-perm x (sort_by xs)) (Perm.cons x (sort_by-perm xs))

  All-insert_by : (P : A → Type 0) (x : A) (xs : List A) → P x → All P xs → All P (insert_by x xs)
  unfolding insert_by
  All-insert_by P x [] px ps = (px, tt)
  All-insert_by P x (y ∷ ys) px ps = elim (Bool-cases (order.le (key x) (key y))) [
    | inl le ↦ rw le (px, ps)
    | inr gt ↦ rw gt (ps.0, All-insert_by P x ys px ps.1)
  ]

  All-le_trans :
      (a b : K) (xs : List A)
      → order.le a b ≡ true
      → All (λ y. order.le b (key y) ≡ true) xs
      → All (λ y. order.le a (key y) ≡ true) xs
  All-le_trans a b [] h p = tt
  All-le_trans a b (x ∷ xs) h p = (order.trans a b (key x) h p.0, All-le_trans a b xs h p.1)

  insert_by-IsSortedBy : (x : A) (xs : List A) → IsSortedBy xs → IsSortedBy (insert_by x xs)
  unfolding insert_by
  insert_by-IsSortedBy x [] s = (tt, tt)
  insert_by-IsSortedBy x (y ∷ ys) s = elim (Bool-cases (order.le (key x) (key y))) [
    | inl le ↦ rw le ((le, All-le_trans (key x) (key y) ys le s.0), s)
    | inr gt ↦ rw gt (
      All-insert_by (λ z. order.le (key y) (key z) ≡ true) x ys (order.total (key x) (key y) gt)
          s.0,
      insert_by-IsSortedBy x ys s.1,
    )
  ]

  pub sort_by-IsSortedBy : (xs : List A) → IsSortedBy (sort_by xs)
  unfolding sort_by
  sort_by-IsSortedBy [] = tt
  sort_by-IsSortedBy (x ∷ xs) = insert_by-IsSortedBy x (sort_by xs) (sort_by-IsSortedBy xs)

  -- Elements that are chosen by a test whose elements all have keys that are as small as each
  -- other's keep their order.
  abbrev pub AreTied : (A → Bool) → Type 0
  AreTied test = (x y : A) → test x ≡ true → test y ≡ true → order.le (key x) (key y) ≡ true

  select-insert_by :
      (test : A → Bool)
      → AreTied test
      → (x : A) (xs : List A) → select test (insert_by x xs) ≡ select test (x ∷ xs)
  unfolding insert_by select
  select-insert_by test tied x [] = refl
  select-insert_by test tied x (y ∷ ys) = elim (Bool-cases (order.le (key x) (key y))) [
    | inl le ↦ rw le refl
    | inr gt ↦ elim (Bool-cases (test y)) [
      | inr out ↦ rw (gt, out) (select-insert_by test tied x ys)
      | inl there ↦ elim (Bool-cases (test x)) [
        | inl both ↦
            absurd (let e : order.le (key x) (key y) ≡ true = tied x y both there in ground arith)
        | inr out ↦ rw (gt, there, out) (ap (◌∷◌ y) (select-insert_by test tied x ys ∙ rw out refl))
      ]
    ]
  ]

  pub select-sort_by :
      (test : A → Bool) → AreTied test → (xs : List A) → select test (sort_by xs) ≡ select test xs
  unfolding sort_by select
  select-sort_by test tied [] = refl
  select-sort_by test tied (x ∷ xs) =
      select-insert_by test tied x (sort_by xs)
      ∙ ap (λ l. if test x then x ∷ l else l) (select-sort_by test tied xs)

  pub All-sort_by : (P : A → Type 0) (xs : List A) → All P xs → All P (sort_by xs)
  unfolding sort_by
  All-sort_by P [] p = tt
  All-sort_by P (x ∷ xs) p = All-insert_by P x (sort_by xs) p.0 (All-sort_by P xs p.1)

  All-uninserted : (P : A → Type 0) (x : A) (ys : List A) → All P (insert_by x ys) → P x × All P ys
  unfolding insert_by
  All-uninserted P x [] p = p
  All-uninserted P x (y ∷ ys) p = split (order.le (key x) (key y)) (All-uninserted P x ys) p
    where
      split :
          (b : Bool)
          → (All P (insert_by x ys) → P x × All P ys)
          → All P (if b then x ∷ y ∷ ys else y ∷ insert_by x ys)
          → P x × (P y × All P ys)
      split true ih q = q
      split false ih q = let r = ih q.1 in (r.0, (q.0, r.1))

  pub All-unsorted : (P : A → Type 0) (xs : List A) → All P (sort_by xs) → All P xs
  unfolding sort_by
  All-unsorted P [] p = tt
  All-unsorted P (x ∷ xs) p =
      let q = All-uninserted P x (sort_by xs) p in (q.0, All-unsorted P xs q.1)

  All-select : (P : A → Type 0) (test : A → Bool) (xs : List A) → All P xs → All P (select test xs)
  unfolding select
  All-select P test [] p = tt
  All-select P test (x ∷ xs) p = elim (Bool-cases (test x)) [
    | inl here ↦ rw here (p.0, All-select P test xs p.1)
    | inr out ↦ rw out (All-select P test xs p.1)
  ]

  pub select-IsSortedBy :
      (test : A → Bool) (xs : List A) → IsSortedBy xs → IsSortedBy (select test xs)
  unfolding select
  select-IsSortedBy test [] s = tt
  select-IsSortedBy test (x ∷ xs) s = elim (Bool-cases (test x)) [
    | inl here ↦ rw here (
      All-select (λ y. order.le (key x) (key y) ≡ true) test xs s.0,
      select-IsSortedBy test xs s.1,
    )
    | inr out ↦ rw out (select-IsSortedBy test xs s.1)
  ]

  pub le_refl : (a : K) → order.le a a ≡ true
  le_refl a = elim (Bool-cases (order.le a a)) [ inl le ↦ le | inr gt ↦ order.total a a gt ]
