-- ===== src/Prelude/Lists.antt =====
-- Lists as Python uses them: `in`, `remove`, `reversed`, filters, over the native numbers.
use Prim.Native.Nat.{ℕ, suc, ◌+◌}
use mathlib.Core.Path.{◌≡◌, sym, refl, ap}
use mathlib.Core.Logic.{◌≢◌, inl, inr}
use mathlib.Core.Bool.{Bool, true, false, ◌||◌}
use mathlib.Core.Option.{Option, none, some}
use mathlib.Core.HLevel.{⊥_prop}
use mathlib.Core.Logic.Or
use mathlib.Core.List.{List, [], ◌∷◌, ◌++◌, Perm, Mem, not-mem-nil, mem-cons}
use mathlib.Core.List.Perm
use native.Mathlib.Omega.{arith}
use docker_devbox_ddb.Prelude.Tests.{Eq, Bool-cases, Option-cases, if◌then◌else◌}

module _ {ℓ} {A : Type ℓ} where
  abbrev pub length : List A → ℕ
  length [] = 0
  length (x ∷ xs) = suc (length xs)

  pub length-append : (xs ys : List A) → length (xs ++ ys) ≡ length xs + length ys
  length-append [] ys = omega arith
  length-append (x ∷ xs) ys = omega (arith, length-append xs ys)

  -- `[x for x in xs if p(x)]`
  unfoldable pub select : (A → Bool) → List A → List A
  select p [] = []
  select p (x ∷ xs) = if p x then x ∷ select p xs else select p xs

  abbrev pub is_empty : List A → Bool
  is_empty [] = true
  is_empty (x ∷ xs) = false

-- `xs[-1]`
unfoldable pub last? {ℓ} : {A : Type ℓ} → List A → Option A
last? [] = none
last? (x ∷ []) = some x
last? (x ∷ y ∷ xs) = last? (y ∷ xs)

-- `xs.pop()` of a list that is not empty, and an empty list as it is
unfoldable pub drop_last {ℓ} : {A : Type ℓ} → List A → List A
drop_last [] = []
drop_last (x ∷ []) = []
drop_last (x ∷ y ∷ xs) = x ∷ drop_last (y ∷ xs)

pub last?-snoc {ℓ} : {A : Type ℓ} (xs : List A) (x : A) → last? (xs ++ x ∷ []) ≡ some x
unfolding last?
last?-snoc [] x = refl
last?-snoc (y ∷ []) x = refl
last?-snoc (y ∷ z ∷ xs) x = last?-snoc (z ∷ xs) x

pub drop_last-snoc {ℓ} : {A : Type ℓ} (xs : List A) (x : A) → drop_last (xs ++ x ∷ []) ≡ xs
unfolding drop_last
drop_last-snoc [] x = refl
drop_last-snoc (y ∷ []) x = refl
drop_last-snoc (y ∷ z ∷ xs) x = ap (◌∷◌ y) (drop_last-snoc (z ∷ xs) x)

-- A predicate on every element, by recursion: the tactics read it as a tuple.
abbrev pub All {ℓ κ} : {A : Type ℓ} → (A → Type κ) → List A → Type κ
All P [] = Unit
All P (x ∷ xs) = P x × All P xs

pub All-append {ℓ κ} :
    {A : Type ℓ} (P : A → Type κ) (xs ys : List A) → All P xs → All P ys → All P (xs ++ ys)
All-append P [] ys hx hy = hy
All-append P (x ∷ xs) ys hx hy = (hx.0, All-append P xs ys hx.1 hy)

module _ {ℓ} {A : Type ℓ} ⦃e : Eq A⦄ where
  -- `a in xs`
  unfoldable pub contains : List A → A → Bool
  contains [] a = false
  contains (x ∷ xs) a = e.beq x a || contains xs a

  -- `xs.remove(a)`, with `none` for its `ValueError`
  unfoldable pub remove? : A → List A → Option (List A)
  remove? a [] = none
  remove? a (x ∷ xs) =
      if e.beq x a then some xs else elim (remove? a xs) [ none ↦ none | some ys ↦ some (x ∷ ys) ]

  pub remove?-perm : (a : A) (xs ys : List A) → remove? a xs ≡ some ys → Perm xs (a ∷ ys)
  unfolding remove?
  remove?-perm a [] ys h = cc
  remove?-perm a (x ∷ xs) ys h = elim (Bool-cases (e.beq x a)) [
    | inl same ↦
        let here : xs ≡ ys = ground arith in
        Perm.cons' ((e.beq_iff x a).0 same) (rw here (Perm.refl ys))
    | inr other ↦ elim (Option-cases (remove? a xs)) [
      | inl absent ↦ ground arith
      | inr (zs, found) ↦
          let there : x ∷ zs ≡ ys = ground arith in
          rw (← there) (Perm.trans (Perm.cons x (remove?-perm a xs zs found)) (Perm.swap a x zs))
    ]
  ]

  pub contains-remove? :
      (a : A) (xs : List A) → contains xs a ≡ true → (ys : List A) × (remove? a xs ≡ some ys)
  unfolding remove? contains
  contains-remove? a [] h = cc
  contains-remove? a (x ∷ xs) h = elim (Bool-cases (e.beq x a)) [
    | inl same ↦ (xs, rw same)
    | inr other ↦
        let (ys, found) = contains-remove? a xs (ground arith) in (x ∷ ys, rw (other, found))
  ]

  pub mem-remove?-ne_none : (a : A) (xs : List A) → Mem a xs → remove? a xs ≢ none
  unfolding remove?
  mem-remove?-ne_none a [] m h = not-mem-nil m
  mem-remove?-ne_none a (x ∷ xs) m h =
      Or.elim ⊥_prop (mem-cons.0 m) (λ same. ground (arith, (e.beq_iff x a).1 (sym same)))
        (λ there. mem-remove?-ne_none a xs there (ground arith))

  pub remove?-snoc :
      (l : A) (xs : List A) → contains xs l ≡ false → remove? l (xs ++ l ∷ []) ≡ some xs
  unfolding remove? contains
  remove?-snoc l [] h = ground (arith, (e.beq_iff l l).1 refl)
  remove?-snoc l (x ∷ xs) h = ground (arith, remove?-snoc l xs)
