-- ===== src/Config/Merger/Insert.antt =====
-- ddb/config/merger.py, `strategy_insert`: where the items of the list land.
use docker_devbox_ddb.Prelude.{
  ℕ, zero, suc, ◌+◌, ◌≤◌, List, [], ◌∷◌, ◌++◌, length, reverse, ◌≡◌, refl, sym, ap, ◌∙◌, arith,
  append_assoc, append-nil,
}
use mathlib.Core.List.{reverse-append}
use docker_devbox_ddb.Config.Value.{ℤ, pos}
use docker_devbox_ddb.Config.Merger.{position, insert_at, insert_each, insert_from}

module _ {ℓ} {A : Type ℓ} where
  -- `base[:n] + nxt + base[n:]`
  unfoldable pub splice : ℕ → List A → List A → List A
  splice n nxt [] = nxt
  splice zero nxt (x ∷ base) = nxt ++ x ∷ base
  splice (suc n) nxt (x ∷ base) = x ∷ splice n nxt base

  insert_each-append :
      (idx : ℤ) (xs : List A) (x : A) (ret : List A)
      → insert_each idx (xs ++ x ∷ []) ret
        ≡ insert_at (position idx (insert_each idx xs ret)) x (insert_each idx xs ret)
  unfolding insert_each
  insert_each-append idx [] x ret = refl
  insert_each-append idx (y ∷ xs) x ret =
      insert_each-append idx xs x (insert_at (position idx ret) y ret)

  insert_at-splice :
      (n : ℕ) (x : A) (xs base : List A)
      → n ≤ length base
      → insert_at n x (splice n xs base) ≡ splice n (x ∷ xs) base
  unfolding insert_at splice
  insert_at-splice zero x [] [] h = refl
  insert_at-splice zero x (y ∷ xs) [] h = refl
  insert_at-splice (suc n) x xs [] h = absurd (omega arith)
  insert_at-splice zero x [] (b ∷ base) h = refl
  insert_at-splice zero x (y ∷ xs) (b ∷ base) h = refl
  insert_at-splice (suc n) x xs (b ∷ base) h =
      ap (◌∷◌ b) (insert_at-splice n x xs base (omega arith))

  splice-nil : (n : ℕ) (base : List A) → splice n [] base ≡ base
  unfolding splice
  splice-nil n [] = refl
  splice-nil zero (x ∷ base) = refl
  splice-nil (suc n) (x ∷ base) = ap (◌∷◌ x) (splice-nil n base)

  -- With an index that is not negative and not past the end of the list, the items stand together
  -- at that index, in their order.
  pub insert_from-pos :
      (n : ℕ) (nxt base : List A)
      → n ≤ length base
      → insert_from (pos n) nxt base ≡ splice n nxt base
  unfolding insert_from position
  insert_from-pos n [] base h = unfold insert_each in sym (splice-nil n base)
  insert_from-pos n (x ∷ nxt) base h =
      ap (λ (l : List A). insert_each (pos n) l base) (reverse-append (x ∷ []) nxt)
      ∙ insert_each-append (pos n) (reverse nxt) x base
      ∙ ap (insert_at n x) (insert_from-pos n nxt base h)
      ∙ insert_at-splice n x nxt base h

  insert_at-end :
      (n : ℕ) (x : A) (base : List A) → length base ≤ n → insert_at n x base ≡ base ++ x ∷ []
  unfolding insert_at
  insert_at-end n x [] h = refl
  insert_at-end zero x (b ∷ base) h = absurd (omega arith)
  insert_at-end (suc n) x (b ∷ base) h = ap (◌∷◌ b) (insert_at-end n x base (omega arith))

  length-snoc : (base : List A) (x : A) → length (base ++ x ∷ []) ≡ suc (length base)
  length-snoc [] x = refl
  length-snoc (b ∷ base) x = ap suc (length-snoc base x)

  insert_each-end :
      (n : ℕ) (xs base : List A)
      → length base + length xs ≤ n
      → insert_each (pos n) xs base ≡ base ++ xs
  unfolding insert_each position
  insert_each-end n [] base h = sym (append-nil base)
  insert_each-end n (x ∷ xs) base h =
      ap (insert_each (pos n) xs) (insert_at-end n x base (omega arith))
      ∙ insert_each-end n xs (base ++ x ∷ []) (omega (arith, length-snoc base x))
      ∙ append_assoc base (x ∷ []) xs

  length-reverse : (xs : List A) → length (reverse xs) ≡ length xs
  length-reverse [] = refl
  length-reverse (x ∷ xs) =
      ap (λ (l : List A). length l) (reverse-append (x ∷ []) xs)
      ∙ length-snoc (reverse xs) x
      ∙ ap suc (length-reverse xs)

  -- With an index far enough past the end of the list, the items follow the list in reverse.
  pub insert_from-far :
      (n : ℕ) (nxt base : List A)
      → length base + length nxt ≤ n
      → insert_from (pos n) nxt base ≡ base ++ reverse nxt
  unfolding insert_from
  insert_from-far n nxt base h =
      insert_each-end n (reverse nxt) base (omega (arith, length-reverse nxt))
