-- ===== src/Prelude/Exec.antt =====
-- Calls that change a state and may raise: the state is kept when an exception passes.
use mathlib.Core.Path.{◌≡◌, refl, sym, ap, ◌∙◌}
use mathlib.Core.List.{List, [], ◌∷◌, ◌++◌}
use docker_devbox_ddb.Prelude.Outcome.{Result, ok, err}

abbrev pub Exec : Type 0 → Type 0 → Type 0 → Type 0
Exec S E A = S → S × Result E A

module _ {S E : Type 0} where
  abbrev pub pure : {A : Type 0} → A → Exec S E A
  pure a s = (s, ok a)

  abbrev pub raise : {A : Type 0} → E → Exec S E A
  raise x s = (s, err x)

  abbrev pub modify : (S → S) → Exec S E (Unit {0})
  modify f s = (f s, ok tt)

  -- What follows a call: the rest of the block, or nothing after an exception.
  abbrev pub and_then : {A B : Type 0} → Result E A → (A → Exec S E B) → Exec S E B
  and_then (ok a) f s = f a s
  and_then (err x) f s = (s, err x)

  infixl 5 ◌>>=◌ ◌>>◌
  abbrev pub ◌>>=◌ : {A B : Type 0} → Exec S E A → (A → Exec S E B) → Exec S E B
  ◌>>=◌ m f s = let (s', r) = m s in and_then r f s'

  abbrev pub ◌>>◌ : {B : Type 0} → Exec S E (Unit {0}) → Exec S E B → Exec S E B
  ◌>>◌ m k s = let (s', r) = m s in and_then r (λ _. k) s'

  -- `try: m finally: cleanup`, for a cleanup that does not raise
  abbrev pub try_finally : {A : Type 0} → Exec S E A → (S → S) → Exec S E A
  try_finally m cleanup s = let (s', r) = m s in (cleanup s', r)

  -- `for a in xs: f(a)`; the first exception ends the loop.
  unfoldable pub for_each : {A : Type 0} → (A → Exec S E (Unit {0})) → List A → Exec S E (Unit {0})
  for_each f [] s = (s, ok tt)
  for_each f (x ∷ xs) s = let (s', r) = f x s in and_then r (λ _. for_each f xs) s'

  pub for_each-append :
      {A : Type 0} (f : A → Exec S E (Unit {0})) (xs ys : List A) (s : S)
      → for_each f (xs ++ ys) s ≡ ◌>>◌ (for_each f xs) (for_each f ys) s
  unfolding for_each
  for_each-append f [] ys s = refl
  for_each-append f (x ∷ xs) ys s = go (for_each-append f xs ys) (f x s).0 (f x s).1
    where
      go :
          ((t : S) → for_each f (xs ++ ys) t ≡ ◌>>◌ (for_each f xs) (for_each f ys) t)
          → (s' : S) (r : Result E (Unit {0}))
          → and_then r (λ _. for_each f (xs ++ ys)) s'
            ≡ ◌>>◌ (λ _. and_then r (λ _. for_each f xs) s') (for_each f ys) s'
      go ih s' (ok u) = ih s'
      go ih s' (err x) = refl

  pub seq_assoc :
      {B : Type 0} (m n : Exec S E (Unit {0})) (k : Exec S E B) (s : S)
      → ◌>>◌ (◌>>◌ m n) k s ≡ ◌>>◌ m (◌>>◌ n k) s
  seq_assoc m n k s = go (m s).0 (m s).1
    where
      go :
          (s' : S) (r : Result E (Unit {0}))
          → ◌>>◌ (λ _. and_then r (λ _. n) s') k s ≡ and_then r (λ _. ◌>>◌ n k) s'
      go s' (ok u) = refl
      go s' (err x) = refl

  -- Two calls that agree on every state may stand behind the same call.
  pub seq_congr :
      {B : Type 0} (m : Exec S E (Unit {0})) (n k : Exec S E B)
      → ((t : S) → n t ≡ k t)
      → (s : S) → ◌>>◌ m n s ≡ ◌>>◌ m k s
  seq_congr m n k h s = go (m s).0 (m s).1
    where
      go : (s' : S) (r : Result E (Unit {0})) → and_then r (λ _. n) s' ≡ and_then r (λ _. k) s'
      go s' (ok u) = h s'
      go s' (err x) = refl

  pub seq_congr_left :
      {B : Type 0} (m n : Exec S E (Unit {0})) (k : Exec S E B)
      → ((t : S) → m t ≡ n t)
      → (s : S) → ◌>>◌ m k s ≡ ◌>>◌ n k s
  seq_congr_left m n k h s = ap (λ (q : S × Result E (Unit {0})). and_then q.1 (λ _. k) q.0) (h s)

  pub seq_done : (m : Exec S E (Unit {0})) (s : S) → ◌>>◌ m (λ t. (t, ok tt)) s ≡ m s
  seq_done m s = go (m s).0 (m s).1
    where
      go :
          (s' : S) (r : Result E (Unit {0}))
          → and_then {B = Unit {0}} r (λ _ t. (t, ok tt)) s' ≡ (s', r)
      go s' (ok u) = refl
      go s' (err x) = refl

  -- A loop of one round
  pub for_each-single :
      {A : Type 0} (f : A → Exec S E (Unit {0})) (x : A) (s : S) → for_each f (x ∷ []) s ≡ f x s
  unfolding for_each
  for_each-single f x s = seq_done (f x) s

  pub seq_assoc_middle :
      (b f r p : Exec S E (Unit {0})) (s : S)
      → ◌>>◌ (◌>>◌ b (◌>>◌ f r)) p s ≡ ◌>>◌ (◌>>◌ b f) (◌>>◌ r p) s
  seq_assoc_middle b f r p s =
      seq_assoc b (◌>>◌ f r) p s
      ∙ seq_congr b (◌>>◌ (◌>>◌ f r) p) (◌>>◌ f (◌>>◌ r p)) (seq_assoc f r p) s
      ∙ sym (seq_assoc b f (◌>>◌ r p) s)
