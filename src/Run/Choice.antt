-- ===== src/Run/Choice.antt =====
-- ddb/feature/run/actions.py, `select_binary`: which binary of a name is run.
use mathlib.Core.Path.{subst}
use docker_devbox_ddb.Prelude.{
  String, Bool, true, false, Option, none, some, List, [], ◌∷◌, Result, ok, err, select, length,
  leb, ◌≡◌, ◌≢◌, refl, arith, All,
}
use docker_devbox_ddb.Prelude.Sorting.{
  sort_by, IsSortedBy, sort_by-IsSortedBy, All-unsorted, All-sort_by,
}
use docker_devbox_ddb.Run.{
  Binary, Evaluator, docker, default, binary_lt, rank, nat_order, is_default, should_run,
  sorted_binaries, pick, first_running, select_binary,
}

-- The key orders as the comparison does.
not_less : (b c : Binary) → leb (rank b) (rank c) ≡ true → binary_lt c b ≢ true
unfolding rank binary_lt
not_less (docker b) (docker c) h k = ground arith
not_less (docker b) (default name command) h k = ground arith
not_less (default name command) (docker c) h k = ground arith
not_less (default name command) (default n w) h k = ground arith

irreflexive : (b : Binary) → binary_lt b b ≢ true
irreflexive b = not_less b b (let r : rank b ≡ rank b = refl in ground arith)

module _ {X : Type 0} (evaluator : Evaluator X) where
  -- What a choice says: the binary that is chosen should run, and none that is less should.
  abbrev pub IsFirst : List String → List Binary → Option Binary → Type 0
  IsFirst args binaries none = All (λ b. should_run evaluator args b ≡ ok false) binaries
  IsFirst args binaries (some chosen) =
      (should_run evaluator args chosen ≡ ok true)
      × All (λ b. binary_lt b chosen ≡ true → should_run evaluator args b ≡ ok false) binaries

  pick-IsFirst :
      (args : List String) (b : Binary) (bs : List Binary) (rest : Result X (Option Binary))
      (r : Result X Bool)
      → (chosen : Option Binary) → should_run evaluator args b ≡ r
      → All (λ c. leb (rank b) (rank c) ≡ true) bs
      → (rest ≡ ok chosen → IsFirst args bs chosen)
      → pick evaluator b rest r ≡ ok chosen
      → IsFirst args (b ∷ bs) chosen
  pick-IsFirst args b bs rest (err x) chosen e s ih h = absurd (ground (arith, h))
  pick-IsFirst args b bs rest (ok false) none e s ih h = (e, ih h)
  pick-IsFirst args b bs rest (ok false) (some c) e s ih h = let f = ih h in (f.0, ((λ _. e), f.1))
  pick-IsFirst args b bs rest (ok true) none e s ih h = absurd (ground (arith, h))
  pick-IsFirst args b bs rest (ok true) (some c) e s ih h =
      let same : some b ≡ some c = ground (arith, h) in
      let first : IsFirst args (b ∷ bs) (some b) =
        (e, ((λ k. absurd (irreflexive b k)), least bs s)) in
      subst (λ o. IsFirst args (b ∷ bs) o) same first
    where
      least :
          (cs : List Binary)
          → All (λ c. leb (rank b) (rank c) ≡ true) cs
          → All (λ c. binary_lt c b ≡ true → should_run evaluator args c ≡ ok false) cs
      least [] t = tt
      least (c ∷ cs) t = ((λ k. absurd (not_less b c t.0 k)), least cs t.1)

  first_running-IsFirst :
      (args : List String) (binaries : List Binary) (chosen : Option Binary)
      → IsSortedBy nat_order rank binaries
      → first_running evaluator args binaries ≡ ok chosen
      → IsFirst args binaries chosen
  unfolding first_running
  first_running-IsFirst args [] none s h = tt
  first_running-IsFirst args [] (some b) s h = absurd (ground (arith, h))
  first_running-IsFirst args (b ∷ bs) chosen s h =
      pick-IsFirst args b bs (first_running evaluator args bs) (should_run evaluator args b) chosen
        refl s.0 (λ k. first_running-IsFirst args bs chosen s.1 k) h

  unsorted-IsFirst :
      (args : List String) (binaries : List Binary) (chosen : Option Binary)
      → IsFirst args (sort_by nat_order rank binaries) chosen
      → IsFirst args binaries chosen
  unsorted-IsFirst args binaries none f = All-unsorted nat_order rank _ binaries f
  unsorted-IsFirst args binaries (some c) f = (f.0, All-unsorted nat_order rank _ binaries f.1)

  -- The condition, if there is one, is evaluated without an exception.
  abbrev pub IsEvaluated : List String → Binary → Type 0
  IsEvaluated args b = (v : Bool) × (should_run evaluator args b ≡ ok v)

  first_running-returns :
      (args : List String) (binaries : List Binary)
      → All (IsEvaluated args) binaries
      → (chosen : Option Binary) × (first_running evaluator args binaries ≡ ok chosen)
  unfolding first_running
  first_running-returns args [] e = (none, refl)
  first_running-returns args (b ∷ bs) ((true, runs), e) = (some b, rw runs refl)
  first_running-returns args (b ∷ bs) ((false, not_run), e) =
      let rest = first_running-returns args bs e in (rest.0, rw not_run rest.1)

  -- When at most one binary of the set is a default one and every condition is evaluated, a choice is made, and it
  -- is right: the chosen binary should run, and none that is less should, where those with a condition are less
  -- than the docker binaries without, and these less than a default one; without a chosen binary none should run.
  pub select_binary-IsFirst :
      (binaries : List Binary) (args : List String)
      → leb (length (select is_default binaries)) 1 ≡ true
      → All (IsEvaluated args) binaries
      → (chosen : Option Binary) × (select_binary evaluator binaries args ≡ ok chosen)
        × IsFirst args binaries chosen
  unfolding select_binary sorted_binaries
  select_binary-IsFirst binaries args d e =
      let sorted = sort_by nat_order rank binaries in
      let answer =
        first_running-returns args sorted
          (All-sort_by nat_order rank (IsEvaluated args) binaries e) in
      (
        answer.0,
        rw d answer.1,
        unsorted-IsFirst args binaries answer.0 (
            first_running-IsFirst args sorted answer.0 (sort_by-IsSortedBy nat_order rank binaries)
              answer.1),
      )
