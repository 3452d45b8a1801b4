-- ===== src/Render/Bound.antt =====
-- ddb/action/action.py, `AbstractTemplateAction.execute`: how often a template is rendered.
use docker_devbox_ddb.Prelude.{
  ℕ, zero, suc, ◌+◌, ◌-◌, ◌≤◌, String, not, ◌||◌, Option, none, some, ◌==◌, ltb, if◌then◌else◌,
  Result, ok, err, ◌≡◌, refl, ap, arith, Bool-cases, inl, inr,
}
use docker_devbox_ddb.Prelude.Exec.{Exec}
use docker_devbox_ddb.Render.{Host, attempt, retry, rescue, execute_from, execute}

module _ {S X : Type 0} (host : Host S X) where
  -- A number that grows by at most one with each attempt, and not by the repair of a template
  pub record Counts (count : S → ℕ) : Type 0 where
    pub at_attempt :
        (template target original : String) (s : S)
        → count (attempt host template target original s).0 ≤ suc (count s)
    pub at_autofix :
        (template target original : String) (x : X) (s : S)
        → count (host.autofix_render_error template target original x s).0 ≤ count s

  retry-le :
      (count : S → ℕ) (x : X) (again : String → Exec S X Unit) (s : S)
      (r : Result X (Option String)) (n : ℕ)
      → count s ≤ n
      → ((t : String) → count (again t s).0 ≤ n)
      → count (retry host x again (s, r)).0 ≤ n
  retry-le count x again s (ok none) n h k = h
  retry-le count x again s (ok (some t)) n h k = elim (Bool-cases (t == "")) [
    | inl empty ↦ rw empty h
    | inr full ↦ rw full (k t)
  ]
  retry-le count x again s (err y) n h k = elim (Bool-cases (host.is_exception y)) [
    | inl logged ↦ rw logged h
    | inr exit ↦ rw exit h
  ]

  rescue-le :
      (count : S → ℕ)
      → Counts count
      → (retries : ℕ) (template target original : String) (again : String → Exec S X Unit) (s : S)
      → (r : Result X (Unit {0})) (n : ℕ) → count s ≤ n
      → (retries ≤ 50 → (t : String) (u : S) → count u ≤ count s → count (again t u).0 ≤ n)
      → count (rescue host retries template target original again (s, r)).0 ≤ n
  rescue-le count c retries template target original again s (ok u) n h k = h
  rescue-le count c retries template target original again s (err x) n h k =
      elim (Bool-cases (not (host.is_exception x) || ltb 50 retries)) [
        | inl raised ↦ rw raised h
        | inr fixed ↦
            let fewer : retries ≤ 50 = ground arith in
            let s' = host.autofix_render_error template target original x s in
            let kept : count s'.0 ≤ count s = c.at_autofix template target original x s in
            rw fixed (retry-le count x again s'.0 s'.1 n (omega arith) (λ t. k fewer t s'.0 kept))
      ]

  execute_from-le :
      (count : S → ℕ)
      → Counts count
      → (fuel retries : ℕ) (original target template : String) (s : S) → retries ≤ 51
      → count (execute_from host fuel retries original target template s).0
        ≤ count s + (52 - retries)
  unfolding execute_from
  execute_from-le count c zero retries original target template s h = omega arith
  execute_from-le count c (suc fuel) retries original target template s h =
      elim (Bool-cases (host.is_config_file s target)) [
        | inl config ↦ rw config (omega arith)
        | inr other ↦
            let s' = attempt host template target original s in
            let one : count s'.0 ≤ suc (count s) = c.at_attempt template target original s in
            rw other (
              rescue-le count c retries template target original
                (execute_from host fuel (suc retries) original target) s'.0 s'.1
                (count s + (52 - retries)) (omega arith)
                (λ few t u le.
                  let next =
                    execute_from-le count c fuel (suc retries) original target t u (omega arith) in
                  omega arith))
      ]

  -- Executing a template makes at most 52 attempts to render it, however deep the stack may grow.
  pub execute-le :
      (count : S → ℕ)
      → Counts count
      → (fuel : ℕ) (template target : String) (s : S)
      → count (execute host fuel template target s).0 ≤ count s + 52
  unfolding execute
  execute-le count c fuel template target s =
      execute_from-le count c fuel 0 template target template s (omega arith)

  rescue-congr :
      (retries : ℕ) (template target original : String) (f g : String → Exec S X Unit)
      → (retries ≤ 50 → (t : String) (u : S) → f t u ≡ g t u)
      → (s : S) (r : Result X (Unit {0}))
      → rescue host retries template target original f (s, r)
        ≡ rescue host retries template target original g (s, r)
  rescue-congr retries template target original f g h s (ok u) = refl
  rescue-congr retries template target original f g h s (err x) =
      elim (Bool-cases (not (host.is_exception x) || ltb 50 retries)) [
        | inl raised ↦ rw raised refl
        | inr fixed ↦
            let fewer : retries ≤ 50 = ground arith in
            rw fixed (
              retry-congr (host.autofix_render_error template target original x s).0
                (host.autofix_render_error template target original x s).1 (h fewer))
      ]
    where
      retry-congr :
          (u : S) (o : Result X (Option String))
          → ((t : String) (v : S) → f t v ≡ g t v)
          → retry host x f (u, o) ≡ retry host x g (u, o)
      retry-congr u (ok none) k = refl
      retry-congr u (ok (some t)) k =
          ap (λ (q : S × Result X (Unit {0})). if t == "" then (u, err x) else q) (k t u)
      retry-congr u (err y) k = refl

  execute_from-fuel :
      (fuel fuel' retries : ℕ) (original target template : String) (s : S)
      → 52 ≤ retries + fuel
      → 52 ≤ retries + fuel'
      → retries ≤ 51
      → execute_from host fuel retries original target template s
        ≡ execute_from host fuel' retries original target template s
  unfolding execute_from
  execute_from-fuel zero fuel' retries original target template s h h' k = absurd (omega arith)
  execute_from-fuel (suc fuel) zero retries original target template s h h' k = absurd (omega arith)
  execute_from-fuel (suc fuel) (suc fuel') retries original target template s h h' k =
      ap (λ (q : S × Result X (Unit {0})). if host.is_config_file s target then (s, ok tt) else q)
        (rescue-congr retries template target original
          (execute_from host fuel (suc retries) original target)
          (execute_from host fuel' (suc retries) original target)
          (λ few t u.
            execute_from-fuel fuel fuel' (suc retries) original target t u (omega arith)
              (omega arith) (omega arith))
          (attempt host template target original s).0 (attempt host template target original s).1)

  -- With a stack of 52 calls the execution ends as with any deeper one.
  pub execute-fuel :
      (fuel : ℕ) (template target : String) (s : S)
      → 52 ≤ fuel
      → execute host fuel template target s ≡ execute host 52 template target s
  unfolding execute
  execute-fuel fuel template target s h =
      execute_from-fuel fuel 52 0 template target template s (omega arith) (omega arith)
        (omega arith)
