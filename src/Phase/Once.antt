-- ===== src/Phase/Once.antt =====
-- ddb/phase/phase.py: a phase that runs once, in one process and in the next.
use Prim.Native.String.{◌++◌}
use docker_devbox_ddb.Prelude.{
  true, false, Result, ok, err, ◌≡◌, refl, sym, ap, ◌∙◌, Bool-cases, inl, inr, arith,
}
use docker_devbox_ddb.Prelude.Exec.{and_then}
use docker_devbox_ddb.Dict.{lookup-insert_self}
use docker_devbox_ddb.Cache.{set, flush}
use docker_devbox_ddb.Bus.{Bus, Calls, emit}
use docker_devbox_ddb.Phase.{App, Phase, runned_cache_key, was_run, mark_run, execute}

module _ {W : Type 0} where
  -- A new process reads from the file what was last written there.
  abbrev pub restart : App W → App W
  restart s = record s { cache = record { entries = s.cache.synced; synced = s.cache.synced } }

  mark_run-was_run : (p : Phase) (s : App W) → was_run p (mark_run p s) ≡ true
  unfolding was_run mark_run set flush
  mark_run-was_run p s = rw (lookup-insert_self (runned_cache_key p) true s.cache.entries) refl

  restart-was_run : (p : Phase) (s : App W) → was_run p (restart (mark_run p s)) ≡ true
  unfolding was_run mark_run set flush
  restart-was_run p s = rw (lookup-insert_self (runned_cache_key p) true s.cache.entries) refl

module _ {L W E : Type 0} (calls : Calls L Unit (App W) E) (bus : Bus L) where
  pub execute-skips :
      (p : Phase) (s : App W)
      → p.run_once ≡ true
      → was_run p s ≡ true
      → execute calls bus p s ≡ (s, ok tt)
  unfolding execute
  execute-skips p s once done = rw (once, done) refl

  ends_marked :
      (p : Phase) (s t : App W) (r : Result E Unit)
      → and_then r (λ (_ : Unit) (u : App W). (mark_run p u, ok tt)) s ≡ (t, ok tt)
      → t ≡ mark_run p s
  ends_marked p s t (ok u) h = sym (ap (λ (q : App W × Result E Unit). q.0) h)
  ends_marked p s t (err x) h = absurd (ground arith)

  execute-runs :
      (p : Phase) (s : App W)
      → was_run p s ≡ false
      → execute calls bus p s ≡ (
          let (s', r) = emit calls bus ("phase:" ++ p.name) tt s in
          and_then r (λ (_ : Unit) (u : App W). (mark_run p u, ok tt)) s')
  unfolding execute
  execute-runs p s fresh = elim (Bool-cases p.run_once) [
    | inl once ↦ rw (once, fresh) refl
    | inr always ↦ rw always refl
  ]

  -- A phase that was not run before and that ends without exception, ends with its mark set.
  execute-mark_run :
      (p : Phase) (s t : App W)
      → was_run p s ≡ false
      → execute calls bus p s ≡ (t, ok tt)
      → (s' : App W) × (t ≡ mark_run p s')
  execute-mark_run p s t fresh h =
      let (s', r) = emit calls bus ("phase:" ++ p.name) tt s in
      (s', ends_marked p s' t r (sym (execute-runs p s fresh) ∙ h))

  -- When a phase that runs once was not run before and ends without exception, executing it again
  -- calls no listener and changes nothing, in the same process and in one that reads the cache anew.
  pub execute_once :
      (p : Phase) (s t : App W)
      → p.run_once ≡ true
      → was_run p s ≡ false
      → execute calls bus p s ≡ (t, ok tt)
      → (execute calls bus p t ≡ (t, ok tt))
        × (execute calls bus p (restart t) ≡ (restart t, ok tt))
  execute_once p s t once fresh h =
      let (s', e) = execute-mark_run p s t fresh h in
      (
        execute-skips p t once (ap (was_run p) e ∙ mark_run-was_run p s'),
        execute-skips p (restart t) once
            (ap (λ (u : App W). was_run p (restart u)) e ∙ restart-was_run p s'),
      )

  -- A phase whose listeners raise is not marked: it ends in the state where they raised, with their
  -- exception.
  pub execute_raises :
      (p : Phase) (s t : App W) (x : E)
      → was_run p s ≡ false
      → emit calls bus ("phase:" ++ p.name) tt s ≡ (t, err x)
      → execute calls bus p s ≡ (t, err x)
  execute_raises p s t x fresh h =
      execute-runs p s fresh
      ∙ ap
          (λ (q : App W × Result E Unit).
            and_then q.1 (λ (_ : Unit) (u : App W). (mark_run p u, ok tt)) q.0)
          h
