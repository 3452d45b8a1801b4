-- ===== src/Command/Lineage.antt =====
-- ddb/command/command.py: a command executes its own hook, then its parents', and then the phases,
-- those of the furthest parent first.
use docker_devbox_ddb.Prelude.{
  ℕ, zero, suc, ◌≤◌, List, [], ◌∷◌, ◌++◌, reverse, length, ok, ◌≡◌, refl, sym, ap, ◌∙◌, arith,
}
use mathlib.Core.List.{reverse-append}
use docker_devbox_ddb.Prelude.Exec.{
  Exec, for_each, for_each-append, for_each-single, seq_done, seq_congr, seq_congr_left,
  seq_assoc_middle, ◌>>◌,
}
use docker_devbox_ddb.Dict.{Dict}
use docker_devbox_ddb.Phase.{App}
use docker_devbox_ddb.Command.{
  Command, alone, child_of, resolve, parent_of, Program, run_before, run_phases, execute,
}

-- A command and its parents, up to one without a parent
pub data Lineage (commands : Dict Command) : Command → List Command → Type 0 where
  root : (c : Command) → resolve commands (parent_of c) ≡ alone → Lineage commands c (c ∷ [])
  child :
      (c p : Command) (ancestors : List Command)
      → resolve commands (parent_of c) ≡ child_of p
      → Lineage commands p ancestors
      → Lineage commands c (c ∷ ancestors)

module _ {W E : Type 0} (program : Program W E) (commands : Dict Command) where
  -- All hooks from the command up, and then all phases from the furthest parent down
  abbrev pub in_order : List Command → Exec (App W) E Unit
  in_order lineage =
      for_each (run_before program commands) lineage
      >> for_each (run_phases program commands) (reverse lineage)

  in_order-root :
      (c : Command) (s : App W)
      → in_order (c ∷ []) s ≡ ◌>>◌ (run_before program commands c) (run_phases program commands c) s
  in_order-root c s =
      seq_congr_left (for_each (run_before program commands) (c ∷ []))
        (run_before program commands c) (for_each (run_phases program commands) (c ∷ []))
        (for_each-single (run_before program commands) c) s
      ∙ seq_congr (run_before program commands c) (for_each (run_phases program commands) (c ∷ []))
          (run_phases program commands c) (for_each-single (run_phases program commands) c) s

  in_order-child :
      (c : Command) (ancestors : List Command) (s : App W)
      → in_order (c ∷ ancestors) s
        ≡ ◌>>◌
            (◌>>◌ (run_before program commands c) (in_order ancestors))
            (run_phases program commands c)
            s
  unfolding for_each
  in_order-child c ancestors s =
      ap
        (λ (l : List Command).
          ◌>>◌ (for_each (run_before program commands) (c ∷ ancestors))
            (for_each (run_phases program commands) l) s)
        (reverse-append (c ∷ []) ancestors)
      ∙ seq_congr (for_each (run_before program commands) (c ∷ ancestors))
          (for_each (run_phases program commands) (reverse ancestors ++ c ∷ []))
          (◌>>◌ (for_each (run_phases program commands) (reverse ancestors))
            (run_phases program commands c))
          (λ t.
            for_each-append (run_phases program commands) (reverse ancestors) (c ∷ []) t
            ∙ seq_congr (for_each (run_phases program commands) (reverse ancestors))
                (for_each (run_phases program commands) (c ∷ [])) (run_phases program commands c)
                (for_each-single (run_phases program commands) c) t)
          s
      ∙ sym (
          seq_assoc_middle (run_before program commands c)
            (for_each (run_before program commands) ancestors)
            (for_each (run_phases program commands) (reverse ancestors))
            (run_phases program commands c) s)

  execute-root :
      (fuel : ℕ) (c : Command) (s : App W)
      → resolve commands (parent_of c) ≡ alone
      → execute program commands (suc fuel) c s
        ≡ ◌>>◌ (run_before program commands c) (run_phases program commands c) s
  unfolding execute
  execute-root fuel c s h = rw h (
      seq_congr_left (◌>>◌ (run_before program commands c) (λ t. (t, ok tt)))
        (run_before program commands c) (run_phases program commands c)
        (seq_done (run_before program commands c)) s)

  execute-child :
      (fuel : ℕ) (c p : Command) (s : App W)
      → resolve commands (parent_of c) ≡ child_of p
      → execute program commands (suc fuel) c s
        ≡ ◌>>◌
            (◌>>◌ (run_before program commands c) (execute program commands fuel p))
            (run_phases program commands c)
            s
  unfolding execute
  execute-child fuel c p s h = rw h refl

  -- With fuel for each command of the lineage, executing a command runs all hooks from the command
  -- up to its furthest parent, and then the phases of all of them, the furthest parent's first; the
  -- first exception ends it.
  pub execute-in_order :
      (c : Command) (lineage : List Command) (fuel : ℕ)
      → Lineage commands c lineage
      → length lineage ≤ fuel
      → (s : App W) → execute program commands fuel c s ≡ in_order lineage s
  execute-in_order c lineage zero (root _ h) l s = absurd (omega arith)
  execute-in_order c lineage zero (child _ p ancestors h lin) l s = absurd (omega arith)
  execute-in_order c lineage (suc fuel) (root _ h) l s =
      execute-root fuel c s h ∙ sym (in_order-root c s)
  execute-in_order c lineage (suc fuel) (child _ p ancestors h lin) l s =
      execute-child fuel c p s h
      ∙ seq_congr_left (◌>>◌ (run_before program commands c) (execute program commands fuel p))
          (◌>>◌ (run_before program commands c) (in_order ancestors))
          (run_phases program commands c)
          (seq_congr (run_before program commands c) (execute program commands fuel p)
            (in_order ancestors) (execute-in_order p ancestors fuel lin (omega arith)))
          s
      ∙ sym (in_order-child c ancestors s)
