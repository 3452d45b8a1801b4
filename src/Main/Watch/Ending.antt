-- ===== src/Main/Watch/Ending.antt =====
-- ddb/__main__.py, `handle_watch`: the watch ends when it is stopped.
use docker_devbox_ddb.Prelude.{ℕ, Bool, true, false, List, ok}
use docker_devbox_ddb.Prelude.Exec.{Exec, for_each, modify, ◌>>◌}
use docker_devbox_ddb.Main.Watch.{Watching, Watchers, Waited, mark_started, set_watching}

module _ {A W X : Type 0} (watchers : Watchers A (Watching W) X) (waits : ℕ → Waited) where
  -- What a watch that ends does to its watchers and to the context
  abbrev pub whole_watch : List A → Exec (Watching W) X Bool
  whole_watch supports s =
      (for_each watchers.start_watching supports
          >> (modify (λ t. set_watching watchers waits false (mark_started watchers waits t))
              >> (for_each watchers.stop_watching supports
                  >> (for_each watchers.join_watching supports >> (λ t. (t, ok true))))))
        s
